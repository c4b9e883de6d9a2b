-- ===== src/HostKeys/Algorithms/Offered.antt =====
-- Which algorithms are asked for: the supported ones of the key types that known-hosts lists, each once.
use easy_sftp.Prelude.{
  ◌≡◌, refl, sym, subst, ap, ◌∙◌, Bool, true, false, if◌then◌else◌, codes, ◌&&◌, ◌||◌, List, [],
  ◌∷◌, ◌++◌, Bytes, eq_bytes, eq_bytes_refl, eq_bytes_sound, some, arith, Bool-cases, inl, inr,
}
use easy_sftp.HostKeys.Algorithms.{
  algorithms_for_key_type, has_name, add_algo, offer, offer_all, pinned_host_key_algorithms,
}

has_name-append :
    (names : List Bytes) (a q : Bytes)
    → has_name (names ++ a ∷ []) q ≡ (has_name names q || eq_bytes a q)
has_name-append [] a q = ground arith
has_name-append (b ∷ names) a q = ground (arith, has_name-append names a q)

add_algo_self :
    (supported algos : List Bytes) (q : Bytes)
    → has_name (add_algo supported algos q) q ≡ (has_name algos q || has_name supported q)
add_algo_self supported algos q = ground (arith, has_name-append algos q q, eq_bytes_refl q)

add_algo_lem :
    (supported algos : List Bytes) (a q : Bytes)
    → has_name (add_algo supported algos a) q
      ≡ (has_name algos q || (has_name supported q && eq_bytes a q))
add_algo_lem supported algos a q = elim (Bool-cases (eq_bytes a q)) [
  | inr other ↦ ground (arith, has_name-append algos a q)
  | inl same ↦
      let e : a ≡ q = eq_bytes_sound a q same in
      rw e (ground (arith, add_algo_self supported algos q, eq_bytes_refl q))
]

offer_lem :
    (supported algos types : List Bytes) (q : Bytes)
    → has_name (offer supported algos types) q
      ≡ (has_name algos q || (has_name supported q && has_name types q))
unfolding offer
offer_lem supported algos [] q = ground arith
offer_lem supported algos (a ∷ types) q =
    offer_lem supported (add_algo supported algos a) types q
    ∙ regroup (has_name (add_algo supported algos a) q) (has_name algos q) (has_name supported q)
        (eq_bytes a q) (has_name types q) (add_algo_lem supported algos a q)
  where
    regroup :
        (added old known here later : Bool)
        → added ≡ (old || (known && here))
        → (added || (known && later)) ≡ (old || (known && (here || later)))
    regroup added old known here later e = ground arith

-- The key types that sign under other names than their own, each with one of those names: an RSA key only
-- signs with SHA-2, an ECDSA or Ed25519 key also goes by its certificate.
abbrev pub signature_names : List (Bytes × Bytes)
signature_names =
    (codes "ssh-rsa", codes "rsa-sha2-256-cert-v01@openssh.com")
    ∷ (codes "ssh-rsa", codes "rsa-sha2-512-cert-v01@openssh.com")
    ∷ (codes "ssh-rsa", codes "rsa-sha2-256")
    ∷ (codes "ssh-rsa", codes "rsa-sha2-512")
    ∷ (codes "ssh-rsa-cert-v01@openssh.com", codes "rsa-sha2-256-cert-v01@openssh.com")
    ∷ (codes "ssh-rsa-cert-v01@openssh.com", codes "rsa-sha2-512-cert-v01@openssh.com")
    ∷ (codes "ssh-rsa-cert-v01@openssh.com", codes "rsa-sha2-256")
    ∷ (codes "ssh-rsa-cert-v01@openssh.com", codes "rsa-sha2-512")
    ∷ (codes "ecdsa-sha2-nistp256", codes "ecdsa-sha2-nistp256-cert-v01@openssh.com")
    ∷ (codes "ecdsa-sha2-nistp256", codes "ecdsa-sha2-nistp256")
    ∷ (codes "ecdsa-sha2-nistp384", codes "ecdsa-sha2-nistp384-cert-v01@openssh.com")
    ∷ (codes "ecdsa-sha2-nistp384", codes "ecdsa-sha2-nistp384")
    ∷ (codes "ecdsa-sha2-nistp521", codes "ecdsa-sha2-nistp521-cert-v01@openssh.com")
    ∷ (codes "ecdsa-sha2-nistp521", codes "ecdsa-sha2-nistp521")
    ∷ (codes "ssh-ed25519", codes "ssh-ed25519-cert-v01@openssh.com")
    ∷ (codes "ssh-ed25519", codes "ssh-ed25519")
    ∷ []

-- A row of the table has both texts.
abbrev pub has_row : List (Bytes × Bytes) → Bytes → Bytes → Bool
has_row [] t q = false
has_row ((k, a) ∷ rows) t q = (eq_bytes t k && eq_bytes a q) || has_row rows t q

-- A row of the table is about the key type.
abbrev pub has_type : List (Bytes × Bytes) → Bytes → Bool
has_type [] t = false
has_type ((k, a) ∷ rows) t = eq_bytes t k || has_type rows t

-- The key type signs under the name: by the table, or under its own name where the table is silent.
abbrev pub signs_as : Bytes → Bytes → Bool
signs_as t q = if has_type signature_names t then has_row signature_names t q else eq_bytes t q

-- A key type of the list signs under the name.
abbrev pub is_offered_by : List Bytes → Bytes → Bool
is_offered_by [] q = false
is_offered_by (t ∷ types) q = signs_as t q || is_offered_by types q

abbrev Agrees : Bytes → Bytes → Type 0
Agrees t q = has_name (algorithms_for_key_type t) q ≡ signs_as t q

at_type : (k q : Bytes) → Agrees k q → (t : Bytes) → eq_bytes t k ≡ true → Agrees t q
at_type k q h t same = subst (λ u. Agrees u q) (sym (eq_bytes_sound t k same)) h

or_false : (b : Bool) → (b || false) ≡ b
or_false b = ground arith

has_name-algorithms_for_key_type : (t q : Bytes) → Agrees t q
unfolding algorithms_for_key_type
has_name-algorithms_for_key_type t q = elim (Bool-cases (eq_bytes t (codes "ssh-rsa"))) [
  | inl rsa ↦ at_type (codes "ssh-rsa") q refl t rsa
  | inr h1 ↦ elim (Bool-cases (eq_bytes t (codes "ssh-rsa-cert-v01@openssh.com"))) [
    | inl cert ↦ at_type (codes "ssh-rsa-cert-v01@openssh.com") q refl t cert
    | inr h2 ↦ elim (Bool-cases (eq_bytes t (codes "ecdsa-sha2-nistp256"))) [
      | inl p256 ↦ at_type (codes "ecdsa-sha2-nistp256") q refl t p256
      | inr h3 ↦ elim (Bool-cases (eq_bytes t (codes "ecdsa-sha2-nistp384"))) [
        | inl p384 ↦ at_type (codes "ecdsa-sha2-nistp384") q refl t p384
        | inr h4 ↦ elim (Bool-cases (eq_bytes t (codes "ecdsa-sha2-nistp521"))) [
          | inl p521 ↦ at_type (codes "ecdsa-sha2-nistp521") q refl t p521
          | inr h5 ↦ elim (Bool-cases (eq_bytes t (codes "ssh-ed25519"))) [
            | inl ed ↦ at_type (codes "ssh-ed25519") q refl t ed
            | inr h6 ↦ rw (h1, h2, h3, h4, h5, h6) (or_false (eq_bytes t q))
          ]
        ]
      ]
    ]
  ]
]

offer_all_lem :
    (supported algos types : List Bytes) (q : Bytes)
    → has_name (offer_all supported algos types) q
      ≡ (has_name algos q || (has_name supported q && is_offered_by types q))
unfolding offer_all
offer_all_lem supported algos [] q = ground arith
offer_all_lem supported algos (t ∷ types) q =
    offer_all_lem supported (offer supported algos (algorithms_for_key_type t)) types q
    ∙ regroup (has_name (offer supported algos (algorithms_for_key_type t)) q) (has_name algos q)
        (has_name supported q) (has_name (algorithms_for_key_type t) q) (signs_as t q)
        (is_offered_by types q) (offer_lem supported algos (algorithms_for_key_type t) q)
        (has_name-algorithms_for_key_type t q)
  where
    regroup :
        (added old known named signs later : Bool)
        → added ≡ (old || (known && named))
        → named ≡ signs
        → (added || (known && later)) ≡ (old || (known && (signs || later)))
    regroup added old known named signs later e f = ground arith

-- The names are all different.
abbrev pub NoRepeats : List Bytes → Type 0
NoRepeats [] = Unit
NoRepeats (a ∷ names) = (has_name names a ≡ false) × NoRepeats names

eq_bytes_sym : (s t : Bytes) → eq_bytes s t ≡ false → eq_bytes t s ≡ false
eq_bytes_sym s t h = elim (Bool-cases (eq_bytes t s)) [
  | inr other ↦ other
  | inl same ↦
      let e : t ≡ s = eq_bytes_sound t s same in
      absurd (clash (ap (λ (u : Bytes). eq_bytes s u) e ∙ eq_bytes_refl s) h)
]
  where
    clash : {b : Bool} → b ≡ true → b ≡ false → ⊥
    clash x y = cc

append-NoRepeats :
    (names : List Bytes) (a : Bytes)
    → NoRepeats names
    → has_name names a ≡ false
    → NoRepeats (names ++ a ∷ [])
append-NoRepeats [] a h new = (refl, tt)
append-NoRepeats (b ∷ names) a h new = (
  ground (arith, has_name-append names a b, eq_bytes_sym b a),
  append-NoRepeats names a h.1 (ground arith),
)

add_algo-NoRepeats :
    (supported algos : List Bytes) (a : Bytes)
    → NoRepeats algos
    → NoRepeats (add_algo supported algos a)
add_algo-NoRepeats supported algos a h = elim (Bool-cases (has_name supported a)) [
  | inr other ↦ rw other h
  | inl known ↦ elim (Bool-cases (has_name algos a)) [
    | inl old ↦ rw (known, old) h
    | inr new ↦ rw (known, new) (append-NoRepeats algos a h new)
  ]
]

offer-NoRepeats :
    (supported algos types : List Bytes) → NoRepeats algos → NoRepeats (offer supported algos types)
unfolding offer
offer-NoRepeats supported algos [] h = h
offer-NoRepeats supported algos (a ∷ types) h =
    offer-NoRepeats supported (add_algo supported algos a) types
      (add_algo-NoRepeats supported algos a h)

offer_all-NoRepeats :
    (supported algos types : List Bytes)
    → NoRepeats algos
    → NoRepeats (offer_all supported algos types)
unfolding offer_all
offer_all-NoRepeats supported algos [] h = h
offer_all-NoRepeats supported algos (t ∷ types) h =
    offer_all-NoRepeats supported (offer supported algos (algorithms_for_key_type t)) types
      (offer-NoRepeats supported algos (algorithms_for_key_type t) h)

-- With known-hosts lines and no fingerprint, pinnedHostKeyAlgorithms names exactly the supported
-- algorithms that a key type known for the host signs under, each of them once. ssh-rsa and its
-- certificate sign under the two names of RSA with SHA-2 and their certificates, the three ECDSA types
-- and ssh-ed25519 under their own name and their certificate's, and every other type under its own
-- name only.
pub pinned_host_key_algorithms_lem :
    (supported types : List Bytes) (q : Bytes)
    → (has_name (pinned_host_key_algorithms supported [] (some types)) q
        ≡ (has_name supported q && is_offered_by types q))
      × NoRepeats (pinned_host_key_algorithms supported [] (some types))
unfolding pinned_host_key_algorithms
pinned_host_key_algorithms_lem supported types q =
    (offer_all_lem supported [] types q, offer_all-NoRepeats supported [] types tt)
