-- ===== src/HostKeys/Policy/Accepts.antt =====
-- Which keys the callback of a hop accepts.
use easy_sftp.Prelude.{
  ◌≡◌, ◌↔◌, ◌⊎◌, inl, inr, refl, sym, subst, ◌≢◌, ap, ◌∙◌, Bool, true, false, List, [], ◌∷◌, Bytes,
  eq_bytes, eq_bytes_iff, eq_bytes_sound, Option, some, Result, ok, err, Any, Bool-cases,
  Option-cases,
}
use easy_sftp.HostKeys.Fingerprint.{FingerprintError, parse_host_key_fingerprint}
use easy_sftp.HostKeys.Policy.{
  HopKeys, KeyError, cons_pin, parse_all, Callback, is_pinned, by_pins, opened,
  known_hosts_callback, nothing_pinned, with_pins, host_key_callback,
}

clash : {b : Bool} → b ≡ true → b ≡ false → ⊥
clash t f = cc

ok_same : {E A : Type 0} {a b : A} → Path (Result E A) (ok a) (ok b) → a ≡ b
ok_same h = cc

some_same : {A : Type 0} {a b : A} → some a ≡ some b → a ≡ b
some_same h = cc

no_ok : {E A : Type 0} {e : E} {a : A} → Path (Result E A) (err e) (ok a) → ⊥
no_ok h = cc

module _ {Key : Type 0} (fingerprint : Key → Bytes)
    (read_known_hosts : Bytes → Option (Bytes → Key → Bool)) where
  -- A line stands for the key's fingerprint.
  abbrev pub IsPinnedBy : Key → List Bytes → Type 0
  IsPinnedBy key = Any (λ line. parse_host_key_fingerprint line ≡ ok (fingerprint key))

  -- The known-hosts lines hold the key for the host.
  abbrev pub IsKnown : Bytes → Key → Bytes → Type 0
  IsKnown host key lines =
      (known : Bytes → Key → Bool) × (lines ≢ [])
      × (read_known_hosts lines ≡ some known)
      × (known host key ≡ true)

  pinned_cons :
      {Line Lines : Type 0} (f : Bytes) (want : List Bytes) (key : Key)
      → (f ≡ fingerprint key) ↔ Line
      → (is_pinned fingerprint want key ≡ true) ↔ Lines
      → (is_pinned fingerprint (f ∷ want) key ≡ true) ↔ (Line ⊎ Lines)
  unfolding is_pinned
  pinned_cons f want key line lines = elim (Bool-cases (eq_bytes (fingerprint key) f)) [
    | inl here ↦
        rw (here, is_pinned)
          (λ h. inl (line.0 (sym (eq_bytes_sound (fingerprint key) f here))), λ h. refl)
    | inr away ↦
        rw (away, is_pinned)
          (
            λ h. inr (lines.0 h),
            λ d. elim d [
              | inl h ↦ absurd (clash ((eq_bytes_iff (fingerprint key) f).1 (sym (line.1 h))) away)
              | inr h ↦ lines.1 h
            ],
          )
  ]

  pins_step :
      {Lines : Type 0} (p : Result FingerprintError Bytes) (r : Result KeyError (List Bytes))
      (want : List Bytes) (key : Key)
      → cons_pin p r ≡ ok want
      → ((fs : List Bytes) → r ≡ ok fs → (is_pinned fingerprint fs key ≡ true) ↔ Lines)
      → (is_pinned fingerprint want key ≡ true) ↔ ((p ≡ ok (fingerprint key)) ⊎ Lines)
  pins_step {Lines} (err e) r want key h lines = absurd (no_ok h)
  pins_step {Lines} (ok f) (err e) want key h lines = absurd (no_ok h)
  pins_step {Lines} (ok f) (ok fs) want key h lines =
      subst
        (λ w.
          (is_pinned fingerprint w key ≡ true)
          ↔ (Path (Result FingerprintError Bytes) (ok f) (ok (fingerprint key)) ⊎ Lines))
        (ok_same h) (pinned_cons f fs key (λ e. ap ok e, ok_same) (lines fs refl))

  parsed_pins :
      (lines want : List Bytes) (key : Key)
      → parse_all lines ≡ ok want
      → (is_pinned fingerprint want key ≡ true) ↔ IsPinnedBy key lines
  unfolding parse_all is_pinned
  parsed_pins [] want key h =
      subst (λ w. (is_pinned fingerprint w key ≡ true) ↔ ⊥) (ok_same h) (λ e. cc, λ e. absurd e)
  parsed_pins (line ∷ lines) want key h =
      pins_step (parse_host_key_fingerprint line) (parse_all lines) want key h
        (λ fs same. parsed_pins lines fs key same)

  by_pins-IsKnown :
      (known : Callback Key) (lines : Bytes) (want : List Bytes) (host : Bytes) (key : Key)
      → lines ≢ []
      → read_known_hosts lines ≡ some known
      → (by_pins fingerprint want (some known) host key ≡ true)
        ↔ ((is_pinned fingerprint want key ≡ true) ⊎ IsKnown host key lines)
  by_pins-IsKnown known lines want host key ne found =
      elim (Bool-cases (is_pinned fingerprint want key)) [
        | inl pinned ↦ rw pinned (λ h. inl refl, λ h. refl)
        | inr unpinned ↦ rw unpinned (
          λ h. inr (known, ne, found, h),
          λ d. elim d [
            | inl h ↦ cc
            | inr (other, ne', found', h) ↦
                subst (λ (k : Callback Key). k host key ≡ true) (some_same (sym found' ∙ found)) h
          ],
        )
      ]

  -- What is known by lines that were read.
  IsKnown-accepts :
      (lines : Bytes) (known : Option (Callback Key)) (want : List Bytes) (host : Bytes) (key : Key)
      → known_hosts_callback read_known_hosts lines ≡ ok known
      → (by_pins fingerprint want known host key ≡ true)
        ↔ ((is_pinned fingerprint want key ≡ true) ⊎ IsKnown host key lines)
  IsKnown-accepts [] known want host key h =
      subst
        (λ k.
          (by_pins fingerprint want k host key ≡ true)
          ↔ ((is_pinned fingerprint want key ≡ true) ⊎ IsKnown host key []))
        (ok_same h) (λ p. inl p, λ d. elim d [ inl p ↦ p | inr (k, ne, f, t) ↦ absurd (ne refl) ])
  IsKnown-accepts (c ∷ lines) known want host key h =
      elim (Option-cases (read_known_hosts (c ∷ lines))) [
        | inl missing ↦ absurd (no_ok (rw (missing, opened) at h))
        | inr (check, found) ↦
            let same : some check ≡ known = ok_same (rw (found, opened) at h) in
            subst
              (λ k.
                (by_pins fingerprint want k host key ≡ true)
                ↔ ((is_pinned fingerprint want key ≡ true) ⊎ IsKnown host key (c ∷ lines)))
              same (by_pins-IsKnown check (c ∷ lines) want host key (λ e. cc) found)
      ]

  -- The keys that the settings of a hop name.
  abbrev pub IsTrusted : HopKeys → Bytes → Key → Type 0
  IsTrusted h host key = IsPinnedBy key h.fingerprints ⊎ IsKnown host key h.known_hosts

  pinned_accepts :
      (h : HopKeys) (want : Result KeyError (List Bytes))
      (known : Result KeyError (Option (Callback Key))) (callback : Callback Key) (host : Bytes)
      (key : Key)
      → want ≡ parse_all h.fingerprints
      → known ≡ known_hosts_callback read_known_hosts h.known_hosts
      → with_pins fingerprint want known ≡ ok callback
      → (callback host key ≡ true) ↔ IsTrusted h host key
  pinned_accepts h (err e) known callback host key a b c = absurd (no_ok c)
  pinned_accepts h (ok want) (err e) callback host key a b c = absurd (no_ok c)
  pinned_accepts h (ok want) (ok known) callback host key a b c =
      let pins = parsed_pins h.fingerprints want key (sym a) in
      let both = IsKnown-accepts h.known_hosts known want host key (sym b) in
      subst (λ (k : Callback Key). (k host key ≡ true) ↔ IsTrusted h host key) (ok_same c)
        (
          λ t. elim (both.0 t) [ inl p ↦ inl (pins.0 p) | inr k ↦ inr k ],
          λ d. both.1 (elim d [ inl p ↦ inl (pins.1 p) | inr k ↦ inr k ]),
        )

  nothing_trusted :
      (h : HopKeys) (host : Bytes) (key : Key)
      → nothing_pinned h ≡ true
      → (h.fingerprints ≡ []) × (h.known_hosts ≡ [])
  nothing_trusted h host key n = nothing h.fingerprints h.known_hosts n
    where
      nothing :
          (fs : List Bytes) (known : Bytes)
          → elim fs as (λ _. Bool) [ [] ↦ eq_bytes known [] | f ∷ rest ↦ false ] ≡ true
          → (fs ≡ []) × (known ≡ [])
      nothing [] known e = (refl, eq_bytes_sound known [] e)
      nothing (f ∷ rest) known e = cc

  -- Where hostKeyCallback gives a callback, it accepts a key exactly if a line of the pinned
  -- fingerprints stands for the key's fingerprint or the known-hosts lines hold the key for the host;
  -- or nothing is pinned and any host key is allowed explicitly.
  pub host_key_callback-accepts :
      (h : HopKeys) (callback : Callback Key) (host : Bytes) (key : Key)
      → host_key_callback fingerprint read_known_hosts h ≡ ok callback
      → ((callback host key ≡ true) ↔ IsTrusted h host key)
        ⊎ ((h.allow_any_host_key ≡ true) × (h.fingerprints ≡ []) × (h.known_hosts ≡ []))
  unfolding host_key_callback
  host_key_callback-accepts h callback host key e = elim (Bool-cases (nothing_pinned h)) [
    | inr pinned ↦ inl (
        pinned_accepts h (parse_all h.fingerprints)
          (known_hosts_callback read_known_hosts h.known_hosts) callback host key refl refl
          (rw (pinned, host_key_callback) at e))
    | inl free ↦ elim (Bool-cases h.allow_any_host_key) [
      | inl any ↦ let (a, b) = nothing_trusted h host key free in inr (any, a, b)
      | inr strict ↦ absurd (no_ok (rw (free, strict, host_key_callback) at e))
    ]
  ]
