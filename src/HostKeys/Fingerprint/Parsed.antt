-- ===== src/HostKeys/Fingerprint/Parsed.antt =====
-- What a line of fingerprints stands for: its only field that is one.
use easy_sftp.Prelude.{
  ℕ, ◌≢◌, ◌≡◌, ◌↔◌, refl, ap, true, false, List, [], ◌∷◌, ◌++◌, Bytes, Result, ok, err, All,
  Bool-cases, inl, inr, subst,
}
use easy_sftp.Strings.{fields}
use easy_sftp.HostKeys.Fingerprint.{
  FingerprintError, is_sha256, find_sha256, decide, parse_fields, parse_host_key_fingerprint,
}

-- No field is a fingerprint.
abbrev pub NoSha256 : List Bytes → Type 0
NoSha256 = All (λ f. is_sha256 f ≡ false)

-- The fields have one fingerprint.
abbrev pub IsOnly : List Bytes → Bytes → Type 0
IsOnly fs f =
    (before : List Bytes) × (after : List Bytes) × (fs ≡ before ++ f ∷ after)
    × (is_sha256 f ≡ true)
    × NoSha256 before
    × NoSha256 after

ok_injective : {f g : Bytes} → Path (Result FingerprintError Bytes) (ok f) (ok g) → f ≡ g
ok_injective h = cc

find_second :
    (c : ℕ) (found : Bytes) (fs : List Bytes) {f : Bytes}
    → find_sha256 (c ∷ found) fs ≡ ok f
    → (c ∷ found ≡ f) × NoSha256 fs
unfolding find_sha256
find_second c found [] h = (ok_injective h, tt)
find_second c found (g ∷ fs) {f} h = elim (Bool-cases (is_sha256 g)) [
  | inl again ↦ absurd (refused (rw (again, find_sha256) at h))
  | inr other ↦
      let rest : find_sha256 (c ∷ found) fs ≡ ok f = (rw (other, find_sha256) at h) in
      let (same, none_left) = find_second c found fs rest in (same, (other, none_left))
]
  where
    refused : {d : FingerprintError} → Path (Result FingerprintError Bytes) (err d) (ok f) → ⊥
    refused e = cc

find_second-NoSha256 :
    (c : ℕ) (found : Bytes) (fs : List Bytes)
    → NoSha256 fs
    → find_sha256 (c ∷ found) fs ≡ ok (c ∷ found)
unfolding find_sha256
find_second-NoSha256 c found [] h = refl
find_second-NoSha256 c found (g ∷ fs) h =
    rw (h.0, find_sha256) (find_second-NoSha256 c found fs h.1)

find_first :
    (fs : List Bytes) (c : ℕ) (found : Bytes)
    → find_sha256 [] fs ≡ ok (c ∷ found)
    → IsOnly fs (c ∷ found)
unfolding find_sha256
find_first [] c found h = absurd (nil_cons (ok_injective h))
  where
    nil_cons : Path Bytes [] (c ∷ found) → ⊥
    nil_cons e = cc
find_first ([] ∷ fs) c found h =
    let (before, after, e, is, clean, rest) = find_first fs c found h in
    ([] ∷ before, after, ap (◌∷◌ []) e, is, (refl, clean), rest)
find_first ((d ∷ g) ∷ fs) c found h = elim (Bool-cases (is_sha256 (d ∷ g))) [
  | inl yes_here ↦
      let (same, none_left) = find_second d g fs (rw (yes_here, find_sha256) at h) in
      (
        [],
        fs,
        ap (λ (x : Bytes). x ∷ fs) same,
        subst (λ x. is_sha256 x ≡ true) same yes_here,
        tt,
        none_left,
      )
  | inr other ↦
      let rest : find_sha256 [] fs ≡ ok (c ∷ found) = (rw (other, find_sha256) at h) in
      let (before, after, e, is, clean, tail) = find_first fs c found rest in
      ((d ∷ g) ∷ before, after, ap (◌∷◌ (d ∷ g)) e, is, (other, clean), tail)
]

find_only :
    (before after : List Bytes) (c : ℕ) (found : Bytes)
    → is_sha256 (c ∷ found) ≡ true
    → NoSha256 before
    → NoSha256 after
    → find_sha256 [] (before ++ (c ∷ found) ∷ after) ≡ ok (c ∷ found)
unfolding find_sha256
find_only [] after c found is h rest =
    rw (is, find_sha256) (find_second-NoSha256 c found after rest)
find_only (g ∷ before) after c found is h rest =
    rw (h.0, find_sha256) (find_only before after c found is h.1 rest)

decided :
    (fs : List Bytes) (r : Result FingerprintError Bytes) {f : Bytes}
    → decide fs r ≡ ok f
    → (r ≡ ok f) × (f ≢ [])
decided fs (err e) h = cc
decided fs (ok []) h = cc
decided fs (ok (c ∷ found)) h = (h, λ e. cc)

parsed_fields : (fs : List Bytes) (f : Bytes) → parse_fields fs ≡ ok f → IsOnly fs f
parsed_fields [] f h = cc
parsed_fields (g ∷ fs) [] h = absurd ((decided (g ∷ fs) (find_sha256 [] (g ∷ fs)) h).1 refl)
parsed_fields (g ∷ fs) (c ∷ found) h =
    find_first (g ∷ fs) c found (decided (g ∷ fs) (find_sha256 [] (g ∷ fs)) h).0

parse_split :
    (before after : List Bytes) (c : ℕ) (found : Bytes)
    → is_sha256 (c ∷ found) ≡ true
    → NoSha256 before
    → NoSha256 after
    → parse_fields (before ++ (c ∷ found) ∷ after) ≡ ok (c ∷ found)
parse_split [] after c found is h rest = rw (find_only [] after c found is h rest, decide) refl
parse_split (g ∷ before) after c found is h rest =
    rw (find_only (g ∷ before) after c found is h rest, decide) refl

parse_only : (fs : List Bytes) (f : Bytes) → IsOnly fs f → parse_fields fs ≡ ok f
parse_only fs [] (before, after, e, is, h, rest) = cc
parse_only fs (c ∷ found) (before, after, e, is, h, rest) =
    rw e (parse_split before after c found is h rest)

-- parseHostKeyFingerprint returns a text exactly if it is the one field of the line that begins with
-- SHA256 and a colon, and no other field does.
pub parse_host_key_fingerprint_iff :
    (line f : Bytes) → (parse_host_key_fingerprint line ≡ ok f) ↔ IsOnly (fields line) f
unfolding parse_host_key_fingerprint
parse_host_key_fingerprint_iff line f = (parsed_fields (fields line) f, parse_only (fields line) f)
