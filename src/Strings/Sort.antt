-- ===== src/Strings/Sort.antt =====
-- sort.Strings: ascending by bytes, as an insertion sort.
use easy_sftp.Prelude.{
  ℕ, ◌==◌, ltb, ◌≡◌, refl, ap, Bool, true, false, if◌then◌else◌, List, [], ◌∷◌, ◌++◌, Bytes, All,
  Bool-cases, inl, inr, arith,
}

-- s < t for Go strings
abbrev pub lt_bytes : Bytes → Bytes → Bool
lt_bytes [] [] = false
lt_bytes [] (y ∷ t) = true
lt_bytes (x ∷ s) [] = false
lt_bytes (x ∷ s) (y ∷ t) = if ltb x y then true else (if x == y then lt_bytes s t else false)

unfoldable pub insert_string : Bytes → List Bytes → List Bytes
insert_string s [] = s ∷ []
insert_string s (t ∷ ts) = if lt_bytes t s then t ∷ insert_string s ts else s ∷ t ∷ ts

unfoldable pub sort_strings : List Bytes → List Bytes
unfolding insert_string
sort_strings [] = []
sort_strings (s ∷ ss) = insert_string s (sort_strings ss)

-- A proper beginning comes first.
pub lt_bytes-append : (s : Bytes) (c : ℕ) (t : Bytes) → lt_bytes s (s ++ c ∷ t) ≡ true
lt_bytes-append [] c t = refl
lt_bytes-append (x ∷ s) c t = ground (arith, lt_bytes-append s c t)

-- What comes behind all others is put last.
pub insert_string_last :
    (s : Bytes) (ts : List Bytes)
    → All (λ t. lt_bytes t s ≡ true) ts
    → insert_string s ts ≡ ts ++ s ∷ []
unfolding insert_string
insert_string_last s [] h = refl
insert_string_last s (t ∷ ts) h = rw h.0 (ap (◌∷◌ t) (insert_string_last s ts h.1))

module _ (P : Bytes → Type 0) where
  -- What holds of all the strings holds of all of them sorted.
  insert_string-All : (s : Bytes) (ts : List Bytes) → P s → All P ts → All P (insert_string s ts)
  unfolding insert_string
  insert_string-All s [] h hs = (h, tt)
  insert_string-All s (t ∷ ts) h hs = elim (Bool-cases (lt_bytes t s)) [
    | inl less ↦ rw less (hs.0, insert_string-All s ts h hs.1)
    | inr more ↦ rw more (h, hs)
  ]

  pub sort_strings-All : (ts : List Bytes) → All P ts → All P (sort_strings ts)
  unfolding sort_strings
  sort_strings-All [] h = tt
  sort_strings-All (t ∷ ts) h = insert_string-All t (sort_strings ts) h.0 (sort_strings-All ts h.1)
