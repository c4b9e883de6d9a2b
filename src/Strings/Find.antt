-- ===== src/Strings/Find.antt =====
-- strings.HasPrefix and strings.LastIndex.
use easy_sftp.Prelude.{
  ℕ, suc, ◌+◌, ◌==◌, ◌≢◌, ◌≡◌, refl, ap, ◌∙◌, Bool, true, false, ◌&&◌, [], ◌∷◌, ◌++◌, Bytes, All,
  arith, Bool-cases, inl, inr, Option, none, some, Option-cases, take, drop, length, ==_iff, &&_iff,
  ap₂, if◌then◌else◌,
}

-- strings.HasPrefix(s, prefix)
abbrev pub has_prefix : Bytes → Bytes → Bool
has_prefix s [] = true
has_prefix [] (c ∷ prefix) = false
has_prefix (b ∷ s) (c ∷ prefix) = (b == c) && has_prefix s prefix

-- strings.LastIndex(s, sub)
unfoldable pub last_index : Bytes → Bytes → Option ℕ
last_index [] sub = if has_prefix [] sub then some 0 else none
last_index (c ∷ s) sub = elim (last_index s sub) [
  | some i ↦ some (suc i)
  | none ↦ if has_prefix (c ∷ s) sub then some 0 else none
]

pub has_prefix_split : (s sub : Bytes) → has_prefix s sub ≡ true → s ≡ sub ++ drop (length sub) s
has_prefix_split s [] h = refl
has_prefix_split [] (c ∷ sub) h = cc
has_prefix_split (b ∷ s) (c ∷ sub) h =
    let both = (&&_iff (b == c) (has_prefix s sub)).0 h in
    ap₂ ◌∷◌ ((==_iff b c).0 both.0) (has_prefix_split s sub both.1)

pub has_prefix-append : (sub rest : Bytes) → has_prefix (sub ++ rest) sub ≡ true
has_prefix-append [] rest = refl
has_prefix-append (c ∷ sub) rest = ground (arith, has_prefix-append sub rest)

-- What stands before a text moves its last place by its length.
pub last_index-append :
    (before s sub : Bytes) {i : ℕ}
    → last_index s sub ≡ some i
    → last_index (before ++ s) sub ≡ some (length before + i)
unfolding last_index
last_index-append [] s sub h = h ∙ ap some (omega arith)
last_index-append (c ∷ before) s sub {i} h =
    rw (last_index-append before s sub h, last_index) (ap some (omega arith))

drop-add_suc : (j n c : ℕ) (s : Bytes) → drop (suc j + n) (c ∷ s) ≡ drop (j + n) s
drop-add_suc j n c s =
    let moved : suc j + n ≡ suc (j + n) = omega arith in ap (λ (k : ℕ). drop k (c ∷ s)) moved

-- The place that is found holds the text that is looked for.
pub last_index_split :
    (s sub : Bytes) (i : ℕ)
    → last_index s sub ≡ some i
    → s ≡ take i s ++ (sub ++ drop (i + length sub) s)
unfolding last_index
last_index_split [] sub i h = elim (Bool-cases (has_prefix [] sub)) [
  | inl here ↦
      let e : i ≡ 0 = ground arith in
      rw e (has_prefix_split [] sub here ∙ ap (λ (n : ℕ). sub ++ drop n []) (omega arith))
  | inr away ↦ absurd (ground arith)
]
last_index_split (c ∷ s) sub i h = elim (Option-cases (last_index s sub)) [
  | inr (j, later) ↦
      let e : i ≡ suc j = ground (arith, later) in
      rw (e, drop-add_suc j (length sub) c s) (ap (◌∷◌ c) (last_index_split s sub j later))
  | inl last ↦ elim (Bool-cases (has_prefix (c ∷ s) sub)) [
    | inl here ↦
        let e : i ≡ 0 = ground (arith, last) in
        rw e
          (has_prefix_split (c ∷ s) sub here ∙ ap (λ (n : ℕ). sub ++ drop n (c ∷ s)) (omega arith))
    | inr away ↦ absurd (ground (arith, last))
  ]
]

-- A text whose first byte does not occur is not found.
pub last_index-none :
    (s : Bytes) (c : ℕ) (sub : Bytes) → All (λ b. b ≢ c) s → last_index s (c ∷ sub) ≡ none
unfolding last_index
last_index-none [] c sub h = refl
last_index-none (b ∷ s) c sub h = rw (last_index-none s c sub h.1, last_index) (ground arith)
