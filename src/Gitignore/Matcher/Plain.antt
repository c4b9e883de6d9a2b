-- ===== src/Gitignore/Matcher/Plain.antt =====
-- Patterns without a re-include: a path is excluded exactly if a line matches it or one of its
-- ancestors, so all below an excluded directory is excluded.
use easy_sftp.Prelude.{
  ℕ, zero, suc, ◌≤◌, ◌<◌, ◌≡◌, refl, sym, ap, ◌∙◌, Bool, true, false, Bytes, List, [], ◌∷◌, ◌++◌,
  none, some, arith, ◌⊎◌, inl, inr, ◌↔◌, Bool-cases, length, take, subst, All, Any, eq_bytes,
  length-append,
}
use easy_sftp.Strings.{split, split-append_sep, split-ne_nil}
use easy_sftp.SlashPath.{dot}
use easy_sftp.Gitignore.Matcher.{
  GitignoreMatcher, matches_path, Found, last_match_idx, matches_segments, matches_how,
}
use easy_sftp.Gitignore.Matcher.LastWins.{excludes, rank, matches_segments-IsDecided}

-- No line is a re-include.
abbrev pub NoNegation : GitignoreMatcher → Type 0
NoNegation = All (λ p. p.negate ≡ false)

-- Some line matches the path itself.
abbrev pub IsHit : GitignoreMatcher → List Bytes → Bool → Type 0
IsHit m segs is_dir = Any (λ p. matches_path p segs is_dir ≡ true) m

-- What the search of the last match returns.
abbrev FoundHit : Found → Type 0 → Type 0
FoundHit none H = ¬ H
FoundHit (some (i, p)) H = (p.negate ≡ false) × H

found_hit :
    (i : ℕ) (m : GitignoreMatcher) (segs : List Bytes) (is_dir : Bool)
    → NoNegation m
    → FoundHit (last_match_idx i m segs is_dir) (IsHit m segs is_dir)
unfolding last_match_idx
found_hit i [] segs is_dir n = λ h. h
found_hit i (p ∷ ps) segs is_dir n =
    from_rest (last_match_idx (suc i) ps segs is_dir) refl (found_hit (suc i) ps segs is_dir n.1)
  where
    from_rest :
        (o : Found)
        → last_match_idx (suc i) ps segs is_dir ≡ o
        → FoundHit o (IsHit ps segs is_dir)
        → FoundHit (last_match_idx i (p ∷ ps) segs is_dir) (IsHit (p ∷ ps) segs is_dir)
    from_rest (some (j, q)) e (plain, hit) = rw (e, last_match_idx) (plain, inr hit)
    from_rest none e miss = elim (Bool-cases (matches_path p segs is_dir)) [
      | inl here ↦ rw (e, here, last_match_idx) (n.0, inl refl)
      | inr other ↦ rw (e, other, last_match_idx) (λ h. elim h [ inl x ↦ cc | inr x ↦ miss x ])
    ]

module _ (m : GitignoreMatcher) (plain : NoNegation m) (segs : List Bytes) (is_dir : Bool) where
  excludes-IsHit : excludes (last_match_idx 0 m segs is_dir) ≡ true → IsHit m segs is_dir
  excludes-IsHit e = go (last_match_idx 0 m segs is_dir) (found_hit 0 m segs is_dir plain) e
    where
      go : (o : Found) → FoundHit o (IsHit m segs is_dir) → excludes o ≡ true → IsHit m segs is_dir
      go none f e = cc
      go (some (i, p)) (_, hit) e = hit

  IsHit-excludes : IsHit m segs is_dir → excludes (last_match_idx 0 m segs is_dir) ≡ true
  IsHit-excludes h = go (last_match_idx 0 m segs is_dir) (found_hit 0 m segs is_dir plain)
    where
      go : (o : Found) → FoundHit o (IsHit m segs is_dir) → excludes o ≡ true
      go none f = absurd (f h)
      go (some (i, p)) (n, hit) = rw n

  found_cases :
      (excludes (last_match_idx 0 m segs is_dir) ≡ true)
      ⊎ (rank (last_match_idx 0 m segs is_dir) ≡ 0)
  found_cases = go (last_match_idx 0 m segs is_dir) (found_hit 0 m segs is_dir plain)
    where
      go : (o : Found) → FoundHit o (IsHit m segs is_dir) → (excludes o ≡ true) ⊎ (rank o ≡ 0)
      go none f = inr refl
      go (some (i, p)) (n, hit) = inl (rw n)

module _ (m : GitignoreMatcher) (plain : NoNegation m) where
  -- A line matches the path, or an ancestor as a directory.
  abbrev pub IsCovered : List Bytes → Bool → Type 0
  IsCovered segs is_dir =
      IsHit m segs is_dir ⊎ ((j : ℕ) × (1 ≤ j) × (j < length segs) × IsHit m (take j segs) true)

  pub matches_segments-IsCovered :
      (segs : List Bytes) (is_dir : Bool)
      → ((matches_segments m segs is_dir).0 ≡ true) ↔ IsCovered segs is_dir
  matches_segments-IsCovered segs is_dir = (
    λ e. elim ((matches_segments-IsDecided m segs is_dir).0 e) [
      | inl own ↦ inl (excludes-IsHit m plain segs is_dir own)
      | inr (j, lo, hi, x, _) ↦ inr (j, lo, hi, excludes-IsHit m plain (take j segs) true x)
    ],
    λ h. (matches_segments-IsDecided m segs is_dir).1 (elim h [
      | inl own ↦ inl (IsHit-excludes m plain segs is_dir own)
      | inr (j, lo, hi, x) ↦ elim (found_cases m plain segs is_dir) [
        | inl own ↦ inl own
        | inr nothing ↦ inr (j, lo, hi, IsHit-excludes m plain (take j segs) true x, omega arith)
      ]
    ]),
  )

  take-append_le : (j : ℕ) (xs ys : List Bytes) → j ≤ length xs → take j (xs ++ ys) ≡ take j xs
  take-append_le zero xs ys h = refl
  take-append_le (suc j) [] ys h = absurd (omega arith)
  take-append_le (suc j) (x ∷ xs) ys h = ap (◌∷◌ x) (take-append_le j xs ys (omega arith))

  take-all : (xs : List Bytes) → take (length xs) xs ≡ xs
  take-all [] = refl
  take-all (x ∷ xs) = ap (◌∷◌ x) (take-all xs)

  IsCovered-below :
      (xs ys : List Bytes) (is_dir : Bool)
      → 1 ≤ length xs
      → 1 ≤ length ys
      → IsCovered xs true
      → IsCovered (xs ++ ys) is_dir
  IsCovered-below xs ys is_dir hx hy (inl own) = inr (
    length xs,
    hx,
    omega (arith, length-append {0} xs ys),
    subst (λ t. IsHit m t true) (sym (take-append_le (length xs) xs ys (omega arith) ∙ take-all xs))
        own,
  )
  IsCovered-below xs ys is_dir hx hy (inr (j, lo, hi, hit)) = inr (
    j,
    lo,
    omega (arith, length-append {0} xs ys),
    subst (λ t. IsHit m t true) (sym (take-append_le j xs ys (omega arith))) hit,
  )

  split-length : (s : Bytes) → 1 ≤ length (split s)
  split-length s =
      let (part, parts, e) = split-ne_nil s in omega (arith, ap (λ (x : List Bytes). length x) e)

  pub below_is_no_dot : (d rest : Bytes) → eq_bytes (d ++ b'/' ∷ rest) dot ≡ false
  below_is_no_dot [] rest = refl
  below_is_no_dot (x ∷ []) rest = ground arith
  below_is_no_dot (x ∷ y ∷ d) rest = ground arith

  -- Where no pattern is a re-include and a directory is excluded, every path below the directory is
  -- excluded, as a file and as a directory.
  pub matches_how-below :
      (d rest : Bytes) (is_dir : Bool)
      → (matches_how m d true).0 ≡ true
      → (matches_how m (d ++ b'/' ∷ rest) is_dir).0 ≡ true
  unfolding matches_how
  matches_how-below d rest is_dir h = elim (Bool-cases (eq_bytes d dot)) [
    | inl at_dot ↦ absurd (cannot (rw at_dot at h))
    | inr other ↦
        rw (below_is_no_dot d rest, split-append_sep d rest)
          ((matches_segments-IsCovered (split d ++ split rest) is_dir).1 (
            IsCovered-below (split d) (split rest) is_dir (split-length d) (split-length rest)
              ((matches_segments-IsCovered (split d) true).0 (rw other at h))))
  ]
    where
      cannot : false ≡ true → ⊥
      cannot e = cc
