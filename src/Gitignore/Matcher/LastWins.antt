-- ===== src/Gitignore/Matcher/LastWins.antt =====
-- The last line wins: a path is excluded exactly by the last line that matches it, or by a line that
-- excludes one of its ancestors and is not followed by the path's own re-include.
use easy_sftp.Prelude.{
  ℕ, zero, suc, ◌-◌, ◌≤◌, ◌<◌, ◌≡◌, refl, ap, ◌∙◌, ◌&&◌, not, Bool, true, false, Bytes, List, none,
  some, arith, ◌⊎◌, inl, inr, ◌↔◌, Bool-cases, length, take, get_elem?, [], ◌∷◌, ◌+◌, subst, sym,
  Option, if◌then◌else◌,
}
use native.Mathlib.Decide.{ℕ_discrete}
use easy_sftp.Gitignore.Matcher.{
  GitignorePattern, GitignoreMatcher, matches_path, Found, last_match_idx, later, better,
  deciding_ancestor, verdict, matches_segments,
}

-- A found pattern as a number: 0 for none, so that -1 is 0 and an index is one more.
abbrev pub rank : Found → ℕ
rank none = 0
rank (some (i, p)) = suc i

abbrev pub excludes : Found → Bool
excludes none = false
excludes (some (i, p)) = not p.negate

rank_best : (o best : Found) → rank best ≤ rank (better o best)
rank_best none best = omega arith
rank_best (some (i, p)) none = omega arith
rank_best (some (i, p)) (some (j, q)) = ground arith

rank_new : (o best : Found) → excludes o ≡ true → rank o ≤ rank (better o best)
rank_new none best e = cc
rank_new (some (i, p)) none e = ground arith
rank_new (some (i, p)) (some (j, q)) e = ground arith

better_from :
    (o best : Found) → (better o best ≡ best) ⊎ ((better o best ≡ o) × (excludes o ≡ true))
better_from none best = inl refl
better_from (some (i, p)) best = elim (Bool-cases (not p.negate && later i best)) [
  | inl new ↦ inr (rw new, ground arith)
  | inr old ↦ inl (rw old)
]

excludes-rank : (o : Found) → excludes o ≡ true → 1 ≤ rank o
excludes-rank none e = cc
excludes-rank (some (i, p)) e = omega arith

verdict_iff :
    (leaf deciding : Found)
    → ((verdict leaf deciding).0 ≡ true)
      ↔ ((excludes leaf ≡ true) ⊎ ((1 ≤ rank deciding) × (rank leaf ≤ rank deciding)))
verdict_iff none none = ground arith
verdict_iff none (some (j, q)) = ground arith
verdict_iff (some (i, p)) none = ground arith
verdict_iff (some (i, p)) (some (j, q)) = ground arith

module _ (segs : List Bytes) (is_dir : Bool) where
  -- What is found is the last pattern of the list that matches, with its index from `k` on.
  abbrev IsLastFrom : ℕ → GitignoreMatcher → Found → Type 0
  IsLastFrom k m none =
      (j : ℕ) (q : GitignorePattern) → get_elem? m j ≡ some q → matches_path q segs is_dir ≡ false
  IsLastFrom k m (some (i, p)) =
      (n : ℕ) × (i ≡ k + n)
      × (get_elem? m n ≡ some p)
      × (matches_path p segs is_dir ≡ true)
      × ((j : ℕ) (q : GitignorePattern)
          → get_elem? m j ≡ some q
          → matches_path q segs is_dir ≡ true
          → j ≤ n)

  -- The pattern is in the list at the index and matches, and no pattern behind it does; or none matches.
  abbrev pub IsLast : GitignoreMatcher → Found → Type 0
  IsLast m none =
      (j : ℕ) (q : GitignorePattern) → get_elem? m j ≡ some q → matches_path q segs is_dir ≡ false
  IsLast m (some (i, p)) =
      (get_elem? m i ≡ some p)
      × (matches_path p segs is_dir ≡ true)
      × ((j : ℕ) (q : GitignorePattern)
          → get_elem? m j ≡ some q
          → matches_path q segs is_dir ≡ true
          → j ≤ i)

  false_is_not_true : {b : Bool} → b ≡ false → b ≡ true → ⊥
  false_is_not_true x y = cc

  behind :
      (p : GitignorePattern) (ps : GitignoreMatcher) (n : ℕ)
      → ((j : ℕ) (q : GitignorePattern)
          → get_elem? ps j ≡ some q
          → matches_path q segs is_dir ≡ true
          → j ≤ n)
      → (j : ℕ) (q : GitignorePattern) → get_elem? (p ∷ ps) j ≡ some q
      → matches_path q segs is_dir ≡ true
      → j ≤ suc n
  behind p ps n all zero q at h = omega arith
  behind p ps n all (suc j) q at h = omega (arith, all j q at h)

  first_of_none :
      (p : GitignorePattern) (ps : GitignoreMatcher)
      → ((j : ℕ) (q : GitignorePattern)
          → get_elem? ps j ≡ some q
          → matches_path q segs is_dir ≡ false)
      → (j : ℕ) (q : GitignorePattern) → get_elem? (p ∷ ps) j ≡ some q
      → matches_path q segs is_dir ≡ true
      → j ≤ 0
  first_of_none p ps none_does zero q at h = omega arith
  first_of_none p ps none_does (suc j) q at h = absurd (false_is_not_true (none_does j q at) h)

  none_of :
      (p : GitignorePattern) (ps : GitignoreMatcher)
      → matches_path p segs is_dir ≡ false
      → ((j : ℕ) (q : GitignorePattern)
          → get_elem? ps j ≡ some q
          → matches_path q segs is_dir ≡ false)
      → (j : ℕ) (q : GitignorePattern) → get_elem? (p ∷ ps) j ≡ some q
      → matches_path q segs is_dir ≡ false
  none_of p ps differs none_does zero q at =
      subst (λ (r : GitignorePattern). matches_path r segs is_dir ≡ false) (same at) differs
    where
      same : {a b : GitignorePattern} → Path (Option GitignorePattern) (some a) (some b) → a ≡ b
      same x = cc
  none_of p ps differs none_does (suc j) q at = none_does j q at

  from_step :
      (k : ℕ) (p : GitignorePattern) (ps : GitignoreMatcher) (o : Found)
      → IsLastFrom (suc k) ps o
      → IsLastFrom k (p ∷ ps) (elim o [
        | some found ↦ some found
        | none ↦ if matches_path p segs is_dir then some (k, p) else none
      ])
  from_step k p ps (some (i, q)) (n, e, at, h, all) = (suc n, omega arith, at, h, behind p ps n all)
  from_step k p ps none none_does = elim (Bool-cases (matches_path p segs is_dir)) [
    | inl hits ↦ rw hits (0, omega arith, refl, hits, first_of_none p ps none_does)
    | inr misses ↦ rw misses (none_of p ps misses none_does)
  ]

  last_match_idx-IsLastFrom :
      (k : ℕ) (m : GitignoreMatcher) → IsLastFrom k m (last_match_idx k m segs is_dir)
  unfolding last_match_idx
  last_match_idx-IsLastFrom k [] = λ j q at. cc
  last_match_idx-IsLastFrom k (p ∷ ps) =
      from_step k p ps (last_match_idx (suc k) ps segs is_dir)
        (last_match_idx-IsLastFrom (suc k) ps)

  from_start : (m : GitignoreMatcher) (o : Found) → IsLastFrom 0 m o → IsLast m o
  from_start m none h = h
  from_start m (some (i, p)) (n, e, at, h, all) =
      let i_is_n : i ≡ n = omega arith in (rw i_is_n at, h, rw i_is_n all)

  only_last : (m : GitignoreMatcher) (o o' : Found) → IsLast m o → IsLast m o' → o ≡ o'
  only_last m none none h h' = refl
  only_last m none (some (i, p)) h (at, matches, all) =
      absurd (false_is_not_true (h i p at) matches)
  only_last m (some (i, p)) none (at, matches, all) h' =
      absurd (false_is_not_true (h' i p at) matches)
  only_last m (some (i, p)) (some (j, q)) (at, matches, all) (at', matches', all') =
      let same : i ≡ j = omega (arith, all j q at' matches', all' i p at matches) in
      let found : p ≡ q = found_same (sym at ∙ ap (get_elem? m) same ∙ at') in cc
    where
      found_same :
          {a b : GitignorePattern} → Path (Option GitignorePattern) (some a) (some b) → a ≡ b
      found_same x = cc

last_match_idx-IsLast :
    (m : GitignoreMatcher) (segs : List Bytes) (is_dir : Bool)
    → IsLast segs is_dir m (last_match_idx 0 m segs is_dir)
last_match_idx-IsLast m segs is_dir =
    from_start segs is_dir m (last_match_idx 0 m segs is_dir)
      (last_match_idx-IsLastFrom segs is_dir 0 m)

last_is :
    (m : GitignoreMatcher) (segs : List Bytes) (is_dir : Bool) (o : Found)
    → IsLast segs is_dir m o
    → o ≡ last_match_idx 0 m segs is_dir
last_is m segs is_dir o h =
    only_last segs is_dir m o (last_match_idx 0 m segs is_dir) h
      (last_match_idx-IsLast m segs is_dir)

module _ (m : GitignoreMatcher) (segs : List Bytes) where
  abbrev pub ancestor : ℕ → Found
  ancestor k = last_match_idx 0 m (take k segs) true

  rank_start : (k : ℕ) (best : Found) → rank best ≤ rank (deciding_ancestor k m segs best)
  unfolding deciding_ancestor
  rank_start zero best = omega arith
  rank_start (suc k) best =
      omega
        (arith, rank_best (ancestor (suc k)) best, rank_start k (better (ancestor (suc k)) best))

  -- No ancestor is excluded by a later line than the deciding one.
  rank-ancestor :
      (k j : ℕ) (best : Found)
      → 1 ≤ j
      → j ≤ k
      → excludes (ancestor j) ≡ true
      → rank (ancestor j) ≤ rank (deciding_ancestor k m segs best)
  unfolding deciding_ancestor
  rank-ancestor zero j best lo hi e = absurd (omega arith)
  rank-ancestor (suc k) j best lo hi e = elim (ℕ_discrete j (suc k)) [
    | yes same ↦ rw same (
        omega (
          arith,
          rank_new (ancestor (suc k)) best (rw same at e),
          rank_start k (better (ancestor (suc k)) best),
        ))
    | no other ↦ rank-ancestor k j (better (ancestor (suc k)) best) lo (omega arith) e
  ]

  -- The deciding line excludes an ancestor, or is the one that the loop began with.
  deciding_from :
      (k : ℕ) (best : Found)
      → (deciding_ancestor k m segs best ≡ best)
        ⊎ ((j : ℕ) × (1 ≤ j)
            × (j ≤ k)
            × (deciding_ancestor k m segs best ≡ ancestor j)
            × (excludes (ancestor j) ≡ true))
  unfolding deciding_ancestor
  deciding_from zero best = inl refl
  deciding_from (suc k) best = elim (deciding_from k (better (ancestor (suc k)) best)) [
    | inr (j, lo, hi, e, x) ↦ inr (j, lo, omega arith, e, x)
    | inl kept ↦ elim (better_from (ancestor (suc k)) best) [
      | inl old ↦ inl (kept ∙ old)
      | inr (new, x) ↦ inr (suc k, omega arith, omega arith, kept ∙ new, x)
    ]
  ]

  -- Why a path is excluded, by what the loops find.
  abbrev pub IsDecided : Bool → Type 0
  IsDecided is_dir =
      (excludes (last_match_idx 0 m segs is_dir) ≡ true)
      ⊎ ((j : ℕ) × (1 ≤ j)
          × (j < length segs)
          × (excludes (ancestor j) ≡ true)
          × (rank (last_match_idx 0 m segs is_dir) ≤ rank (ancestor j)))

  pub matches_segments-IsDecided :
      (is_dir : Bool) → ((matches_segments m segs is_dir).0 ≡ true) ↔ IsDecided is_dir
  unfolding matches_segments
  matches_segments-IsDecided is_dir =
      let leaf = last_match_idx 0 m segs is_dir in
      let k = length segs - 1 in
      let deciding = deciding_ancestor k m segs none in
      (
        λ e. elim ((verdict_iff leaf deciding).0 e) [
          | inl own ↦ inl own
          | inr (some_rank, le) ↦ elim (deciding_from k none) [
            | inl nothing ↦ absurd (omega (arith, ap rank nothing))
            | inr (j, lo, hi, at, x) ↦ inr (j, lo, omega arith, x, omega (arith, ap rank at))
          ]
        ],
        λ h. (verdict_iff leaf deciding).1 (elim h [
          | inl own ↦ inl own
          | inr (j, lo, hi, x, le) ↦
              let below = rank-ancestor k j none lo (omega arith) x in
              inr (omega (arith, excludes-rank (ancestor j) x), omega arith)
        ]),
      )

  -- The last pattern that matches the path, and why a path is excluded, by the list of patterns.
  abbrev pub IsExcluded : Bool → Type 0
  IsExcluded is_dir =
      (leaf : Found) × IsLast segs is_dir m leaf
      × ((excludes leaf ≡ true)
          ⊎ ((j : ℕ) × (o : Found) × (1 ≤ j)
              × (j < length segs)
              × IsLast (take j segs) true m o
              × (excludes o ≡ true)
              × (rank leaf ≤ rank o)))

  -- A path is excluded exactly if the pattern of the highest index in the list that matches it is no
  -- re-include, or for some proper ancestor the pattern of the highest index that matches it, as a
  -- directory, is no re-include and does not stand before the last one that matches the path itself.
  pub matches_segments-IsExcluded :
      (is_dir : Bool) → ((matches_segments m segs is_dir).0 ≡ true) ↔ IsExcluded is_dir
  matches_segments-IsExcluded is_dir = (to, from)
    where
      to : (matches_segments m segs is_dir).0 ≡ true → IsExcluded is_dir
      to e = (
        last_match_idx 0 m segs is_dir,
        last_match_idx-IsLast m segs is_dir,
        elim ((matches_segments-IsDecided is_dir).0 e) [
          | inl own ↦ inl own
          | inr (j, lo, hi, x, le) ↦
              inr (j, ancestor j, lo, hi, last_match_idx-IsLast m (take j segs) true, x, le)
        ],
      )

      from : IsExcluded is_dir → (matches_segments m segs is_dir).0 ≡ true
      from (leaf, last, inl own) =
          (matches_segments-IsDecided is_dir).1
            (inl (subst (λ o. excludes o ≡ true) (last_is m segs is_dir leaf last) own))
      from (leaf, last, inr (j, o, lo, hi, at, x, le)) =
          let le' = subst (λ r. rank leaf ≤ rank r) (last_is m (take j segs) true o at) le in
          (matches_segments-IsDecided is_dir).1 (
            inr (
              j,
              lo,
              hi,
              subst (λ r. excludes r ≡ true) (last_is m (take j segs) true o at) x,
              subst (λ r. rank r ≤ rank (ancestor j)) (last_is m segs is_dir leaf last) le',
            ))
