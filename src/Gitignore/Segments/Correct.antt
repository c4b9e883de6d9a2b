-- ===== src/Gitignore/Segments/Correct.antt =====
-- `matchSegmentsExact` decides the meaning of the segments: on the plain path, and with the memo.
use easy_sftp.Prelude.{
  ℕ, zero, suc, ◌==◌, ◌≡◌, refl, sym, ap, ap₂, ◌∙◌, ◌&&◌, Bool, true, false, Bytes, List, [], ◌∷◌,
  ◌++◌, some, arith, inl, inr, ◌↔◌, Bool-cases, Option-cases, eq_bytes, if◌then◌else◌, All, length,
  subst, false≢true, &&_iff, drop, ==_iff,
}
use easy_sftp.Gitignore.Segment.{match_segment}
use easy_sftp.Gitignore.Segment.Correct.{Tells}
use easy_sftp.Gitignore.Segments.{
  star_star, contains_star_star, match_segments_plain, Memo, memo_lookup, Memoized, memoize, is_nil,
  span_from, one_segment, any_depth, match_segments_exact_at, same_length, match_segments_exact,
}
use easy_sftp.Gitignore.Segments.Meaning.{HeadNames, Names}

drop-tail :
    {A : Type 0} (x : A) (xs : List A) (n : ℕ) (all : List A)
    → x ∷ xs ≡ drop n all
    → xs ≡ drop (suc n) all
drop-tail x xs zero [] e = cc
drop-tail x xs zero (y ∷ all) e = tail_eq e
  where
    tail_eq : x ∷ xs ≡ y ∷ all → xs ≡ all
    tail_eq e = cc
drop-tail x xs (suc n) [] e = cc
drop-tail x xs (suc n) (y ∷ all) e = drop-tail x xs n all e

module _ (pat0 segs0 : List Bytes) where
  -- What an entry of the memo says.
  abbrev Says : ℕ × ℕ × Bool → Type 0
  Says (pi, si, v) = Tells v (Names (drop pi pat0) (drop si segs0))

  abbrev IsSound : Memo → Type 0
  IsSound memo = All Says memo

  -- A computation answers a question rightly from a sound memo, and leaves it sound.
  abbrev Answers : Type 0 → Memoized → Type 0
  Answers P m = (memo : Memo) → IsSound memo → Tells (m memo).0 P × IsSound (m memo).1

  lookup-Says :
      (pi si : ℕ) (memo : Memo) {v : Bool}
      → IsSound memo
      → memo_lookup pi si memo ≡ some v
      → Says (pi, si, v)
  unfolding memo_lookup
  lookup-Says pi si [] h e = cc
  lookup-Says pi si ((p, s, w) ∷ memo) h e = elim (Bool-cases (p == pi && s == si)) [
    | inl hit ↦
        let (a, b) = (&&_iff (p == pi) (s == si)).0 hit in
        let same = rw hit at e in
        subst Says
          (ap₂ (λ x y. (x, y, w)) ((==_iff p pi).0 a) ((==_iff s si).0 b)
            ∙ ap (λ x. (pi, si, x)) (of_some same))
          h.0
    | inr miss ↦ lookup-Says pi si memo h.1 (rw miss at e)
  ]
    where
      of_some : {a b : Bool} → some a ≡ some b → a ≡ b
      of_some e = cc

  memoize-Answers :
      (pi si : ℕ) (compute : Memoized)
      → Answers (Names (drop pi pat0) (drop si segs0)) compute
      → Answers (Names (drop pi pat0) (drop si segs0)) (memoize pi si compute)
  unfolding memoize
  memoize-Answers pi si compute h memo sound = elim (Option-cases (memo_lookup pi si memo)) [
    | inl miss ↦ rw (miss, memoize) ((h memo sound).0, ((h memo sound).0, (h memo sound).1))
    | inr (v, hit) ↦ rw (hit, memoize) (lookup-Says pi si memo sound hit, sound)
  ]

  module _ (Rest : List Bytes → Type 0) (next : List Bytes → ℕ → Memoized)
      (answer : (segs : List Bytes) (si : ℕ)
        → segs ≡ drop si segs0
        → Answers (Rest segs) (next segs si)) where
    span_from-Answers :
        (segs : List Bytes) (si : ℕ)
        → segs ≡ drop si segs0
        → Answers (HeadNames true false [] Rest segs) (span_from next segs si)
    unfolding span_from
    span_from-Answers [] si at memo sound =
        let (right, sound') = answer [] si at memo sound in
        (
          (
            λ e. ([], [], refl, right.0 e),
            λ (before, after, e, d). right.1 (nil_only before after e d),
          ),
          sound',
        )
      where
        nil_only : (before after : List Bytes) → [] ≡ before ++ after → Rest after → Rest []
        nil_only [] after e d = subst Rest (sym e) d
        nil_only (x ∷ before) after e d = cc
    span_from-Answers (s ∷ segs) si at memo sound =
        let (right, sound') = answer (s ∷ segs) si at memo sound in
        let (later, sound'') =
          span_from-Answers segs (suc si) (drop-tail s segs si segs0 at) (next (s ∷ segs) si memo).1
            sound' in
        elim (Bool-cases (next (s ∷ segs) si memo).0) [
          | inl here ↦ rw here ((λ e. ([], s ∷ segs, refl, right.0 here), λ d. refl), sound')
          | inr not_here ↦ rw not_here (
            (
              λ e.
                  let (before, after, same, d) = later.0 e in
                  (s ∷ before, after, ap (◌∷◌ s) same, d),
              λ (before, after, e, d).
                  later.1 (shift (λ r. false≢true (sym not_here ∙ right.1 r)) before after e d),
            ),
            sound'',
          )
        ]
      where
        shift :
            ¬ Rest (s ∷ segs)
            → (before after : List Bytes) → s ∷ segs ≡ before ++ after
            → Rest after
            → HeadNames true false [] Rest segs
        shift none_here [] after e d = absurd (none_here (subst Rest (sym e) d))
        shift none_here (x ∷ before) after e d = (before, after, tail_eq e, d)
          where
            tail_eq : s ∷ segs ≡ x ∷ (before ++ after) → segs ≡ before ++ after
            tail_eq e = cc

    any_depth-Answers :
        (last : Bool) (p : Bytes) (segs : List Bytes) (si : ℕ)
        → segs ≡ drop si segs0
        → Answers (HeadNames true last p Rest segs) (any_depth last next segs si)
    any_depth-Answers true p [] si at memo sound = ((λ e. cc, λ d. absurd (d refl)), sound)
    any_depth-Answers true p (s ∷ segs) si at memo sound = ((λ e d. cc, λ d. refl), sound)
    any_depth-Answers false p segs si at memo sound = span_from-Answers segs si at memo sound

    one_segment-Answers :
        (last : Bool) (p : Bytes) (segs : List Bytes) (si : ℕ)
        → segs ≡ drop si segs0
        → Answers (HeadNames false last p Rest segs) (one_segment next p segs si)
    unfolding one_segment
    one_segment-Answers last p [] si at memo sound = ((λ e. cc, λ d. absurd d), sound)
    one_segment-Answers last p (s ∷ segs) si at memo sound = elim (Bool-cases (match_segment p s)) [
      | inl yes_match ↦
          let (right, sound') = answer segs (suc si) (drop-tail s segs si segs0 at) memo sound in
          rw yes_match ((λ e. (refl, right.0 e), λ (_, d). right.1 d), sound')
      | inr no_match ↦ rw no_match ((λ e. cc, λ (e, _). cc), sound)
    ]

    head-Answers :
        (p : Bytes) (last : Bool) (segs : List Bytes) (si : ℕ)
        → segs ≡ drop si segs0
        → Answers (HeadNames (eq_bytes p star_star) last p Rest segs) (
            if eq_bytes p star_star
            then any_depth last next segs si
            else one_segment next p segs si)
    head-Answers p last segs si at = elim (Bool-cases (eq_bytes p star_star)) [
      | inl star ↦ rw star (any_depth-Answers last p segs si at)
      | inr name ↦ rw name (one_segment-Answers last p segs si at)
    ]

  nil-Tells : (segs : List Bytes) → Tells (is_nil segs) (segs ≡ [])
  nil-Tells [] = (λ e. refl, λ e. refl)
  nil-Tells (s ∷ segs) = (λ e. cc, λ e. cc)

  memoize-at :
      (pat : List Bytes) (pi : ℕ) (segs : List Bytes) (si : ℕ) (compute : Memoized)
      → pat ≡ drop pi pat0
      → segs ≡ drop si segs0
      → Answers (Names pat segs) compute
      → Answers (Names pat segs) (memoize pi si compute)
  memoize-at pat pi segs si compute atp ats h =
      let same = ap₂ Names atp ats in
      subst (λ P. Answers P (memoize pi si compute)) (sym same)
        (memoize-Answers pi si compute (subst (λ P. Answers P compute) same h))

  -- At every pair of places the memoized recursion answers rightly.
  exact_at-Answers :
      (pat : List Bytes) (pi : ℕ) (segs : List Bytes) (si : ℕ)
      → pat ≡ drop pi pat0
      → segs ≡ drop si segs0
      → Answers (Names pat segs) (match_segments_exact_at pat pi segs si)
  unfolding match_segments_exact_at
  exact_at-Answers [] pi segs si atp ats =
      memoize-at [] pi segs si (λ memo. (is_nil segs, memo)) atp ats
        (λ memo sound. (nil-Tells segs, sound))
  exact_at-Answers (p ∷ pat) pi segs si atp ats =
      let next = match_segments_exact_at pat (suc pi) in
      memoize-at (p ∷ pat) pi segs si
        (if eq_bytes p star_star
          then any_depth (is_nil pat) next segs si
          else one_segment next p segs si)
        atp ats
        (head-Answers (Names pat) next
          (λ segs' si' at. exact_at-Answers pat (suc pi) segs' si' (drop-tail p pat pi pat0 atp) at)
          p (is_nil pat) segs si ats)

not_star :
    (p : Bytes) (pat : List Bytes)
    → contains_star_star (p ∷ pat) ≡ false
    → eq_bytes p star_star ≡ false
not_star p pat h = ground arith

same_suc :
    (xs ys : List Bytes) (b : Bool)
    → (same_length xs ys && b) ≡ ((suc (length xs) == suc (length ys)) && b)
same_suc xs ys b = ground arith

plain-Tells :
    (pat segs : List Bytes)
    → contains_star_star pat ≡ false
    → Tells (same_length pat segs && match_segments_plain pat segs) (Names pat segs)
unfolding match_segments_plain
plain-Tells [] [] h = (λ e. refl, λ e. refl)
plain-Tells [] (s ∷ segs) h = (λ e. ground arith, λ e. cc)
plain-Tells (p ∷ pat) [] h = rw (not_star p pat h) ((λ e. ground arith, λ d. absurd d))
plain-Tells (p ∷ pat) (s ∷ segs) h =
    let rest = plain-Tells pat segs (ground arith) in
    rw (not_star p pat h) (elim (Bool-cases (match_segment p s)) [
      | inl matches ↦ rw matches (
          (
            λ e. (refl, rest.0 (same_suc pat segs (match_segments_plain pat segs) ∙ e)),
            λ (_, d). sym (same_suc pat segs (match_segments_plain pat segs)) ∙ rest.1 d,
          ))
      | inr differs ↦ rw differs ((λ e. ground arith, λ (e, _). cc))
    ])

-- matchSegmentsExact, with its memo and on its plain path, accepts exactly the paths that the
-- pattern's segments name: a last ** takes one segment or more, another ** any number, every other
-- segment one that it matches.
pub match_segments_exact-Names :
    (pat segs : List Bytes) → (match_segments_exact pat segs ≡ true) ↔ Names pat segs
unfolding match_segments_exact
match_segments_exact-Names pat segs = elim (Bool-cases (contains_star_star pat)) [
  | inl deep ↦ rw deep (exact_at-Answers pat segs pat 0 segs 0 refl refl [] tt).0
  | inr plain ↦ rw plain (plain-Tells pat segs plain)
]
