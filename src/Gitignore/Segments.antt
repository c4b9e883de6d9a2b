-- ===== src/Gitignore/Segments.antt =====
-- matchSegmentsExact, its memoized recursion and its plain path, of internal/uploader/gitignore.go:
-- the segments of a pattern against those of a path.
pub mod Meaning
pub mod Correct
use easy_sftp.Prelude.{
  ℕ, zero, suc, ◌==◌, ◌||◌, ◌&&◌, not, Bool, true, false, if◌then◌else◌, Bytes, List, [], ◌∷◌,
  Option, none, some, eq_bytes, length, codes,
}
use easy_sftp.Gitignore.Segment.{match_segment}

abbrev pub star_star : Bytes
star_star = codes "**"

-- containsStarStar
abbrev pub contains_star_star : List Bytes → Bool
contains_star_star [] = false
contains_star_star (p ∷ pat) = eq_bytes p star_star || contains_star_star pat

-- matchSegmentsPlain
unfoldable pub match_segments_plain : List Bytes → List Bytes → Bool
match_segments_plain [] segs = true
match_segments_plain (p ∷ pat) [] = false
match_segments_plain (p ∷ pat) (s ∷ segs) =
    if match_segment p s then match_segments_plain pat segs else false

-- The map `memo`, from a pair of indices to an answer; the latest entry counts.
abbrev pub Memo : Type 0
Memo = List (ℕ × ℕ × Bool)

unfoldable pub memo_lookup : ℕ → ℕ → Memo → Option Bool
memo_lookup pi si [] = none
memo_lookup pi si ((p, s, v) ∷ memo) = if p == pi && s == si then some v else memo_lookup pi si memo

-- A computation that reads and extends the memo.
abbrev pub Memoized : Type 0
Memoized = Memo → Bool × Memo

-- The entry of `matchSegmentsExactAt` and its deferred write.
unfoldable pub memoize : ℕ → ℕ → Memoized → Memoized
unfolding memo_lookup
memoize pi si compute memo = elim (memo_lookup pi si memo) [
  | some v ↦ (v, memo)
  | none ↦ let (res, memo') = compute memo in (res, (pi, si, res) ∷ memo')
]

abbrev pub is_nil : List Bytes → Bool
is_nil [] = true
is_nil (_ ∷ _) = false

-- The attempts of a `**`: what follows it is tried at each place from `si` to the end.
unfoldable pub span_from : (List Bytes → ℕ → Memoized) → List Bytes → ℕ → Memoized
span_from next [] si memo = next [] si memo
span_from next (s ∷ segs) si memo =
    let (res, memo') = next (s ∷ segs) si memo in
    let rest = span_from next segs (suc si) memo' in if res then (true, memo') else rest

-- What is left of a pattern segment that is not `**`.
unfoldable pub one_segment : (List Bytes → ℕ → Memoized) → Bytes → List Bytes → ℕ → Memoized
one_segment next p [] si memo = (false, memo)
one_segment next p (s ∷ segs) si memo =
    if match_segment p s then next segs (suc si) memo else (false, memo)

-- A `**` segment: at the end it takes at least one segment, before others any number.
abbrev pub any_depth : Bool → (List Bytes → ℕ → Memoized) → List Bytes → ℕ → Memoized
any_depth true next segs si memo = (not (is_nil segs), memo)
any_depth false next segs si memo = span_from next segs si memo

-- matchSegmentsExactAt, on the parts of both lists from the indices `pi` and `si` on.
unfoldable pub match_segments_exact_at : List Bytes → ℕ → List Bytes → ℕ → Memoized
unfolding memoize span_from one_segment
match_segments_exact_at [] pi segs si = memoize pi si (λ memo. (is_nil segs, memo))
match_segments_exact_at (p ∷ pat) pi segs si = memoize pi si (
    if eq_bytes p star_star
    then any_depth (is_nil pat) (match_segments_exact_at pat (suc pi)) segs si
    else one_segment (match_segments_exact_at pat (suc pi)) p segs si)

abbrev pub same_length : List Bytes → List Bytes → Bool
same_length xs ys = length xs == length ys

-- matchSegmentsExact
unfoldable pub match_segments_exact : List Bytes → List Bytes → Bool
unfolding match_segments_plain match_segments_exact_at
match_segments_exact pat segs =
    if not (contains_star_star pat)
    then same_length pat segs && match_segments_plain pat segs
    else (match_segments_exact_at pat 0 segs 0 []).0
