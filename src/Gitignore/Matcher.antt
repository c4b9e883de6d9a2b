-- ===== src/Gitignore/Matcher.antt =====
-- gitignorePattern, matchesPath, lastMatchIdx and matchesHow of internal/uploader/gitignore.go: which
-- pattern decides a path.
pub mod LastWins
pub mod Plain
use easy_sftp.Prelude.{
  ℕ, zero, suc, ◌-◌, ◌==◌, ltb, ◌||◌, ◌&&◌, not, Bool, true, false, if◌then◌else◌, Bytes, List, [],
  ◌∷◌, Option, none, some, eq_bytes, length, take,
}
use easy_sftp.Strings.{split}
use easy_sftp.SlashPath.{dot}
use easy_sftp.Gitignore.Segments.{match_segments_exact}

pub record GitignorePattern : Type 0 where
  pub line : Bytes
  pub negate : Bool
  pub dir_only : Bool
  pub anchored : Bool
  pub segments : List Bytes

-- gitignoreMatcher
abbrev pub GitignoreMatcher : Type 0
GitignoreMatcher = List GitignorePattern

-- segs[len(segs)-1:]
abbrev pub last_segment : List Bytes → List Bytes
last_segment [] = []
last_segment (s ∷ []) = s ∷ []
last_segment (s ∷ t ∷ segs) = last_segment (t ∷ segs)

-- matchesPath
unfoldable pub matches_path : GitignorePattern → List Bytes → Bool → Bool
matches_path p [] is_dir =
    if p.dir_only && not is_dir
    then false
    else (if p.anchored then match_segments_exact p.segments [] else false)
matches_path p (s ∷ segs) is_dir =
    if p.dir_only && not is_dir
    then false
    else (if p.anchored
        then match_segments_exact p.segments (s ∷ segs)
        else match_segments_exact p.segments (last_segment (s ∷ segs)))

-- A pattern with its index in the list.
abbrev pub Found : Type 0
Found = Option (ℕ × GitignorePattern)

-- lastMatchIdx, on the patterns from the index `i` on.
unfoldable pub last_match_idx : ℕ → GitignoreMatcher → List Bytes → Bool → Found
last_match_idx i [] segs is_dir = none
last_match_idx i (p ∷ ps) segs is_dir = elim (last_match_idx (suc i) ps segs is_dir) [
  | some found ↦ some found
  | none ↦ if matches_path p segs is_dir then some (i, p) else none
]

-- Whether a found pattern excludes, and lies behind the best one so far.
abbrev pub later : ℕ → Found → Bool
later i none = true
later i (some (j, q)) = ltb j i

abbrev pub better : Found → Found → Found
better none best = best
better (some (i, p)) best = if not p.negate && later i best then some (i, p) else best

-- The loop of `matchesHow` over the ancestors with at most `k` segments.
unfoldable pub deciding_ancestor : ℕ → GitignoreMatcher → List Bytes → Found → Found
unfolding last_match_idx
deciding_ancestor zero m segs best = best
deciding_ancestor (suc k) m segs best =
    deciding_ancestor k m segs (better (last_match_idx 0 m (take (suc k) segs) true) best)

-- The verdict from what decided the path itself and what decided its ancestors.
abbrev pub verdict : Found → Found → Bool × Option GitignorePattern
verdict none none = (false, none)
verdict none (some (j, q)) = (true, some q)
verdict (some (i, p)) none = if not p.negate then (true, some p) else (false, some p)
verdict (some (i, p)) (some (j, q)) =
    if not p.negate then (true, some p) else (if ltb j i then (false, some p) else (true, some q))

-- `matchesHow` on the segments of a path.
unfoldable pub matches_segments :
    GitignoreMatcher → List Bytes → Bool → Bool × Option GitignorePattern
unfolding last_match_idx deciding_ancestor
matches_segments m segs is_dir =
    verdict (last_match_idx 0 m segs is_dir) (deciding_ancestor (length segs - 1) m segs none)

-- matchesHow
unfoldable pub matches_how : GitignoreMatcher → Bytes → Bool → Bool × Option GitignorePattern
unfolding matches_segments
matches_how m path is_dir =
    if eq_bytes path dot then (false, none) else matches_segments m (split path) is_dir
