-- ===== src/Gitignore/Segments/Meaning.antt =====
-- What the segments of a pattern mean, with no search order in it.
use easy_sftp.Prelude.{◌≡◌, ◌≢◌, Bool, true, false, Bytes, List, [], ◌∷◌, ◌++◌, eq_bytes}
use easy_sftp.Gitignore.Segment.{match_segment}
use easy_sftp.Gitignore.Segments.{star_star, is_nil}

-- A `**` before other segments stands for any number of path segments, one at the end for at least
-- one, and every other segment for one path segment that it matches.
abbrev pub HeadNames : Bool → Bool → Bytes → (List Bytes → Type 0) → List Bytes → Type 0
HeadNames true true p Rest segs = segs ≢ []
HeadNames true false p Rest segs =
    (before : List Bytes) × (after : List Bytes) × (segs ≡ before ++ after) × Rest after
HeadNames false last p Rest [] = ⊥
HeadNames false last p Rest (s ∷ segs) = (match_segment p s ≡ true) × Rest segs

abbrev pub Names : List Bytes → List Bytes → Type 0
Names [] segs = segs ≡ []
Names (p ∷ pat) segs = HeadNames (eq_bytes p star_star) (is_nil pat) p (Names pat) segs
