-- ===== src/Tests/Gitignore.antt =====
-- Runs of internal/uploader/gitignore.go on concrete patterns, and its theorems there.
use easy_sftp.Prelude.{◌≡◌, refl, true, false, Bytes, List, [], ◌∷◌, codes, ok, ◌↔◌}
use easy_sftp.Strings.{split}
use easy_sftp.Gitignore.Class.{split_class}
use easy_sftp.Gitignore.Segment.{match_segment}
use easy_sftp.Gitignore.Segment.Glob.{run, class, Describes, Reads, end, asterisk, bracket}
use easy_sftp.Gitignore.Segment.Correct.{match_segment-Describes}
use easy_sftp.Gitignore.Segments.{match_segments_exact}
use easy_sftp.Gitignore.Segments.Meaning.{Names}
use easy_sftp.Gitignore.Segments.Correct.{match_segments_exact-Names}
use easy_sftp.Gitignore.Matcher.{GitignorePattern, matches_path, matches_segments, matches_how}
use easy_sftp.Gitignore.Matcher.LastWins.{IsExcluded, matches_segments-IsExcluded}
use easy_sftp.Gitignore.Compile.{compile_gitignore}

segment_run : match_segment (codes "*.[ch]?") (codes "main.c1") ≡ true
unfolding match_segment
segment_run = refl

negated_run : match_segment (codes "[!a-c]x") (codes "bx") ≡ false
unfolding match_segment
negated_run = refl

deep_run :
    match_segments_exact
      (codes "a" ∷ codes "**" ∷ codes "b" ∷ [])
      (codes "a" ∷ codes "x" ∷ codes "y" ∷ codes "b" ∷ [])
    ≡ true
unfolding match_segments_exact match_segment
deep_run = refl

-- "dist" excludes all below it, and a later "!dist/keep.js" re-includes one file.
abbrev dist_lines : List Bytes
dist_lines = codes "dist" ∷ codes "!dist/keep.js" ∷ []

abbrev dist_pattern : GitignorePattern
dist_pattern = record {
  line = codes "dist";
  negate = false;
  dir_only = false;
  anchored = false;
  segments = codes "dist" ∷ [];
}

abbrev keep_pattern : GitignorePattern
keep_pattern = record {
  line = codes "!dist/keep.js";
  negate = true;
  dir_only = false;
  anchored = true;
  segments = codes "dist" ∷ codes "keep.js" ∷ [];
}

compile_run : compile_gitignore dist_lines ≡ ok (dist_pattern ∷ keep_pattern ∷ [])
unfolding compile_gitignore split split_class
compile_run = refl

excluded_run : (matches_how (dist_pattern ∷ keep_pattern ∷ []) (codes "x/dist/a.js") false).0 ≡ true
unfolding matches_how matches_path match_segments_exact match_segment split
excluded_run = refl

kept_run : (matches_how (dist_pattern ∷ keep_pattern ∷ []) (codes "dist/keep.js") false).0 ≡ false
unfolding matches_how matches_path match_segments_exact match_segment split
kept_run = refl

-- The pattern `*[ab]` is read as a run and a class.
star_class : Reads (codes "*[ab]") (run ∷ class (codes "ab") ∷ [])
unfolding split_class
star_class = asterisk b'*' refl (bracket b'[' refl refl end)

match_segment-Describes_example :
    (match_segment (codes "*[ab]") (codes "xyb") ≡ true)
    ↔ Describes (run ∷ class (codes "ab") ∷ []) (codes "xyb")
match_segment-Describes_example =
    match_segment-Describes (codes "*[ab]") (run ∷ class (codes "ab") ∷ []) (codes "xyb") star_class

match_segments_exact-Names_example :
    (match_segments_exact (codes "**" ∷ codes "b" ∷ []) (codes "a" ∷ codes "b" ∷ []) ≡ true)
    ↔ Names (codes "**" ∷ codes "b" ∷ []) (codes "a" ∷ codes "b" ∷ [])
match_segments_exact-Names_example =
    match_segments_exact-Names (codes "**" ∷ codes "b" ∷ []) (codes "a" ∷ codes "b" ∷ [])

matches_segments-IsExcluded_example :
    ((matches_segments
        (dist_pattern ∷ keep_pattern ∷ [])
        (codes "dist" ∷ codes "a.js" ∷ [])
        false).0
      ≡ true)
    ↔ IsExcluded (dist_pattern ∷ keep_pattern ∷ []) (codes "dist" ∷ codes "a.js" ∷ []) false
matches_segments-IsExcluded_example =
    matches_segments-IsExcluded (dist_pattern ∷ keep_pattern ∷ [])
      (codes "dist" ∷ codes "a.js" ∷ []) false

dist_excluded : (matches_how (dist_pattern ∷ []) (codes "dist") true).0 ≡ true
unfolding matches_how matches_path match_segments_exact match_segment split
dist_excluded = refl

compile_dist : compile_gitignore (codes "dist" ∷ []) ≡ ok (dist_pattern ∷ [])
unfolding compile_gitignore split split_class
compile_dist = refl
