-- ===== src/Gitignore/Compile.antt =====
-- compileGitignore, trimRightUnescapedSpace and parseGitignoreSegments of
-- internal/uploader/gitignore.go, and hasNegation of internal/uploader/planner.go.
pub mod Negation
pub mod Collapse
use easy_sftp.Prelude.{
  ℕ, zero, suc, ◌%◌, ◌==◌, ◌||◌, ◌&&◌, not, Bool, true, false, if◌then◌else◌, Bytes, List, [], ◌∷◌,
  Option, none, some, eq_bytes, length, reverse, codes, Result, ok, err, ◌>>=◌, ◌>>◌, refuse_if,
}
use easy_sftp.Strings.{split, has_prefix, ends_with, trim_suffix, contains_byte, trim_right}
use easy_sftp.SlashPath.{slash}
use easy_sftp.Gitignore.Class.{bs, split_class}
use easy_sftp.Gitignore.Segments.{star_star}
use easy_sftp.Gitignore.Matcher.{GitignorePattern, GitignoreMatcher}

-- hasNegation
abbrev pub has_negation : List Bytes → Bool
has_negation [] = false
has_negation (l ∷ lines) = has_prefix l (codes "!") || has_negation lines

-- The backslashes at the front of a reversed line.
abbrev pub backslashes : Bytes → ℕ
backslashes [] = 0
backslashes (c ∷ s) = if c == bs then suc (backslashes s) else 0

-- The loop of `trimRightUnescapedSpace`, on the reversed line.
unfoldable pub trim_spaces : Bytes → Bytes
trim_spaces [] = []
trim_spaces (c ∷ s) =
    let shorter = trim_spaces s in
    if c == b' ' then (if backslashes s % 2 == 1 then c ∷ s else shorter) else c ∷ s

-- trimRightUnescapedSpace
unfoldable pub trim_right_unescaped_space : Bytes → Bytes
unfolding trim_spaces
trim_right_unescaped_space line = reverse (trim_spaces (reverse line))

-- The errors of a line, with its number and its text.
pub data SyntaxError : Type 0 where
  unterminated_class lone_backslash nul_byte : ℕ → Bytes → SyntaxError

-- The bracket check of `parseGitignoreSegments`, after a byte that is or is not a backslash. Each
-- round takes at least one byte, so fuel for the length is enough.
unfoldable pub classes_close : ℕ → Bool → Bytes → Bool
classes_close f escaped [] = true
classes_close zero escaped (c ∷ body) = false
classes_close (suc f) escaped (c ∷ body) = elim (not (c == b'[') || escaped) [
  | true ↦ classes_close f (c == bs) body
  | false ↦ elim (split_class body) [ none ↦ false | some (_, rest) ↦ classes_close f false rest ]
]

-- The loop that makes a run of `**` segments one.
unfoldable pub collapse : Bool → List Bytes → List Bytes
collapse after_star [] = []
collapse after_star (seg ∷ segments) =
    let rest = collapse (eq_bytes seg star_star) segments in
    if eq_bytes seg star_star && after_star then rest else seg ∷ rest

-- parseGitignoreSegments
unfoldable pub parse_segments : Bytes → ℕ → Bytes → Result SyntaxError (List Bytes)
unfolding classes_close collapse
parse_segments body line_no raw = do
  refuse_if (not (classes_close (length body) false body)) (unterminated_class line_no raw)
  refuse_if (ends_with body bs) (lone_backslash line_no raw)
  refuse_if (contains_byte body 0) (nul_byte line_no raw)
  ok (collapse false (split body))

-- The negation prefix of a line, and what is left: a leading `\!` loses its backslash.
abbrev pub is_negated : Bytes → Bool
is_negated line = has_prefix line (codes "!")

abbrev pub strip_prefix : Bytes → Bytes
strip_prefix [] = []
strip_prefix (c ∷ s) =
    if c == b'!' then s else (if has_prefix (c ∷ s) (codes "\\!") then s else c ∷ s)

-- A slash anywhere but at the end anchors a pattern.
abbrev pub is_anchored : Bytes → Bool
is_anchored body = has_prefix body slash || contains_byte (trim_suffix body b'/') b'/'

abbrev pub strip_root : Bytes → Bytes
strip_root [] = []
strip_root (c ∷ s) = if c == b'/' then s else c ∷ s

abbrev pub strip_end : Bytes → Bytes
strip_end body = if ends_with body b'/' then trim_suffix body b'/' else body

-- The pattern of a line with something left behind its prefix.
unfoldable pub parse_body : Bool → Bytes → ℕ → Bytes → Result SyntaxError (Option GitignorePattern)
unfolding parse_segments
parse_body negate body line_no raw = do
  segments ← parse_segments (strip_end (strip_root body)) line_no raw
  ok (
      some (record {
        line = raw;
        negate = negate;
        dir_only = ends_with (strip_root body) b'/';
        anchored = is_anchored body;
        segments = segments;
      }))

-- A line whose comments and blanks are gone.
unfoldable pub parse_trimmed : Bytes → ℕ → Bytes → Result SyntaxError (Option GitignorePattern)
unfolding parse_body
parse_trimmed line line_no raw =
    if eq_bytes line []
    then ok none
    else (if eq_bytes (strip_prefix line) []
        then ok none
        else parse_body (is_negated line) (strip_prefix line) line_no raw)

-- One round of the loop of `compileGitignore`.
unfoldable pub parse_line : ℕ → Bytes → Result SyntaxError (Option GitignorePattern)
unfolding parse_trimmed trim_right_unescaped_space
parse_line line_no raw =
    let line = trim_right raw b'\r' in
    if has_prefix line (codes "#")
    then ok none
    else parse_trimmed (trim_right_unescaped_space line) line_no raw

abbrev pub add_pattern : Option GitignorePattern → GitignoreMatcher → GitignoreMatcher
add_pattern none m = m
add_pattern (some p) m = p ∷ m

-- compileGitignore, on the lines from number `line_no` on.
unfoldable pub compile_from : ℕ → List Bytes → Result SyntaxError GitignoreMatcher
unfolding parse_line
compile_from line_no [] = ok []
compile_from line_no (raw ∷ lines) = do
  p ← parse_line line_no raw
  m ← compile_from (suc line_no) lines
  ok (add_pattern p m)

unfoldable pub compile_gitignore : List Bytes → Result SyntaxError GitignoreMatcher
unfolding compile_from
compile_gitignore lines = compile_from 1 lines
