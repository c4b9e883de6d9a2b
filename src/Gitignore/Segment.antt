-- ===== src/Gitignore/Segment.antt =====
-- matchSegment and matchSegmentHere of internal/uploader/gitignore.go: one pattern segment against
-- one path segment.
pub mod Glob
pub mod Correct
use easy_sftp.Prelude.{
  ℕ, zero, suc, ◌==◌, ◌||◌, ◌&&◌, not, Bool, true, false, if◌then◌else◌, Bytes, [], ◌∷◌, Option,
  none, some, eq_bytes, length,
}
use easy_sftp.Strings.{contains_byte}
use easy_sftp.Gitignore.Class.{bs, split_class, class_contains}

-- The rest of the match: a pattern and the text that is left for it.
abbrev pub Match : Type 0
Match = Bytes → Bytes → Bool

abbrev pub is_empty : Bytes → Bool
is_empty [] = true
is_empty (_ ∷ _) = false

-- case BS, on what follows the backslash
abbrev pub match_escape : Match → Bytes → Bytes → Bool
match_escape next [] str = eq_bytes str (bs ∷ [])
match_escape next (c ∷ p) [] = false
match_escape next (c ∷ p) (x ∷ s) = x == c && next p s

-- case '?'
abbrev pub match_one : Match → Bytes → Bytes → Bool
match_one next p [] = false
match_one next p (x ∷ s) = next p s

-- case '*': every split of the text is tried, the shortest run first.
unfoldable pub match_run : Match → Bytes → Bytes → Bool
match_run next p [] = next p []
match_run next p (x ∷ s) = next p (x ∷ s) || match_run next p s

-- The negation prefix of a class, and its members.
abbrev pub negated : Bytes → Bool
negated [] = false
negated (c ∷ body) = c == b'!' || c == b'^'

abbrev pub members : Bytes → Bytes
members [] = []
members (c ∷ body) = if c == b'!' || c == b'^' then body else c ∷ body

-- Whether a class takes a byte.
unfoldable pub in_class : Bytes → ℕ → Bool
in_class body c =
    if negated body then not (class_contains (members body) c) else class_contains (members body) c

-- case '[', on what follows the bracket
abbrev pub match_bracket : Match → Bytes → Bytes → Option (Bytes × Bytes) → Bool
match_bracket next p str none = if eq_bytes str (b'[' ∷ []) then next p [] else false
match_bracket next p [] (some (body, rest)) = false
match_bracket next p (x ∷ s) (some (body, rest)) = in_class body x && next rest s

-- default
abbrev pub match_literal : Match → ℕ → Bytes → Bytes → Bool
match_literal next c p [] = false
match_literal next c p (x ∷ s) = x == c && next p s

-- One round of the loop of `matchSegmentHere`.
unfoldable pub match_round : Match → ℕ → Bytes → Bytes → Bool
unfolding match_run in_class split_class class_contains
match_round next c p str =
    if c == bs
    then match_escape next p str
    else (if c == b'?'
        then match_one next p str
        else (if c == b'*'
            then match_run next p str
            else (if c == b'['
                then match_bracket next p str (split_class p)
                else match_literal next c p str)))

-- matchSegmentHere: each round takes at least one byte off the pattern, so fuel for its length is
-- never used up.
unfoldable pub match_segment_here : ℕ → Bytes → Bytes → Bool
unfolding match_round
match_segment_here f [] str = is_empty str
match_segment_here zero (c ∷ p) str = false
match_segment_here (suc f) (c ∷ p) str = match_round (match_segment_here f) c p str

-- strings.ContainsAny(pat, "*?[") or a backslash
abbrev pub has_meta : Bytes → Bool
has_meta [] = false
has_meta (c ∷ p) = (c == b'*' || (c == b'?' || (c == b'[' || c == bs))) || has_meta p

-- matchSegment
unfoldable pub match_segment : Bytes → Bytes → Bool
unfolding match_segment_here
match_segment pat str =
    if has_meta pat then match_segment_here (length pat) pat str else eq_bytes pat str
