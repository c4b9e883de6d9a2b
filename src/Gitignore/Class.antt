-- ===== src/Gitignore/Class.antt =====
-- splitClass and classContains of internal/uploader/gitignore.go: character classes.
pub mod Members
use easy_sftp.Prelude.{
  ℕ, ◌==◌, leb, ◌||◌, ◌&&◌, Bool, true, false, if◌then◌else◌, Bytes, [], ◌∷◌, Option, none, some,
}

-- BS
abbrev pub bs : ℕ
bs = 92

abbrev pub in_front : Bytes → Option (Bytes × Bytes) → Option (Bytes × Bytes)
in_front s none = none
in_front [] (some (body, rest)) = some (body, rest)
in_front (c ∷ []) (some (body, rest)) = some (c ∷ body, rest)
in_front (c ∷ d ∷ s) (some (body, rest)) = some (c ∷ d ∷ body, rest)

-- The loop of `splitClass`, on what follows the bracket: a backslash takes the next byte with it.
unfoldable pub scan_class : Bytes → Option (Bytes × Bytes)
scan_class [] = none
scan_class (c ∷ []) = if c == bs then none else (if c == b']' then some ([], []) else none)
scan_class (c ∷ d ∷ t) = elim (c == bs) [
  | true ↦ in_front (c ∷ d ∷ []) (scan_class t)
  | false ↦ elim (c == b']') [
    | true ↦ some ([], d ∷ t)
    | false ↦ in_front (c ∷ []) (scan_class (d ∷ t))
  ]
]

-- splitClass, on what follows the opening bracket: a first `]` is a member.
unfoldable pub split_class : Bytes → Option (Bytes × Bytes)
unfolding scan_class
split_class [] = scan_class []
split_class (c ∷ t) = if c == b']' then in_front (c ∷ []) (scan_class t) else scan_class (c ∷ t)

-- classContains
unfoldable pub class_contains : Bytes → ℕ → Bool
class_contains [] c = false
class_contains (x ∷ []) c = x == c
class_contains (x ∷ y ∷ []) c = elim (x == bs) [
  | true ↦ c == y
  | false ↦ x == c || class_contains (y ∷ []) c
]
class_contains (x ∷ y ∷ z ∷ t) c = elim (x == bs) [
  | true ↦ c == y || class_contains (z ∷ t) c
  | false ↦ elim (y == b'-') [
    | true ↦ (leb x c && leb c z) || class_contains t c
    | false ↦ x == c || class_contains (y ∷ z ∷ t) c
  ]
]
