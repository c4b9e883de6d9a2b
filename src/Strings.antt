-- ===== src/Strings.antt =====
-- The functions of Go's `strings` package that the sources call, over byte sequences, and the laws
-- of splitting at slashes and joining again.
use easy_sftp.Prelude.{
  ℕ, ◌==◌, Bool, true, false, ◌&&◌, ◌||◌, not, if◌then◌else◌, List, [], ◌∷◌, ◌++◌, Bytes, Option,
  none, some, reverse,
}
mod Split
mod Sort
mod Find
mod Decimal
mod Space
unfoldable pub use Split.*
unfoldable pub use Sort.*
unfoldable pub use Find.*
unfoldable pub use Decimal.*
unfoldable pub use Space.*

-- strings.HasSuffix(s, "/"), for one byte
abbrev pub ends_with : Bytes → ℕ → Bool
ends_with [] c = false
ends_with (x ∷ []) c = x == c
ends_with (x ∷ y ∷ s) c = ends_with (y ∷ s) c

-- strings.TrimSuffix(s, "/"), for one byte
abbrev pub trim_suffix : Bytes → ℕ → Bytes
trim_suffix [] c = []
trim_suffix (x ∷ []) c = if x == c then [] else x ∷ []
trim_suffix (x ∷ y ∷ s) c = x ∷ trim_suffix (y ∷ s) c

-- strings.Contains(s, "/") and strings.IndexByte(s, c) >= 0
abbrev pub contains_byte : Bytes → ℕ → Bool
contains_byte [] c = false
contains_byte (x ∷ s) c = x == c || contains_byte s c

-- strings.TrimRight(s, "\r"), for one byte
abbrev pub trim_right : Bytes → ℕ → Bytes
trim_right [] c = []
trim_right (x ∷ s) c = elim (trim_right s c) [
  | [] ↦ if x == c then [] else x ∷ []
  | y ∷ t ↦ x ∷ y ∷ t
]
