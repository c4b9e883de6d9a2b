-- ===== src/Gitignore/Segment/Glob.antt =====
-- What a pattern segment means: the tokens it is read as, and the texts that tokens describe.
use easy_sftp.Prelude.{ℕ, ◌==◌, ◌≡◌, ◌||◌, Bool, true, false, Bytes, List, [], ◌∷◌, ◌++◌, some}
use easy_sftp.Gitignore.Class.{bs, split_class}
use easy_sftp.Gitignore.Segment.{in_class}

pub data Token : Type 0 where
  lit : ℕ → Token
  one : Token
  run : Token
  class : Bytes → Token

-- Which bytes a token other than a run takes.
unfoldable pub takes : Token → ℕ → Bool
takes (lit c) x = x == c
takes one x = true
takes run x = false
takes (class body) x = in_class body x

-- The texts that a list of tokens describes: a run is any bytes at all, another token is one byte.
abbrev pub Describes : List Token → Bytes → Type 0
Describes [] s = s ≡ []
Describes (run ∷ ts) s =
    (before : Bytes) × (after : Bytes) × (s ≡ before ++ after) × Describes ts after
Describes (lit c ∷ ts) [] = ⊥
Describes (one ∷ ts) [] = ⊥
Describes (class body ∷ ts) [] = ⊥
Describes (lit c ∷ ts) (x ∷ s) = (takes (lit c) x ≡ true) × Describes ts s
Describes (one ∷ ts) (x ∷ s) = (takes one x ≡ true) × Describes ts s
Describes (class body ∷ ts) (x ∷ s) = (takes (class body) x ≡ true) × Describes ts s

abbrev pub is_special : ℕ → Bool
is_special c = c == bs || (c == b'?' || (c == b'*' || c == b'['))

-- How the text of a pattern is read. A pattern with an open class is not read at all.
pub data Reads : Bytes → List Token → Type 0 where
  end : Reads [] []
  last_backslash : (c : ℕ) → c ≡ bs → Reads (c ∷ []) (lit bs ∷ [])
  escape :
      (c d : ℕ) {p : Bytes} {ts : List Token} → c ≡ bs → Reads p ts → Reads (c ∷ d ∷ p) (lit d ∷ ts)
  question :
      (c : ℕ) {p : Bytes} {ts : List Token} → c ≡ b'?' → Reads p ts → Reads (c ∷ p) (one ∷ ts)
  asterisk :
      (c : ℕ) {p : Bytes} {ts : List Token} → c ≡ b'*' → Reads p ts → Reads (c ∷ p) (run ∷ ts)
  bracket :
      (c : ℕ) {p body rest : Bytes} {ts : List Token}
      → c ≡ b'['
      → split_class p ≡ some (body, rest)
      → Reads rest ts
      → Reads (c ∷ p) (class body ∷ ts)
  plain :
      (c : ℕ) {p : Bytes} {ts : List Token}
      → is_special c ≡ false
      → Reads p ts
      → Reads (c ∷ p) (lit c ∷ ts)
