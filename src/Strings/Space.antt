-- ===== src/Strings/Space.antt =====
-- unicode.IsSpace on UTF-8 text, strings.Fields and strings.TrimSpace. No byte that begins the encoding of
-- a space continues another character, so that the texts can be read byte by byte.
use easy_sftp.Prelude.{
  ℕ, zero, suc, ◌-◌, ◌==◌, leb, Bool, ◌&&◌, ◌||◌, if◌then◌else◌, List, [], ◌∷◌, Bytes, reverse,
}

abbrev is_ascii_space : ℕ → Bool
is_ascii_space c = (leb 9 c && leb c 13) || c == 32

-- The bytes of the space that the text begins with: U+0085 and U+00A0 have two of them, and U+1680, U+2000
-- to U+200A, U+2028, U+2029, U+202F, U+205F and U+3000 have three.
unfoldable pub space_width : Bytes → ℕ
space_width [] = 0
space_width (a ∷ []) = if is_ascii_space a then 1 else 0
space_width (a ∷ b ∷ []) =
    if is_ascii_space a then 1 else (if a == 0xC2 && (b == 0x85 || b == 0xA0) then 2 else 0)
space_width (a ∷ b ∷ c ∷ s) =
    if is_ascii_space a
    then 1
    else (if a == 0xC2 && (b == 0x85 || b == 0xA0)
        then 2
        else (if (a == 0xE1 && b == 0x9A && c == 0x80)
              || (a == 0xE2
                  && b == 0x80
                  && (leb 0x80 c && leb c 0x8A || c == 0xA8 || c == 0xA9 || c == 0xAF))
              || (a == 0xE2 && b == 0x81 && c == 0x9F)
              || (a == 0xE3 && b == 0x80 && c == 0x80)
            then 3
            else 0))

-- The field that ends, if it is not empty; its bytes were collected backwards.
abbrev pub end_field : Bytes → List Bytes → List Bytes
end_field [] rest = rest
end_field (c ∷ field) rest = reverse (c ∷ field) ∷ rest

-- The fields, with the bytes left of a space that began and the field so far.
unfoldable pub fields_from : ℕ → Bytes → Bytes → List Bytes
unfolding space_width
fields_from skip field [] = end_field field []
fields_from (suc skip) field (c ∷ s) = fields_from skip field s
fields_from zero field (c ∷ s) =
    let width = space_width (c ∷ s) in
    let rest = fields_from (width - 1) (if width == 0 then c ∷ field else []) s in
    if width == 0 then rest else end_field field rest

-- strings.Fields
unfoldable pub fields : Bytes → List Bytes
unfolding fields_from
fields s = fields_from 0 [] s

unfoldable pub trim_left_from : ℕ → Bytes → Bytes
unfolding space_width
trim_left_from skip [] = []
trim_left_from (suc skip) (c ∷ s) = trim_left_from skip s
trim_left_from zero (c ∷ s) =
    let width = space_width (c ∷ s) in
    let rest = trim_left_from (width - 1) s in if width == 0 then c ∷ s else rest

-- strings.TrimRightFunc(s, unicode.IsSpace)
unfoldable pub trim_right_space : Bytes → Bytes
unfolding trim_left_from
trim_right_space [] = []
trim_right_space (c ∷ s) = elim (trim_left_from 0 (c ∷ s)) [
  | [] ↦ []
  | d ∷ left ↦ c ∷ trim_right_space s
]

-- strings.TrimSpace
unfoldable pub trim_space : Bytes → Bytes
unfolding trim_right_space
trim_space s = trim_right_space (trim_left_from 0 s)
