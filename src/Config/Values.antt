-- ===== src/Config/Values.antt =====
-- How internal/config/config.go reads the texts of the inputs: lines, numbers, Booleans, modes and names.
pub mod Numbers
use easy_sftp.Prelude.{
  ℕ, zero, suc, ◌+◌, ◌-◌, ◌*◌, ◌==◌, ltb, leb, Bool, true, false, ◌&&◌, ◌||◌, not, if◌then◌else◌,
  List, [], ◌∷◌, ◌++◌, Bytes, codes, eq_bytes, Option, none, some, Result, ok, err,
}
use easy_sftp.Strings.{contains_byte, has_prefix, trim_space, is_digit}

-- Go's int: `negsuc n` is -(n + 1).
pub data ℤ : Type 0 where
  pos : ℕ → ℤ
  negsuc : ℕ → ℤ

-- n < 1, n < 0 and n > limit.
abbrev pub below_one : ℤ → Bool
below_one (pos n) = n == 0
below_one (negsuc n) = true

abbrev pub is_negative : ℤ → Bool
is_negative (pos n) = false
is_negative (negsuc n) = true

abbrev pub is_above : ℕ → ℤ → Bool
is_above limit (pos n) = ltb limit n
is_above limit (negsuc n) = false

abbrev pub onto_line : ℕ → List Bytes → List Bytes
onto_line c [] = (c ∷ []) ∷ []
onto_line c (line ∷ lines) = (c ∷ line) ∷ lines

-- strings.Split(s, "\n")
unfoldable pub newline_parts : Bytes → List Bytes
newline_parts [] = [] ∷ []
newline_parts (c ∷ s) = if c == 10 then [] ∷ newline_parts s else onto_line c (newline_parts s)

-- What is left of a line; that it ends in a carriage return makes no difference, which is a space.
abbrev pub keep_line : Bytes → List Bytes → List Bytes
keep_line [] rest = rest
keep_line (c ∷ line) rest = if c == b'#' then rest else (c ∷ line) ∷ rest

unfoldable pub kept_lines : List Bytes → List Bytes
unfolding trim_space
kept_lines [] = []
kept_lines (line ∷ lines) = keep_line (trim_space line) (kept_lines lines)

-- splitLines
unfoldable pub split_lines : Bytes → List Bytes
unfolding newline_parts kept_lines
split_lines s = kept_lines (newline_parts s)

-- The value of decimal digits, if there is no other byte.
abbrev pub digits_value : ℕ → Bytes → Option ℕ
digits_value acc [] = some acc
digits_value acc (c ∷ s) =
    let rest = digits_value (acc * 10 + (c - b'0')) s in if is_digit c then rest else none

abbrev pub positive : Option ℕ → Option ℤ
positive none = none
positive (some n) = if leb n 9223372036854775807 then some (pos n) else none

abbrev pub negative : Option ℕ → Option ℤ
negative none = none
negative (some zero) = some (pos 0)
negative (some (suc n)) = if leb (suc n) 9223372036854775808 then some (negsuc n) else none

abbrev pub unsigned : Bytes → Option ℕ
unsigned [] = none
unsigned (c ∷ s) = digits_value 0 (c ∷ s)

-- strconv.Atoi
unfoldable pub atoi : Bytes → Option ℤ
atoi [] = none
atoi (c ∷ s) =
    if c == b'-'
    then negative (unsigned s)
    else (if c == b'+' then positive (unsigned s) else positive (unsigned (c ∷ s)))

-- parseInt
unfoldable pub parse_int : Bytes → ℤ → Option ℤ
unfolding atoi
parse_int [] def = some def
parse_int (c ∷ s) def = atoi (c ∷ s)

abbrev pub is_one_of : Bytes → List Bytes → Bool
is_one_of s [] = false
is_one_of s (t ∷ ts) = eq_bytes s t || is_one_of s ts

-- strconv.ParseBool
unfoldable pub go_parse_bool : Bytes → Option Bool
go_parse_bool s =
    if is_one_of s
      (codes "1" ∷ codes "t" ∷ codes "T" ∷ codes "TRUE" ∷ codes "true" ∷ codes "True" ∷ [])
    then some true
    else (if is_one_of s
          (codes "0" ∷ codes "f" ∷ codes "F" ∷ codes "FALSE" ∷ codes "false" ∷ codes "False" ∷ [])
        then some false
        else none)

-- parseBool
unfoldable pub parse_bool : Bytes → Bool → Option Bool
unfolding go_parse_bool
parse_bool [] def = some def
parse_bool (c ∷ s) def = go_parse_bool (c ∷ s)

-- DefaultManifestName
abbrev pub default_manifest_name : Bytes
default_manifest_name = codes ".easysftp-manifest.json"

-- parseManifestName
unfoldable pub parse_manifest_name : Bytes → Option Bytes
parse_manifest_name [] = some default_manifest_name
parse_manifest_name (c ∷ s) =
    if contains_byte (c ∷ s) b'/'
      || contains_byte (c ∷ s) 92
      || eq_bytes (c ∷ s) (codes ".")
      || eq_bytes (c ∷ s) (codes "..")
    then none
    else some (c ∷ s)

-- SyncManifestName
abbrev pub sync_manifest_name : Bytes → Bytes
sync_manifest_name [] = default_manifest_name
sync_manifest_name (c ∷ s) = c ∷ s

abbrev pub is_octal : ℕ → Bool
is_octal c = leb b'0' c && leb c b'7'

-- The value of octal digits, if there is no other byte.
abbrev pub octal_value : ℕ → Bytes → Option ℕ
octal_value acc [] = some acc
octal_value acc (c ∷ s) =
    let rest = octal_value (acc * 8 + (c - b'0')) s in if is_octal c then rest else none

abbrev pub within_mode : Option ℕ → Option (Option ℕ)
within_mode none = none
within_mode (some v) = if ltb 511 v then none else some (some v)

-- parseMode: no mode, a mode, or an error. A number that ParseUint refuses for its size is above 0o777.
unfoldable pub parse_mode : Bytes → Option (Option ℕ)
parse_mode [] = some none
parse_mode (c ∷ s) = within_mode (octal_value 0 (c ∷ s))

pub data LogLevel : Type 0 where
  log_normal log_verbose log_debug : LogLevel

-- resolveLogLevel
unfoldable pub resolve_log_level : Bytes → Option LogLevel
resolve_log_level input =
    if eq_bytes input [] || eq_bytes input (codes "normal")
    then some log_normal
    else (if eq_bytes input (codes "verbose")
        then some log_verbose
        else (if eq_bytes input (codes "debug") then some log_debug else none))
