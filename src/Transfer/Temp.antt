-- ===== src/Transfer/Temp.antt =====
-- uploadTempPath, bakSuffix and isTempFileName of internal/uploader/transfer.go: the names of the
-- temporary files beside the files that are uploaded.
pub mod Names
use easy_sftp.Prelude.{
  ℕ, zero, suc, ◌+◌, ◌==◌, Bool, true, false, if◌then◌else◌, ◌||◌, ◌&&◌, not, List, [], ◌∷◌, ◌++◌,
  Bytes, codes, eq_bytes, Option, none, some, length, drop,
}
use easy_sftp.Strings.{last_index, decimal, is_digit}

-- tmpSuffix
abbrev pub tmp_suffix : Bytes
tmp_suffix = codes ".easysftp-tmp"

-- bakSuffix
abbrev pub bak_suffix : Bytes
bak_suffix = tmp_suffix ++ codes ".bak"

-- uploadTempPath
unfoldable pub upload_temp_path : Bytes → ℕ → Bytes
upload_temp_path remote_path index = remote_path ++ (tmp_suffix ++ b'.' ∷ decimal index)

abbrev pub all_digits : Bytes → Bool
all_digits [] = true
all_digits (c ∷ s) = is_digit c && all_digits s

-- The test of isTempFileName on what follows the suffix.
abbrev pub is_temp_rest : Bytes → Bool
is_temp_rest [] = true
is_temp_rest (c ∷ []) = false
is_temp_rest (c ∷ d ∷ s) =
    if eq_bytes (c ∷ d ∷ s) (codes ".bak")
    then true
    else (if not (c == b'.') then false else all_digits (d ∷ s))

-- isTempFileName
unfoldable pub is_temp_file_name : Bytes → Bool
is_temp_file_name name = elim (last_index name tmp_suffix) [
  | none ↦ false
  | some zero ↦ false
  | some (suc i) ↦ is_temp_rest (drop (suc i + length tmp_suffix) name)
]
