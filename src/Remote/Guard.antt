-- ===== src/Remote/Guard.antt =====
-- NormalizeRemote of internal/config/config.go, isDriveRoot and checkRemoteRoot of
-- internal/uploader/remote.go.
pub mod Target
use easy_sftp.Prelude.{
  ℕ, ◌==◌, leb, ◌||◌, ◌&&◌, Bool, true, false, if◌then◌else◌, List, Bytes, [], ◌∷◌, map, eq_bytes,
  codes, Result, ok, err,
}
use easy_sftp.SlashPath.{dot, slash, clean, climbs}

-- strings.ReplaceAll(remote, "\\", "/")
abbrev pub to_slash : Bytes → Bytes
to_slash = map (λ c. if c == 92 then b'/' else c)

-- NormalizeRemote
unfoldable pub normalize_remote : Bytes → Bytes
normalize_remote remote = clean (to_slash remote)

-- An ASCII letter, either case.
abbrev pub is_letter : ℕ → Bool
is_letter c = (leb b'A' c && leb c b'Z') || (leb b'a' c && leb c b'z')

-- isDriveRoot
abbrev pub is_drive_root : Bytes → Bool
is_drive_root (letter ∷ colon ∷ []) = colon == b':' && is_letter letter
is_drive_root (first ∷ letter ∷ colon ∷ []) = first == b'/' && (colon == b':' && is_letter letter)
is_drive_root _ = false

pub data RootRefusal : Type 0 where
  is_root is_drive is_above : RootRefusal

-- The cases of `checkRemoteRoot`, on the normalized path.
unfoldable pub check_normalized : Bytes → Result RootRefusal (Unit {0})
check_normalized p =
    if eq_bytes p slash || (eq_bytes p dot || (eq_bytes p [] || eq_bytes p (codes "~")))
    then err is_root
    else (if is_drive_root p then err is_drive else (if climbs p then err is_above else ok tt))

-- checkRemoteRoot
unfoldable pub check_remote_root : Bytes → Result RootRefusal (Unit {0})
unfolding normalize_remote check_normalized
check_remote_root remote = check_normalized (normalize_remote remote)
