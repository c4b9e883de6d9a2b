-- ===== src/Remote/Confine.antt =====
-- safeJoin, safeChild and within of internal/uploader/remote.go: a path that the server or a
-- manifest supplies is joined onto a base only if it stays under it.
pub mod Within
pub mod Joined
use easy_sftp.Prelude.{
  ◌==◌, ◌||◌, ◌&&◌, Bool, true, false, not, if◌then◌else◌, Bytes, [], ◌∷◌, ◌++◌, eq_bytes, codes,
  Result, ok, err, ◌>>=◌, ◌>>◌, refuse_if,
}
use easy_sftp.Strings.{has_prefix, trim_suffix, contains_byte}
use easy_sftp.SlashPath.{dot, slash, clean, join, climbs}

-- The errors of `safeJoin` and `safeChild`, with the path that the message shows.
pub data Refusal : Type 0 where
  names_no_file : Refusal
  is_absolute : Refusal
  resolves_outside : Bytes → Refusal
  holds_slash : Refusal

-- within
unfoldable pub within : Bytes → Bytes → Bool
within base full =
    let b = clean base in
    if eq_bytes b dot
    then not (has_prefix full slash) && not (climbs full)
    else (if eq_bytes full b then false else has_prefix full (trim_suffix b b'/' ++ slash))

-- safeJoin
unfoldable pub safe_join : Bytes → Bytes → Result Refusal Bytes
safe_join base rel = do
  refuse_if (eq_bytes rel [] || eq_bytes rel dot) names_no_file
  refuse_if (has_prefix rel slash) is_absolute
  let cleaned = clean rel
  refuse_if (climbs cleaned) (resolves_outside (join base cleaned))
  let full = join base cleaned
  refuse_if (not (within base full)) (resolves_outside full)
  ok full

-- safeChild
unfoldable pub safe_child : Bytes → Bytes → Result Refusal Bytes
safe_child dir name = do refuse_if (contains_byte name b'/') holds_slash; safe_join dir name
