-- ===== src/HostKeys/Fingerprint.antt =====
-- parseHostKeyFingerprint of internal/uploader/hostkeys.go with the tests behind its error messages.
pub mod Parsed
use easy_sftp.Prelude.{
  ℕ, Bool, true, false, ◌||◌, if◌then◌else◌, List, [], ◌∷◌, Bytes, codes, Result, ok, err,
}
use easy_sftp.Strings.{has_prefix, fields}

-- The errors of parseHostKeyFingerprint, by the advice in their messages.
pub data FingerprintError : Type 0 where
  no_fields two_fingerprints is_md5 is_known_hosts is_public_key is_other : FingerprintError

abbrev pub is_key_type : Bytes → Bool
is_key_type f =
    has_prefix f (codes "ssh-") || has_prefix f (codes "ecdsa-") || has_prefix f (codes "sk-")

-- isKnownHostsLine
unfoldable pub is_known_hosts_line : List Bytes → Bool
is_known_hosts_line [] = false
is_known_hosts_line (f ∷ []) = has_prefix f (codes "|1|") || has_prefix f (codes "@")
is_known_hosts_line (f ∷ g ∷ fs) =
    if has_prefix f (codes "|1|") || has_prefix f (codes "@") then true else is_key_type g

-- isPublicKeyLine; the callers have at least one field.
unfoldable pub is_public_key_line : List Bytes → Bool
is_public_key_line [] = false
is_public_key_line (f ∷ fs) = is_key_type f

-- isMD5Fingerprint
unfoldable pub is_md5_fingerprint : List Bytes → Bool
is_md5_fingerprint [] = false
is_md5_fingerprint (f ∷ fs) = if has_prefix f (codes "MD5:") then true else is_md5_fingerprint fs

abbrev pub is_sha256 : Bytes → Bool
is_sha256 f = has_prefix f (codes "SHA256:")

-- The loop over the fields, with what it found so far.
unfoldable pub find_sha256 : Bytes → List Bytes → Result FingerprintError Bytes
find_sha256 found [] = ok found
find_sha256 [] (f ∷ fs) = find_sha256 (if is_sha256 f then f else []) fs
find_sha256 (c ∷ found) (f ∷ fs) =
    let rest = find_sha256 (c ∷ found) fs in if is_sha256 f then err two_fingerprints else rest

abbrev pub advice : List Bytes → FingerprintError
advice fs =
    if is_md5_fingerprint fs
    then is_md5
    else (if is_known_hosts_line fs
        then is_known_hosts
        else (if is_public_key_line fs then is_public_key else is_other))

abbrev pub decide : List Bytes → Result FingerprintError Bytes → Result FingerprintError Bytes
decide fs (err e) = err e
decide fs (ok []) = err (advice fs)
decide fs (ok (c ∷ found)) = ok (c ∷ found)

abbrev pub parse_fields : List Bytes → Result FingerprintError Bytes
parse_fields [] = err no_fields
parse_fields (f ∷ fs) = decide (f ∷ fs) (find_sha256 [] (f ∷ fs))

-- parseHostKeyFingerprint
unfoldable pub parse_host_key_fingerprint : Bytes → Result FingerprintError Bytes
unfolding find_sha256 is_md5_fingerprint is_known_hosts_line is_public_key_line fields
parse_host_key_fingerprint line = parse_fields (fields line)
