-- ===== src/HostKeys/Algorithms.antt =====
-- pinnedHostKeyAlgorithms and algorithmsForKeyType of internal/uploader/hostkeys.go. The types of the keys
-- that known-hosts lists for the host, and the algorithms that the SSH library supports, are parameters.
pub mod Offered
use easy_sftp.Prelude.{
  Bool, true, false, ◌||◌, if◌then◌else◌, List, [], ◌∷◌, ◌++◌, Bytes, eq_bytes, codes, Option, none,
  some,
}

-- The names of the algorithms in golang.org/x/crypto/ssh.
abbrev pub cert_of : Bytes → Bytes
cert_of name = name ++ codes "-cert-v01@openssh.com"

-- algorithmsForKeyType
unfoldable pub algorithms_for_key_type : Bytes → List Bytes
algorithms_for_key_type t =
    if eq_bytes t (codes "ssh-rsa") || eq_bytes t (codes "ssh-rsa-cert-v01@openssh.com")
    then cert_of (codes "rsa-sha2-256")
      ∷ cert_of (codes "rsa-sha2-512")
      ∷ codes "rsa-sha2-256"
      ∷ codes "rsa-sha2-512"
      ∷ []
    else (if eq_bytes t (codes "ecdsa-sha2-nistp256")
          || eq_bytes t (codes "ecdsa-sha2-nistp384")
          || eq_bytes t (codes "ecdsa-sha2-nistp521")
          || eq_bytes t (codes "ssh-ed25519")
        then cert_of t ∷ t ∷ []
        else t ∷ [])

abbrev pub has_name : List Bytes → Bytes → Bool
has_name [] a = false
has_name (b ∷ names) a = eq_bytes b a || has_name names a

abbrev pub add_algo : List Bytes → List Bytes → Bytes → List Bytes
add_algo supported algos a =
    if has_name supported a then (if has_name algos a then algos else algos ++ a ∷ []) else algos

-- The inner loop: each supported algorithm that is not in the list is put at its end.
unfoldable pub offer : List Bytes → List Bytes → List Bytes → List Bytes
offer supported algos [] = algos
offer supported algos (a ∷ rest) = offer supported (add_algo supported algos a) rest

unfoldable pub offer_all : List Bytes → List Bytes → List Bytes → List Bytes
unfolding offer algorithms_for_key_type
offer_all supported algos [] = algos
offer_all supported algos (t ∷ types) =
    offer_all supported (offer supported algos (algorithms_for_key_type t)) types

-- pinnedHostKeyAlgorithms; without known-hosts there are no types, and no algorithms mean any.
unfoldable pub pinned_host_key_algorithms :
    List Bytes → List Bytes → Option (List Bytes) → List Bytes
unfolding offer_all
pinned_host_key_algorithms supported (f ∷ fingerprints) known = []
pinned_host_key_algorithms supported [] none = []
pinned_host_key_algorithms supported [] (some types) = offer_all supported [] types
