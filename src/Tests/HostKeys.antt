-- ===== src/Tests/HostKeys.antt =====
-- Runs of the host key policy.
use easy_sftp.Prelude.{
  ◌≡◌, ◌↔◌, ◌⊎◌, refl, true, false, ◌&&◌, List, [], ◌∷◌, Bytes, codes, eq_bytes, Option, none, some,
  ok, err,
}
use easy_sftp.Strings.{fields, fields_from, space_width}
use easy_sftp.HostKeys.Fingerprint.{
  is_md5, is_known_hosts, two_fingerprints, parse_host_key_fingerprint, find_sha256,
  is_md5_fingerprint, is_known_hosts_line,
}
use easy_sftp.HostKeys.Fingerprint.Parsed.{IsOnly, parse_host_key_fingerprint_iff}
use easy_sftp.HostKeys.Policy.{HopKeys, unverified, Callback, by_pins, host_key_callback, parse_all}
use easy_sftp.HostKeys.Policy.Accepts.{IsTrusted, host_key_callback-accepts}
use easy_sftp.HostKeys.Algorithms.{
  has_name, pinned_host_key_algorithms, algorithms_for_key_type, offer, offer_all,
}
use easy_sftp.HostKeys.Algorithms.Offered.{is_offered_by, NoRepeats, pinned_host_key_algorithms_lem}

-- Keys that are their own fingerprints, and known-hosts lines that hold every key of one text.
abbrev own : Bytes → Bytes
own key = key

abbrev read_lines : Bytes → Option (Callback Bytes)
read_lines lines = some (λ host key. eq_bytes key lines)

abbrev pinned_hop : HopKeys
pinned_hop = record {
  fingerprints = codes "256 SHA256:abc host (ED25519)" ∷ [];
  known_hosts = [];
  allow_any_host_key = true;
}

lines_parsed :
    (parse_host_key_fingerprint (codes "256 SHA256:abc host (ED25519)") ≡ ok (codes "SHA256:abc"))
    × (parse_host_key_fingerprint (codes "SHA256:a SHA256:b") ≡ err two_fingerprints)
    × (parse_host_key_fingerprint (codes "256 MD5:ab host") ≡ err is_md5)
    × (parse_host_key_fingerprint (codes "host ssh-ed25519 AAAA") ≡ err is_known_hosts)
unfolding parse_host_key_fingerprint fields fields_from space_width find_sha256 is_md5_fingerprint
    is_known_hosts_line
lines_parsed = (refl, refl, refl, refl)

parse_host_key_fingerprint_iff_example :
    (parse_host_key_fingerprint (codes "256 SHA256:abc host") ≡ ok (codes "SHA256:abc"))
    ↔ IsOnly (fields (codes "256 SHA256:abc host")) (codes "SHA256:abc")
parse_host_key_fingerprint_iff_example =
    parse_host_key_fingerprint_iff (codes "256 SHA256:abc host") (codes "SHA256:abc")

host_key_callback-accepts_example :
    ((by_pins own (codes "SHA256:abc" ∷ []) none (codes "h") (codes "SHA256:abc") ≡ true)
      ↔ IsTrusted own read_lines pinned_hop (codes "h") (codes "SHA256:abc"))
    ⊎ ((pinned_hop.allow_any_host_key ≡ true)
        × (pinned_hop.fingerprints ≡ [])
        × (pinned_hop.known_hosts ≡ []))
unfolding host_key_callback parse_all parse_host_key_fingerprint fields fields_from space_width
    find_sha256
host_key_callback-accepts_example =
    host_key_callback-accepts own read_lines pinned_hop (by_pins own (codes "SHA256:abc" ∷ []) none)
      (codes "h") (codes "SHA256:abc") refl

-- With nothing configured and no opt-out there is no callback at all.
nothing_configured :
    host_key_callback own read_lines
      (record { fingerprints = []; known_hosts = []; allow_any_host_key = false })
    ≡ err unverified
unfolding host_key_callback
nothing_configured = refl

abbrev supported_names : List Bytes
supported_names = codes "ssh-ed25519" ∷ codes "rsa-sha2-512" ∷ codes "rsa-sha2-256" ∷ []

pinned_host_key_algorithms_lem_example :
    (has_name
        (pinned_host_key_algorithms supported_names [] (some (codes "ssh-rsa" ∷ [])))
        (codes "rsa-sha2-256")
      ≡ (has_name supported_names (codes "rsa-sha2-256")
          && is_offered_by (codes "ssh-rsa" ∷ []) (codes "rsa-sha2-256")))
    × NoRepeats (pinned_host_key_algorithms supported_names [] (some (codes "ssh-rsa" ∷ [])))
pinned_host_key_algorithms_lem_example =
    pinned_host_key_algorithms_lem supported_names (codes "ssh-rsa" ∷ []) (codes "rsa-sha2-256")

rsa_algorithms :
    pinned_host_key_algorithms supported_names [] (some (codes "ssh-rsa" ∷ codes "ssh-rsa" ∷ []))
    ≡ codes "rsa-sha2-256" ∷ codes "rsa-sha2-512" ∷ []
unfolding pinned_host_key_algorithms algorithms_for_key_type offer offer_all
rsa_algorithms = refl
