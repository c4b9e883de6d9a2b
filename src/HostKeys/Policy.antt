-- ===== src/HostKeys/Policy.antt =====
-- hostKeyCallback of internal/uploader/hostkeys.go. The key's fingerprint and the reader of known-hosts
-- lines come from the SSH library and are parameters.
pub mod Accepts
use easy_sftp.Prelude.{
  Bool, true, false, if◌then◌else◌, List, [], ◌∷◌, Bytes, eq_bytes, Option, none, some, Result, ok,
  err,
}
use easy_sftp.HostKeys.Fingerprint.{FingerprintError, parse_host_key_fingerprint}

-- The settings of a hop that say which keys it has.
pub record HopKeys : Type 0 where
  pub fingerprints : List Bytes
  pub known_hosts : Bytes
  pub allow_any_host_key : Bool

pub data KeyError : Type 0 where
  unverified : KeyError
  bad_fingerprint : FingerprintError → KeyError
  bad_known_hosts : KeyError

abbrev pub cons_pin :
    Result FingerprintError Bytes → Result KeyError (List Bytes) → Result KeyError (List Bytes)
cons_pin (err e) rest = err (bad_fingerprint e)
cons_pin (ok f) (err e) = err e
cons_pin (ok f) (ok want) = ok (f ∷ want)

-- The fingerprints that the lines stand for, or the error of the first line that stands for none.
unfoldable pub parse_all : List Bytes → Result KeyError (List Bytes)
unfolding parse_host_key_fingerprint
parse_all [] = ok []
parse_all (line ∷ lines) = cons_pin (parse_host_key_fingerprint line) (parse_all lines)

-- A callback: it takes the name of the host and its key.
abbrev pub Callback : Type 0 → Type 0
Callback Key = Bytes → Key → Bool

module _ {Key : Type 0} (fingerprint : Key → Bytes) where
  unfoldable pub is_pinned : List Bytes → Key → Bool
  is_pinned [] key = false
  is_pinned (f ∷ want) key = if eq_bytes (fingerprint key) f then true else is_pinned want key

  -- The callback where something is configured.
  abbrev pub by_pins : List Bytes → Option (Callback Key) → Callback Key
  by_pins want none host key = is_pinned want key
  by_pins want (some known) host key = if is_pinned want key then true else known host key

  abbrev pub with_pins :
      Result KeyError (List Bytes)
      → Result KeyError (Option (Callback Key))
      → Result KeyError (Callback Key)
  with_pins (err e) known = err e
  with_pins (ok want) (err e) = err e
  with_pins (ok want) (ok known) = ok (by_pins want known)

abbrev pub opened : {Key : Type 0} → Option (Callback Key) → Result KeyError (Option (Callback Key))
opened none = err bad_known_hosts
opened (some known) = ok (some known)

-- knownHostsCallback, where there are known-hosts lines.
abbrev pub known_hosts_callback :
    {Key : Type 0}
    → (Bytes → Option (Callback Key))
    → Bytes
    → Result KeyError (Option (Callback Key))
known_hosts_callback read_known_hosts [] = ok none
known_hosts_callback read_known_hosts (c ∷ lines) = opened (read_known_hosts (c ∷ lines))

abbrev pub nothing_pinned : HopKeys → Bool
nothing_pinned h = elim h.fingerprints [ [] ↦ eq_bytes h.known_hosts [] | f ∷ fs ↦ false ]

-- hostKeyCallback
unfoldable pub host_key_callback :
    {Key : Type 0} (fingerprint : Key → Bytes)
    → (Bytes → Option (Callback Key))
    → HopKeys
    → Result KeyError (Callback Key)
unfolding parse_all is_pinned
host_key_callback fingerprint read_known_hosts h =
    if nothing_pinned h
    then (if h.allow_any_host_key then ok (λ host key. true) else err unverified)
    else with_pins fingerprint (parse_all h.fingerprints)
        (known_hosts_callback read_known_hosts h.known_hosts)
