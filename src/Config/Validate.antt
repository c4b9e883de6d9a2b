-- ===== src/Config/Validate.antt =====
-- Config and validate of internal/config/config.go.
pub mod Valid
use easy_sftp.Prelude.{
  ℕ, ◌*◌, Bool, true, false, ◌&&◌, ◌||◌, not, List, [], ◌∷◌, Bytes, codes, eq_bytes, Option, none,
  some, Result, ok, err, ◌>>=◌, ◌>>◌, refuse_if,
}
use easy_sftp.Strings.{trim_space}
use easy_sftp.Config.Values.{
  ℤ, pos, negsuc, below_one, is_negative, is_above, LogLevel, log_normal, log_verbose, log_debug,
  default_manifest_name,
}
use easy_sftp.Config.Pairs.{UploadPair, SharedTarget, check_sync_targets}

-- Proxy
pub record Proxy : Type 0 where
  pub server : Bytes
  pub port : ℤ
  pub username : Bytes
  pub password : Bytes
  pub private_key : Bytes
  pub passphrase : Bytes
  pub host_key_fingerprints : List Bytes
  pub known_hosts : Bytes
  pub allow_any_host_key : Bool

-- Config, without the SSH algorithms and the path of the tuning cache, which the file sets alone. Durations
-- are nanoseconds.
pub record Settings : Type 0 where
  pub server : Bytes
  pub port : ℤ
  pub username : Bytes
  pub password : Bytes
  pub private_key : Bytes
  pub passphrase : Bytes
  pub host_key_fingerprints : List Bytes
  pub known_hosts : Bytes
  pub allow_any_host_key : Bool
  pub proxy : Option Proxy
  pub uploads : List UploadPair
  pub ignore_lines : List Bytes
  pub max_deletes : ℤ
  pub config_path : Bytes
  pub dir_mode : Option ℕ
  pub file_mode : Option ℕ
  pub dry_run : Bool
  pub concurrency : ℤ
  pub sftp_request_concurrency : ℤ
  pub connections : ℤ
  pub auto_connections : Bool
  pub auto_concurrency : Bool
  pub auto_request_concurrency : Bool
  pub retries : ℤ
  pub timeout : ℤ
  pub stall_timeout : ℤ
  pub sync_fast_path : Bool
  pub skip_unchanged : Bool
  pub log_level : LogLevel
  pub manifest_name : Bytes
  pub preserve_times : Bool

-- Defaults
abbrev pub defaults : Settings
defaults = record {
  server = [];
  port = pos 0;
  username = [];
  password = [];
  private_key = [];
  passphrase = [];
  host_key_fingerprints = [];
  known_hosts = [];
  allow_any_host_key = false;
  proxy = none;
  uploads = [];
  ignore_lines = [];
  max_deletes = pos 0;
  config_path = [];
  dir_mode = none;
  file_mode = none;
  dry_run = false;
  concurrency = pos 4;
  sftp_request_concurrency = pos 16;
  connections = pos 1;
  auto_connections = true;
  auto_concurrency = true;
  auto_request_concurrency = true;
  retries = pos 2;
  timeout = pos (30 * 1000000000);
  stall_timeout = pos 0;
  sync_fast_path = false;
  skip_unchanged = false;
  log_level = log_normal;
  manifest_name = default_manifest_name;
  preserve_times = false;
}

-- The errors of validate; the first holds the names of the input and of the field.
pub data Invalid : Type 0 where
  missing : Bytes → Bytes → Invalid
  no_credentials no_deployments : Invalid
  bad_port bad_concurrency bad_request_concurrency bad_connections : Invalid
  bad_retries bad_timeout bad_stall_timeout bad_max_deletes : Invalid
  no_proxy_username no_proxy_credentials bad_proxy_port : Invalid
  shared : SharedTarget → Invalid

abbrev pub is_bad_port : ℤ → Bool
is_bad_port port = below_one port || is_above 65535 port

abbrev pub is_nil : {A : Type 0} → List A → Bool
is_nil [] = true
is_nil (x ∷ xs) = false

-- A password or a private key that is more than white space is missing.
abbrev pub has_no_credentials : Bytes → Bytes → Bool
has_no_credentials password private_key = is_nil password && is_nil (trim_space private_key)

abbrev pub check_proxy : Option Proxy → Result Invalid (Unit {0})
check_proxy none = ok tt
check_proxy (some p) = do
  refuse_if (is_nil p.username) no_proxy_username
  refuse_if (has_no_credentials p.password p.private_key) no_proxy_credentials
  refuse_if (is_bad_port p.port) bad_proxy_port

abbrev pub check_targets : Result SharedTarget (Unit {0}) → Result Invalid (Unit {0})
check_targets (ok u) = ok tt
check_targets (err e) = err (shared e)

-- validate
unfoldable pub validate : Settings → Result Invalid (Unit {0})
unfolding check_sync_targets trim_space
validate c = do
  refuse_if (is_nil c.server) (missing (codes "host") (codes "connection.host"))
  refuse_if (is_nil c.username) (missing (codes "username") (codes "connection.username"))
  refuse_if (has_no_credentials c.password c.private_key) no_credentials
  refuse_if (is_nil c.uploads) no_deployments
  refuse_if (is_bad_port c.port) bad_port
  refuse_if (below_one c.concurrency) bad_concurrency
  refuse_if (below_one c.sftp_request_concurrency) bad_request_concurrency
  refuse_if (below_one c.connections) bad_connections
  refuse_if (is_negative c.retries) bad_retries
  refuse_if (is_negative c.timeout) bad_timeout
  refuse_if (is_negative c.stall_timeout) bad_stall_timeout
  refuse_if (is_negative c.max_deletes) bad_max_deletes
  check_proxy c.proxy
  check_targets (check_sync_targets c.uploads)
