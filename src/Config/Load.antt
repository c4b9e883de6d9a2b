-- ===== src/Config/Load.antt =====
-- Load and loadInline of internal/config/config.go. The environment is a function from the names of the
-- inputs, and loadConfigFile, which reads a file, is a parameter.
pub mod Loaded
use easy_sftp.Prelude.{
  ℕ, Bool, true, false, ◌&&◌, ◌||◌, not, if◌then◌else◌, List, [], ◌∷◌, ◌++◌, Bytes, codes, eq_bytes,
  Option, none, some, Result, ok, err, ◌>>=◌, ◌>>◌, refuse_if,
}
use easy_sftp.Strings.{trim_space}
use easy_sftp.Planner.Build.{Strategy, overlay}
use easy_sftp.Config.Values.{
  ℤ, pos, split_lines, parse_int, parse_bool, parse_mode, LogLevel, resolve_log_level,
}
use easy_sftp.Config.Pairs.{UploadPair, valid_strategy}
use easy_sftp.Config.Validate.{Proxy, Settings, Invalid, defaults, is_nil, validate}

-- os.Getenv, by the names behind the prefix EASYSFTP_; what is not set is empty.
abbrev pub Env : Type 0
Env = Bytes → Bytes

-- The errors of Load, and of the reader of the configuration file.
pub data LoadError (FileError : Type 0) : Type 0 where
  removed_input : Bytes → LoadError FileError
  bad_input : Bytes → LoadError FileError
  with_file : List Bytes → LoadError FileError
  in_file : FileError → LoadError FileError
  no_proxy_in_file : LoadError FileError
  proxy_needs_file : LoadError FileError
  nothing_to_deploy : LoadError FileError
  invalid : Invalid → LoadError FileError

-- removedInputs
abbrev pub removed_inputs : List Bytes
removed_inputs =
    codes "SERVER"
    ∷ codes "HOST_KEY_FINGERPRINT"
    ∷ codes "UPLOADS"
    ∷ codes "CONFIG_FILE"
    ∷ codes "STRATEGY"
    ∷ codes "IGNORE"
    ∷ codes "IGNORE_FROM"
    ∷ codes "MAX_DELETES"
    ∷ codes "DELETE"
    ∷ codes "CONCURRENCY"
    ∷ codes "SFTP_REQUEST_CONCURRENCY"
    ∷ codes "RETRIES"
    ∷ codes "TIMEOUT"
    ∷ codes "STALL_TIMEOUT"
    ∷ codes "SYNC_FAST_PATH"
    ∷ codes "MANIFEST_NAME"
    ∷ codes "SKIP_UNCHANGED"
    ∷ codes "PROXY_SERVER"
    ∷ codes "PROXY_PORT"
    ∷ codes "PROXY_USERNAME"
    ∷ codes "PROXY_HOST_KEY_FINGERPRINT"
    ∷ codes "PROXY_KNOWN_HOSTS"
    ∷ []

-- inlineOnlyInputs
abbrev pub inline_only_inputs : List Bytes
inline_only_inputs =
    codes "HOST"
    ∷ codes "PORT"
    ∷ codes "USERNAME"
    ∷ codes "HOST_KEY"
    ∷ codes "KNOWN_HOSTS"
    ∷ codes "ALLOW_ANY_HOST_KEY"
    ∷ codes "SOURCE"
    ∷ codes "TARGET"
    ∷ codes "MODE"
    ∷ codes "EXCLUDE"
    ∷ codes "FILE_MODE"
    ∷ codes "DIR_MODE"
    ∷ codes "PRESERVE_TIMES"
    ∷ []

-- get: the input without the white space around it.
abbrev pub get : Env → Bytes → Bytes
get env name = trim_space (env name)

-- The names of those that are set, in their order.
unfoldable pub set_inputs : Env → List Bytes → List Bytes
set_inputs env [] = []
set_inputs env (name ∷ names) =
    let rest = set_inputs env names in if is_nil (get env name) then rest else name ∷ rest

abbrev pub have_proxy_creds : Env → Bool
have_proxy_creds env =
    not (is_nil (env (codes "PROXY_PASSWORD")))
    || (not (is_nil (get env (codes "PROXY_PRIVATE_KEY")))
        || not (is_nil (env (codes "PROXY_PASSPHRASE"))))

module _ {FileError : Type 0} where
  abbrev pub or_bad : {A : Type 0} → Bytes → Option A → Result (LoadError FileError) A
  or_bad name none = err (bad_input name)
  or_bad name (some a) = ok a

  abbrev pub first_removed : List Bytes → Result (LoadError FileError) (Unit {0})
  first_removed [] = ok tt
  first_removed (name ∷ names) = err (removed_input name)

  -- checkRemovedInputs
  unfoldable pub check_removed_inputs : Env → Result (LoadError FileError) (Unit {0})
  unfolding set_inputs
  check_removed_inputs env = first_removed (set_inputs env removed_inputs)

  abbrev pub strategy_of : Bytes → Result (LoadError FileError) Strategy
  strategy_of [] = ok overlay
  strategy_of (c ∷ mode) = or_bad (codes "MODE") (valid_strategy (c ∷ mode))

  -- loadInline
  unfoldable pub load_inline : Settings → Env → Result (LoadError FileError) Settings
  unfolding parse_int parse_bool parse_mode valid_strategy split_lines
  load_inline cfg env = do
    port ← or_bad (codes "PORT") (parse_int (get env (codes "PORT")) (pos 22))
    any ←
        or_bad (codes "ALLOW_ANY_HOST_KEY")
          (parse_bool (get env (codes "ALLOW_ANY_HOST_KEY")) false)
    file_mode ← or_bad (codes "FILE_MODE") (parse_mode (get env (codes "FILE_MODE")))
    dir_mode ← or_bad (codes "DIR_MODE") (parse_mode (get env (codes "DIR_MODE")))
    times ← or_bad (codes "PRESERVE_TIMES") (parse_bool (get env (codes "PRESERVE_TIMES")) false)
    strategy ← strategy_of (get env (codes "MODE"))
    refuse_if (is_nil (get env (codes "SOURCE")) || is_nil (get env (codes "TARGET")))
        nothing_to_deploy
    ok (record cfg {
      server = get env (codes "HOST");
      username = get env (codes "USERNAME");
      host_key_fingerprints = split_lines (env (codes "HOST_KEY"));
      known_hosts = get env (codes "KNOWN_HOSTS");
      port = port;
      allow_any_host_key = any;
      file_mode = file_mode;
      dir_mode = dir_mode;
      preserve_times = times;
      uploads =
          record {
            name = [];
            source = get env (codes "SOURCE");
            remote = get env (codes "TARGET");
            strategy = some strategy;
            ignore = [];
          }
          ∷ [];
      ignore_lines = split_lines (env (codes "EXCLUDE"));
    })

  -- The secrets of the proxy that the file defines.
  abbrev pub with_proxy : Env → Settings → Option Proxy → Result (LoadError FileError) Settings
  with_proxy env cfg (some p) = ok (record cfg {
    proxy = some (record p {
      password = env (codes "PROXY_PASSWORD");
      private_key = env (codes "PROXY_PRIVATE_KEY");
      passphrase = env (codes "PROXY_PASSPHRASE");
    });
  })
  with_proxy env cfg none = if have_proxy_creds env then err no_proxy_in_file else ok cfg

  abbrev pub refuse_inline : List Bytes → Result (LoadError FileError) (Unit {0})
  refuse_inline [] = ok tt
  refuse_inline (name ∷ names) = err (with_file (name ∷ names))

  abbrev pub file_result : Result FileError Settings → Result (LoadError FileError) Settings
  file_result (ok cfg) = ok cfg
  file_result (err e) = err (in_file e)

  -- The branch of Load where a configuration file is given.
  abbrev pub load_file :
      (Settings → Bytes → Result FileError Settings)
      → Env
      → Settings
      → Bytes
      → Result (LoadError FileError) Settings
  load_file load_config_file env cfg path = do
    refuse_inline (set_inputs env inline_only_inputs)
    read ← file_result (load_config_file cfg path)
    with_proxy env (record read { config_path = path }) read.proxy

  -- The branch without one.
  abbrev pub load_inputs : Env → Settings → Result (LoadError FileError) Settings
  load_inputs env cfg = do refuse_if (have_proxy_creds env) proxy_needs_file; load_inline cfg env

  abbrev pub load_by :
      (Settings → Bytes → Result FileError Settings)
      → Env
      → Settings
      → Bytes
      → Result (LoadError FileError) Settings
  load_by load_config_file env cfg [] = load_inputs env cfg
  load_by load_config_file env cfg (c ∷ path) = load_file load_config_file env cfg (c ∷ path)

  abbrev pub validated :
      Settings → Result Invalid (Unit {0}) → Result (LoadError FileError) Settings
  validated cfg (ok u) = ok cfg
  validated cfg (err e) = err (invalid e)

  -- Load
  unfoldable pub load :
      (Settings → Bytes → Result FileError Settings) → Env → Result (LoadError FileError) Settings
  unfolding check_removed_inputs load_inline validate resolve_log_level
  load load_config_file env = do
    check_removed_inputs env
    dry_run ← or_bad (codes "DRY_RUN") (parse_bool (get env (codes "DRY_RUN")) false)
    level ← or_bad (codes "LOG_LEVEL") (resolve_log_level (get env (codes "LOG_LEVEL")))
    cfg ←
        load_by load_config_file env
          (record defaults {
            password = env (codes "PASSWORD");
            private_key = env (codes "PRIVATE_KEY");
            passphrase = env (codes "PASSPHRASE");
            dry_run = dry_run;
            log_level = level;
          })
          (get env (codes "CONFIG"))
    validated cfg (validate cfg)
