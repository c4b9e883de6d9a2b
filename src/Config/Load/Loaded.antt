-- ===== src/Config/Load/Loaded.antt =====
-- What a configuration that Load gives is like, and the inputs that it was read from.
use easy_sftp.Prelude.{
  ◌≡◌, ◌⊎◌, inl, inr, refl, subst, Bool, true, false, List, [], ◌∷◌, Bytes, codes, Option, none,
  some, Result, ok, err, >>=-eq-ok, refuse_if, arith, Bool-cases, All,
}
use easy_sftp.Strings.{trim_space}
use easy_sftp.Config.Values.{parse_bool, resolve_log_level}
use easy_sftp.Config.Validate.{is_nil, Proxy, Settings, Invalid, validate}
use easy_sftp.Config.Validate.Valid.{IsValid, validate_iff}
use easy_sftp.Config.Load.{
  Env, LoadError, removed_inputs, inline_only_inputs, get, set_inputs, or_bad, first_removed,
  check_removed_inputs, have_proxy_creds, with_proxy, refuse_inline, file_result, load_by,
  validated, load,
}

-- The configuration has a proxy, with the secrets of the inputs.
abbrev pub HasProxy : Env → Settings → Type 0
HasProxy env cfg =
    (p : Proxy) × (cfg.proxy ≡ some p)
    × (p.password ≡ env (codes "PROXY_PASSWORD"))
    × (p.private_key ≡ env (codes "PROXY_PRIVATE_KEY"))
    × (p.passphrase ≡ env (codes "PROXY_PASSPHRASE"))

-- The input is empty, white space apart.
abbrev pub IsUnset : Env → Bytes → Type 0
IsUnset env name = trim_space (env name) ≡ []

-- The inputs of version 2, by the list of them in the migration guide.
abbrev pub NoOldInputs : Env → Type 0
NoOldInputs env = All (IsUnset env) (
    codes "SERVER"
    ∷ codes "HOST_KEY_FINGERPRINT"
    ∷ codes "UPLOADS"
    ∷ codes "CONFIG_FILE"
    ∷ codes "STRATEGY"
    ∷ codes "IGNORE"
    ∷ codes "IGNORE_FROM"
    ∷ codes "MAX_DELETES"
    ∷ codes "DELETE"
    ∷ codes "CONCURRENCY"
    ∷ codes "SFTP_REQUEST_CONCURRENCY"
    ∷ codes "RETRIES"
    ∷ codes "TIMEOUT"
    ∷ codes "STALL_TIMEOUT"
    ∷ codes "SYNC_FAST_PATH"
    ∷ codes "MANIFEST_NAME"
    ∷ codes "SKIP_UNCHANGED"
    ∷ codes "PROXY_SERVER"
    ∷ codes "PROXY_PORT"
    ∷ codes "PROXY_USERNAME"
    ∷ codes "PROXY_HOST_KEY_FINGERPRINT"
    ∷ codes "PROXY_KNOWN_HOSTS"
    ∷ [])

-- The inputs that a configuration file takes the place of.
abbrev pub NoInlineInputs : Env → Type 0
NoInlineInputs env = All (IsUnset env) (
    codes "HOST"
    ∷ codes "PORT"
    ∷ codes "USERNAME"
    ∷ codes "HOST_KEY"
    ∷ codes "KNOWN_HOSTS"
    ∷ codes "ALLOW_ANY_HOST_KEY"
    ∷ codes "SOURCE"
    ∷ codes "TARGET"
    ∷ codes "MODE"
    ∷ codes "EXCLUDE"
    ∷ codes "FILE_MODE"
    ∷ codes "DIR_MODE"
    ∷ codes "PRESERVE_TIMES"
    ∷ [])

-- The secrets of a proxy are given only where the configuration has one.
abbrev pub NoStraySecrets : Env → Settings → Type 0
NoStraySecrets env cfg =
    ((env (codes "PROXY_PASSWORD") ≡ [])
      × IsUnset env (codes "PROXY_PRIVATE_KEY")
      × (env (codes "PROXY_PASSPHRASE") ≡ []))
    ⊎ HasProxy env cfg

nil_is : {s : Bytes} → is_nil s ≡ true → s ≡ []
nil_is {s = []} h = refl
nil_is {s = c ∷ s} h = cc

no_creds :
    (env : Env)
    → have_proxy_creds env ≡ false
    → (env (codes "PROXY_PASSWORD") ≡ [])
      × IsUnset env (codes "PROXY_PRIVATE_KEY")
      × (env (codes "PROXY_PASSPHRASE") ≡ [])
no_creds env h = (nil_is (ground arith), nil_is (ground arith), nil_is (ground arith))

set_inputs-IsUnset :
    (env : Env) (names : List Bytes) → set_inputs env names ≡ [] → All (IsUnset env) names
unfolding set_inputs
set_inputs-IsUnset env [] h = tt
set_inputs-IsUnset env (name ∷ names) h = elim (Bool-cases (is_nil (get env name))) [
  | inl unset ↦ (nil_is unset, set_inputs-IsUnset env names (rw unset at h))
  | inr given ↦ absurd (cons_absurd (rw given at h))
]
  where
    cons_absurd : {x : Bytes} {xs : List Bytes} → x ∷ xs ≡ [] → ⊥
    cons_absurd e = cc

filled : Env → Proxy → Proxy
filled env p = record p {
  password = env (codes "PROXY_PASSWORD");
  private_key = env (codes "PROXY_PRIVATE_KEY");
  passphrase = env (codes "PROXY_PASSPHRASE");
}

module _ {FileError : Type 0} where
  refused :
      {A : Type 0} {e : LoadError FileError} {a : A}
      → Path (Result (LoadError FileError) A) (err e) (ok a)
      → ⊥
  refused h = cc

  same_ok : {A : Type 0} {a b : A} → Path (Result (LoadError FileError) A) (ok a) (ok b) → a ≡ b
  same_ok h = cc

  none_removed :
      (names : List Bytes)
      → Path (Result (LoadError FileError) (Unit {0})) (first_removed names) (ok tt)
      → names ≡ []
  none_removed [] h = refl
  none_removed (name ∷ names) h = absurd (refused h)

  none_inline :
      (names : List Bytes)
      → Path (Result (LoadError FileError) (Unit {0})) (refuse_inline names) (ok tt)
      → names ≡ []
  none_inline [] h = refl
  none_inline (name ∷ names) h = absurd (refused h)

  validated_lem :
      (cfg cfg' : Settings) (r : Result Invalid (Unit {0}))
      → Path (Result (LoadError FileError) Settings) (validated cfg r) (ok cfg')
      → (cfg ≡ cfg') × (r ≡ ok tt)
  validated_lem cfg cfg' (ok u) h = (same_ok h, refl)
  validated_lem cfg cfg' (err e) h = absurd (refused h)

  proxy_lem :
      (env : Env) (cfg cfg' : Settings) (o : Option Proxy)
      → cfg.proxy ≡ o
      → Path (Result (LoadError FileError) Settings) (with_proxy env cfg o) (ok cfg')
      → NoStraySecrets env cfg'
  unfolding filled
  proxy_lem env cfg cfg' (some p) e h =
      inr (subst (HasProxy env) (same_ok h) (filled env p, refl, refl, refl, refl))
  proxy_lem env cfg cfg' none e h = elim (Bool-cases (have_proxy_creds env)) [
    | inr quiet ↦ inl (no_creds env quiet)
    | inl stray ↦ absurd (ground (arith, h))
  ]

  load_by_lem :
      (load_config_file : Settings → Bytes → Result FileError Settings) (env : Env)
      (cfg cfg' : Settings) (path : Bytes)
      → load_by load_config_file env cfg path ≡ ok cfg'
      → ((path ≡ []) ⊎ NoInlineInputs env) × NoStraySecrets env cfg'
  load_by_lem load_config_file env cfg cfg' [] h =
      let (u, quiet, rest) = >>=-eq-ok (refuse_if (have_proxy_creds env) _) _ h in
      (inl refl, inl (no_creds env (unrefused (have_proxy_creds env) _ u quiet)))
    where
      unrefused :
          (b : Bool) (e : LoadError FileError) (u : Unit {0}) → refuse_if b e ≡ ok u → b ≡ false
      unrefused false e u h = refl
      unrefused true e u h = absurd (refused h)
  load_by_lem load_config_file env cfg cfg' (c ∷ path) h =
      let (u, inline, rest) = >>=-eq-ok (refuse_inline (set_inputs env inline_only_inputs)) _ h in
      let (read, file, last) = >>=-eq-ok (file_result (load_config_file cfg (c ∷ path))) _ rest in
      (
        inr (
            set_inputs-IsUnset env inline_only_inputs
              (none_inline (set_inputs env inline_only_inputs) inline)),
        proxy_lem env (record read { config_path = c ∷ path }) cfg' read.proxy refl last,
      )

  -- Where Load returns a configuration, it is valid. Apart from white space, each of the 22 inputs of
  -- version 2 is empty, CONFIG is empty or each of the 13 inputs that a configuration file takes the
  -- place of is, and the password, key and passphrase of a proxy are all empty unless the
  -- configuration has a proxy, which then holds them.
  pub load-IsValid :
      (load_config_file : Settings → Bytes → Result FileError Settings) (env : Env) {cfg : Settings}
      → load load_config_file env ≡ ok cfg
      → IsValid cfg
        × NoOldInputs env
        × (IsUnset env (codes "CONFIG") ⊎ NoInlineInputs env)
        × NoStraySecrets env cfg
  unfolding load check_removed_inputs
  load-IsValid load_config_file env {cfg} h =
      let (u, removed, h1) = >>=-eq-ok (first_removed (set_inputs env removed_inputs)) _ h in
      let (dry, dry_read, h2) =
        >>=-eq-ok (or_bad (codes "DRY_RUN") (parse_bool (get env (codes "DRY_RUN")) false)) _ h1 in
      let (level, level_read, h3) =
        >>=-eq-ok (or_bad (codes "LOG_LEVEL") (resolve_log_level (get env (codes "LOG_LEVEL")))) _
          h2 in
      let (read, by, last) =
        >>=-eq-ok (load_by load_config_file env _ (get env (codes "CONFIG"))) _ h3 in
      let (same, valid) = validated_lem read cfg (validate read) last in
      let (source, secrets) =
        load_by_lem load_config_file env _ read (get env (codes "CONFIG")) by in
      (
        subst IsValid same ((validate_iff read).0 valid),
        set_inputs-IsUnset env removed_inputs
            (none_removed (set_inputs env removed_inputs) removed),
        source,
        subst (NoStraySecrets env) same secrets,
      )
