-- ===== src/Config/Validate/Valid.antt =====
-- What a configuration that validate accepts is like.
use easy_sftp.Prelude.{
  ℕ, ◌≤◌, ◌≡◌, ◌≢◌, ◌↔◌, ◌⊎◌, inl, inr, refl, Bool, true, false, List, [], ◌∷◌, Bytes, Option, none,
  some, Result, ok, err, ◌>>=◌, ◌>>◌, refuse_if, arith,
}
use easy_sftp.Strings.{trim_space}
use easy_sftp.Config.Values.{ℤ, pos, negsuc, below_one, is_negative}
use easy_sftp.Config.Pairs.{UploadPair, SharedTarget, check_sync_targets}
use easy_sftp.Config.Targets.{sync_targets, AllDifferent, check_sync_targets_iff}
use easy_sftp.Config.Validate.{
  Proxy, Settings, is_bad_port, is_nil, has_no_credentials, check_proxy, check_targets, validate,
}

-- The number is one of those from `low` to `high`, or to any.
abbrev pub IsWithin : ℕ → ℕ → ℤ → Type 0
IsWithin low high z = (n : ℕ) × (z ≡ pos n) × (low ≤ n) × (n ≤ high)

abbrev pub IsAtLeast : ℕ → ℤ → Type 0
IsAtLeast low z = (n : ℕ) × (z ≡ pos n) × (low ≤ n)

abbrev pub HasCredentials : Bytes → Bytes → Type 0
HasCredentials password private_key = (password ≢ []) ⊎ (trim_space private_key ≢ [])

abbrev pub IsValidProxy : Option Proxy → Type 0
IsValidProxy none = Unit
IsValidProxy (some p) =
    (p.username ≢ []) × HasCredentials p.password p.private_key × IsWithin 1 65535 p.port

pub record IsValid (c : Settings) : Type 0 where
  pub has_server : c.server ≢ []
  pub has_username : c.username ≢ []
  pub has_credentials : HasCredentials c.password c.private_key
  pub has_deployments : c.uploads ≢ []
  pub port_bounds : IsWithin 1 65535 c.port
  pub concurrency_bound : IsAtLeast 1 c.concurrency
  pub request_bound : IsAtLeast 1 c.sftp_request_concurrency
  pub connections_bound : IsAtLeast 1 c.connections
  pub retries_bound : IsAtLeast 0 c.retries
  pub timeout_bound : IsAtLeast 0 c.timeout
  pub stall_timeout_bound : IsAtLeast 0 c.stall_timeout
  pub max_deletes_bound : IsAtLeast 0 c.max_deletes
  pub proxy_valid : IsValidProxy c.proxy
  pub targets_differ : AllDifferent (sync_targets c.uploads)

refused : {E : Type 0} {e : E} → Path (Result E (Unit {0})) (err e) (ok tt) → ⊥
refused h = cc

-- A test that is passed before the rest.
passed :
    {E P Q : Type 0} (b : Bool) (e : E) (rest : Result E (Unit {0}))
    → (b ≡ false) ↔ P
    → (rest ≡ ok tt) ↔ Q
    → ((refuse_if b e >> rest) ≡ ok tt) ↔ (P × Q)
passed true e rest p q = (λ h. absurd (refused h), λ h. absurd (untrue (p.1 h.0)))
  where
    untrue : true ≡ false → ⊥
    untrue h = cc
passed false e rest p q = (λ h. (p.0 refl, q.0 h), λ h. q.1 h.1)

-- A check that is passed before the rest.
checked :
    {E P Q : Type 0} (m rest : Result E (Unit {0}))
    → (m ≡ ok tt) ↔ P
    → (rest ≡ ok tt) ↔ Q
    → ((m >>= λ u. rest) ≡ ok tt) ↔ (P × Q)
checked (err e) rest p q = (λ h. absurd (refused h), λ h. absurd (refused (p.1 h.0)))
checked (ok u) rest p q = (λ h. (p.0 refl, q.0 h), λ h. q.1 h.1)

last_passed : {E P : Type 0} (b : Bool) (e : E) → (b ≡ false) ↔ P → (refuse_if b e ≡ ok tt) ↔ P
last_passed true e p = (λ h. absurd (refused h), λ h. absurd (untrue (p.1 h)))
  where
    untrue : true ≡ false → ⊥
    untrue h = cc
last_passed false e p = (λ h. p.0 refl, λ h. refl)

is_nil_iff : {A : Type 0} (xs : List A) → (is_nil xs ≡ false) ↔ (xs ≢ [])
is_nil_iff [] = (λ h. cc, λ ne. absurd (ne refl))
is_nil_iff (x ∷ xs) = (λ h e. cc, λ ne. refl)

credentials_iff :
    (password key : Bytes) → (has_no_credentials password key ≡ false) ↔ HasCredentials password key
credentials_iff [] key =
    let left = is_nil_iff (trim_space key) in
    (λ h. inr (left.0 h), λ d. elim d [ inl ne ↦ absurd (ne refl) | inr ne ↦ left.1 ne ])
credentials_iff (c ∷ password) key = (λ h. inl (λ e. cc), λ d. refl)

port_iff : (z : ℤ) → (is_bad_port z ≡ false) ↔ IsWithin 1 65535 z
port_iff (pos n) =
    (λ h. (n, refl, ground arith, ground arith), λ (m, e, low, high). ground (arith, e))
port_iff (negsuc n) = (λ h. cc, λ (m, e, low, high). absurd (ground (arith, e)))

one_iff : (z : ℤ) → (below_one z ≡ false) ↔ IsAtLeast 1 z
one_iff (pos n) = (λ h. (n, refl, ground arith), λ (m, e, low). ground (arith, e))
one_iff (negsuc n) = (λ h. cc, λ (m, e, low). absurd (ground (arith, e)))

zero_iff : (z : ℤ) → (is_negative z ≡ false) ↔ IsAtLeast 0 z
zero_iff (pos n) = (λ h. (n, refl, omega arith), λ d. refl)
zero_iff (negsuc n) = (λ h. cc, λ (m, e, low). absurd (ground (arith, e)))

proxy_iff : (o : Option Proxy) → (check_proxy o ≡ ok tt) ↔ IsValidProxy o
proxy_iff none = (λ h. tt, λ h. refl)
proxy_iff (some p) =
    let all = passed (is_nil p.username) _ _ (is_nil_iff p.username) (
      passed (has_no_credentials p.password p.private_key) _ _
        (credentials_iff p.password p.private_key)
        (last_passed (is_bad_port p.port) _ (port_iff p.port))) in
    (λ h. let (a, (b, c)) = all.0 h in (a, b, c), λ h. all.1 (h.0, (h.1, h.2)))

targets_ok : (r : Result SharedTarget (Unit {0})) → (check_targets r ≡ ok tt) ↔ (r ≡ ok tt)
targets_ok (ok u) = (λ h. refl, λ h. refl)
targets_ok (err e) = (λ h. absurd (refused h), λ h. absurd (refused h))

targets_iff :
    (pairs : List UploadPair)
    → (check_targets (check_sync_targets pairs) ≡ ok tt) ↔ AllDifferent (sync_targets pairs)
targets_iff pairs =
    let told = targets_ok (check_sync_targets pairs) in
    let different = check_sync_targets_iff pairs in
    (λ h. different.0 (told.0 h), λ h. told.1 (different.1 h))

-- validate accepts a configuration exactly if the host, the user, a credential and a deployment are
-- there, ports and numbers are within their bounds, a proxy has a user, a credential and a port, and
-- no two sync deployments have the same target.
pub validate_iff : (c : Settings) → (validate c ≡ ok tt) ↔ IsValid c
unfolding validate
validate_iff c =
    let all = passed (is_nil c.server) _ _ (is_nil_iff c.server) (
      passed (is_nil c.username) _ _ (is_nil_iff c.username) (
        passed (has_no_credentials c.password c.private_key) _ _
          (credentials_iff c.password c.private_key)
          (passed (is_nil c.uploads) _ _ (is_nil_iff c.uploads) (
            passed (is_bad_port c.port) _ _ (port_iff c.port) (
              passed (below_one c.concurrency) _ _ (one_iff c.concurrency) (
                passed (below_one c.sftp_request_concurrency) _ _
                  (one_iff c.sftp_request_concurrency)
                  (passed (below_one c.connections) _ _ (one_iff c.connections) (
                    passed (is_negative c.retries) _ _ (zero_iff c.retries) (
                      passed (is_negative c.timeout) _ _ (zero_iff c.timeout) (
                        passed (is_negative c.stall_timeout) _ _ (zero_iff c.stall_timeout) (
                          passed (is_negative c.max_deletes) _ _ (zero_iff c.max_deletes) (
                            checked (check_proxy c.proxy) _ (proxy_iff c.proxy)
                              (targets_iff c.uploads))))))))))))) in
    (
      λ h.
          let (a, (b, (d, (e, (f, (g, (i, (j, (k, (l, (m, (n, (o, p))))))))))))) = all.0 h in
          record {
            has_server = a;
            has_username = b;
            has_credentials = d;
            has_deployments = e;
            port_bounds = f;
            concurrency_bound = g;
            request_bound = i;
            connections_bound = j;
            retries_bound = k;
            timeout_bound = l;
            stall_timeout_bound = m;
            max_deletes_bound = n;
            proxy_valid = o;
            targets_differ = p;
          },
      λ v. all.1 (
        v.has_server,
        (
          v.has_username,
          (
            v.has_credentials,
            (
              v.has_deployments,
              (
                v.port_bounds,
                (
                  v.concurrency_bound,
                  (
                    v.request_bound,
                    (
                      v.connections_bound,
                      (
                        v.retries_bound,
                        (
                          v.timeout_bound,
                          (
                            v.stall_timeout_bound,
                            (v.max_deletes_bound, (v.proxy_valid, v.targets_differ)),
                          ),
                        ),
                      ),
                    ),
                  ),
                ),
              ),
            ),
          ),
        ),
      ),
    )
