-- ===== src/Uploader/Retry/Attempts.antt =====
-- How often an upload is tried, and what its result rests on.
use easy_sftp.Prelude.{
  ℕ, zero, suc, ◌≤◌, ◌≡◌, refl, sym, ap, ◌∙◌, ◌||◌, not, true, false, Bool-cases, Option, none,
  some, Result, ok, err, arith, inl, inr,
}
use easy_sftp.Uploader.Retry.{
  Failure, Worker, Outcome, UploadError, is_permanent_status, is_retryable, give_up, slept,
  reconnected, retry, finished, attempted, try_from, upload_file_with_retry,
}

module _ {S : Type 0} (worker : Worker S) where
  -- At least one attempt and at most `n` were made, and where the result is a success, some attempt of the
  -- file succeeded with it.
  abbrev pub IsTried : ℕ → Outcome S → Type 0
  IsTried n (s, tries, r) =
      (1 ≤ tries)
      × (tries ≤ n)
      × ((size : ℕ)
          → r ≡ ok size
          → (attempt : ℕ) × (t : S) × ((worker.upload_file attempt t).1 ≡ ok size))

  pub err_is_not_ok :
      {A : Type 0} {e : UploadError} {n : ℕ} → Path (Result UploadError ℕ) (err e) (ok n) → A
  err_is_not_ok h = cc

  pub give_up-err : (f : Failure) (size : ℕ) {A : Type 0} → give_up f ≡ ok size → A
  give_up-err f size h = elim (Bool-cases (is_permanent_status f)) [
    | inl permanent ↦ err_is_not_ok (rw permanent at h)
    | inr other ↦ err_is_not_ok (rw other at h)
  ]

  slept-IsTried :
      (n : ℕ) (again : S → Outcome S) (r : S × Option Failure)
      → ((s : S) → IsTried n (again s))
      → IsTried (suc n) (slept worker again r)
  slept-IsTried n again (s, some e) h = (omega arith, omega arith, λ size x. err_is_not_ok x)
  slept-IsTried n again (s, none) h =
      let (lo, hi, good) = h (worker.clear_temp s) in (omega arith, omega arith, good)

  retry-IsTried :
      (n next : ℕ) (again : S → Outcome S) (f : Failure) (s : S)
      → ((t : S) → IsTried n (again t))
      → IsTried (suc n) (retry worker next again f s)
  retry-IsTried n next again f s h = elim (Bool-cases f.connection) [
    | inl lost ↦ rw lost (after (record f { connection = true }) (worker.reconnect s))
    | inr other ↦ rw other (slept-IsTried n again (worker.sleep next s) h)
  ]
    where
      after :
          (g : Failure) (r : S × Option Failure)
          → IsTried (suc n) (reconnected worker next again g r)
      after g (t, some e) = (omega arith, omega arith, λ size x. err_is_not_ok x)
      after g (t, none) = slept-IsTried n again (worker.sleep next t) h

  finished-IsTried :
      (attempt : ℕ) (s : S) (r : S × Result Failure ℕ)
      → r ≡ worker.upload_file attempt s
      → IsTried 1 (finished worker r)
  finished-IsTried attempt s (t, ok n) e =
      (omega arith, omega arith, λ size x. (attempt, s, sym (ap (λ p. p.1) e) ∙ same x))
    where
      same :
          {size : ℕ}
          → Path (Result UploadError ℕ) (ok n) (ok size)
          → Path (Result Failure ℕ) (ok n) (ok size)
      same x = cc
  finished-IsTried attempt s (t, err f) e =
      (omega arith, omega arith, λ size x. give_up-err f size x)

  attempted-IsTried :
      (n attempt : ℕ) (again : S → Outcome S) (s : S) (r : S × Result Failure ℕ)
      → r ≡ worker.upload_file attempt s
      → ((t : S) → IsTried n (again t))
      → IsTried (suc n) (attempted worker (suc attempt) again r)
  attempted-IsTried n attempt again s (t, ok m) e h =
      (omega arith, omega arith, (finished-IsTried attempt s (t, ok m) e).2)
  attempted-IsTried n attempt again s (t, err f) e h =
      elim (Bool-cases (not (is_retryable f) || worker.has_fired t)) [
        | inl stop ↦ rw stop (omega arith, omega arith, λ size x. give_up-err f size x)
        | inr go ↦ rw go (retry-IsTried n (suc attempt) again f t h)
      ]

  try_from-IsTried :
      (left attempt : ℕ) (s : S) → IsTried (suc left) (try_from worker left attempt s)
  unfolding try_from
  try_from-IsTried zero attempt s = finished-IsTried attempt s (worker.upload_file attempt s) refl
  try_from-IsTried (suc left) attempt s =
      attempted-IsTried (suc left) attempt (λ t. try_from worker left (suc attempt) t) s
        (worker.upload_file attempt s) refl (λ t. try_from-IsTried left (suc attempt) t)

  -- uploadFileWithRetry makes at least one attempt and at most one more than the configured retries,
  -- and where it succeeds, an attempt of the file succeeded with that size.
  pub upload_file_with_retry-IsTried :
      (retries : ℕ) (s : S) → IsTried (suc retries) (upload_file_with_retry worker retries s)
  unfolding upload_file_with_retry
  upload_file_with_retry-IsTried retries s = try_from-IsTried retries 0 s

  -- A failure that is worth a retry each time, with the watchdog quiet and no sleep or reconnect failing.
  pub record KeepsFailing : Type 0 where
    pub failure : Failure
    pub transient : is_retryable failure ≡ true
    pub fails : (attempt : ℕ) (s : S) → (worker.upload_file attempt s).1 ≡ err failure
    pub quiet : (s : S) → worker.has_fired s ≡ false
    pub sleeps : (attempt : ℕ) (s : S) → (worker.sleep attempt s).1 ≡ none
    pub reconnects : (s : S) → (worker.reconnect s).1 ≡ none

  module _ (k : KeepsFailing) where
    slept_all :
        (n : ℕ) (again : S → Outcome S) (r : S × Option Failure)
        → r.1 ≡ none
        → ((s : S) → (again s).1 ≡ n)
        → (slept worker again r).1 ≡ suc n
    slept_all n again r e h = rw e (ap suc (h (worker.clear_temp r.0)))

    retry_all :
        (n next : ℕ) (again : S → Outcome S) (s : S)
        → ((t : S) → (again t).1 ≡ n)
        → (retry worker next again k.failure s).1 ≡ suc n
    retry_all n next again s h = elim (Bool-cases k.failure.connection) [
      | inl lost ↦ rw lost (
          rw (k.reconnects s) (
            slept_all n again (worker.sleep next (worker.reconnect s).0)
              (k.sleeps next (worker.reconnect s).0) h))
      | inr other ↦ rw other (slept_all n again (worker.sleep next s) (k.sleeps next s) h)
    ]

    try_all : (left attempt : ℕ) (s : S) → (try_from worker left attempt s).1 ≡ suc left
    unfolding try_from
    try_all zero attempt s = rw (k.fails attempt s, try_from) refl
    try_all (suc left) attempt s =
        rw (k.fails attempt s, try_from)
          (rw (k.transient, k.quiet (worker.upload_file attempt s).0)
            (retry_all (suc left) (suc attempt) (λ t. try_from worker left (suc attempt) t)
              (worker.upload_file attempt s).0 (λ t. try_all left (suc attempt) t)))

    -- Where every attempt fails with the same retryable failure, the watchdog does not fire, and no
    -- sleep and no reconnect fails, uploadFileWithRetry makes exactly one attempt more than the
    -- configured retries.
    pub upload_file_with_retry_all :
        (retries : ℕ) (s : S) → (upload_file_with_retry worker retries s).1 ≡ suc retries
    unfolding upload_file_with_retry
    upload_file_with_retry_all retries s = try_all retries 0 s
