-- ===== src/Uploader/Retry/Placed.antt =====
-- uploadFiles of internal/uploader/transfer.go with the retries of each upload: what an attempt promises, the
-- loop of uploadFileWithRetry keeps.
use easy_sftp.Prelude.{
  ℕ, zero, suc, ◌≡◌, refl, ◌∙◌, ◌||◌, not, Bool, true, Bytes, Option, none, some, Result, ok, err,
  Bool-cases, inl, inr,
}
use easy_sftp.Transfer.Upload.{UploadItem, FileError, FileWork}
use easy_sftp.Transfer.Upload.Placed.{IsApart, WorkPromises}
use easy_sftp.Uploader.Retry.Attempts.{give_up-err, err_is_not_ok}
use easy_sftp.Uploader.Retry.{
  Failure, is_retryable, Worker, UploadError, Outcome, slept, reconnected, retry, finished,
  attempted, try_from, upload_file_with_retry,
}

abbrev pub described : (UploadError → FileError) → Result UploadError ℕ → Result FileError ℕ
described describe (ok n) = ok n
described describe (err e) = err (describe e)

-- The work on one file as uploadFiles calls it; `describe` is the error that it gives for one of the loop.
abbrev pub with_retries :
    {S : Type 0}
    → (UploadItem → ℕ → ℕ → Worker S)
    → ℕ
    → (UploadError → FileError)
    → (UploadItem → ℕ → S → S × Result FileError Bool)
    → FileWork S
with_retries worker retries describe same_size = record {
  same_size = same_size;
  upload = λ f index mode s.
      let r = upload_file_with_retry (worker f index mode) retries s in
      (r.0, described describe r.2);
}

module _ {S : Type 0} (worker : Worker S) (P : S → Type 0)
    (attempts : (k : ℕ) (s : S) → P s → P (worker.upload_file k s).0)
    (sleeps : (k : ℕ) (s : S) → P s → P (worker.sleep k s).0)
    (clears : (s : S) → P s → P (worker.clear_temp s))
    (reconnects : (s : S) → P s → P (worker.reconnect s).0) where
  slept_keeps :
      (again : S → Outcome S) (r : S × Option Failure)
      → ((s : S) → P s → P (again s).0)
      → P r.0
      → P (slept worker again r).0
  slept_keeps again (s, some e) all h = h
  slept_keeps again (s, none) all h = all (worker.clear_temp s) (clears s h)

  reconnected_keeps :
      (next : ℕ) (again : S → Outcome S) (f : Failure) (r : S × Option Failure)
      → ((s : S) → P s → P (again s).0)
      → P r.0
      → P (reconnected worker next again f r).0
  reconnected_keeps next again f (s, some e) all h = h
  reconnected_keeps next again f (s, none) all h =
      slept_keeps again (worker.sleep next s) all (sleeps next s h)

  attempted_keeps :
      (next : ℕ) (again : S → Outcome S) (r : S × Result Failure ℕ)
      → ((s : S) → P s → P (again s).0)
      → P r.0
      → P (attempted worker next again r).0
  attempted_keeps next again (s, ok n) all h = h
  attempted_keeps next again (s, err f) all h =
      elim (Bool-cases (not (is_retryable f) || worker.has_fired s)) [
        | inl ends ↦ rw ends h
        | inr goes ↦ rw goes (elim (Bool-cases f.connection) [
          | inl lost ↦ rw lost (
              reconnected_keeps next again (record f { connection = true }) (worker.reconnect s) all
                (reconnects s h))
          | inr other ↦ rw other (slept_keeps again (worker.sleep next s) all (sleeps next s h))
        ])
      ]

  finished_keeps : (r : S × Result Failure ℕ) → P r.0 → P (finished worker r).0
  finished_keeps (s, ok n) h = h
  finished_keeps (s, err f) h = h

  try_from_keeps : (left attempt : ℕ) (s : S) → P s → P (try_from worker left attempt s).0
  unfolding try_from
  try_from_keeps zero attempt s h =
      finished_keeps (worker.upload_file attempt s) (attempts attempt s h)
  try_from_keeps (suc left) attempt s h =
      attempted_keeps (suc attempt) (λ s'. try_from worker left (suc attempt) s')
        (worker.upload_file attempt s) (λ s'. try_from_keeps left (suc attempt) s')
        (attempts attempt s h)

module _ {S : Type 0} (worker : Worker S) (P : S → Type 0)
    (places : (k : ℕ) (s : S) (n : ℕ)
      → (worker.upload_file k s).1 ≡ ok n
      → P (worker.upload_file k s).0) where
  -- Success, if it is one, comes with `P`.
  abbrev Succeeds : Outcome S → Type 0
  Succeeds r = (n : ℕ) → r.2 ≡ ok n → P r.0

  slept-Succeeds :
      (again : S → Outcome S) (r : S × Option Failure)
      → ((s : S) → Succeeds (again s))
      → Succeeds (slept worker again r)
  slept-Succeeds again (s, some e) all n h = err_is_not_ok worker h
  slept-Succeeds again (s, none) all n h = all (worker.clear_temp s) n h

  reconnected-Succeeds :
      (next : ℕ) (again : S → Outcome S) (f : Failure) (r : S × Option Failure)
      → ((s : S) → Succeeds (again s))
      → Succeeds (reconnected worker next again f r)
  reconnected-Succeeds next again f (s, some e) all n h = err_is_not_ok worker h
  reconnected-Succeeds next again f (s, none) all n h =
      slept-Succeeds again (worker.sleep next s) all n h

  retry-Succeeds :
      (next : ℕ) (again : S → Outcome S) (f : Failure) (s : S)
      → ((s : S) → Succeeds (again s))
      → Succeeds (retry worker next again f s)
  retry-Succeeds next again f s all = elim (Bool-cases f.connection) [
    | inl lost ↦
        rw lost (
          reconnected-Succeeds next again (record f { connection = true }) (worker.reconnect s) all)
    | inr other ↦ rw other (slept-Succeeds again (worker.sleep next s) all)
  ]

  finished-Succeeds :
      (r : S × Result Failure ℕ) → ((n : ℕ) → r.1 ≡ ok n → P r.0) → Succeeds (finished worker r)
  finished-Succeeds (s, ok m) placed n h = placed m refl
  finished-Succeeds (s, err f) placed n h = give_up-err worker f n h

  attempted-Succeeds :
      (next : ℕ) (again : S → Outcome S) (r : S × Result Failure ℕ)
      → ((n : ℕ) → r.1 ≡ ok n → P r.0)
      → ((s : S) → Succeeds (again s))
      → Succeeds (attempted worker next again r)
  attempted-Succeeds next again (s, ok m) placed all = λ n h. placed m refl
  attempted-Succeeds next again (s, err f) placed all =
      elim (Bool-cases (not (is_retryable f) || worker.has_fired s)) [
        | inl ends ↦ rw ends (λ n h. give_up-err worker f n h)
        | inr goes ↦ rw goes (retry-Succeeds next again f s all)
      ]

  try_from-Succeeds : (left attempt : ℕ) (s : S) → Succeeds (try_from worker left attempt s)
  unfolding try_from
  try_from-Succeeds zero attempt s =
      finished-Succeeds (worker.upload_file attempt s) (places attempt s)
  try_from-Succeeds (suc left) attempt s =
      attempted-Succeeds (suc attempt) (λ s'. try_from worker left (suc attempt) s')
        (worker.upload_file attempt s) (places attempt s)
        (λ s'. try_from-Succeeds left (suc attempt) s')

-- What the calls of the loop promise for one file, seen by the contents of the files.
pub record WorkerPromises {S : Type 0} (content : S → Bytes → Option Bytes) (local : Bytes → Bytes)
    (f : UploadItem) (index : ℕ) (worker : Worker S) : Type 0 where
  pub places :
      (k : ℕ) (s : S) (n : ℕ)
      → (worker.upload_file k s).1 ≡ ok n
      → content (worker.upload_file k s).0 f.remote_path ≡ some (local f.local_path)
  pub attempt_keeps :
      (k : ℕ) (p : Bytes) (s : S)
      → IsApart f index p
      → content (worker.upload_file k s).0 p ≡ content s p
  pub clear_keeps :
      (p : Bytes) (s : S) → IsApart f index p → content (worker.clear_temp s) p ≡ content s p
  pub sleep_keeps : (k : ℕ) (p : Bytes) (s : S) → content (worker.sleep k s).0 p ≡ content s p
  pub reconnect_keeps : (p : Bytes) (s : S) → content (worker.reconnect s).0 p ≡ content s p

described_ok :
    (describe : UploadError → FileError) (r : Result UploadError ℕ) {n : ℕ}
    → described describe r ≡ ok n
    → r ≡ ok n
described_ok describe (ok m) h = cc
described_ok describe (err e) h = cc

-- uploadFileWithRetry keeps for each file what its attempts promise.
pub with_retries-WorkPromises :
    {S : Type 0} (content : S → Bytes → Option Bytes) (local : Bytes → Bytes)
    (worker : UploadItem → ℕ → ℕ → Worker S) (retries : ℕ) (describe : UploadError → FileError)
    (same_size : UploadItem → ℕ → S → S × Result FileError Bool)
    → ((f : UploadItem) (index mode : ℕ)
        → WorkerPromises content local f index (worker f index mode))
    → ((f : UploadItem) (index : ℕ) (p : Bytes) (s : S)
        → content (same_size f index s).0 p ≡ content s p)
    → WorkPromises content local (with_retries worker retries describe same_size)
unfolding upload_file_with_retry
with_retries-WorkPromises content local worker retries describe same_size promises checks = record {
  places = λ f index mode s {n} e.
      try_from-Succeeds (worker f index mode)
        (λ t. content t f.remote_path ≡ some (local f.local_path)) (promises f index mode).places
        retries 0 s n (described_ok describe (try_from (worker f index mode) retries 0 s).2 e);
  upload_keeps = λ f index mode p s apart.
      let w = promises f index mode in
      try_from_keeps (worker f index mode) (λ t. content t p ≡ content s p)
        (λ k t h. w.attempt_keeps k p t apart ∙ h) (λ k t h. w.sleep_keeps k p t ∙ h)
        (λ t h. w.clear_keeps p t apart ∙ h) (λ t h. w.reconnect_keeps p t ∙ h) retries 0 s refl;
  check_keeps = checks;
}
