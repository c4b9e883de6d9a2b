-- ===== src/Uploader/Retry.antt =====
-- uploadFileWithRetry, isRetryable and isPermanentStatus of internal/uploader/retry.go.
pub mod Attempts
pub mod Placed
use easy_sftp.Prelude.{
  ℕ, zero, suc, ◌+◌, ◌==◌, ◌||◌, ◌&&◌, not, Bool, true, false, if◌then◌else◌, Option, none, some,
  Result, ok, err,
}

-- What the code asks of an error: errors.Is for the four that are told apart, the status code where it
-- wraps a status of the server, and isConnError.
pub record Failure : Type 0 where
  pub canceled : Bool
  pub deadline_exceeded : Bool
  pub permission_denied : Bool
  pub not_found : Bool
  pub status : Option ℕ
  pub connection : Bool

-- The status codes of the protocol that isPermanentStatus names.
abbrev pub ssh_fx_no_such_file : ℕ
ssh_fx_no_such_file = 2

abbrev pub ssh_fx_permission_denied : ℕ
ssh_fx_permission_denied = 3

abbrev pub ssh_fx_bad_message : ℕ
ssh_fx_bad_message = 5

abbrev pub ssh_fx_op_unsupported : ℕ
ssh_fx_op_unsupported = 8

-- isPermanentStatus
unfoldable pub is_permanent_status : Failure → Bool
is_permanent_status f = elim f.status [
  | none ↦ false
  | some code ↦
      code == ssh_fx_op_unsupported
      || (code == ssh_fx_bad_message
          || (code == ssh_fx_no_such_file || code == ssh_fx_permission_denied))
]

-- isRetryable
unfoldable pub is_retryable : Failure → Bool
unfolding is_permanent_status
is_retryable f =
    if f.canceled || f.deadline_exceeded
    then false
    else (if f.permission_denied || f.not_found
        then false
        else (if is_permanent_status f then false else true))

-- What the loop calls: an attempt of the upload, the sleep before an attempt, the removal of the temporary
-- file, the watchdog's flag, and the reconnect.
pub record Worker (S : Type 0) : Type 0 where
  pub upload_file : ℕ → S → S × Result Failure ℕ
  pub sleep : ℕ → S → S × Option Failure
  pub clear_temp : S → S
  pub has_fired : S → Bool
  pub reconnect : S → S × Option Failure

pub data UploadError : Type 0 where
  interrupted : Failure → UploadError
  not_reconnected : Failure → Failure → UploadError
  rejected : Failure → UploadError
  failed : Failure → UploadError

-- The state, the number of attempts made, and the result.
abbrev pub Outcome : Type 0 → Type 0
Outcome S = S × ℕ × Result UploadError ℕ

-- The error behind the loop.
abbrev pub give_up : Failure → Result UploadError ℕ
give_up f = if is_permanent_status f then err (rejected f) else err (failed f)

module _ {S : Type 0} (worker : Worker S) where
  abbrev pub counted : Outcome S → Outcome S
  counted (s, tries, r) = (s, suc tries, r)

  -- The next round: the sleep, the removal of the temporary file, and the attempt.
  abbrev pub slept : (S → Outcome S) → S × Option Failure → Outcome S
  slept again (s, some e) = (s, 1, err (interrupted e))
  slept again (s, none) = counted (again (worker.clear_temp s))

  abbrev pub reconnected : ℕ → (S → Outcome S) → Failure → S × Option Failure → Outcome S
  reconnected next again f (s, some r) = (s, 1, err (not_reconnected f r))
  reconnected next again f (s, none) = slept again (worker.sleep next s)

  -- What follows a retryable failure where attempts are left.
  abbrev pub retry : ℕ → (S → Outcome S) → Failure → S → Outcome S
  retry next again f s =
      if f.connection
      then reconnected next again f (worker.reconnect s)
      else slept again (worker.sleep next s)

  -- The last attempt, and one that others may follow.
  abbrev pub finished : S × Result Failure ℕ → Outcome S
  finished (s, ok n) = (s, 1, ok n)
  finished (s, err f) = (s, 1, give_up f)

  abbrev pub attempted : ℕ → (S → Outcome S) → S × Result Failure ℕ → Outcome S
  attempted next again (s, ok n) = (s, 1, ok n)
  attempted next again (s, err f) =
      if not (is_retryable f) || worker.has_fired s then (s, 1, give_up f) else retry next again f s

  -- The loop with `left` attempts after the one with the number `attempt`.
  unfoldable pub try_from : ℕ → ℕ → S → Outcome S
  unfolding is_retryable
  try_from zero attempt s = finished (worker.upload_file attempt s)
  try_from (suc left) attempt s =
      attempted (suc attempt) (λ s'. try_from left (suc attempt) s') (worker.upload_file attempt s)

  -- uploadFileWithRetry
  unfoldable pub upload_file_with_retry : ℕ → S → Outcome S
  unfolding try_from
  upload_file_with_retry retries s = try_from retries 0 s
