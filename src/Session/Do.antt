-- ===== src/Session/Do.antt =====
-- do of internal/uploader/session.go, for one worker: an operation runs again on a new connection as long
-- as the reconnect budget of the run allows it. The number that goes in and comes out is what is left of
-- the budget, and the operation returns an error of any type that says whether the connection is lost.
pub mod Outlasts
use easy_sftp.Prelude.{ℕ, zero, suc, Bool, true, false, if◌then◌else◌, Result, ok, err}

-- What the loop asks beside the operation: the flag of the watchdog, and a redial, which tells whether it
-- gave a connection.
pub record Line (S : Type 0) : Type 0 where
  pub has_fired : S → Bool
  pub redial : S → S × Bool

-- The state, what is left of the budget, and the result.
abbrev pub Run : Type 0 → Type 0 → Type 0 → Type 0
Run S E A = S × ℕ × Result E A

module _ {S E A : Type 0} (is_conn_error : E → Bool) (line : Line S) where
  -- A redial costs one of the budget also where it fails.
  abbrev pub after_redial : ℕ → (S → Run S E A) → E → S × Bool → Run S E A
  after_redial left again e (s, false) = (s, left, err e)
  after_redial left again e (s, true) = again s

  abbrev pub after_op : ℕ → (S → Run S E A) → S × Result E A → Run S E A
  after_op left again (s, ok a) = (s, suc left, ok a)
  after_op left again (s, err e) =
      if is_conn_error e
      then (if line.has_fired s
          then (s, suc left, err e)
          else after_redial left again e (line.redial s))
      else (s, suc left, err e)

  -- do; with nothing left a lost connection is not redialed.
  unfoldable pub do_op : ℕ → (S → S × Result E A) → S → Run S E A
  do_op zero op s = let (s', r) = op s in (s', 0, r)
  do_op (suc left) op s = after_op left (λ s'. do_op left op s') (op s)
