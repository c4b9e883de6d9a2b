-- ===== src/Remote/Budget.antt =====
-- deleteBudget of internal/uploader/remote.go: safety.max_deletes, charged by the deletions of
-- deployed files and directories. Each method holds the mutex throughout, so a call is one step.
pub mod Runs
use easy_sftp.Prelude.{
  ℕ, ◌+◌, ◌-◌, ltb, leb, ◌&&◌, Bool, true, false, if◌then◌else◌, Result, ok, err,
}

pub record DeleteBudget : Type 0 where
  pub limit : ℕ  -- 0 means unlimited
  pub spent : ℕ

-- The two messages of a refusal, with the numbers that they print.
pub data OverLimit : Type 0 where
  more_past_limit : ℕ → ℕ → ℕ → OverLimit
  past_limit : ℕ → ℕ → OverLimit

-- newDeleteBudget
unfoldable pub new_delete_budget : ℕ → DeleteBudget
new_delete_budget max_deletes = record { limit = max_deletes; spent = 0 }

-- reserve
unfoldable pub reserve : ℕ → DeleteBudget → DeleteBudget × Result OverLimit (Unit {0})
reserve n b =
    if ltb 0 b.limit && ltb b.limit (b.spent + n)
    then (
      b,
      (if ltb 0 b.spent
          then err (more_past_limit n b.spent b.limit)
          else err (past_limit n b.limit)),
    )
    else (record b { spent = b.spent + n }, ok tt)

-- take
unfoldable pub take_one : DeleteBudget → DeleteBudget × Bool
take_one b =
    if ltb 0 b.limit && leb b.limit b.spent
    then (b, false)
    else (record b { spent = b.spent + 1 }, true)

-- refund
unfoldable pub refund : DeleteBudget → DeleteBudget
refund b = if ltb 0 b.spent then record b { spent = b.spent - 1 } else b
