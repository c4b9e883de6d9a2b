-- ===== src/Remote/Budget/Runs.antt =====
-- The calls of the budget's methods in a run, in any order: each method holds the mutex throughout.
use easy_sftp.Prelude.{
  ℕ, ◌+◌, ◌≤◌, subst, ltb, leb, ◌&&◌, ◌≡◌, refl, Bool, true, false, List, [], ◌∷◌, Result, ok, err,
  arith, ◌↔◌, ◌⊎◌, inl, inr, Bool-cases, ◌<◌,
}
use easy_sftp.Remote.Budget.{DeleteBudget, OverLimit, new_delete_budget, reserve, take_one, refund}

pub data Call : Type 0 where
  reserves : ℕ → Call
  takes refunds : Call

-- The budget, the removals that its methods granted, and those of them that were given back.
pub record Run : Type 0 where
  pub budget : DeleteBudget
  pub granted : ℕ
  pub refunded : ℕ

abbrev pub fresh : ℕ → Run
fresh max_deletes = record { budget = new_delete_budget max_deletes; granted = 0; refunded = 0 }

-- What a reserve, a take and a refund grant or give back. A refund counts where a charge stands.
abbrev pub granted_by : ℕ → Result OverLimit (Unit {0}) → ℕ
granted_by n (ok u) = n
granted_by n (err e) = 0

abbrev pub one_if : Bool → ℕ
one_if true = 1
one_if false = 0

abbrev pub call : Call → Run → Run
call (reserves n) r =
    let (b, answer) = reserve n r.budget in
    record r { budget = b; granted = r.granted + granted_by n answer }
call takes r =
    let (b, answer) = take_one r.budget in
    record r { budget = b; granted = r.granted + one_if answer }
call refunds r = record r {
  budget = refund r.budget;
  refunded = r.refunded + one_if (ltb 0 r.budget.spent);
}

abbrev pub run : List Call → Run → Run
run [] r = r
run (c ∷ calls) r = run calls (call c r)

-- The charge that stands is what was granted and not given back, and it is within the limit.
pub record IsCharged (max_deletes : ℕ) (r : Run) : Type 0 where
  pub limit_kept : r.budget.limit ≡ max_deletes
  pub exact : r.granted ≡ r.budget.spent + r.refunded
  pub within_limit : (max_deletes ≡ 0) ⊎ (r.budget.spent ≤ max_deletes)

module _ (m : ℕ) where
  reserves-IsCharged : (n : ℕ) (r : Run) → IsCharged m r → IsCharged m (call (reserves n) r)
  unfolding reserve
  reserves-IsCharged n r h =
      elim (Bool-cases (ltb 0 r.budget.limit && ltb r.budget.limit (r.budget.spent + n))) [
        | inr fits ↦ rw fits (record {
          limit_kept = h.limit_kept;
          exact = omega (arith, h.exact);
          within_limit = ground (arith, h.limit_kept);
        })
        | inl over ↦ rw over (elim (Bool-cases (ltb 0 r.budget.spent)) [
          | inl more ↦ rw more (record {
            limit_kept = h.limit_kept;
            exact = omega (arith, h.exact);
            within_limit = h.within_limit;
          })
          | inr first ↦ rw first (record {
            limit_kept = h.limit_kept;
            exact = omega (arith, h.exact);
            within_limit = h.within_limit;
          })
        ])
      ]

  takes-IsCharged : (r : Run) → IsCharged m r → IsCharged m (call takes r)
  unfolding take_one
  takes-IsCharged r h =
      elim (Bool-cases (ltb 0 r.budget.limit && leb r.budget.limit r.budget.spent)) [
        | inl full ↦ rw full (record {
          limit_kept = h.limit_kept;
          exact = omega (arith, h.exact);
          within_limit = h.within_limit;
        })
        | inr free ↦ rw free (record {
          limit_kept = h.limit_kept;
          exact = omega (arith, h.exact);
          within_limit = ground (arith, h.limit_kept);
        })
      ]

  refunds-IsCharged : (r : Run) → IsCharged m r → IsCharged m (call refunds r)
  unfolding refund
  refunds-IsCharged r h = elim (Bool-cases (ltb 0 r.budget.spent)) [
    | inl stands ↦ rw stands (record {
      limit_kept = h.limit_kept;
      exact = ground (arith, h.exact);
      within_limit = ground (arith, h.within_limit);
    })
    | inr nothing ↦ rw nothing (record {
      limit_kept = h.limit_kept;
      exact = omega (arith, h.exact);
      within_limit = h.within_limit;
    })
  ]

  call-IsCharged : (c : Call) (r : Run) → IsCharged m r → IsCharged m (call c r)
  call-IsCharged (reserves n) r h = reserves-IsCharged n r h
  call-IsCharged takes r h = takes-IsCharged r h
  call-IsCharged refunds r h = refunds-IsCharged r h

  run_from : (calls : List Call) (r : Run) → IsCharged m r → IsCharged m (run calls r)
  run_from [] r h = h
  run_from (c ∷ calls) r h = run_from calls (call c r) (call-IsCharged c r h)

-- A batch of the size is granted exactly where there is no limit or it fits within it, and so is one more.
abbrev pub Grants : ℕ → ℕ → DeleteBudget → Type 0
Grants max_deletes n b =
    (((reserve n b).1 ≡ ok tt) ↔ ((max_deletes ≡ 0) ⊎ (b.spent + n ≤ max_deletes)))
    × (((take_one b).1 ≡ true) ↔ ((max_deletes ≡ 0) ⊎ (b.spent < max_deletes)))

budget-Grants : (n : ℕ) (b : DeleteBudget) → Grants b.limit n b
unfolding reserve take_one
budget-Grants n b =
    ((λ h. ground arith, λ fits. ground arith), (λ h. ground arith, λ fits. ground arith))

-- In whatever order reserve, take and refund are called on a new budget, it keeps its limit, the
-- deletions that it granted are exactly those that stand as charges and those that were given back,
-- and where the limit is not 0, those that stand are within it. A batch of any size is then granted by
-- reserve, and a single deletion by take, exactly if the limit is 0 or it fits within it with those
-- that stand.
pub run-IsCharged :
    (max_deletes : ℕ) (calls : List Call) (n : ℕ)
    → IsCharged max_deletes (run calls (fresh max_deletes))
      × Grants max_deletes n (run calls (fresh max_deletes)).budget
unfolding new_delete_budget
run-IsCharged m calls n =
    let charged =
      run_from m calls (fresh m)
        (record { limit_kept = refl; exact = refl; within_limit = inr (omega arith) }) in
    let b = (run calls (fresh m)).budget in
    (charged, subst (λ l. Grants l n b) charged.limit_kept (budget-Grants n b))
