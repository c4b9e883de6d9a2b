-- ===== src/Session/Do/Outlasts.antt =====
-- What the loop around an operation keeps, what it returns, and how many losses it outlives.
use easy_sftp.Prelude.{
  ℕ, zero, suc, ◌≤◌, ◌<◌, ◌≡◌, inl, inr, refl, Bool, true, false, Result, ok, err, arith,
  Bool-cases, subst,
}
use easy_sftp.Session.Do.{Line, Run, after_redial, after_op, do_op}

err_injective : {E A : Type 0} {d e : E} → Path (Result E A) (err d) (err e) → d ≡ e
err_injective h = cc

module _ {S E A : Type 0} (is_conn_error : E → Bool) (line : Line S) (op : S → S × Result E A) where
  open line use {has_fired, redial}

  module _ (P : S → Type 0) (op_keeps : (s : S) → P s → P (op s).0)
      (redial_keeps : (s : S) → P s → P (redial s).0) where
    redialed_keeps :
        (left : ℕ) (again : S → Run S E A) (e : E) (r : S × Bool)
        → ((s : S) → P s → P (again s).0)
        → P r.0
        → P (after_redial is_conn_error line left again e r).0
    redialed_keeps left again e (s, false) keep h = h
    redialed_keeps left again e (s, true) keep h = keep s h

    op_then_keeps :
        (left : ℕ) (again : S → Run S E A) (r : S × Result E A)
        → ((s : S) → P s → P (again s).0)
        → P r.0
        → P (after_op is_conn_error line left again r).0
    op_then_keeps left again (s, ok a) keep h = h
    op_then_keeps left again (s, err e) keep h = elim (Bool-cases (is_conn_error e)) [
      | inr other ↦ rw other h
      | inl lost ↦ elim (Bool-cases (has_fired s)) [
        | inl fired ↦ rw (lost, fired) h
        | inr quiet ↦
            rw (lost, quiet) (redialed_keeps left again e (redial s) keep (redial_keeps s h))
      ]
    ]

    -- What the operation and the redial keep, the loop keeps.
    pub do_op-keeps : (left : ℕ) (s : S) → P s → P (do_op is_conn_error line left op s).0
    unfolding do_op
    do_op-keeps zero s h = op_keeps s h
    do_op-keeps (suc left) s h =
        op_then_keeps left (λ s'. do_op is_conn_error line left op s') (op s)
          (λ s'. do_op-keeps left s') (op_keeps s h)

  IsResult : (r : Result E A) → Type 0
  IsResult r = (s : S) × ((op s).1 ≡ r)

  redialed_returns :
      (left : ℕ) (again : S → Run S E A) (e : E) (r : S × Bool)
      → ((s : S) → ((again s).1 ≤ left) × IsResult (again s).2)
      → IsResult (err e)
      → ((after_redial is_conn_error line left again e r).1 ≤ left)
        × IsResult (after_redial is_conn_error line left again e r).2
  redialed_returns left again e (s, false) all h = (omega arith, h)
  redialed_returns left again e (s, true) all h = all s

  op_then_returns :
      (left : ℕ) (again : S → Run S E A) (r : S × Result E A)
      → ((s : S) → ((again s).1 ≤ left) × IsResult (again s).2)
      → IsResult r.1
      → ((after_op is_conn_error line left again r).1 ≤ suc left)
        × IsResult (after_op is_conn_error line left again r).2
  op_then_returns left again (s, ok a) all h = (omega arith, h)
  op_then_returns left again (s, err e) all h = elim (Bool-cases (is_conn_error e)) [
    | inr other ↦ rw other (omega arith, h)
    | inl lost ↦ elim (Bool-cases (has_fired s)) [
      | inl fired ↦ rw (lost, fired) (omega arith, h)
      | inr quiet ↦
          let (below, same) = redialed_returns left again e (redial s) all h in
          rw (lost, quiet) (omega (arith, below), same)
    ]
  ]

  pub do_op-returns :
      (left : ℕ) (s : S)
      → ((do_op is_conn_error line left op s).1 ≤ left)
        × ((s' : S) × ((op s').1 ≡ (do_op is_conn_error line left op s).2))
  unfolding do_op IsResult
  do_op-returns zero s = (omega arith, (s, refl))
  do_op-returns (suc left) s =
      op_then_returns left (λ s'. do_op is_conn_error line left op s') (op s)
        (λ s'. do_op-returns left s') (s, refl)

  module _ (faults : S → ℕ)
      (loses : (s : S) (e : E)
        → (op s).1 ≡ err e
        → is_conn_error e ≡ true
        → faults (op s).0 < faults s)
      (redials : (s : S) → ((redial s).1 ≡ true) × (faults (redial s).0 ≤ faults s))
      (quiet : (s : S) → has_fired s ≡ false) where
    IsNoLoss : Result E A → Type 0
    IsNoLoss r = (e : E) → r ≡ err e → is_conn_error e ≡ false

    redialed_outlasts :
        (left : ℕ) (again : S → Run S E A) (e : E) (r : S × Bool)
        → r.1 ≡ true
        → ((s : S) → faults s ≤ left → IsNoLoss (again s).2)
        → faults r.0 ≤ left
        → IsNoLoss (after_redial is_conn_error line left again e r).2
    redialed_outlasts left again e (s, false) up all h = cc
    redialed_outlasts left again e (s, true) up all h = all s h

    op_then_outlasts :
        (left : ℕ) (again : S → Run S E A) (r : S × Result E A)
        → ((s : S) → faults s ≤ left → IsNoLoss (again s).2)
        → ((e : E) → r.1 ≡ err e → is_conn_error e ≡ true → faults r.0 ≤ left)
        → IsNoLoss (after_op is_conn_error line left again r).2
    unfolding IsNoLoss
    op_then_outlasts left again (s, ok a) all h = λ e same. cc
    op_then_outlasts left again (s, err e) all h = elim (Bool-cases (is_conn_error e)) [
      | inr other ↦
          rw other λ e' same. subst (λ d. is_conn_error d ≡ false) (err_injective same) other
      | inl lost ↦
          rw (lost, quiet s)
            (redialed_outlasts left again e (redial s) (redials s).0 all
              (omega (arith, (redials s).1, h e refl lost)))
    ]

    -- Where each lost connection uses up one of the faults that the server has left, every redial
    -- succeeds, the watchdog does not fire, and the faults are at most the reconnects left, session.do
    -- does not end with a lost connection: it ends with success or another error.
    pub do_op-outlasts :
        (left : ℕ) (s : S) {e : E}
        → faults s ≤ left
        → (do_op is_conn_error line left op s).2 ≡ err e
        → is_conn_error e ≡ false
    unfolding do_op IsNoLoss
    do_op-outlasts zero s {e} h same = elim (Bool-cases (is_conn_error e)) [
      | inr other ↦ other
      | inl lost ↦ absurd (omega (arith, loses s e same lost))
    ]
    do_op-outlasts (suc left) s {e} h same =
        op_then_outlasts left (λ s'. do_op is_conn_error line left op s') (op s)
          (λ s' below e'. do_op-outlasts left s' {e = e'} below)
          (λ e' lost conn. omega (arith, loses s e' lost conn)) e same

  -- What the operation ensures where it succeeds, the loop ensures.
  module _ (Q : S → A → Type 0) (ensures : (s : S) (a : A) → (op s).1 ≡ ok a → Q (op s).0 a) where
    IsEnsured : Run S E A → Type 0
    IsEnsured r = (a : A) → r.2 ≡ ok a → Q r.0 a

    redialed_ensures :
        (left : ℕ) (again : S → Run S E A) (e : E) (r : S × Bool)
        → ((s : S) → IsEnsured (again s))
        → IsEnsured (after_redial is_conn_error line left again e r)
    unfolding IsEnsured
    redialed_ensures left again e (s, false) all = λ a h. cc
    redialed_ensures left again e (s, true) all = all s

    op_then_ensures :
        (left : ℕ) (again : S → Run S E A) (r : S × Result E A)
        → ((s : S) → IsEnsured (again s))
        → ((a : A) → r.1 ≡ ok a → Q r.0 a)
        → IsEnsured (after_op is_conn_error line left again r)
    unfolding IsEnsured
    op_then_ensures left again (s, ok a) all h = h
    op_then_ensures left again (s, err e) all h = elim (Bool-cases (is_conn_error e)) [
      | inr other ↦ rw other h
      | inl lost ↦ elim (Bool-cases (has_fired s)) [
        | inl fired ↦ rw (lost, fired) h
        | inr quiet ↦ rw (lost, quiet) (redialed_ensures left again e (redial s) all)
      ]
    ]

    pub do_op-ensures :
        (left : ℕ) (s : S) (a : A)
        → (do_op is_conn_error line left op s).2 ≡ ok a
        → Q (do_op is_conn_error line left op s).0 a
    unfolding do_op IsEnsured
    do_op-ensures zero s a h = ensures s a h
    do_op-ensures (suc left) s a h =
        op_then_ensures left (λ s'. do_op is_conn_error line left op s') (op s)
          (λ s' a'. do_op-ensures left s' a') (ensures s) a h
