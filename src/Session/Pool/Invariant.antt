-- ===== src/Session/Pool/Invariant.antt =====
-- What holds of the pool of connections after any order of the critical sections.
use easy_sftp.Prelude.{
  ℕ, zero, suc, ◌≤◌, ◌<◌, ◌≡◌, inl, inr, refl, Bool, true, false, ◌&&◌, min, max, ltb, List, Option,
  none, some, length, get_elem?, All, arith, Bool-cases,
}
use easy_sftp.Session.Pool.{
  Pool, Tuning, clamp_connections, auto_connections, new_pool, repeat, set_spread, open_slots,
  claim_at, acquire,
}
use easy_sftp.Session.Pool.Slots.{Fits, Fits-repeat, Fits-claim, spent}

-- What a slot holds is a connection of the heap.
abbrev pub IsHeld : ℕ → Option ℕ → Type 0
IsHeld n none = Unit
IsHeld n (some c) = c < n

-- The first slot holds the first connection, a slot that is being dialed is empty, the spread stays within
-- the slots, each redial has its place in the budget, and the spread of an automatic count is within the
-- connections that are open once the server has refused one.
pub record Inv (retries : ℕ) (tuning : Tuning) (p : Pool) : Type 0 where
  pub first : get_elem? p.conns 0 ≡ some (some 0)
  pub fits : Fits p.dialing p.conns
  pub held : All (IsHeld (length p.heap)) p.conns
  pub spread_pos : 1 ≤ p.spread
  pub spread_within : p.spread ≤ length p.conns
  pub budget : spent p.heap ≤ p.reconnects
  pub budget_within : p.reconnects ≤ retries
  pub pulled_in : p.refused ≡ true → auto_connections tuning ≡ true → p.spread ≤ open_slots p

repeat-IsHeld : (n k : ℕ) → All (IsHeld k) (repeat n none)
repeat-IsHeld zero k = tt
repeat-IsHeld (suc n) k = (tt, repeat-IsHeld n k)

pub new_pool-Inv : (retries : ℕ) (tuning : Tuning) (n : ℕ) → Inv retries tuning (new_pool n)
unfolding new_pool
new_pool-Inv retries tuning n = record {
  first = refl;
  fits = Fits-repeat n;
  held = (omega arith, repeat-IsHeld n 1);
  spread_pos = omega arith;
  spread_within = omega arith;
  budget = omega arith;
  budget_within = omega arith;
  pulled_in = λ r. cc;
}

clamp_bounds :
    (tuning : Tuning) (n : ℕ)
    → 1 ≤ n
    → (1 ≤ clamp_connections tuning n) × (clamp_connections tuning n ≤ n)
unfolding clamp_connections
clamp_bounds tuning n h = ground arith

module _ {retries : ℕ} {tuning : Tuning} where
  pub set_spread-Inv :
      (n : ℕ) (p : Pool) → Inv retries tuning p → Inv retries tuning (set_spread tuning n p)
  unfolding set_spread open_slots
  set_spread-Inv n p v =
      let wanted = clamp_connections tuning (min (max n 1) (length p.conns)) in
      let within : (1 ≤ wanted) × (wanted ≤ min (max n 1) (length p.conns)) =
        clamp_bounds tuning _ (omega (arith, v.spread_pos, v.spread_within)) in
      elim (Bool-cases (p.refused && ltb p.spread wanted)) [
        | inl stays ↦ rw stays v
        | inr moves ↦ rw moves (record {
          first = v.first;
          fits = v.fits;
          held = v.held;
          spread_pos = within.0;
          spread_within = omega (arith, within.1);
          budget = v.budget;
          budget_within = v.budget_within;
          pulled_in = λ r a. let old = v.pulled_in r a in ground arith;
        })
      ]

  flag-Inv :
      (p : Pool) (flags : List Bool)
      → Fits flags p.conns
      → Inv retries tuning p
      → Inv retries tuning (record p { dialing = flags })
  unfolding open_slots
  flag-Inv p flags h v = record {
    first = v.first;
    fits = h;
    held = v.held;
    spread_pos = v.spread_pos;
    spread_within = v.spread_within;
    budget = v.budget;
    budget_within = v.budget_within;
    pulled_in = v.pulled_in;
  }

  claim_at-Inv :
      (slot : ℕ) (held : Option (Option ℕ)) (busy : Option Bool) (p : Pool)
      → get_elem? p.conns slot ≡ held
      → Inv retries tuning p
      → Inv retries tuning (claim_at slot held busy p).0
  claim_at-Inv slot (some (some c)) busy p h v = v
  claim_at-Inv slot none (some true) p h v = v
  claim_at-Inv slot (some none) (some true) p h v = v
  claim_at-Inv slot none none p h v = v
  claim_at-Inv slot (some none) none p h v = v
  claim_at-Inv slot none (some false) p h v =
      flag-Inv p _ (Fits-claim p.dialing p.conns slot v.fits (λ c e. cc)) v
  claim_at-Inv slot (some none) (some false) p h v =
      flag-Inv p _ (Fits-claim p.dialing p.conns slot v.fits (λ c e. cc)) v

  pub acquire-Inv :
      (index : ℕ) (p : Pool) → Inv retries tuning p → Inv retries tuning (acquire index p).0
  unfolding acquire
  acquire-Inv index p v = claim_at-Inv _ _ _ p refl v
