-- ===== src/Session/Pool/Budget.antt =====
-- What holds of the pool of connections after any order of the critical sections, and that a refusal
-- ends the dials of an automatic count.
use easy_sftp.Prelude.{
  ℕ, zero, suc, ◌+◌, ◌%◌, ◌≤◌, ◌<◌, ◌≡◌, inl, inr, refl, Bool, true, false, leb, ◌==◌, List, [],
  ◌∷◌, Option, none, some, length, get_elem?, set, length-set, All, arith, Bool-cases,
}
use easy_sftp.Session.Pool.{
  Conn, Pool, Tuning, serves, auto_connections, new_pool, current_spread, open_slots, claim_at,
  acquire, start_with, start_reconnect, finish_with, finish_reconnect,
}
use easy_sftp.Session.Pool.Slots.{distinct-filled, spent_by, spent-set}
use easy_sftp.Session.Pool.Steps.{Step, spreads, claims, lands, starts, finishes, Steps, here, next}
use easy_sftp.Session.Pool.Invariant.{IsHeld, Inv, new_pool-Inv, set_spread-Inv, acquire-Inv}
use easy_sftp.Session.Pool.Landing.{land-Inv}

pub held_at :
    (conns : List (Option ℕ)) (n slot c : ℕ)
    → All (IsHeld n) conns
    → get_elem? conns slot ≡ some (some c)
    → c < n
held_at [] n slot c h found = cc
held_at (none ∷ conns) n zero c h found = cc
held_at (some d ∷ conns) n zero c h found =
    let same : d ≡ c = ground (arith, found) in omega (arith, same, h.0)
held_at (d ∷ conns) n (suc slot) c h found = held_at conns n slot c h.1 found

module _ {retries : ℕ} {tuning : Tuning} where
  -- A change of one connection in the heap, against a budget that grows by no less.
  heap-Inv :
      (p : Pool) (c reconnects : ℕ) (old new : Conn)
      → get_elem? p.heap c ≡ some old
      → spent_by new + p.reconnects ≤ spent_by old + reconnects
      → reconnects ≤ retries
      → Inv retries tuning p
      → Inv retries tuning (record p { heap = set p.heap c new; reconnects = reconnects })
  unfolding open_slots
  heap-Inv p c reconnects old new found less within v = record {
    first = v.first;
    fits = v.fits;
    held = rw (length-set p.heap c new) v.held;
    spread_pos = v.spread_pos;
    spread_within = v.spread_within;
    budget = omega (arith, spent-set p.heap c old new found, v.budget, less);
    budget_within = within;
    pulled_in = v.pulled_in;
  }

  start_with-Inv :
      (c gen : ℕ) (o : Option Conn) (p : Pool)
      → get_elem? p.heap c ≡ o
      → Inv retries tuning p
      → Inv retries tuning (start_with retries c gen o p).0
  start_with-Inv c gen none p found v = v
  start_with-Inv c gen (some conn) p found v = elim (Bool-cases (conn.gen == gen)) [
    | inr other ↦ rw other v
    | inl same ↦ elim (Bool-cases conn.redialing) [
      | inl busy ↦ rw (same, busy) v
      | inr idle ↦ elim (Bool-cases (leb retries p.reconnects)) [
        | inl out ↦ rw (same, idle, out) v
        | inr left ↦
            rw (same, idle, left)
              (heap-Inv p c (suc p.reconnects) conn (record conn { redialing = true }) found
                (ground arith) (ground arith) v)
      ]
    ]
  ]

  start_reconnect-Inv :
      (c gen : ℕ) (p : Pool)
      → Inv retries tuning p
      → Inv retries tuning (start_reconnect retries c gen p).0
  unfolding start_reconnect
  start_reconnect-Inv c gen p v = start_with-Inv c gen (get_elem? p.heap c) p refl v

  finish_with-Inv :
      (c : ℕ) (fresh : Bool) (conn : Conn) (p : Pool)
      → get_elem? p.heap c ≡ some conn
      → conn.redialing ≡ true
      → Inv retries tuning p
      → Inv retries tuning (finish_with c fresh (some conn) p)
  finish_with-Inv c false conn p found busy v =
      heap-Inv p c p.reconnects conn (record conn { redialing = false }) found (ground arith)
        v.budget_within v
  finish_with-Inv c true conn p found busy v =
      heap-Inv p c p.reconnects conn (record { gen = suc conn.gen; redialing = false }) found
        (ground arith) v.budget_within v

  finish_reconnect-Inv :
      (c : ℕ) (fresh : Bool) (conn : Conn) (p : Pool)
      → get_elem? p.heap c ≡ some conn
      → conn.redialing ≡ true
      → Inv retries tuning p
      → Inv retries tuning (finish_reconnect c fresh p)
  unfolding finish_reconnect
  finish_reconnect-Inv c fresh conn p found busy v =
      rw (found, finish_with) (finish_with-Inv c fresh conn p found busy v)

  pub Step-Inv :
      {p q : Pool} → Step retries tuning p q → Inv retries tuning p → Inv retries tuning q
  Step-Inv {p} (spreads n) v = set_spread-Inv n p v
  Step-Inv {p} (claims index) v = acquire-Inv index p v
  Step-Inv {p} (lands slot outcome busy) v = land-Inv slot outcome p busy v
  Step-Inv {p} (starts c gen) v = start_reconnect-Inv c gen p v
  Step-Inv {p} (finishes c fresh conn found busy) v =
      finish_reconnect-Inv c fresh conn p found busy v

  Steps-Inv : {p q : Pool} → Steps retries tuning p q → Inv retries tuning p → Inv retries tuning q
  Steps-Inv here v = v
  Steps-Inv (next ss st) v = Step-Inv st (Steps-Inv ss v)

  -- However the steps of the pool's users interleave, slot 0 holds the first connection, a slot that
  -- is being dialed is empty, every slot's connection exists, the spread is at least 1 and at most the
  -- slots, each reconnect is paid for and there are no more of them than the configured retries, and
  -- once the server has refused a connection an automatic spread is at most the connections that are
  -- open.
  pub new_pool-Steps-Inv :
      (n : ℕ) (p : Pool) → Steps retries tuning (new_pool n) p → Inv retries tuning p
  new_pool-Steps-Inv n p ss = Steps-Inv ss (new_pool-Inv retries tuning n)

  -- Every slot below the count of open ones is filled.
  open_filled :
      (p : Pool) (slot : ℕ)
      → Inv retries tuning p
      → slot < open_slots p
      → (c : ℕ) × (get_elem? p.conns slot ≡ some (some c))
  unfolding open_slots
  open_filled p zero v h = (0, v.first)
  open_filled p (suc slot) v h = distinct-filled [] p.conns (suc slot) (omega (arith, h))

  -- In a pool that keeps its invariant, where the number of connections is automatic, once the server
  -- has refused one, acquire serves a connection that exists and neither dials nor waits, for every
  -- index.
  pub acquire-no_dial :
      (index : ℕ) (p : Pool)
      → Inv retries tuning p
      → p.refused ≡ true
      → auto_connections tuning ≡ true
      → (c : ℕ) × (acquire index p ≡ (p, serves c)) × (c < length p.heap)
  unfolding acquire
  acquire-no_dial index p v refused auto =
      let slot = index % current_spread p in
      let pulled = v.pulled_in refused auto in
      let below : slot < open_slots p = grind (arith, v.spread_pos) in
      let (c, filled) = open_filled p slot v below in
      (c, rw (filled, claim_at) refl, held_at p.conns (length p.heap) slot c v.held filled)
