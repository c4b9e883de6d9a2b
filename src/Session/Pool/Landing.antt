-- ===== src/Session/Pool/Landing.antt =====
-- What a dial leaves of the pool's invariant, whether the server gave a connection or not.
use easy_sftp.Prelude.{
  ℕ, zero, suc, ◌≤◌, ◌≡◌, inl, inr, true, false, List, [], ◌∷◌, ◌++◌, Option, none, some, length,
  length-append, get_elem?, set, length-set, All, All-map, All-set, arith, Bool-cases,
}
use easy_sftp.Session.Pool.{
  Conn, Pool, Tuning, Dialed, connected, dial_failed, pool_refused, auto_connections, open_slots,
  note_dial_failure, first_conn, land,
}
use easy_sftp.Session.Pool.Slots.{
  Fits-land, Fits-empty, distinct-le-length, distinct-le-set, spent-append,
}
use easy_sftp.Session.Pool.Invariant.{IsHeld, Inv}

first_kept :
    (conns : List (Option ℕ)) (slot : ℕ) (held : Option ℕ)
    → get_elem? conns 0 ≡ some (some 0)
    → get_elem? conns slot ≡ some none
    → get_elem? (set conns slot held) 0 ≡ some (some 0)
first_kept [] slot held h empty = cc
first_kept (c ∷ conns) zero held h empty = cc
first_kept (c ∷ conns) (suc slot) held h empty = h

first-IsHeld :
    (conns : List (Option ℕ)) (n : ℕ) → All (IsHeld n) conns → IsHeld n (first_conn conns)
first-IsHeld [] n h = tt
first-IsHeld (c ∷ conns) n h = h.0

noted_dialing :
    (tuning : Tuning) (p : Pool) (slot : ℕ)
    → get_elem? p.dialing slot ≡ some true
    → get_elem? (note_dial_failure tuning dial_failed p).dialing slot ≡ some true
unfolding note_dial_failure
noted_dialing tuning p slot h = elim (Bool-cases (auto_connections tuning)) [
  | inl auto ↦ rw auto h
  | inr fixed ↦ rw fixed h
]

module _ {retries : ℕ} {tuning : Tuning} where
  grow-Inv :
      (p : Pool)
      → Inv retries tuning p
      → Inv retries tuning
          (record p { heap = p.heap ++ record { gen = 0; redialing = false } ∷ [] })
  unfolding open_slots
  grow-Inv p v = record {
    first = v.first;
    fits = v.fits;
    held =
        All-map (IsHeld (length p.heap)) (IsHeld (length (p.heap ++ new ∷ []))) wider p.conns
          v.held;
    spread_pos = v.spread_pos;
    spread_within = v.spread_within;
    budget = omega (arith, v.budget, spent-append p.heap new);
    budget_within = v.budget_within;
    pulled_in = v.pulled_in;
  }
    where
      new : Conn
      new = record { gen = 0; redialing = false }

      wider : (c : Option ℕ) → IsHeld (length p.heap) c → IsHeld (length (p.heap ++ new ∷ [])) c
      wider none h = tt
      wider (some c) h = omega (arith, h, length-append p.heap (new ∷ []))

  fill-Inv :
      (p : Pool) (slot : ℕ) (held : Option ℕ)
      → get_elem? p.conns slot ≡ some none
      → IsHeld (length p.heap) held
      → Inv retries tuning p
      → Inv retries tuning
          (record p { conns = set p.conns slot held; dialing = set p.dialing slot false })
  unfolding open_slots
  fill-Inv p slot held empty h v = record {
    first = first_kept p.conns slot held v.first empty;
    fits = Fits-land p.dialing p.conns slot held v.fits;
    held = All-set (IsHeld (length p.heap)) p.conns slot held v.held h;
    spread_pos = v.spread_pos;
    spread_within = omega (arith, v.spread_within, length-set p.conns slot held);
    budget = v.budget;
    budget_within = v.budget_within;
    pulled_in = λ r a. omega (arith, v.pulled_in r a, distinct-le-set [] p.conns slot held empty);
  }

  open_slots_bounds :
      (p : Pool) → Inv retries tuning p → (1 ≤ open_slots p) × (open_slots p ≤ length p.conns)
  unfolding open_slots
  open_slots_bounds p v =
      omega (arith, v.spread_pos, v.spread_within, distinct-le-length [] p.conns)

  note_dial_failure-Inv :
      (p : Pool)
      → Inv retries tuning p
      → Inv retries tuning (note_dial_failure tuning dial_failed p)
  unfolding note_dial_failure open_slots
  note_dial_failure-Inv p v = elim (Bool-cases (auto_connections tuning)) [
    | inl auto ↦ rw auto (record {
      first = v.first;
      fits = v.fits;
      held = v.held;
      spread_pos = unfold open_slots in (open_slots_bounds p v).0;
      spread_within = unfold open_slots in (open_slots_bounds p v).1;
      budget = v.budget;
      budget_within = v.budget_within;
      pulled_in = λ r a. omega arith;
    })
    | inr fixed ↦ rw fixed (record {
      first = v.first;
      fits = v.fits;
      held = v.held;
      spread_pos = v.spread_pos;
      spread_within = v.spread_within;
      budget = v.budget;
      budget_within = v.budget_within;
      pulled_in = λ r a. cc;
    })
  ]

  pub land-Inv :
      (slot : ℕ) (outcome : Dialed) (p : Pool)
      → get_elem? p.dialing slot ≡ some true
      → Inv retries tuning p
      → Inv retries tuning (land tuning slot outcome p)
  unfolding land note_dial_failure
  land-Inv slot connected p busy v =
      fill-Inv _ slot (some (length p.heap)) (Fits-empty p.dialing p.conns slot v.fits busy)
        (omega (arith, length-append p.heap (record { gen = 0; redialing = false } ∷ [])))
        (grow-Inv p v)
  land-Inv slot pool_refused p busy v =
      fill-Inv p slot (first_conn p.conns) (Fits-empty p.dialing p.conns slot v.fits busy)
        (first-IsHeld p.conns (length p.heap) v.held) v
  land-Inv slot dial_failed p busy v =
      let noted = note_dial_failure-Inv p v in
      fill-Inv (note_dial_failure tuning dial_failed p) slot _
        (Fits-empty _ _ slot noted.fits (noted_dialing tuning p slot busy))
        (first-IsHeld _ _ noted.held) noted
