-- ===== src/Session/Pool/Closed.antt =====
-- eachConn, over which liveSSH, closeSSH and close go, reaches every connection that was opened, once.
use easy_sftp.Prelude.{
  ℕ, zero, suc, ◌<◌, ◌≡◌, ◌↔◌, inl, inr, refl, Bool, true, false, ◌&&◌, ltb, leb, ◌==◌, ==_iff,
  List, [], ◌∷◌, Option, none, some, length, length-append, get_elem?, set, length-set, arith,
  Bool-cases, min, max,
}
use easy_sftp.Session.Pool.{
  Conn, Pool, Tuning, Dialed, connected, dial_failed, pool_refused, auto_connections,
  clamp_connections, new_pool, set_spread, is_seen, note_dial_failure, claim_at, acquire, land,
  start_with, start_reconnect, finish_with, finish_reconnect, each_conn,
}
use easy_sftp.Session.Pool.Slots.{Fits-empty}
use easy_sftp.Session.Pool.Steps.{Step, spreads, claims, lands, starts, finishes, Steps, here, next}
use easy_sftp.Session.Pool.Invariant.{Inv, new_pool-Inv}
use easy_sftp.Session.Pool.Budget.{Step-Inv, held_at}
use easy_sftp.Session.Pool.Visits.{AllDistinct, visits-AllDistinct, visits_all, visits_held}

-- Every connection of the heap is in a slot.
abbrev pub IsCovered : Pool → Type 0
IsCovered p = (c : ℕ) → c < length p.heap → (i : ℕ) × (get_elem? p.conns i ≡ some (some c))

-- Filling an empty slot leaves the others.
set_keeps :
    (conns : List (Option ℕ)) (slot i c : ℕ) (held : Option ℕ)
    → get_elem? conns slot ≡ some none
    → get_elem? conns i ≡ some (some c)
    → get_elem? (set conns slot held) i ≡ some (some c)
set_keeps [] slot i c held empty found = cc
set_keeps (d ∷ conns) zero zero c held empty found = cc
set_keeps (d ∷ conns) zero (suc i) c held empty found = found
set_keeps (d ∷ conns) (suc slot) zero c held empty found = found
set_keeps (d ∷ conns) (suc slot) (suc i) c held empty found =
    set_keeps conns slot i c held empty found

set_there :
    (conns : List (Option ℕ)) (slot : ℕ) (held : Option ℕ)
    → get_elem? conns slot ≡ some none
    → get_elem? (set conns slot held) slot ≡ some held
set_there [] slot held empty = cc
set_there (d ∷ conns) zero held empty = refl
set_there (d ∷ conns) (suc slot) held empty = set_there conns slot held empty

-- The slots and the size of the heap are as before.
abbrev SameConns : Pool → Pool → Type 0
SameConns p q = (q.conns ≡ p.conns) × (length q.heap ≡ length p.heap)

SameConns-IsCovered : (p q : Pool) → SameConns p q → IsCovered p → IsCovered q
SameConns-IsCovered p q same h c below =
    let (i, found) = h c (omega (arith, same.1)) in (i, rw (same.0) found)

set_spread-SameConns : (tuning : Tuning) (n : ℕ) (p : Pool) → SameConns p (set_spread tuning n p)
unfolding set_spread
set_spread-SameConns tuning n p =
    elim (Bool-cases
      (p.refused && ltb p.spread (clamp_connections tuning (min (max n 1) (length p.conns))))) [
        | inl stays ↦ rw stays (refl, refl)
        | inr moves ↦ rw moves (refl, refl)
      ]

claim_at-SameConns :
    (slot : ℕ) (held : Option (Option ℕ)) (busy : Option Bool) (p : Pool)
    → SameConns p (claim_at slot held busy p).0
claim_at-SameConns slot (some (some c)) busy p = (refl, refl)
claim_at-SameConns slot none (some true) p = (refl, refl)
claim_at-SameConns slot none (some false) p = (refl, refl)
claim_at-SameConns slot none none p = (refl, refl)
claim_at-SameConns slot (some none) (some true) p = (refl, refl)
claim_at-SameConns slot (some none) (some false) p = (refl, refl)
claim_at-SameConns slot (some none) none p = (refl, refl)

start_with-SameConns :
    (retries c gen : ℕ) (o : Option Conn) (p : Pool) → SameConns p (start_with retries c gen o p).0
start_with-SameConns retries c gen none p = (refl, refl)
start_with-SameConns retries c gen (some conn) p = elim (Bool-cases (conn.gen == gen)) [
  | inr other ↦ rw other (refl, refl)
  | inl same ↦ elim (Bool-cases conn.redialing) [
    | inl busy ↦ rw (same, busy) (refl, refl)
    | inr idle ↦ elim (Bool-cases (leb retries p.reconnects)) [
      | inl out ↦ rw (same, idle, out) (refl, refl)
      | inr left ↦ rw (same, idle, left) (refl, length-set p.heap c _)
    ]
  ]
]

finish_with-SameConns :
    (c : ℕ) (fresh : Bool) (o : Option Conn) (p : Pool) → SameConns p (finish_with c fresh o p)
finish_with-SameConns c fresh none p = (refl, refl)
finish_with-SameConns c false (some conn) p = (refl, length-set p.heap c _)
finish_with-SameConns c true (some conn) p = (refl, length-set p.heap c _)

note_dial_failure-SameConns :
    (tuning : Tuning) (p : Pool) → SameConns p (note_dial_failure tuning dial_failed p)
unfolding note_dial_failure
note_dial_failure-SameConns tuning p = elim (Bool-cases (auto_connections tuning)) [
  | inl auto ↦ rw auto (refl, refl)
  | inr fixed ↦ rw fixed (refl, refl)
]

new_pool-IsCovered : (n : ℕ) → IsCovered (new_pool n)
unfolding new_pool
new_pool-IsCovered n c below = let first : c ≡ 0 = omega arith in (0, rw first refl)

module _ {retries : ℕ} {tuning : Tuning} where
  land-IsCovered :
      (slot : ℕ) (outcome : Dialed) (p : Pool)
      → get_elem? p.dialing slot ≡ some true
      → Inv retries tuning p
      → IsCovered p
      → IsCovered (land tuning slot outcome p)
  unfolding land note_dial_failure
  land-IsCovered slot connected p busy v h c below =
      let empty = Fits-empty p.dialing p.conns slot v.fits busy in
      elim (Bool-cases (c == length p.heap)) [
        | inl new ↦
            let same : c ≡ length p.heap = (==_iff c (length p.heap)).0 new in
            (slot, rw same (set_there p.conns slot (some (length p.heap)) empty))
        | inr old ↦
            let (i, found) = h c (ground (arith, length-append p.heap (fresh ∷ []))) in
            (i, set_keeps p.conns slot i c (some (length p.heap)) empty found)
      ]
    where
      fresh : Conn
      fresh = record { gen = 0; redialing = false }
  land-IsCovered slot pool_refused p busy v h c below =
      let (i, found) = h c below in
      (i, set_keeps p.conns slot i c _ (Fits-empty p.dialing p.conns slot v.fits busy) found)
  land-IsCovered slot dial_failed p busy v h c below =
      let same = note_dial_failure-SameConns tuning p in
      let (i, found) =
        SameConns-IsCovered p (note_dial_failure tuning dial_failed p) same h c below in
      let empty = Fits-empty p.dialing p.conns slot v.fits busy in
      (i, set_keeps _ slot i c _ (rw (same.0) empty) found)

  Step-IsCovered :
      {p q : Pool} → Step retries tuning p q → Inv retries tuning p → IsCovered p → IsCovered q
  unfolding acquire start_reconnect finish_reconnect
  Step-IsCovered {p} (spreads n) v h =
      SameConns-IsCovered p (set_spread tuning n p) (set_spread-SameConns tuning n p) h
  Step-IsCovered {p} (claims index) v h =
      SameConns-IsCovered p (acquire index p).0 (claim_at-SameConns _ _ _ p) h
  Step-IsCovered {p} (lands slot outcome busy) v h = land-IsCovered slot outcome p busy v h
  Step-IsCovered {p} (starts c gen) v h =
      SameConns-IsCovered p (start_reconnect retries c gen p).0
        (start_with-SameConns retries c gen (get_elem? p.heap c) p) h
  Step-IsCovered {p} (finishes c fresh conn found busy) v h =
      SameConns-IsCovered p (finish_reconnect c fresh p)
        (finish_with-SameConns c fresh (get_elem? p.heap c) p) h

  Steps-IsCovered :
      {p q : Pool}
      → Steps retries tuning p q
      → Inv retries tuning p
      → IsCovered p
      → Inv retries tuning q × IsCovered q
  Steps-IsCovered here v h = (v, h)
  Steps-IsCovered (next ss st) v h =
      let (v', h') = Steps-IsCovered ss v h in (Step-Inv st v', Step-IsCovered st v' h')

  -- However the steps of the pool's users interleave, eachConn visits exactly the connections that
  -- exist, each of them once.
  pub each_conn_iff :
      (n : ℕ) (p : Pool) (c : ℕ)
      → Steps retries tuning (new_pool n) p
      → ((is_seen (each_conn p) c ≡ true) ↔ (c < length p.heap)) × AllDistinct (each_conn p)
  unfolding each_conn
  each_conn_iff n p c ss =
      let (v, covered) =
        Steps-IsCovered ss (new_pool-Inv retries tuning n) (new_pool-IsCovered n) in
      (
        (
          λ seen.
              let (i, found) = visits_held [] p.conns c seen in
              held_at p.conns (length p.heap) i c v.held found,
          λ below. let (i, found) = covered c below in visits_all [] p.conns i c found refl,
        ),
        visits-AllDistinct [] p.conns,
      )
