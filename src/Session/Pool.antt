-- ===== src/Session/Pool.antt =====
-- The connections of internal/uploader/session.go. A connection is an index in a heap, since two slots may
-- hold the same one, and each critical section under the session's mutex is one function: acquire and
-- reconnect are two of them each, before and after the handshake that runs with the mutex released.
pub mod Slots
pub mod Steps
pub mod Invariant
pub mod Landing
pub mod Budget
pub mod Visits
pub mod Closed
use easy_sftp.Prelude.{
  ℕ, zero, suc, ◌+◌, ◌-◌, ◌%◌, ◌==◌, min, max, ltb, leb, Bool, true, false, not, ◌&&◌, ◌||◌,
  if◌then◌else◌, List, [], ◌∷◌, ◌++◌, Option, none, some, length, get_elem?, set,
}

-- conn: the number of its reconnects, and whether a worker redials it.
pub record Conn : Type 0 where
  pub gen : ℕ
  pub redialing : Bool

-- session
pub record Pool : Type 0 where
  pub heap : List Conn
  pub conns : List (Option ℕ)
  pub dialing : List Bool
  pub spread : ℕ
  pub refused : Bool
  pub reconnects : ℕ

-- What the tuning says about the number of connections: the number that the user wrote, or 0, and the
-- ceiling that an earlier run left, or 0.
pub record Tuning : Type 0 where
  pub fixed_connections : ℕ
  pub ceiling : ℕ

-- clampConnections
unfoldable pub clamp_connections : Tuning → ℕ → ℕ
clamp_connections t n =
    if ltb 0 t.fixed_connections || t.ceiling == 0 || leb n t.ceiling then n else t.ceiling

-- autoConnections
abbrev pub auto_connections : Tuning → Bool
auto_connections t = t.fixed_connections == 0

abbrev pub repeat {ℓ} : {A : Type ℓ} → ℕ → A → List A
repeat zero a = []
repeat (suc n) a = a ∷ repeat n a

-- The session that newSession returns, with `n` slots and one more.
unfoldable pub new_pool : ℕ → Pool
new_pool n = record {
  heap = record { gen = 0; redialing = false } ∷ [];
  conns = some 0 ∷ repeat n none;
  dialing = false ∷ repeat n false;
  spread = 1;
  refused = false;
  reconnects = 0;
}

-- setSpread
unfoldable pub set_spread : Tuning → ℕ → Pool → Pool
unfolding clamp_connections
set_spread t n p =
    let wanted = clamp_connections t (min (max n 1) (length p.conns)) in
    if p.refused && ltb p.spread wanted then p else record p { spread = wanted }

-- currentSpread
abbrev pub current_spread : Pool → ℕ
current_spread p = max p.spread 1

abbrev pub is_seen : List ℕ → ℕ → Bool
is_seen [] c = false
is_seen (d ∷ seen) c = d == c || is_seen seen c

unfoldable pub see : List ℕ → ℕ → List ℕ
see seen c = if is_seen seen c then seen else c ∷ seen

-- The loop of openSlots.
abbrev pub distinct : List ℕ → List (Option ℕ) → ℕ
distinct seen [] = 0
distinct seen (none ∷ conns) = 0
distinct seen (some c ∷ conns) =
    let rest = distinct (see seen c) conns in if is_seen seen c then rest else suc rest

-- openSlots
unfoldable pub open_slots : Pool → ℕ
open_slots p = max (distinct [] p.conns) 1

-- granted
unfoldable pub granted : Pool → ℕ × Bool
unfolding open_slots
granted p = (open_slots p, p.refused)

-- What a dial of a slot ends with: a connection, an error of the server, or errPoolRefused.
pub data Dialed : Type 0 where
  connected : Dialed
  dial_failed : Dialed
  pool_refused : Dialed

-- noteDialFailure
unfoldable pub note_dial_failure : Tuning → Dialed → Pool → Pool
unfolding open_slots
note_dial_failure t pool_refused p = p
note_dial_failure t connected p = p
note_dial_failure t dial_failed p =
    if auto_connections t
    then record p { refused = true; spread = open_slots p }
    else record p { refused = true }

-- What acquire does with the slot of a file: it serves the slot's connection, waits for the worker that
-- dials the slot, or dials it.
pub data Claim : Type 0 where
  serves : ℕ → Claim
  waits : ℕ → Claim
  dials : ℕ → Claim

abbrev pub claim_at : ℕ → Option (Option ℕ) → Option Bool → Pool → Pool × Claim
claim_at slot (some (some c)) busy p = (p, serves c)
claim_at slot held (some true) p = (p, waits slot)
claim_at slot held (some false) p = (record p { dialing = set p.dialing slot true }, dials slot)
claim_at slot held none p = (p, dials slot)

-- acquire, up to the handshake.
unfoldable pub acquire : ℕ → Pool → Pool × Claim
acquire index p =
    let slot = index % current_spread p in
    claim_at slot (get_elem? p.conns slot) (get_elem? p.dialing slot) p

-- conns[0], as what a slot holds.
abbrev pub first_conn : List (Option ℕ) → Option ℕ
first_conn [] = none
first_conn (c ∷ conns) = c

-- acquire, after the handshake.
unfoldable pub land : Tuning → ℕ → Dialed → Pool → Pool
unfolding note_dial_failure
land t slot connected p = record p {
  heap = p.heap ++ record { gen = 0; redialing = false } ∷ [];
  conns = set p.conns slot (some (length p.heap));
  dialing = set p.dialing slot false;
}
land t slot failed p =
    let p' = note_dial_failure t failed p in
    record p' {
      conns = set p'.conns slot (first_conn p'.conns);
      dialing = set p'.dialing slot false;
    }

-- What reconnect finds: the connection was replaced, a worker redials it, the budget is spent, or it
-- is to be redialed.
pub data Start : Type 0 where
  replaced redials_already budget_spent must_redial no_conn : Start

abbrev pub begin_redial : ℕ → Conn → Pool → Pool
begin_redial c conn p = record p {
  heap = set p.heap c (record conn { redialing = true });
  reconnects = suc p.reconnects;
}

abbrev pub start_with : ℕ → ℕ → ℕ → Option Conn → Pool → Pool × Start
start_with retries c gen none p = (p, no_conn)
start_with retries c gen (some conn) p =
    if not (conn.gen == gen)
    then (p, replaced)
    else (if conn.redialing
        then (p, redials_already)
        else (if leb retries p.reconnects
            then (p, budget_spent)
            else (begin_redial c conn p, must_redial)))

-- reconnect, up to the redial.
unfoldable pub start_reconnect : ℕ → ℕ → ℕ → Pool → Pool × Start
start_reconnect retries c gen p = start_with retries c gen (get_elem? p.heap c) p

abbrev pub finish_with : ℕ → Bool → Option Conn → Pool → Pool
finish_with c fresh none p = p
finish_with c false (some conn) p = record p {
  heap = set p.heap c (record conn { redialing = false });
}
finish_with c true (some conn) p = record p {
  heap = set p.heap c (record { gen = suc conn.gen; redialing = false });
}

-- reconnect, after the redial, which gave a connection or not.
unfoldable pub finish_reconnect : ℕ → Bool → Pool → Pool
finish_reconnect c fresh p = finish_with c fresh (get_elem? p.heap c) p

-- eachConn: the connections it visits, in its order.
abbrev pub visits : List ℕ → List (Option ℕ) → List ℕ
visits seen [] = []
visits seen (none ∷ conns) = visits seen conns
visits seen (some c ∷ conns) =
    let rest = visits (see seen c) conns in if is_seen seen c then rest else c ∷ rest

unfoldable pub each_conn : Pool → List ℕ
each_conn p = visits [] p.conns
