-- ===== src/Session/Pool/Steps.antt =====
-- The critical sections of the workers of a run, in any order.
use easy_sftp.Prelude.{ℕ, ◌≡◌, Bool, true, some, get_elem?}
use easy_sftp.Session.Pool.{
  Conn, Pool, Tuning, Dialed, set_spread, acquire, land, start_reconnect, finish_reconnect,
}

-- One critical section: `retries` is the budget of reconnects. A slot is filled by the worker that dials
-- it, and a redial is finished by the worker that began it.
pub data Step (retries : ℕ) (tuning : Tuning) (p : Pool) : Pool → Type 0 where
  spreads : (n : ℕ) → Step retries tuning p (set_spread tuning n p)
  claims : (index : ℕ) → Step retries tuning p (acquire index p).0
  lands :
      (slot : ℕ) (outcome : Dialed)
      → get_elem? p.dialing slot ≡ some true
      → Step retries tuning p (land tuning slot outcome p)
  starts : (c gen : ℕ) → Step retries tuning p (start_reconnect retries c gen p).0
  finishes :
      (c : ℕ) (fresh : Bool) (conn : Conn)
      → get_elem? p.heap c ≡ some conn
      → conn.redialing ≡ true
      → Step retries tuning p (finish_reconnect c fresh p)

-- Any number of them.
pub data Steps (retries : ℕ) (tuning : Tuning) (p : Pool) : Pool → Type 0 where
  here : Steps retries tuning p p
  next :
      {q r : Pool} → Steps retries tuning p q → Step retries tuning q r → Steps retries tuning p r
