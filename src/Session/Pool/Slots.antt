-- ===== src/Session/Pool/Slots.antt =====
-- The two arrays of slots side by side, and the counts of the connections in them.
use easy_sftp.Prelude.{
  ℕ, zero, suc, ◌+◌, ◌≤◌, ◌<◌, ◌≡◌, inl, inr, refl, ap, Bool, true, false, if◌then◌else◌, List, [],
  ◌∷◌, ◌++◌, Option, none, some, length, get_elem?, set, arith, Bool-cases,
}
use easy_sftp.Session.Pool.{Conn, is_seen, see, distinct, repeat}

-- A slot that is being dialed is empty, and there are as many flags as slots.
abbrev pub Fits : List Bool → List (Option ℕ) → Type 0
Fits [] [] = Unit
Fits [] (c ∷ conns) = ⊥
Fits (flag ∷ dialing) [] = ⊥
Fits (true ∷ dialing) (some c ∷ conns) = ⊥
Fits (true ∷ dialing) (none ∷ conns) = Fits dialing conns
Fits (false ∷ dialing) (c ∷ conns) = Fits dialing conns

pub Fits-repeat : (n : ℕ) → Fits (repeat n false) (repeat n none)
Fits-repeat zero = tt
Fits-repeat (suc n) = Fits-repeat n

pub Fits-claim :
    (dialing : List Bool) (conns : List (Option ℕ)) (i : ℕ)
    → Fits dialing conns
    → ((c : ℕ) → get_elem? conns i ≡ some (some c) → ⊥)
    → Fits (set dialing i true) conns
Fits-claim [] conns i h empty = h
Fits-claim (flag ∷ dialing) [] i h empty = absurd h
Fits-claim (flag ∷ dialing) (some c ∷ conns) zero h empty = absurd (empty c refl)
Fits-claim (true ∷ dialing) (none ∷ conns) zero h empty = h
Fits-claim (false ∷ dialing) (none ∷ conns) zero h empty = h
Fits-claim (true ∷ dialing) (some c ∷ conns) (suc i) h empty = h
Fits-claim (true ∷ dialing) (none ∷ conns) (suc i) h empty = Fits-claim dialing conns i h empty
Fits-claim (false ∷ dialing) (c ∷ conns) (suc i) h empty = Fits-claim dialing conns i h empty

pub Fits-land :
    (dialing : List Bool) (conns : List (Option ℕ)) (i : ℕ) (held : Option ℕ)
    → Fits dialing conns
    → Fits (set dialing i false) (set conns i held)
Fits-land [] [] i held h = tt
Fits-land [] (c ∷ conns) i held h = absurd h
Fits-land (flag ∷ dialing) [] i held h = absurd h
Fits-land (true ∷ dialing) (some c ∷ conns) i held h = absurd h
Fits-land (true ∷ dialing) (none ∷ conns) zero held h = h
Fits-land (false ∷ dialing) (c ∷ conns) zero held h = h
Fits-land (true ∷ dialing) (none ∷ conns) (suc i) held h = Fits-land dialing conns i held h
Fits-land (false ∷ dialing) (c ∷ conns) (suc i) held h = Fits-land dialing conns i held h

pub Fits-empty :
    (dialing : List Bool) (conns : List (Option ℕ)) (i : ℕ)
    → Fits dialing conns
    → get_elem? dialing i ≡ some true
    → get_elem? conns i ≡ some none
Fits-empty [] conns i h busy = cc
Fits-empty (flag ∷ dialing) [] i h busy = absurd h
Fits-empty (true ∷ dialing) (some c ∷ conns) i h busy = absurd h
Fits-empty (true ∷ dialing) (none ∷ conns) zero h busy = refl
Fits-empty (false ∷ dialing) (c ∷ conns) zero h busy = cc
Fits-empty (true ∷ dialing) (none ∷ conns) (suc i) h busy = Fits-empty dialing conns i h busy
Fits-empty (false ∷ dialing) (c ∷ conns) (suc i) h busy = Fits-empty dialing conns i h busy

-- A flag that is missing belongs to no slot.
pub Fits-missing :
    (dialing : List Bool) (conns : List (Option ℕ)) (i : ℕ)
    → Fits dialing conns
    → get_elem? dialing i ≡ none
    → get_elem? conns i ≡ none
Fits-missing [] [] i h gone = refl
Fits-missing [] (c ∷ conns) i h gone = absurd h
Fits-missing (flag ∷ dialing) [] i h gone = refl
Fits-missing (true ∷ dialing) (some c ∷ conns) i h gone = absurd h
Fits-missing (true ∷ dialing) (none ∷ conns) zero h gone = cc
Fits-missing (false ∷ dialing) (c ∷ conns) zero h gone = cc
Fits-missing (true ∷ dialing) (none ∷ conns) (suc i) h gone = Fits-missing dialing conns i h gone
Fits-missing (false ∷ dialing) (c ∷ conns) (suc i) h gone = Fits-missing dialing conns i h gone

pub distinct-le-length :
    (seen : List ℕ) (conns : List (Option ℕ)) → distinct seen conns ≤ length conns
distinct-le-length seen [] = omega arith
distinct-le-length seen (none ∷ conns) = omega arith
distinct-le-length seen (some c ∷ conns) =
    let below = distinct-le-length (see seen c) conns in
    elim (Bool-cases (is_seen seen c)) [
      | inl old ↦ rw (old, distinct) (omega (arith, below))
      | inr new ↦ rw (new, distinct) (omega (arith, below))
    ]

-- The slots that are counted are all filled.
pub distinct-filled :
    (seen : List ℕ) (conns : List (Option ℕ)) (i : ℕ)
    → i < distinct seen conns
    → (c : ℕ) × (get_elem? conns i ≡ some (some c))
distinct-filled seen [] i h = absurd (omega arith)
distinct-filled seen (none ∷ conns) i h = absurd (omega arith)
distinct-filled seen (some c ∷ conns) zero h = (c, refl)
distinct-filled seen (some c ∷ conns) (suc i) h =
    distinct-filled (see seen c) conns i (distinct_tail seen c conns i h)
  where
    distinct_tail :
        (seen : List ℕ) (c : ℕ) (conns : List (Option ℕ)) (i : ℕ)
        → suc i < distinct seen (some c ∷ conns)
        → i < distinct (see seen c) conns
    distinct_tail seen c conns i h = ground arith

-- Filling an empty slot takes nothing from the count.
pub distinct-le-set :
    (seen : List ℕ) (conns : List (Option ℕ)) (i : ℕ) (held : Option ℕ)
    → get_elem? conns i ≡ some none
    → distinct seen conns ≤ distinct seen (set conns i held)
distinct-le-set seen [] i held h = omega arith
distinct-le-set seen (none ∷ conns) zero held h = omega arith
distinct-le-set seen (some c ∷ conns) zero held h = cc
distinct-le-set seen (none ∷ conns) (suc i) held h = omega arith
distinct-le-set seen (some c ∷ conns) (suc i) held h =
    let below = distinct-le-set (see seen c) conns i held h in
    elim (Bool-cases (is_seen seen c)) [
      | inl old ↦ rw (old, distinct) below
      | inr new ↦ rw (new, distinct) (omega (arith, below))
    ]

-- What the reconnects of a connection have taken from the budget.
abbrev pub spent_by : Conn → ℕ
spent_by conn = conn.gen + (if conn.redialing then 1 else 0)

abbrev pub spent : List Conn → ℕ
spent [] = 0
spent (conn ∷ heap) = spent_by conn + spent heap

pub spent-set :
    (heap : List Conn) (c : ℕ) (old new : Conn)
    → get_elem? heap c ≡ some old
    → spent (set heap c new) + spent_by old ≡ spent heap + spent_by new
spent-set [] c old new h = cc
spent-set (conn ∷ heap) zero old new h =
    let same : conn ≡ old = ground (arith, h) in
    let e : spent_by conn ≡ spent_by old = ap (λ (d : Conn). spent_by d) same in omega (arith, e)
spent-set (conn ∷ heap) (suc c) old new h = omega (arith, spent-set heap c old new h)

pub spent-append :
    (heap : List Conn) (new : Conn) → spent (heap ++ new ∷ []) ≡ spent heap + spent_by new
spent-append [] new = omega arith
spent-append (conn ∷ heap) new = omega (arith, spent-append heap new)
