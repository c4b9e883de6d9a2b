-- ===== src/Session/Pool/Visits.antt =====
-- What the walk of eachConn over the slots visits.
use easy_sftp.Prelude.{
  ℕ, zero, suc, ◌≡◌, inl, inr, refl, ap, ◌∙◌, subst, true, false, ◌||◌, ◌==◌, ==_iff, List, [], ◌∷◌,
  Option, none, some, get_elem?, arith, Bool-cases,
}
use easy_sftp.Session.Pool.{is_seen, see, visits}

-- The numbers in the list are all different.
abbrev pub AllDistinct : List ℕ → Type 0
AllDistinct [] = Unit
AllDistinct (c ∷ cs) = (is_seen cs c ≡ false) × AllDistinct cs

is_seen-see : (seen : List ℕ) (d c : ℕ) → is_seen (see seen d) c ≡ (d == c || is_seen seen c)
unfolding see
is_seen-see seen d c = elim (Bool-cases (is_seen seen d)) [
  | inr new ↦ rw new refl
  | inl old ↦ elim (Bool-cases (d == c)) [
    | inr other ↦ rw (old, other) refl
    | inl same ↦ rw (old, same) (subst (λ (e : ℕ). is_seen seen e ≡ true) ((==_iff d c).0 same) old)
  ]
]

visits-unseen :
    (seen : List ℕ) (conns : List (Option ℕ)) (c : ℕ)
    → is_seen seen c ≡ true
    → is_seen (visits seen conns) c ≡ false
visits-unseen seen [] c h = refl
visits-unseen seen (none ∷ conns) c h = visits-unseen seen conns c h
visits-unseen seen (some d ∷ conns) c h =
    ground (arith, is_seen-see seen d c, visits-unseen (see seen d) conns c)

pub visits-AllDistinct : (seen : List ℕ) (conns : List (Option ℕ)) → AllDistinct (visits seen conns)
visits-AllDistinct seen [] = tt
visits-AllDistinct seen (none ∷ conns) = visits-AllDistinct seen conns
visits-AllDistinct seen (some d ∷ conns) =
    let rest = visits-AllDistinct (see seen d) conns in
    elim (Bool-cases (is_seen seen d)) [
      | inl old ↦ rw (old, visits) rest
      | inr new ↦
          rw (new, visits)
            (visits-unseen (see seen d) conns d (is_seen-see seen d d ∙ ground arith), rest)
    ]

pub visits_all :
    (seen : List ℕ) (conns : List (Option ℕ)) (i c : ℕ)
    → get_elem? conns i ≡ some (some c)
    → is_seen seen c ≡ false
    → is_seen (visits seen conns) c ≡ true
visits_all seen [] i c found h = cc
visits_all seen (none ∷ conns) zero c found h = cc
visits_all seen (none ∷ conns) (suc i) c found h = visits_all seen conns i c found h
visits_all seen (some d ∷ conns) zero c found h = ground (arith, found)
visits_all seen (some d ∷ conns) (suc i) c found h =
    ground (arith, is_seen-see seen d c, visits_all (see seen d) conns i c found)

pub visits_held :
    (seen : List ℕ) (conns : List (Option ℕ)) (c : ℕ)
    → is_seen (visits seen conns) c ≡ true
    → (i : ℕ) × (get_elem? conns i ≡ some (some c))
visits_held seen [] c h = cc
visits_held seen (none ∷ conns) c h = let (i, found) = visits_held seen conns c h in (suc i, found)
visits_held seen (some d ∷ conns) c h = elim (Bool-cases (d == c)) [
  | inl same ↦ (0, ap (λ (e : ℕ). some (some e)) ((==_iff d c).0 same))
  | inr other ↦
      let (i, found) = visits_held (see seen d) conns c (ground (arith, h)) in (suc i, found)
]
