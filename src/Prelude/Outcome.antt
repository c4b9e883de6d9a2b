-- ===== src/Prelude/Outcome.antt =====
-- The result of a fallible function: Go's pair of a value and an error.
use mathlib.Core.Path.{◌≡◌, refl}
use mathlib.Core.Logic.{◌⊎◌, inl, inr}
use mathlib.Core.Bool.{Bool, true, false}

pub data Result (E A : Type 0) : Type 0 where
  ok : A → Result E A
  err : E → Result E A

module _ {E : Type 0} where
  infixl 5 ◌>>=◌ ◌>>◌
  -- if err != nil { return err }
  abbrev pub ◌>>=◌ : {B A : Type 0} → Result E A → (A → Result E B) → Result E B
  outcome >>= next = elim outcome [ err reason ↦ err reason | ok value ↦ next value ]

  abbrev pub ◌>>◌ : {B : Type 0} → Result E (Unit {0}) → Result E B → Result E B
  guard >> rest = guard >>= λ _. rest

  -- if cond { return err }
  abbrev pub refuse_if : Bool → E → Result E (Unit {0})
  refuse_if cond reason = elim cond [ false ↦ ok tt | true ↦ err reason ]

  -- A chain succeeds only where each part does.
  pub >>=-eq-ok :
      {B A : Type 0} (outcome : Result E A) (next : A → Result E B) {last : B}
      → (outcome >>= next) ≡ ok last
      → (value : A) × (outcome ≡ ok value) × (next value ≡ ok last)
  >>=-eq-ok (err reason) next h = cc
  >>=-eq-ok (ok value) next h = (value, refl, h)

pub Result-cases :
    {E A : Type 0} (r : Result E A) → ((e : E) × (r ≡ err e)) ⊎ ((a : A) × (r ≡ ok a))
Result-cases (ok a) = inr (a, refl)
Result-cases (err e) = inl (e, refl)
