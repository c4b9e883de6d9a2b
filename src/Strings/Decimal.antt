-- ===== src/Strings/Decimal.antt =====
-- The decimal text of a number, as fmt prints %d for one that is not negative, and its value.
use easy_sftp.Prelude.{
  ℕ, zero, suc, ◌+◌, ◌-◌, ◌*◌, ◌/◌, ◌%◌, ◌<◌, ltb, leb, ◌≡◌, refl, ap, ◌∙◌, Bool, true, ◌&&◌,
  if◌then◌else◌, [], ◌∷◌, Bytes, All, arith, Bool-cases, inl, inr,
}

-- The digits of `n` before `out`, the last one first; `fuel` bounds their number.
unfoldable pub emit : ℕ → ℕ → Bytes → Bytes
emit zero n out = out
emit (suc fuel) n out =
    let rest = emit fuel (n / 10) ((b'0' + n % 10) ∷ out) in
    if ltb n 10 then (b'0' + n % 10) ∷ out else rest

unfoldable pub decimal : ℕ → Bytes
unfolding emit
decimal n = emit (suc n) n []

abbrev pub is_digit : ℕ → Bool
is_digit c = leb b'0' c && leb c b'9'

-- The number that digits stand for, after `acc`.
abbrev pub value_from : ℕ → Bytes → ℕ
value_from acc [] = acc
value_from acc (c ∷ s) = value_from (acc * 10 + (c - b'0')) s

-- Every byte is a digit.
abbrev pub AllDigits : Bytes → Type 0
AllDigits = All (λ c. is_digit c ≡ true)

digit-is_digit : (n : ℕ) → is_digit (b'0' + n % 10) ≡ true
digit-is_digit n = ground arith

emit-AllDigits : (fuel n : ℕ) (out : Bytes) → AllDigits out → AllDigits (emit fuel n out)
unfolding emit
emit-AllDigits zero n out h = h
emit-AllDigits (suc fuel) n out h = elim (Bool-cases (ltb n 10)) [
  | inl one ↦ rw one (digit-is_digit n, h)
  | inr more ↦ rw more (emit-AllDigits fuel (n / 10) _ (digit-is_digit n, h))
]

-- The text is a byte and more, all of them digits.
pub decimal-AllDigits : (n : ℕ) → AllDigits (decimal n)
unfolding decimal
decimal-AllDigits n = emit-AllDigits (suc n) n [] tt

emit-value :
    (fuel n : ℕ) (out : Bytes) → n < fuel → value_from 0 (emit fuel n out) ≡ value_from n out
unfolding emit
emit-value zero n out h = elim h [ ]
emit-value (suc fuel) n out h = elim (Bool-cases (ltb n 10)) [
  | inl one ↦ rw one (ap (λ (v : ℕ). value_from v out) (ground arith))
  | inr more ↦ rw more (
      emit-value fuel (n / 10) ((b'0' + n % 10) ∷ out) (ground arith)
      ∙ ap (λ (v : ℕ). value_from v out) (omega arith))
]

-- The value of a number's text is the number.
pub value-decimal : (n : ℕ) → value_from 0 (decimal n) ≡ n
unfolding decimal
value-decimal n = emit-value (suc n) n [] (omega arith)

emit-cons :
    (fuel n : ℕ) (c : ℕ) (out : Bytes) → (d : ℕ) × (ds : Bytes) × (emit fuel n (c ∷ out) ≡ d ∷ ds)
unfolding emit
emit-cons zero n c out = (c, out, refl)
emit-cons (suc fuel) n c out = elim (Bool-cases (ltb n 10)) [
  | inl one ↦ (b'0' + n % 10, c ∷ out, rw one)
  | inr more ↦
      let (d, ds, e) = emit-cons fuel (n / 10) (b'0' + n % 10) (c ∷ out) in (d, ds, rw (more, e))
]

pub decimal-cons : (n : ℕ) → (d : ℕ) × (ds : Bytes) × (decimal n ≡ d ∷ ds)
unfolding decimal emit
decimal-cons n = elim (Bool-cases (ltb n 10)) [
  | inl one ↦ (b'0' + n % 10, [], rw one)
  | inr more ↦ let (d, ds, e) = emit-cons n (n / 10) (b'0' + n % 10) [] in (d, ds, rw (more, e))
]
