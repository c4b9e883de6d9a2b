-- ===== src/Config/Values/Numbers.antt =====
-- Numbers that are printed are read back.
use easy_sftp.Prelude.{
  ℕ, ◌+◌, ◌-◌, ◌*◌, ◌==◌, ◌≡◌, refl, sym, ap, ◌∙◌, false, suc, leb, if◌then◌else◌, [], ◌∷◌, Bytes,
  some, none, arith, subst,
}
use easy_sftp.Strings.{
  decimal, decimal-cons, decimal-AllDigits, AllDigits, value_from, value-decimal,
}
use easy_sftp.Config.Values.{
  ℤ, pos, negsuc, digits_value, positive, negative, unsigned, atoi, parse_int,
}

digits_value-AllDigits :
    (acc : ℕ) (s : Bytes) → AllDigits s → digits_value acc s ≡ some (value_from acc s)
digits_value-AllDigits acc [] h = refl
digits_value-AllDigits acc (c ∷ s) h =
    rw (h.0, digits_value) (digits_value-AllDigits (acc * 10 + (c - b'0')) s h.1)

atoi-digits :
    (c : ℕ) (s : Bytes) (n : ℕ)
    → AllDigits (c ∷ s)
    → value_from 0 (c ∷ s) ≡ n
    → atoi (c ∷ s) ≡ positive (some n)
unfolding atoi
atoi-digits c s n h e =
    let digit = h.0 in
    let minus : (c == b'-') ≡ false = ground arith in
    let plus : (c == b'+') ≡ false = ground arith in
    rw (minus, plus) (ap positive (digits_value-AllDigits 0 (c ∷ s) h ∙ ap some e))

unsigned-decimal : (n : ℕ) → unsigned (decimal n) ≡ some n
unsigned-decimal n =
    let (c, s, e) = decimal-cons n in
    rw e (
      digits_value-AllDigits 0 (c ∷ s) (subst AllDigits e (decimal-AllDigits n))
      ∙ ap some (ap (value_from 0) (sym e) ∙ value-decimal n))

parse_positive :
    (n : ℕ) (def : ℤ)
    → parse_int (decimal n) def ≡ (if leb n 9223372036854775807 then some (pos n) else none)
unfolding parse_int
parse_positive n def =
    let (c, s, e) = decimal-cons n in
    rw e (
      atoi-digits c s n (subst AllDigits e (decimal-AllDigits n))
        (ap (value_from 0) (sym e) ∙ value-decimal n))

-- parseInt gives the default for an empty text. It reads the decimal digits of a number, with a minus
-- before them or without, as that number where it is within Go's int, and gives an error where it is
-- not.
pub parse_int-decimal :
    (n : ℕ) (def : ℤ)
    → (parse_int [] def ≡ some def)
      × (parse_int (decimal n) def ≡ (if leb n 9223372036854775807 then some (pos n) else none))
      × (parse_int (b'-' ∷ decimal (suc n)) def
          ≡ (if leb (suc n) 9223372036854775808 then some (negsuc n) else none))
unfolding parse_int atoi
parse_int-decimal n def = (refl, parse_positive n def, ap negative (unsigned-decimal (suc n)))
