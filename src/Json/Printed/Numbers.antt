-- ===== src/Json/Printed/Numbers.antt =====
-- Numbers of JSON are read back (bootstrap/cpp/src/module/json.cpp).
use mathlib.Core.List.{append_assoc}
use ycpl.Base.{
  ◌-◌, ◌≡◌, refl, ap, ◌∙◌, true, false, ◌||◌, Option, some, [], ◌∷◌, ◌++◌, ◌==◌, length,
  take-length, arith, length-append,
}
use ycpl.Text.{Bytes}
use ycpl.Json.{
  json_number, returned, is_digit, peek, skip_digits, skip_fraction, skip_sign, skip_exponent,
  skip_number, parse_number,
}
use ycpl.Json.Printed.{
  delimits, Digits, Fraction, whole, decimals, Exponent, no_power, power, signed_power, Numeral,
  unsigned, minus,
}

skip_digits-append :
    (cs rest : Bytes) → Digits cs → is_digit (peek rest) ≡ false → skip_digits (cs ++ rest) ≡ rest
unfolding skip_digits
skip_digits-append [] [] h k = refl
skip_digits-append [] (c ∷ rest) h k = rw k refl
skip_digits-append (c ∷ cs) rest h k = rw (h.0) (skip_digits-append cs rest (h.1) k)

-- Behind digits stands no sign.
sign-stop :
    (cs rest : Bytes)
    → Digits cs
    → delimits (peek rest) ≡ true
    → skip_sign (cs ++ rest) ≡ cs ++ rest
sign-stop [] rest h k =
    let e : (peek rest == b'+' || peek rest == b'-') ≡ false = ground arith in rw e refl
sign-stop (c ∷ cs) rest h k = let e : (c == b'+' || c == b'-') ≡ false = ground arith in rw e refl

not_digit : (rest : Bytes) → delimits (peek rest) ≡ true → is_digit (peek rest) ≡ false
not_digit rest h = ground arith

-- What stands behind the digits of a number.
abbrev EndsDigits : Bytes → Type 0
EndsDigits text = (is_digit (peek text) ≡ false) × ((peek text == b'.') ≡ false)

Exponent-EndsDigits :
    (e rest : Bytes) → Exponent e → delimits (peek rest) ≡ true → EndsDigits (e ++ rest)
Exponent-EndsDigits _ rest no_power k = (ground arith, ground arith)
Exponent-EndsDigits _ rest (power m ds h digits) k = (ground arith, ground arith)
Exponent-EndsDigits _ rest (signed_power m s ds h sign digits) k = (ground arith, ground arith)

skip_exponent-append :
    (e rest : Bytes) → Exponent e → delimits (peek rest) ≡ true → skip_exponent (e ++ rest) ≡ rest
skip_exponent-append _ rest no_power k =
    let e : (peek rest == b'e' || peek rest == b'E') ≡ false = ground arith in rw e refl
skip_exponent-append _ rest (power m ds h digits) k = rw h (
    ap skip_digits (sign-stop ds rest digits k)
    ∙ skip_digits-append ds rest digits (not_digit rest k))
skip_exponent-append _ rest (signed_power m s ds h sign digits) k =
    rw (h, sign) (skip_digits-append ds rest digits (not_digit rest k))

Fraction-stop :
    (f rest : Bytes) → Fraction f → EndsDigits rest → is_digit (peek (f ++ rest)) ≡ false
Fraction-stop _ rest whole k = k.0
Fraction-stop _ rest (decimals ds digits) k = refl

skip_fraction-append :
    (f rest : Bytes) → Fraction f → EndsDigits rest → skip_fraction (f ++ rest) ≡ rest
skip_fraction-append _ rest whole k = rw (k.1) refl
skip_fraction-append _ rest (decimals ds digits) k = skip_digits-append ds rest digits (k.0)

-- The parts of a number behind its sign.
skip_parts :
    (ds f e rest : Bytes)
    → Digits ds
    → Fraction f
    → Exponent e
    → delimits (peek rest) ≡ true
    → skip_exponent (skip_fraction (skip_digits ((ds ++ (f ++ e)) ++ rest))) ≡ rest
skip_parts ds f e rest digits fraction exponent k =
    let ends = Exponent-EndsDigits e rest exponent k in
    let apart : (ds ++ (f ++ e)) ++ rest ≡ ds ++ (f ++ (e ++ rest)) =
      append_assoc ds (f ++ e) rest ∙ ap (λ t. ds ++ t) (append_assoc f e rest) in
    let digits_read =
      skip_digits-append ds (f ++ (e ++ rest)) digits (Fraction-stop f (e ++ rest) fraction ends) in
    ap (λ t. skip_exponent (skip_fraction (skip_digits t))) apart
    ∙ ap (λ t. skip_exponent (skip_fraction t)) digits_read
    ∙ ap skip_exponent (skip_fraction-append f (e ++ rest) fraction ends)
    ∙ skip_exponent-append e rest exponent k

skip_number-append :
    (w rest : Bytes) → Numeral w → delimits (peek rest) ≡ true → skip_number (w ++ rest) ≡ rest
unfolding skip_number
skip_number-append _ rest (unsigned d ds f e h digits fraction exponent) k =
    let n : (d == b'-') ≡ false = ground arith in
    rw n (skip_parts (d ∷ ds) f e rest (h, digits) fraction exponent k)
skip_number-append _ rest (minus d ds f e h digits fraction exponent) k =
    skip_parts (d ∷ ds) f e rest (h, digits) fraction exponent k

pub parse_number-append :
    {Double : Type 0} (stod : Bytes → Option Double) (n : Double) (w rest : Bytes)
    → Numeral w
    → delimits (peek rest) ≡ true
    → stod w ≡ some n
    → parse_number stod (w ++ rest) ≡ returned (json_number n) rest
unfolding parse_number
parse_number-append stod n w rest h k e =
    let s = skip_number-append w rest h k in
    let l : length (w ++ rest) - length rest ≡ length w = omega (arith, length-append w rest) in
    rw (s, l, take-length w rest, e) refl
