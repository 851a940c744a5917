-- ===== src/Json/Shrinks.antt =====
-- Reading strings, numbers and white space of JSON leaves less text (bootstrap/cpp/src/module/json.cpp).
use ycpl.Base.{
  ℕ, suc, ◌≤◌, ◌<◌, ◌≡◌, refl, ◌≢◌, inl, inr, Bool, true, false, ◌||◌, [], ◌∷◌, ◌==◌, if◌then◌else◌,
  length, arith, Bool-cases, length-drop,
}
use ycpl.Text.{Bytes}
use ycpl.Json.{
  Result, returned, thrown, out_of_fuel, then_parse, is_digit, skip_whitespace, peek, advance,
  string_loop, skip_digits, skip_fraction, skip_sign, skip_exponent, skip_number,
}

-- It returns with fewer bytes than that left, or throws.
abbrev pub Ends : {A : Type 0} → ℕ → Result A → Type 0
Ends n (returned a rest) = length rest < n
Ends n (thrown message) = Unit
Ends n out_of_fuel = ⊥

pub Ends-weaken : {A : Type 0} (m n : ℕ) (r : Result A) → m ≤ n → Ends m r → Ends n r
Ends-weaken m n (returned a rest) h e = omega arith
Ends-weaken m n (thrown message) h e = tt
Ends-weaken m n out_of_fuel h e = e

pub then_parse-Ends :
    {A B : Type 0} (m n : ℕ) (r : Result A) (f : A → Bytes → Result B)
    → Ends m r
    → ((a : A) (rest : Bytes) → length rest < m → Ends n (f a rest))
    → Ends n (then_parse r f)
then_parse-Ends m n (returned a rest) f e h = h a rest e
then_parse-Ends m n (thrown message) f e h = tt
then_parse-Ends m n out_of_fuel f e h = e

pub Ends-if :
    {A : Type 0} (n : ℕ) (b : Bool) (r s : Result A)
    → (b ≡ true → Ends n r)
    → (b ≡ false → Ends n s)
    → Ends n (if b then r else s)
Ends-if n true r s h k = h refl
Ends-if n false r s h k = k refl

pub advance_less : (text : Bytes) → peek text ≢ 0 → length (advance text) < length text
advance_less [] h = absurd (h refl)
advance_less (c ∷ text) h = omega arith

pub advance_le : (text : Bytes) → length (advance text) ≤ length text
advance_le text = omega (arith, length-drop 1 text)

pub whitespace_le : (text : Bytes) → length (skip_whitespace text) ≤ length text
unfolding skip_whitespace
whitespace_le [] = omega arith
whitespace_le (c ∷ text) = ground (arith, whitespace_le text)

digits_le : (text : Bytes) → length (skip_digits text) ≤ length text
unfolding skip_digits
digits_le [] = omega arith
digits_le (c ∷ text) = ground (arith, digits_le text)

digits_less : (text : Bytes) → is_digit (peek text) ≡ true → length (skip_digits text) < length text
unfolding skip_digits
digits_less [] h = absurd (cc h)
digits_less (c ∷ text) h = rw h (omega (arith, digits_le text))

if_le :
    (n : ℕ) (b : Bool) (a c : Bytes) → length a ≤ n → length c ≤ n → length (if b then a else c) ≤ n
if_le n true a c h k = h
if_le n false a c h k = k

fraction_le : (text : Bytes) → length (skip_fraction text) ≤ length text
fraction_le text =
    if_le (length text) _ (skip_digits (advance text)) text
      (omega (arith, digits_le (advance text), advance_le text)) (omega arith)

sign_le : (text : Bytes) → length (skip_sign text) ≤ length text
sign_le text = if_le (length text) _ (advance text) text (advance_le text) (omega arith)

exponent_le : (text : Bytes) → length (skip_exponent text) ≤ length text
exponent_le text =
    let digits = skip_sign (advance text) in
    if_le (length text) _ (skip_digits digits) text
      (omega (arith, digits_le digits, sign_le (advance text), advance_le text)) (omega arith)

or_right : (a b : Bool) → a || b ≡ true → a ≡ false → b ≡ true
or_right true b h e = cc e
or_right false b h e = h

pub number_less :
    (text : Bytes)
    → (peek text == b'-') || is_digit (peek text) ≡ true
    → length (skip_number text) < length text
unfolding skip_number
number_less text h = elim (Bool-cases (peek text == b'-')) [
  | inl e ↦
      let t = skip_digits (advance text) in
      let n : peek text ≢ 0 = λ z. ground arith in
      rw e (
        omega (
          arith,
          exponent_le (skip_fraction t),
          fraction_le t,
          digits_le (advance text),
          advance_less text n,
        ))
  | inr e ↦
      let t = skip_digits text in
      let k : is_digit (peek text) ≡ true = or_right _ _ h e in
      rw e (omega (arith, exponent_le (skip_fraction t), fraction_le t, digits_less text k))
]

pub string_loop-Ends : (text result : Bytes) → Ends (length text) (string_loop text result)
unfolding string_loop
string_loop-Ends [] result = tt
string_loop-Ends (c ∷ []) result = Ends-if 1 (c == b'"') _ _ (λ e. omega arith) (λ e. tt)
string_loop-Ends (c ∷ d ∷ cs) result =
    Ends-if _ (c == b'"') _ _ (λ e. omega arith)
      (λ e.
        Ends-if _ (c == 0) _ _ (λ k. tt)
          (λ k.
            Ends-if _ (c == b'\\') _ _
              (λ m. Ends-weaken (length cs) _ _ (omega arith) (string_loop-Ends cs _))
              (λ m. Ends-weaken (suc (length cs)) _ _ (omega arith) (string_loop-Ends (d ∷ cs) _))))
