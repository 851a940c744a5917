-- ===== src/Lexer/Literals/Numbers.antt =====
-- Names and numbers hold what was read (bootstrap/cpp/src/lexer/lexer.cpp).
use ycpl.Base.{
  ℕ, ◌≡◌, refl, inl, inr, Bool, true, false, not, ◌||◌, ◌&&◌, List, [], ◌∷◌, ◌==◌, arith,
  Bool-cases,
}
use ycpl.Text.{Bytes, str_eq}
use ycpl.Token.{TokenType, is_eof}
use ycpl.Lexer.Cursor.{
  Lexer, position, advance, advance_while, peek_char, is_digit, is_xdigit, is_letter, is_ident_part,
}
use ycpl.Lexer.Cursor.Reached.{
  Reached, Begun, still, then-Reached, Begun-then, reported, reach_if, reach_while, Begun-step,
  Begun-while, reach_step, substr-Scanned, Scans,
}
use ycpl.Lexer.Keywords.{keywords, find}
use ycpl.Lexer.Literals.{
  keyword_type, identifier_or_keyword, while_digits, is_bit, is_octal, radix_literal, octal_literal,
  fraction, sign, exponent, decimal_literal, number_literal,
}

-- No type of a table is that of the end of the source.
no_eof : List (Bytes × TokenType) → Bool
no_eof [] = true
no_eof ((word, type) ∷ rest) = not (is_eof type) && no_eof rest

keyword-kind :
    (table : List (Bytes × TokenType)) (name : Bytes)
    → no_eof table ≡ true
    → is_eof (keyword_type (find table name)) ≡ false
unfolding find no_eof
keyword-kind [] name h = refl
keyword-kind ((word, type) ∷ rest) name h = elim (Bool-cases (str_eq name word)) [
  | inl e ↦ rw e (ground arith)
  | inr e ↦ rw e (keyword-kind rest name (ground arith))
]

pub identifier-Scanned :
    {c : ℕ} {cs : Bytes} (s : Lexer)
    → s.left ≡ c ∷ cs
    → Scans s (identifier_or_keyword (position s) s)
unfolding identifier_or_keyword no_eof
identifier-Scanned s h =
    substr-Scanned s.left _ refl (Begun-then (Begun-step s h) (reach_while is_ident_part _))
      (keyword-kind keywords _ refl)

octal-Reached : (s : Lexer) → Reached (advance s) (octal_literal s)
unfolding octal_literal
octal-Reached s =
    let t = advance_while is_octal (advance s).left (advance s) in
    let r = reach_while is_octal (advance s) in
    reach_if (is_digit (peek_char t 0)) (reported _ (then-Reached r (reach_while is_digit t))) r

fraction-Reached : (s : Lexer) → Reached s ((fraction s).1)
unfolding fraction
fraction-Reached s = elim (Bool-cases (peek_char s 0 == b'.' && is_digit (peek_char s 1))) [
  | inl e ↦ rw e (then-Reached (reach_step s) (reach_while is_digit (advance s)))
  | inr e ↦ rw e (still s)
]

sign-Reached : (s : Lexer) → Reached s (sign s)
sign-Reached s = reach_if _ (reach_step s) (still s)

exponent-Reached : (s : Lexer) → Reached s ((exponent s).1)
unfolding exponent
exponent-Reached s = elim (Bool-cases (peek_char s 0 == b'e' || peek_char s 0 == b'E')) [
  | inl e ↦
      let digits = then-Reached (reach_step s) (sign-Reached (advance s)) in
      rw e (then-Reached (reach_if _ digits (reported _ digits)) (reach_while is_digit _))
  | inr e ↦ rw e (still s)
]

radix-Begun :
    {c : ℕ} {cs : Bytes} (digit : ℕ → Bool) (s : Lexer)
    → s.left ≡ c ∷ cs
    → Begun s (radix_literal digit s)
radix-Begun digit s h =
    Begun-then (Begun-step s h) (then-Reached (reach_step (advance s)) (reach_while digit _))

decimal-Scanned :
    {c : ℕ} {cs : Bytes} (s : Lexer)
    → s.left ≡ c ∷ cs
    → is_digit c ≡ true
    → Scans s (decimal_literal (position s) s)
unfolding decimal_literal
decimal-Scanned s h k =
    let whole = while_digits s in
    let b = (fraction whole).0 || (exponent (fraction whole).1).0 in
    substr-Scanned s.left _ refl
      (Begun-then (Begun-while is_digit s h k)
        (then-Reached (fraction-Reached whole) (exponent-Reached _)))
      (elim (Bool-cases b) [ inl e ↦ rw e refl | inr e ↦ rw e refl ])

pub number-Scanned :
    {c : ℕ} {cs : Bytes} (s : Lexer)
    → s.left ≡ c ∷ cs
    → is_digit c ≡ true
    → Scans s (number_literal (position s) s)
unfolding number_literal
number-Scanned s h k =
    let begun = λ (t : Lexer) (r : Begun s t).
      substr-Scanned {type = TokenType.int} s.left (position t) refl r refl in
    let zero_first = peek_char s 0 == b'0' in
    elim (Bool-cases (zero_first && is_letter b'x' (peek_char s 1))) [
      | inl e ↦ rw e (begun _ (radix-Begun is_xdigit s h))
      | inr e ↦ elim (Bool-cases (zero_first && is_letter b'b' (peek_char s 1))) [
        | inl m ↦ rw (e, m) (begun _ (radix-Begun is_bit s h))
        | inr m ↦ elim (Bool-cases (zero_first && is_digit (peek_char s 1))) [
          | inl n ↦ rw (e, m, n) (begun _ (Begun-then (Begun-step s h) (octal-Reached s)))
          | inr n ↦ rw (e, m, n) (decimal-Scanned s h k)
        ]
      ]
    ]
