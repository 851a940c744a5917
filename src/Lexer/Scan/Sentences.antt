-- ===== src/Lexer/Scan/Sentences.antt =====
-- Sources of words and blanks (bootstrap/cpp/src/lexer/lexer.cpp).
use ycpl.Base.{
  ℕ, ◌≤◌, ◌≡◌, refl, sym, ap, ◌∙◌, ◌≢◌, Bool, true, false, ◌&&◌, some, [], ◌∷◌, ◌++◌, ◌==◌, get_or,
  arith,
}
use ycpl.Text.{Bytes}
use ycpl.Token.{TokenType}
use ycpl.Lexer.Keywords.{keywords, find}
use ycpl.Lexer.Cursor.{
  Lexer, position, advance, peek_char, peek_nonspace_char, is_digit, is_ident_start, is_ident_part,
  advance_while,
}
use ycpl.Lexer.Cursor.Moves.{
  Consumed, step_left, step_then, span, advance_while-Consumed, substr-Consumed, step_back-advance,
}
use ycpl.Lexer.Literals.{
  keyword_type, identifier_or_keyword, number_literal, decimal_literal, while_digits, fraction,
  exponent,
}
use ycpl.Lexer.Scan.{alone, scan_token}
use ycpl.Lexer.Scan.Printed.{printed}
use ycpl.Lexer.Scan.Words.{
  other, Every, span-Every, IsWord, name, number, mark, Lexed, cancel, first_byte, scan-start,
  scan-name, scan-number, follow-blank,
}

fraction-blank : (rest : Bytes) (t : Lexer) → t.left ≡ b' ' ∷ rest → fraction t ≡ (false, t)
unfolding fraction
fraction-blank rest t h = let e : peek_char t 0 ≡ b' ' = ap (λ l. get_or l 0 0) h in rw e refl

exponent-blank : (rest : Bytes) (t : Lexer) → t.left ≡ b' ' ∷ rest → exponent t ≡ (false, t)
unfolding exponent
exponent-blank rest t h = let e : peek_char t 0 ≡ b' ' = ap (λ l. get_or l 0 0) h in rw e refl

module _ (c : ℕ) (cs rest : Bytes) (s : Lexer) (h : s.left ≡ c ∷ (cs ++ b' ' ∷ rest)) where
  -- A loop that reads the rest of a word.
  rest_of :
      (p : ℕ → Bool)
      → Every p cs
      → p b' ' ≡ false
      → let t = advance_while p (advance s).left (advance s) in
        Consumed s (c ∷ cs) t × (t.left ≡ b' ' ∷ rest)
  rest_of p every blank =
      let t = advance_while p (advance s).left (advance s) in
      let e : span p (advance s).left ≡ cs =
        ap (span p) (step_left s h) ∙ span-Every p cs b' ' rest every blank in
      let k : Consumed s (c ∷ cs) t =
        rw⁻¹ e (step_then h (advance_while-Consumed p (advance s).left (advance s) refl)) in
      (k, cancel (c ∷ cs) t.left (b' ' ∷ rest) (sym k.left_eq ∙ h))

  identifier-Lexed :
      (k : is_ident_start c ≡ true) (every : Every is_ident_part cs)
      → Lexed (c ∷ cs) (b' ' ∷ rest) (name c cs k every) (identifier_or_keyword (position s) s)
  unfolding identifier_or_keyword
  identifier-Lexed k every =
      let (read, left) = rest_of is_ident_part every refl in
      let e = substr-Consumed read in (e, left, ap (λ l. keyword_type (find keywords l)) e)

  whole_of :
      (p : ℕ → Bool)
      → Every p (c ∷ cs)
      → p b' ' ≡ false
      → let t = advance_while p s.left s in Consumed s (c ∷ cs) t × (t.left ≡ b' ' ∷ rest)
  whole_of p every blank =
      let t = advance_while p s.left s in
      let e : span p s.left ≡ c ∷ cs =
        ap (span p) h ∙ span-Every p (c ∷ cs) b' ' rest every blank in
      let k : Consumed s (c ∷ cs) t = rw⁻¹ e (advance_while-Consumed p s.left s refl) in
      (k, cancel (c ∷ cs) t.left (b' ' ∷ rest) (sym k.left_eq ∙ h))

  number_decimal : c ≢ b'0' → number_literal (position s) s ≡ decimal_literal (position s) s
  unfolding number_literal
  number_decimal n = let e = other c b'0' n in rw (first_byte c (cs ++ b' ' ∷ rest) s h, e) refl

  decimal-Lexed :
      (k : is_digit c ≡ true) (n : c ≢ b'0') (every : Every is_digit cs)
      → Lexed (c ∷ cs) (b' ' ∷ rest) (number c cs k n every) (decimal_literal (position s) s)
  unfolding decimal_literal
  decimal-Lexed k n every =
      let t = while_digits s in
      let (read, left) = whole_of is_digit (k, every) refl in
      rw (fraction-blank rest t left, exponent-blank rest t left) (substr-Consumed read, left, refl)

mark-Lexed :
    (c : ℕ) (rest : Bytes) (s : Lexer)
    → s.left ≡ c ∷ b' ' ∷ rest
    → (known : (next : ℕ) → (type : TokenType) × (alone c next ≡ some type))
    → Lexed (c ∷ []) (b' ' ∷ rest) (mark c known) (scan_token s)
unfolding scan_token
mark-Lexed c rest s h known =
    let blank : peek_char (advance s) 0 ≡ b' ' = ap (λ l. get_or l 0 0) (step_left s h) in
    let (type, e) = known (peek_nonspace_char (advance s)) in
    let dots : (c == b'.' && false) ≡ false = ground arith in
    rw (first_byte c (b' ' ∷ rest) s h, blank, dots, follow-blank c, e)
      (refl, step_left s h, printed.0 c _ type e)

-- A word that a blank ends is one token.
pub word-Lexed :
    (w rest : Bytes) (word : IsWord w) (s : Lexer)
    → s.left ≡ w ++ b' ' ∷ rest
    → 1 ≤ s.column
    → Lexed w (b' ' ∷ rest) word (scan_token s)
word-Lexed _ rest (name c cs k every) s h l =
    let cs' = cs ++ b' ' ∷ rest in
    let back = step_back-advance c cs' s h (other c b'\n' (λ e. cc (e, k))) l in
    rw (scan-start c cs' s h (ground arith), scan-name c cs' s h k, back)
      (identifier-Lexed c cs rest s h k every)
word-Lexed _ rest (number c cs k n every) s h l =
    let cs' = cs ++ b' ' ∷ rest in
    let back = step_back-advance c cs' s h (other c b'\n' (λ e. cc (e, k))) l in
    rw
      (
        scan-start c cs' s h (ground arith),
        scan-number c cs' s h k,
        back,
        number_decimal c cs rest s h n,
      )
      (decimal-Lexed c cs rest s h k n every)
word-Lexed _ rest (mark c known) s h l = mark-Lexed c rest s h known
