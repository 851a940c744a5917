-- ===== src/Parser/Total/Literals.antt =====
-- Literals are read from any tokens (bootstrap/cpp/src/parser/parser.cpp).
use ycpl.Base.{Bool, ℕ, zero, suc, ◌+◌, ◌-◌, ◌≤◌, ◌<◌, ◌≡◌, refl, true, false, ◌&&◌, Option, arith}
use ycpl.Parser.Total.{
  Token, Within, Returns, returns, Returns-weaken, Returns-if, Returns-bind, Within-if, emit-Within,
  advance-Within, left_over, take-Within, other_type, expected-Within, expect-Within,
  expected_type_gt-Within, newlines-Within, expected_take-Within,
}
use ycpl.Text.{Bytes, codes, str_eq}
use ycpl.Token.{TokenType}
use ycpl.Ast.{Expr, Exprs, no_exprs, Inits, no_inits}
use ycpl.Parser.Cursor.{
  Parser, advance, check, peek_is, is, expect, expected, expected_type_gt, skip_newlines,
}
use ycpl.Parser.Primary.{
  element_loop, elements, bracketed, parse_array_literal, parse_byte_array_literal,
  typed_array_literal, behind_capacity, capacity_field, parse_vec_literal, parse_init, init_loop,
  parse_struct_literal,
}
use ycpl.Parser.Total.Types.{parse_type-Returns}

module _ {ok : Token → Bool} (expression : Parser → Option (Expr × Parser)) (m : ℕ)
    (total : (v : ℕ) (s : Parser) → v + 2 ≤ m → Within ok v s → Returns ok v (expression s)) where
  behind_capacity-Within :
      {ok : Token → Bool} {w : ℕ} {s : Parser}
      → Within ok w s
      → Within ok w (behind_capacity expression m s)
  behind_capacity-Within {ok} {w} {s} h =
      let g = newlines-Within h in
      let g' = newlines-Within (advance-Within g) in
      Within-if (check TokenType.comma (skip_newlines s))
        (λ _.
          Within-if (check TokenType.rbrace (skip_newlines (advance (skip_newlines s)))) (λ _. g')
            λ _.
              emit-Within (skip_newlines (advance (skip_newlines s))).cur
                (codes "Vec literal accepts only one capacity field") g')
        λ _. g

  capacity_field-Within :
      {ok : Token → Bool} {w : ℕ} {s : Parser}
      → Within ok w s
      → Within ok w (capacity_field expression m s)
  capacity_field-Within {ok} {w} {s} h =
      let g = expect-Within h TokenType.ident (codes "expected 'capacity' in Vec literal") in
      let field = expect TokenType.ident (codes "expected 'capacity' in Vec literal") s in
      expected-Within
        (Within-if (str_eq field.0.lexeme (codes "capacity")) (λ _. g)
          λ _. emit-Within (field.0) (codes "Vec literal only supports the 'capacity' field") g)
        TokenType.colon (codes "expected ':' after Vec capacity")

  element_loop-Returns :
      (close : TokenType) (n : ℕ) (elems : Exprs) (w : ℕ) (s : Parser)
      → w < n
      → w + 2 ≤ m
      → Within ok w s
      → Returns ok w (element_loop expression m close n elems s)
  unfolding element_loop
  element_loop-Returns close zero elems w s k l h = absurd (omega arith)
  element_loop-Returns close (suc n) elems w s k l h =
      Returns-bind (total w _ l (newlines-Within h)) λ elem g.
        let t = skip_newlines (elem.1) in
        let g' = newlines-Within g in
        Returns-if (check TokenType.comma t)
          (λ c.
            let o = other_type TokenType.comma t.cur c refl in
            let z = left_over g' o in
            let next = newlines-Within (take-Within g' o) in
            Returns-weaken (omega arith) (
              Returns-if (check close (skip_newlines (advance t))) (λ _. returns next)
                λ _. element_loop-Returns close n _ (w - 1) _ (omega arith) (omega arith) next))
          λ _. returns g'

  elements-Returns :
      (close : TokenType) (w : ℕ) (s : Parser)
      → w + 2 ≤ m
      → Within ok w s
      → Returns ok w (elements expression m close s)
  elements-Returns close w s l h =
      Returns-if (check close (skip_newlines s)) (λ _. returns (newlines-Within h))
        λ _. element_loop-Returns close m no_exprs w _ (omega arith) l (newlines-Within h)

  bracketed-Returns :
      (opening closing : Bytes) (w : ℕ) (s : Parser)
      → w < m
      → Within ok w s
      → check TokenType.lbrack s ≡ true
      → Returns ok (w - 1) (bracketed expression m opening closing s)
  bracketed-Returns opening closing w s l h b =
      let o = other_type TokenType.lbrack s.cur b refl in
      let z = left_over h o in
      Returns-bind
        (elements-Returns TokenType.rbrack (w - 1) _ (omega arith)
          (expected_take-Within h TokenType.lbrack _ b o))
        λ r k. returns (expected-Within k TokenType.rbrack _)

  pub array_literal-Returns :
      (w : ℕ) (s : Parser)
      → w < m
      → Within ok w s
      → check TokenType.lbrack s ≡ true
      → Returns ok (w - 1) (parse_array_literal expression m s)
  unfolding parse_array_literal
  array_literal-Returns w s l h b = Returns-bind (bracketed-Returns _ _ w s l h b) λ r k. returns k

  pub byte_array_literal-Returns :
      (w : ℕ) (s : Parser)
      → w < m
      → Within ok w s
      → check TokenType.lbrack s ≡ true
      → Returns ok (w - 1) (parse_byte_array_literal expression m s)
  unfolding parse_byte_array_literal
  byte_array_literal-Returns w s l h b =
      Returns-bind (bracketed-Returns _ _ w s l h b) λ r k. returns k

  pub typed_array_literal-Returns :
      (w : ℕ) (s : Parser)
      → w + 2 ≤ m
      → Within ok w s
      → Returns ok w (typed_array_literal expression m s)
  unfolding typed_array_literal
  typed_array_literal-Returns w s l h =
      Returns-bind
        (elements-Returns TokenType.rbrace w _ l
          (expected-Within (expect-Within h TokenType.ident _) TokenType.lbrace _))
        λ r k. returns (expected-Within k TokenType.rbrace _)

  pub vec_literal-Returns :
      (w : ℕ) (s : Parser)
      → w < m
      → Within ok w s
      → is TokenType.eof_token s.cur ≡ false
      → Returns ok (w - 1) (parse_vec_literal expression m s)
  unfolding parse_vec_literal
  vec_literal-Returns w s l h o =
      let z = left_over h o in
      Returns-bind (parse_type-Returns m (w - 1) _ (omega arith) (take-Within h o)) λ elem k.
        let t = skip_newlines (
          expected TokenType.lbrace (codes "expected '{' after Vec<T>")
            (expected_type_gt (codes "expected '>' after Vec element type") (elem.1))) in
        let g = newlines-Within (
          expected-Within (expected_type_gt-Within k (codes "expected '>' after Vec element type"))
            TokenType.lbrace (codes "expected '{' after Vec<T>")) in
        Returns-if (check TokenType.rbrace t) (λ _. returns (expected-Within g TokenType.rbrace _))
          λ _.
            Returns-bind (total (w - 1) _ (omega arith) (capacity_field-Within g))
              λ capacity j. returns (expected-Within (behind_capacity-Within j) TokenType.rbrace _)

  init-Returns :
      (w : ℕ) (s : Parser) → w + 2 ≤ m → Within ok w s → Returns ok w (parse_init expression m s)
  unfolding parse_init
  init-Returns w s l h =
      Returns-if (check TokenType.ident s && peek_is TokenType.colon 0 s)
        (λ _.
          Returns-bind (total w _ l (expected-Within (advance-Within h) TokenType.colon _))
            λ r k. returns k)
        λ _. Returns-bind (total w _ l h) λ r k. returns k

  init_loop-Returns :
      (n : ℕ) (inits : Inits) (w : ℕ) (s : Parser)
      → w < n
      → w + 2 ≤ m
      → Within ok w s
      → Returns ok w (init_loop expression m n inits s)
  unfolding init_loop
  init_loop-Returns zero inits w s k l h = absurd (omega arith)
  init_loop-Returns (suc n) inits w s k l h =
      Returns-bind (init-Returns w _ l (newlines-Within h)) λ r g.
        let t = skip_newlines (r.1) in
        let g' = newlines-Within g in
        Returns-if (check TokenType.comma t)
          (λ c.
            let o = other_type TokenType.comma t.cur c refl in
            let z = left_over g' o in
            let next = newlines-Within (take-Within g' o) in
            Returns-weaken (omega arith) (
              Returns-if (check TokenType.rbrace (skip_newlines (advance t))) (λ _. returns next)
                λ _. init_loop-Returns n _ (w - 1) _ (omega arith) (omega arith) next))
          λ _. returns g'

  pub struct_literal-Returns :
      (name : Bytes) (w : ℕ) (s : Parser)
      → w < m
      → Within ok w s
      → is TokenType.eof_token s.cur ≡ false
      → Returns ok (w - 1) (parse_struct_literal expression m name s)
  unfolding parse_struct_literal
  struct_literal-Returns name w s l h o =
      let z = left_over h o in
      let g = newlines-Within (take-Within h o) in
      Returns-bind
        (Returns-if (check TokenType.rbrace (skip_newlines (advance s))) (λ _. returns g)
          λ _. init_loop-Returns m no_inits (w - 1) _ (omega arith) (omega arith) g)
        λ r k. returns (expected-Within k TokenType.rbrace _)
