-- ===== src/Parser/Total/Primary.antt =====
-- The functions of Primary give results for any tokens (bootstrap/cpp/src/parser/parser.cpp).
use ycpl.Base.{
  Bool, ℕ, zero, suc, ◌+◌, ◌-◌, ◌≤◌, ◌<◌, ◌≡◌, refl, false, ◌||◌, ◌&&◌, Option, ◌==◌, arith,
}
use ycpl.Parser.Total.{
  Token, Within, Returns, returns, Returns-weaken, Returns-if, Returns-bind, left_over, take-Within,
  other_type, expected-Within, expect-Within, newlines-Within,
}
use ycpl.Token.{TokenType}
use ycpl.Ast.{Expr, Exprs, no_exprs}
use ycpl.Parser.Cursor.{Parser, advance, check, is, skip_newlines}
use ycpl.Parser.Strings.{callee_path_for_parser}
use ycpl.Parser.Primary.{is_type_argument, parse_call_arg_for, arg_loop, call_args, parse_postfix}
use ycpl.Parser.Total.Types.{parse_type-Returns}

module _ {ok : Token → Bool} (expression : Parser → Option (Expr × Parser)) (m : ℕ)
    (total : (v : ℕ) (s : Parser) → v + 2 ≤ m → Within ok v s → Returns ok v (expression s)) where
  arg-Returns :
      (callee : Expr) (i w : ℕ) (s : Parser)
      → w + 2 ≤ m
      → Within ok w s
      → Returns ok w (parse_call_arg_for expression m callee i s)
  unfolding parse_call_arg_for
  arg-Returns callee i w s l h =
      Returns-if (i == 0 && is_type_argument (callee_path_for_parser callee) s)
        (λ _. Returns-bind (parse_type-Returns m w s (omega arith) h) λ t k. returns k)
        λ _. total w s l h

  arg_loop-Returns :
      (n : ℕ) (callee : Expr) (i : ℕ) (args : Exprs) (w : ℕ) (s : Parser)
      → w < n
      → w + 2 ≤ m
      → Within ok w s
      → Returns ok w (arg_loop expression m n callee i args s)
  unfolding arg_loop
  arg_loop-Returns zero callee i args w s k l h = absurd (omega arith)
  arg_loop-Returns (suc n) callee i args w s k l h =
      Returns-bind (arg-Returns callee i w _ l (newlines-Within h)) λ arg g.
        let t = skip_newlines (arg.1) in
        let g' = newlines-Within g in
        Returns-if (check TokenType.comma t)
          (λ c.
            let o = other_type TokenType.comma t.cur c refl in
            let z = left_over g' o in
            Returns-weaken (omega arith) (
              arg_loop-Returns n callee (i + 1) _ (w - 1) _ (omega arith) (omega arith)
                (take-Within g' o)))
          λ _. returns g'

  pub call_args-Returns :
      (callee : Expr) (w : ℕ) (s : Parser)
      → w < m
      → Within ok w s
      → is TokenType.eof_token s.cur ≡ false
      → Returns ok (w - 1) (call_args expression m callee s)
  unfolding call_args
  call_args-Returns callee w s l h o =
      let z = left_over h o in
      let g = newlines-Within (take-Within h o) in
      Returns-bind
        (Returns-if (check TokenType.rparen (skip_newlines (advance s))) (λ _. returns g)
          λ _. arg_loop-Returns m callee 0 no_exprs (w - 1) _ (omega arith) (omega arith) g)
        λ r k. returns (expected-Within k TokenType.rparen _)

  pub postfix-Returns :
      (n : ℕ) (e : Expr) (w : ℕ) (s : Parser)
      → w < n
      → w < m
      → Within ok w s
      → Returns ok w (parse_postfix expression m n e s)
  unfolding parse_postfix
  postfix-Returns zero e w s k l h = absurd (omega arith)
  postfix-Returns (suc n) e w s k l h =
      Returns-if (check TokenType.lparen s)
        (λ c.
          let o = other_type TokenType.lparen s.cur c refl in
          let z = left_over h o in
          Returns-bind (call_args-Returns e w s l h o) λ r g.
            Returns-weaken (omega arith)
              (postfix-Returns n _ (w - 1) _ (omega arith) (omega arith) g))
        λ _.
          Returns-if (check TokenType.lbrack s)
            (λ c.
              let o = other_type TokenType.lbrack s.cur c refl in
              let z = left_over h o in
              Returns-bind (total (w - 1) _ (omega arith) (take-Within h o)) λ r g.
                Returns-weaken (omega arith) (
                  postfix-Returns n _ (w - 1) _ (omega arith) (omega arith)
                    (expected-Within g TokenType.rbrack _)))
            λ _.
              Returns-if (check TokenType.plusplus s || check TokenType.minusminus s)
                (λ c.
                  let o : is TokenType.eof_token s.cur ≡ false = grind arith in
                  let z = left_over h o in
                  Returns-weaken (omega arith)
                    (postfix-Returns n _ (w - 1) _ (omega arith) (omega arith) (take-Within h o)))
                λ _.
                  Returns-if (check TokenType.dot s)
                    (λ c.
                      let o = other_type TokenType.dot s.cur c refl in
                      let z = left_over h o in
                      Returns-weaken (omega arith) (
                        postfix-Returns n _ (w - 1) _ (omega arith) (omega arith)
                          (expect-Within (take-Within h o) TokenType.ident _)))
                    λ _. returns h
