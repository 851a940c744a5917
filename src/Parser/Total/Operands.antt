-- ===== src/Parser/Total/Operands.antt =====
-- Operands are read from any tokens (bootstrap/cpp/src/parser/parser.cpp).
use ycpl.Base.{Bool, ℕ, ◌+◌, ◌-◌, ◌≤◌, ◌<◌, ◌≡◌, refl, false, ◌||◌, ◌&&◌, Option, ◌==◌, arith}
use ycpl.Parser.Total.{
  Token, Within, Returns, returns, Returns-weaken, Returns-if, Returns-bind, weaken, emit-Within,
  advance-Within, left_over, take-Within, other_type, expected-Within, spent, spent_least,
  spent_most, advance-spent,
}
use ycpl.Text.{Bytes, codes, str_eq}
use ycpl.Token.{TokenType}
use ycpl.Ast.{Expr, ident}
use ycpl.Parser.Cursor.{Parser, check, check_word, is}
use ycpl.Parser.Primary.{parse_name, parse_bytes, parenthesised, parse_operand, parse_primary}
use ycpl.Parser.Total.Primary.{call_args-Returns, postfix-Returns}
use ycpl.Parser.Total.Literals.{
  array_literal-Returns, byte_array_literal-Returns, vec_literal-Returns, struct_literal-Returns,
}

module _ {ok : Token → Bool} (expression : Parser → Option (Expr × Parser)) (m : ℕ)
    (total : (v : ℕ) (s : Parser) → v + 2 ≤ m → Within ok v s → Returns ok v (expression s)) where
  name-Returns :
      (name : Bytes) (w : ℕ) (s : Parser)
      → w < m
      → Within ok w s
      → Returns ok w (parse_name expression m name s)
  unfolding parse_name
  name-Returns name w s l h =
      Returns-if (str_eq name (codes "Vec") && check TokenType.lt s)
        (λ c.
          let o = other_type TokenType.lt s.cur (ground arith) refl in
          Returns-weaken (omega arith) (vec_literal-Returns expression m total w s l h o))
        λ _.
          Returns-if (check TokenType.lparen s)
            (λ c.
              let o = other_type TokenType.lparen s.cur c refl in
              Returns-bind (call_args-Returns expression m total (ident name) w s l h o)
                λ r k. returns (weaken _ (omega arith) k))
            λ _.
              Returns-if (check TokenType.lbrace s && s.suppress_struct_literal_depth == 0)
                (λ c.
                  let o = other_type TokenType.lbrace s.cur (ground arith) refl in
                  Returns-weaken (omega arith)
                    (struct_literal-Returns expression m total name w s l h o))
                λ _. returns h

  bytes-Returns :
      (w : ℕ) (s : Parser) → w < m → Within ok w s → Returns ok w (parse_bytes expression m s)
  unfolding parse_bytes
  bytes-Returns w s l h =
      Returns-if (check TokenType.lbrack s)
        (λ b.
          Returns-weaken (omega arith) (byte_array_literal-Returns expression m total w s l h b))
        λ _.
          Returns-if (check TokenType.string s) (λ _. returns (advance-Within h))
            λ _. returns (emit-Within s.cur (codes "expected '[' or string literal after 'byte'") h)

  parenthesised-Returns :
      (w : ℕ) (s : Parser)
      → w < m
      → Within ok w s
      → is TokenType.eof_token s.cur ≡ false
      → Returns ok (w - 1) (parenthesised expression m s)
  parenthesised-Returns w s l h o =
      let z = left_over h o in
      Returns-bind (total (w - 1) _ (omega arith) (take-Within h o))
        λ r k. returns (expected-Within k TokenType.rparen _)

  operand-Returns :
      (w : ℕ) (s : Parser)
      → w < m
      → Within ok w s
      → Returns ok (spent w (check TokenType.eof_token s)) (parse_operand expression m s)
  unfolding parse_operand
  operand-Returns w s l h =
      let least = spent_least w (check TokenType.eof_token s) in
      Returns-if
        (check TokenType.int s
          || check TokenType.float s
          || check TokenType.string s
          || check TokenType.char s)
        (λ _. returns (advance-spent h))
        λ _.
          Returns-if (check TokenType.kw_true s || check TokenType.kw_false s)
            (λ _. returns (advance-spent h))
            λ _.
              Returns-if (check TokenType.kw_none s) (λ _. returns (advance-spent h))
                λ _.
                  Returns-if (check TokenType.lbrack s)
                    (λ b. Returns-weaken least (array_literal-Returns expression m total w s l h b))
                    λ _.
                      Returns-if (check TokenType.ident s)
                        (λ c.
                          let o = other_type TokenType.ident s.cur c refl in
                          Returns-weaken least
                            (name-Returns _ (w - 1) _ (omega arith) (take-Within h o)))
                        λ _.
                          Returns-if (check TokenType.lparen s)
                            (λ c. Returns-weaken least (
                              parenthesised-Returns w s l h
                                (other_type TokenType.lparen s.cur c refl)))
                            λ _.
                              Returns-if (check TokenType.kw_byte s || check_word (codes "byte") s)
                                (λ c.
                                  let o : is TokenType.eof_token s.cur ≡ false = grind arith in
                                  Returns-weaken least
                                    (bytes-Returns (w - 1) _ (omega arith) (take-Within h o)))
                                λ _. returns (
                                  advance-spent
                                    (emit-Within s.cur (codes "unexpected token in expression") h))

  pub primary-Returns :
      (w : ℕ) (s : Parser)
      → w < m
      → Within ok w s
      → Returns ok (spent w (check TokenType.eof_token s)) (parse_primary expression m s)
  unfolding parse_primary
  primary-Returns w s l h =
      let most = spent_most w (check TokenType.eof_token s) in
      Returns-bind (operand-Returns w s l h)
        λ r k. postfix-Returns expression m total m (r.0) _ (r.1) (omega arith) (omega arith) k
