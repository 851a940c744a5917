-- ===== src/Parser/Total/Expressions.antt =====
-- `parse_expression` gives an expression for any tokens (bootstrap/cpp/src/parser/parser.cpp).
use mathlib.Core.Path.{subst}
use ycpl.Base.{
  ℕ, zero, suc, ◌+◌, ◌-◌, ◌≤◌, ◌<◌, ◌≡◌, refl, Bool, true, false, Option, if◌then◌else◌, arith,
}
use ycpl.Text.{Bytes}
use ycpl.Token.{TokenType, Token}
use ycpl.Ast.{Expr}
use ycpl.Parser.Cursor.{Parser, advance, check, is}
use ycpl.Parser.Primary.{parse_array_literal, typed_array_literal}
use ycpl.Parser.Expressions.{
  left_assoc, level, is_prefix, is_typed_array, parse_unary, parse_expression,
  parse_expression_without_struct_literals,
}
use ycpl.Parser.Expressions.Grammar.{operators, operator_text, parse_height, parse_height_lem}
use ycpl.Parser.Total.{
  Within, Returns, returns, Returns-weaken, Returns-if, Returns-bind, weaken, advance-Within,
  left_over, take-Within, other_type, spent, spent_least, spent_most,
}
use ycpl.Parser.Total.Primary.{postfix-Returns}
use ycpl.Parser.Total.Literals.{array_literal-Returns, typed_array_literal-Returns}
use ycpl.Parser.Total.Operands.{primary-Returns}

-- What a token of an operator is not.
operators-end : (h : ℕ) (t : Token) → operators h t ≡ true → is TokenType.eof_token t ≡ false
unfolding operators
operators-end h t e = grind arith

module _ {ok : Token → Bool} (is_op : Token → Bool) (text : Token → Bytes)
    (operand : Parser → Option (Expr × Parser)) (m : ℕ)
    (no_end : (t : Token) → is_op t ≡ true → is TokenType.eof_token t ≡ false)
    (total : (v : ℕ) (s : Parser)
      → v < m
      → Within ok v s
      → Returns ok (spent v (check TokenType.eof_token s)) (operand s)) where
  left_assoc-Returns :
      (n : ℕ) (left : Expr) (w : ℕ) (s : Parser)
      → w < n
      → w ≤ m
      → Within ok w s
      → Returns ok w (left_assoc is_op text operand n left s)
  unfolding left_assoc
  left_assoc-Returns zero left w s k l h = absurd (omega arith)
  left_assoc-Returns (suc n) left w s k l h =
      Returns-if (is_op s.cur)
        (λ b.
          let o = no_end s.cur b in
          let z = left_over h o in
          let most = spent_most (w - 1) (check TokenType.eof_token (advance s)) in
          Returns-bind (Returns-weaken most (total (w - 1) _ (omega arith) (take-Within h o)))
            λ r g.
              Returns-weaken (omega arith)
                (left_assoc-Returns n _ (w - 1) _ (omega arith) (omega arith) g))
        λ _. returns h

  level-Returns :
      (w : ℕ) (s : Parser)
      → w < m
      → Within ok w s
      → Returns ok (spent w (check TokenType.eof_token s)) (level m is_op text operand s)
  unfolding level
  level-Returns w s l h =
      let most = spent_most w (check TokenType.eof_token s) in
      Returns-bind (total w s l h)
        λ r g. left_assoc-Returns m (r.0) _ (r.1) (omega arith) (omega arith) g

module _ {ok : Token → Bool} (expression : Parser → Option (Expr × Parser)) (m : ℕ)
    (total : (v : ℕ) (s : Parser) → v + 2 ≤ m → Within ok v s → Returns ok v (expression s)) where
  array_operand-Returns :
      (w : ℕ) (s : Parser)
      → w < m
      → Within ok w s
      → check TokenType.lbrack s ≡ true
      → Returns ok (w - 1) (
          if is_typed_array s
          then typed_array_literal expression m (advance (advance s))
          else parse_array_literal expression m s)
  array_operand-Returns w s l h b =
      let o = other_type TokenType.lbrack s.cur b refl in
      let z = left_over h o in
      Returns-if (is_typed_array s)
        (λ _.
          typed_array_literal-Returns expression m total (w - 1) _ (omega arith)
            (advance-Within (take-Within h o)))
        λ _. array_literal-Returns expression m total w s l h b

  unary-Returns :
      (n w : ℕ) (s : Parser)
      → w < n
      → w < m
      → Within ok w s
      → Returns ok (spent w (check TokenType.eof_token s)) (parse_unary expression m n s)
  unfolding parse_unary
  unary-Returns zero w s k l h = absurd (omega arith)
  unary-Returns (suc n) w s k l h =
      let least = spent_least w (check TokenType.eof_token s) in
      Returns-if (is_prefix s.cur)
        (λ c.
          let o : is TokenType.eof_token s.cur ≡ false = grind arith in
          let z = left_over h o in
          let most = spent_most (w - 1) (check TokenType.eof_token (advance s)) in
          Returns-bind (unary-Returns n (w - 1) _ (omega arith) (omega arith) (take-Within h o))
            λ r g. returns (weaken (r.1) (omega arith) g))
        λ _.
          Returns-if (check TokenType.lbrack s)
            (λ b.
              let z = left_over h (other_type TokenType.lbrack s.cur b refl) in
              Returns-weaken least (
                Returns-bind (array_operand-Returns w s l h b) λ r g.
                  postfix-Returns expression m total m (r.0) (w - 1) (r.1) (omega arith)
                    (omega arith) g))
            λ _. primary-Returns expression m total w s l h

  height-Returns :
      (h w : ℕ) (s : Parser)
      → w < m
      → Within ok w s
      → Returns ok (spent w (check TokenType.eof_token s)) (parse_height expression m h s)
  unfolding parse_height
  height-Returns zero w s l i = unary-Returns m w s l l i
  height-Returns (suc h) w s l i =
      level-Returns (operators h) (operator_text h) (parse_height expression m h) m
        (operators-end h) (height-Returns h) w s l i

-- From any tokens with the end of the source behind them an expression is read, on two more fuel than the
-- tokens that are left, and where the source has not ended, at least one of them is read.
pub parse_expression-Returns :
    {ok : Token → Bool} (n w : ℕ) (s : Parser)
    → w + 2 ≤ n
    → Within ok w s
    → Returns ok (spent w (check TokenType.eof_token s)) (parse_expression n s)
unfolding parse_expression
parse_expression-Returns zero w s l h = absurd (omega arith)
parse_expression-Returns {ok} (suc m) w s l h =
    let total : (v : ℕ) (t : Parser)
        → v + 2 ≤ m
        → Within ok v t
        → Returns ok v (parse_expression m t) =
      λ v t k g. Returns-weaken (spent_most v _) (parse_expression-Returns m v t k g) in
    subst (λ f. Returns ok (spent w (check TokenType.eof_token s)) (f s))
      (parse_height_lem (parse_expression m) m)
      (height-Returns (parse_expression m) m total 10 w s (omega arith) h)

pub without-Returns :
    {ok : Token → Bool} (n w : ℕ) (s : Parser)
    → w + 2 ≤ n
    → Within ok w s
    → Returns ok
        (spent w (check TokenType.eof_token s))
        (parse_expression_without_struct_literals n s)
unfolding parse_expression_without_struct_literals
without-Returns n w s l h =
    Returns-bind
      (parse_expression-Returns n w _ l
        record { ended = h.ended; bound = h.bound; current = h.current; behind = h.behind })
      λ r g.
        returns record { ended = g.ended; bound = g.bound; current = g.current; behind = g.behind }
