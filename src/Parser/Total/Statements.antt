-- ===== src/Parser/Total/Statements.antt =====
-- `parse_stmt` gives a result for any tokens (bootstrap/cpp/src/parser/parser.cpp).
use ycpl.Base.{
  Bool, ℕ, zero, suc, ◌+◌, ◌-◌, ◌≤◌, ◌<◌, ◌≡◌, refl, true, false, not, Option, some, arith, ◌>>=◌,
}
use ycpl.Parser.Total.{
  Token, Within, Returns, returns, Returns-weaken, Returns-if, Returns-bind, Within-if, emit-Within,
  advance-Within, left_over, take-Within, other_type, expected-Within, expected_take-Within,
  newlines-Within, spent, spent_open, spent_most,
}
use ycpl.Text.{codes, str_eq}
use ycpl.Token.{TokenType}
use ycpl.Ast.{Stmt, Stmts, no_stmts, Body, Cases, no_cases, no_body}
use ycpl.Parser.Cursor.{Parser, advance, check, is, expected, skip_newlines}
use ycpl.Parser.Simple.{at_close, is_default}
use ycpl.Parser.Statements.{
  block_loop, parse_block, parse_label, switch_loop, parse_switch_stmt, parse_defer, parse_else,
  parse_if, parse_for_clauses, parse_for,
}
use ycpl.Parser.Total.Expressions.{without-Returns}
use ycpl.Parser.Total.Simple.{
  accept-Within, expression-Returns, head-Returns, for_init-Returns, clause-Returns,
}

-- A block is open where its end does not stand next.
open_yet : (s : Parser) → at_close s ≡ false → is TokenType.eof_token s.cur ≡ false
open_yet s h = ground arith

module _ {ok : Token → Bool} (stmt : Parser → Option (Option Stmt × Parser)) (m : ℕ)
    (total : (v : ℕ) (s : Parser)
      → v + 3 ≤ m
      → Within ok v s
      → Returns ok (spent v (check TokenType.eof_token s)) (stmt s)) where
  block_loop-Returns :
      (n : ℕ) (stmts : Stmts) (w : ℕ) (s : Parser)
      → w < n
      → w + 3 ≤ m
      → Within ok w s
      → Returns ok w (block_loop stmt m n stmts s)
  unfolding block_loop
  block_loop-Returns zero stmts w s k l h = absurd (omega arith)
  block_loop-Returns (suc n) stmts w s k l h =
      Returns-if (at_close s) (λ _. returns h)
        λ e.
          let o = open_yet s e in
          let z = left_over h o in
          Returns-bind (Returns-weaken (spent_open w _ o) (total w s l h)) λ r g.
            Returns-weaken (omega arith)
              (block_loop-Returns n _ (w - 1) _ (omega arith) (omega arith) (newlines-Within g))

  -- A block behind its first bracket.
  inside-Returns :
      (w : ℕ) (s : Parser)
      → w + 3 ≤ m
      → Within ok w s
      → Returns ok w (
          block_loop stmt m m no_stmts (skip_newlines s) >>= λ r.
          some (r.0, expected TokenType.rbrace (codes "expected '}' to end block") (r.1)))
  inside-Returns w s l h =
      Returns-bind (block_loop-Returns m no_stmts w _ (omega arith) l (newlines-Within h))
        λ r k. returns (expected-Within k TokenType.rbrace _)

  pub block-Returns :
      (w : ℕ) (s : Parser) → w + 3 ≤ m → Within ok w s → Returns ok w (parse_block stmt m s)
  unfolding parse_block
  block-Returns w s l h = inside-Returns w _ l (expected-Within h TokenType.lbrace _)

  pub open_block-Returns :
      (w : ℕ) (s : Parser)
      → w + 2 ≤ m
      → Within ok w s
      → check TokenType.lbrace s ≡ true
      → Returns ok (w - 1) (parse_block stmt m s)
  unfolding parse_block
  open_block-Returns w s l h b =
      let o = other_type TokenType.lbrace s.cur b refl in
      let z = left_over h o in
      inside-Returns (w - 1) _ (omega arith) (expected_take-Within h TokenType.lbrace _ b o)

  label-Returns :
      (cases : Cases) (default : Body) (w : ℕ) (s : Parser)
      → w + 3 ≤ m
      → Within ok w s
      → is TokenType.eof_token s.cur ≡ false
      → Returns ok (w - 1) (parse_label stmt m cases default s)
  unfolding parse_label
  label-Returns cases default w s l h o =
      let z = left_over h o in
      let t = advance s in
      let g = take-Within h o in
      let wrong = emit-Within s.cur (codes "expected 'case' or 'default' in switch") g in
      Returns-if (not (check TokenType.ident s))
        (λ _. returns (take-Within (emit-Within s.cur _ h) o))
        λ _.
          Returns-if (str_eq s.cur.lexeme (codes "case"))
            (λ _.
              Returns-bind
                (Returns-weaken (spent_most (w - 1) (check TokenType.eof_token t))
                  (without-Returns m (w - 1) t (omega arith) g))
                λ v k. Returns-bind (block-Returns (w - 1) (v.1) (omega arith) k) λ b j. returns j)
            λ _.
              Returns-if (str_eq s.cur.lexeme (codes "default"))
                (λ _.
                  Returns-bind
                    (block-Returns (w - 1) _ (omega arith) (
                      Within-if (is_default default)
                        (λ _. emit-Within s.cur (codes "duplicate default in switch") g) λ _. g))
                    λ b j. returns j)
                λ _.
                  Returns-if (check TokenType.lbrace t)
                    (λ _.
                      Returns-bind (block-Returns (w - 1) _ (omega arith) wrong) λ b j. returns j)
                    λ _. returns wrong

  switch_loop-Returns :
      (n : ℕ) (cases : Cases) (default : Body) (w : ℕ) (s : Parser)
      → w < n
      → w + 3 ≤ m
      → Within ok w s
      → Returns ok w (switch_loop stmt m n cases default s)
  unfolding switch_loop
  switch_loop-Returns zero cases default w s k l h = absurd (omega arith)
  switch_loop-Returns (suc n) cases default w s k l h =
      Returns-if (at_close s) (λ _. returns h)
        λ e.
          let o = open_yet s e in
          let z = left_over h o in
          Returns-bind (label-Returns cases default w s l h o) λ r g.
            Returns-weaken (omega arith)
              (switch_loop-Returns n _ _ (w - 1) _ (omega arith) (omega arith) (newlines-Within g))

  pub switch-Returns :
      (w : ℕ) (s : Parser)
      → w + 2 ≤ m
      → Within ok w s
      → check TokenType.kw_switch s ≡ true
      → Returns ok (w - 1) (parse_switch_stmt stmt m s)
  unfolding parse_switch_stmt
  switch-Returns w s l h b =
      let o = other_type TokenType.kw_switch s.cur b refl in
      let z = left_over h o in
      let t = expected TokenType.kw_switch (codes "expected 'switch'") s in
      Returns-bind
        (Returns-weaken (spent_most (w - 1) (check TokenType.eof_token t)) (
          without-Returns m (w - 1) t (omega arith)
            (expected_take-Within h TokenType.kw_switch _ b o)))
        λ v k.
          Returns-bind
            (switch_loop-Returns m no_cases no_body (w - 1) _ (omega arith) (omega arith)
              (newlines-Within (expected-Within k TokenType.lbrace _)))
            λ r j. returns (expected-Within j TokenType.rbrace _)

  pub defer-Returns :
      (w : ℕ) (s : Parser) → w + 3 ≤ m → Within ok w s → Returns ok w (parse_defer stmt m s)
  unfolding parse_defer
  defer-Returns w s l h =
      Returns-if (check TokenType.lbrace s)
        (λ _. Returns-bind (block-Returns w s l h) λ b k. returns k)
        λ _.
          Returns-bind (expression-Returns m w s (omega arith) h)
            λ r k. returns (accept-Within TokenType.newline k)

  else-Returns :
      (w : ℕ) (s : Parser) → w + 3 ≤ m → Within ok w s → Returns ok w (parse_else stmt m s)
  unfolding parse_else
  else-Returns w s l h =
      let t = advance s in
      let g = advance-Within h in
      Returns-if (not (check TokenType.kw_else s)) (λ _. returns h)
        λ _.
          Returns-if (check TokenType.lbrace t)
            (λ _. Returns-bind (block-Returns w t l g) λ b k. returns k)
            λ _.
              Returns-if (check TokenType.kw_if t)
                (λ _.
                  Returns-bind
                    (Returns-weaken (spent_most w (check TokenType.eof_token t)) (total w t l g))
                    λ r k. returns k)
                λ _. returns g

  pub if-Returns :
      (w : ℕ) (s : Parser) → w + 3 ≤ m → Within ok w s → Returns ok w (parse_if stmt m s)
  unfolding parse_if
  if-Returns w s l h = Returns-bind (head-Returns m w s (omega arith) h) λ cond g.
      Returns-bind (block-Returns w (cond.1) l g)
        λ b k. Returns-bind (else-Returns w (b.1) l k) λ r j. returns j

  clauses-Returns :
      (w : ℕ) (s : Parser) → w + 3 ≤ m → Within ok w s → Returns ok w (parse_for_clauses stmt m s)
  unfolding parse_for_clauses
  clauses-Returns w s l h =
      Returns-bind
        (Returns-if (check TokenType.semicolon s) (λ _. returns h)
          λ _. Returns-bind (for_init-Returns m w s (omega arith) h) λ r k. returns k)
        λ init g.
          Returns-bind
            (clause-Returns m TokenType.semicolon w _ (omega arith)
              (expected-Within g TokenType.semicolon _))
            λ cond k.
              Returns-bind
                (clause-Returns m TokenType.rparen w _ (omega arith)
                  (expected-Within k TokenType.semicolon _))
                λ post j.
                  Returns-bind (block-Returns w _ l (expected-Within j TokenType.rparen _))
                    λ b i. returns i

  pub for-Returns :
      (w : ℕ) (s : Parser) → w + 3 ≤ m → Within ok w s → Returns ok w (parse_for stmt m s)
  unfolding parse_for
  for-Returns w s l h =
      Returns-if (check TokenType.lparen s)
        (λ _. clauses-Returns w (advance s) l (advance-Within h))
        λ _.
          Returns-if (check TokenType.ident s)
            (λ _.
              Returns-bind
                (head-Returns m w _ (omega arith)
                  (expected-Within (advance-Within h) TokenType.kw_in _))
                λ iterable k. Returns-bind (block-Returns w (iterable.1) l k) λ b j. returns j)
            λ _. Returns-bind (block-Returns w s l h) λ b j. returns j
