-- ===== src/Parser/Total/Simple.antt =====
-- Statements in which no others stand are read from any tokens (bootstrap/cpp/src/parser/parser.cpp).
use ycpl.Base.{Bool, ℕ, ◌+◌, ◌≤◌, ◌||◌, ◌&&◌, Option, none, some, arith}
use ycpl.Text.{Bytes, codes, str_eq}
use ycpl.Token.{TokenType, Token}
use ycpl.Ast.{AstType, Expr}
use ycpl.Parser.Cursor.{Parser, advance, check, peek_is}
use ycpl.Parser.Expressions.{parse_expression}
use ycpl.Parser.Simple.{
  accept, at_close, is_assign, first_lexeme, is_assignment, name_of, annotated, parse_head, init_of,
  parse_for_init, clause, optional_type, parse_const, declared, define, parse_assign, behind_lhs,
  behind_name, parse_simple, parse_return,
}
use ycpl.Parser.Total.{
  Within, Returns, returns, Returns-weaken, Returns-if, Returns-bind, Within-if, Within-if_next,
  emit-Within, advance-Within, expect-Within, spent, spent_most,
}
use ycpl.Parser.Total.Types.{parse_type-Returns}
use ycpl.Parser.Total.Expressions.{parse_expression-Returns, without-Returns}

pub accept-Within :
    {ok : Token → Bool} {w : ℕ} {s : Parser} (k : TokenType)
    → Within ok w s
    → Within ok w (accept k s)
accept-Within {ok} {w} {s} k h = Within-if (check k s) (λ _. advance-Within h) (λ _. h)

module _ {ok : Token → Bool} (m : ℕ) where
  init_of-Within :
      {w : ℕ} (name : Bytes) (r : (AstType × Option Expr) × Parser)
      → Within ok w (r.1)
      → Within ok w ((init_of m name r).1)
  init_of-Within name ((t, none), s) h = h
  init_of-Within name ((t, some e), s) h = h

  declared-Within :
      {w : ℕ} (name : Bytes) (r : (AstType × Option Expr) × Parser)
      → Within ok w (r.1)
      → Within ok w ((declared m name r).1)
  declared-Within name ((t, none), s) h = h
  declared-Within name ((t, some e), s) h = accept-Within TokenType.newline h

  define-Within :
      {w : ℕ} (token : Token) (name : Option Bytes) (e : Expr) (s : Parser)
      → Within ok w s
      → Within ok w ((define m token name e s).1)
  define-Within token none e s h =
      emit-Within token (codes "':=' can only be used with an identifier on the left-hand side") h
  define-Within token (some name) e s h = h

  pub expression-Returns :
      (w : ℕ) (s : Parser) → w + 2 ≤ m → Within ok w s → Returns ok w (parse_expression m s)
  expression-Returns w s l h =
      Returns-weaken (spent_most w (check TokenType.eof_token s))
        (parse_expression-Returns m w s l h)

  annotated-Returns :
      (message : Bytes) (w : ℕ) (s : Parser)
      → w + 2 ≤ m
      → Within ok w s
      → Returns ok w (annotated m message s)
  annotated-Returns message w s l h = Returns-bind (parse_type-Returns m w s (omega arith) h) λ t g.
      Returns-if (is_assign (t.1))
        (λ _. Returns-bind (expression-Returns w _ l (advance-Within g)) λ r k. returns k)
        λ _. returns (emit-Within t.1.cur message g)

  pub head-Returns :
      (w : ℕ) (s : Parser) → w + 2 ≤ m → Within ok w s → Returns ok w (parse_head m s)
  unfolding parse_head
  head-Returns w s l h =
      Returns-if (check TokenType.ident s && peek_is TokenType.lbrace 0 s)
        (λ _. returns (advance-Within h))
        λ _. Returns-weaken (spent_most w (check TokenType.eof_token s)) (without-Returns m w s l h)

  pub for_init-Returns :
      (w : ℕ) (s : Parser) → w + 2 ≤ m → Within ok w s → Returns ok w (parse_for_init m s)
  unfolding parse_for_init
  for_init-Returns w s l h =
      Returns-if (check TokenType.ident s && peek_is TokenType.colon 0 s)
        (λ _.
          Returns-bind
            (annotated-Returns _ w (advance (advance s)) l (advance-Within (advance-Within h)))
            λ r k. returns (init_of-Within s.cur.lexeme r k))
        λ _.
          Returns-if
            (check TokenType.ident s
              && (peek_is TokenType.assign 0 s && str_eq (first_lexeme s.left) (codes ":=")))
            (λ _.
              Returns-bind (expression-Returns w _ l (advance-Within (advance-Within h)))
                λ r k. returns k)
            λ _. Returns-bind (expression-Returns w s l h) λ r k. returns k

  pub clause-Returns :
      (close : TokenType) (w : ℕ) (s : Parser)
      → w + 2 ≤ m
      → Within ok w s
      → Returns ok w (clause m close s)
  clause-Returns close w s l h =
      Returns-if (check close s) (λ _. returns h)
        λ _. Returns-bind (expression-Returns w s l h) λ r k. returns k

  optional_type-Returns :
      (w : ℕ) (s : Parser) → w + 2 ≤ m → Within ok w s → Returns ok w (optional_type m s)
  optional_type-Returns w s l h =
      Returns-if (check TokenType.colon s)
        (λ _.
          Returns-bind (parse_type-Returns m w _ (omega arith) (advance-Within h)) λ t k. returns k)
        λ _. returns h

  pub const-Returns :
      (w : ℕ) (s : Parser) → w + 2 ≤ m → Within ok w s → Returns ok w (parse_const m s)
  unfolding parse_const
  const-Returns w s l h =
      Returns-bind (optional_type-Returns w _ l (expect-Within h TokenType.ident _)) λ type g.
        Returns-if (is_assign (type.1))
          (λ _.
            Returns-bind (expression-Returns w _ l (advance-Within g))
              λ r k. returns (accept-Within TokenType.newline k))
          λ _.
            returns
              (emit-Within type.1.cur (codes "expected ':=' or '=' after const declaration") g)

  assign-Returns :
      (lhs : Expr) (w : ℕ) (s : Parser)
      → w + 2 ≤ m
      → Within ok w s
      → Returns ok w (parse_assign m lhs s)
  unfolding parse_assign
  assign-Returns lhs w s l h = Returns-bind (expression-Returns w _ l (advance-Within h)) λ r k.
      let g = accept-Within TokenType.newline k in
      returns (
        Within-if_next (str_eq s.cur.lexeme (codes ":=")) _ _
          (define-Within s.cur (name_of lhs) (r.0) (accept TokenType.newline (r.1)) g) g)

  lhs-Returns :
      (lhs : Expr) (w : ℕ) (s : Parser)
      → w + 2 ≤ m
      → Within ok w s
      → Returns ok w (behind_lhs m lhs s)
  lhs-Returns lhs w s l h =
      Returns-if (is_assignment s) (λ _. assign-Returns lhs w s l h)
        λ _. returns (accept-Within TokenType.newline h)

  behind_name-Returns :
      (name : Option Bytes) (lhs : Expr) (w : ℕ) (s : Parser)
      → w + 2 ≤ m
      → Within ok w s
      → Returns ok w (behind_name m name lhs s)
  behind_name-Returns none lhs w s l h = lhs-Returns lhs w s l h
  behind_name-Returns (some name) lhs w s l h =
      Returns-if (check TokenType.colon s)
        (λ _.
          Returns-bind (annotated-Returns _ w (advance s) l (advance-Within h))
            λ r k. returns (declared-Within name r k))
        λ _. lhs-Returns lhs w s l h

  pub simple-Returns :
      (w : ℕ) (s : Parser)
      → w + 2 ≤ m
      → Within ok w s
      → Returns ok (spent w (check TokenType.eof_token s)) (parse_simple m s)
  unfolding parse_simple
  simple-Returns w s l h =
      let most = spent_most w (check TokenType.eof_token s) in
      Returns-bind (parse_expression-Returns m w s l h)
        λ lhs g. behind_name-Returns (name_of (lhs.0)) (lhs.0) _ (lhs.1) (omega arith) g

  pub return-Returns :
      (w : ℕ) (s : Parser) → w + 2 ≤ m → Within ok w s → Returns ok w (parse_return m s)
  unfolding parse_return
  return-Returns w s l h =
      Returns-bind
        (Returns-if (check TokenType.newline s || at_close s) (λ _. returns h)
          λ _. Returns-bind (expression-Returns w s l h) λ r k. returns k)
        λ r k. returns (accept-Within TokenType.newline k)
