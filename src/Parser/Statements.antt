-- ===== src/Parser/Statements.antt =====
-- Statements (bootstrap/cpp/src/parser/parser.cpp). Each function is given `parse_stmt` and the fuel for
-- its expressions and loops, which read a token in each round. The statement of a result is `none`
-- where the code returns null.
pub mod Assigned
use ycpl.Base.{
  ℕ, zero, suc, Bool, true, false, not, ◌&&◌, ◌||◌, Option, none, some, List, [], ◌∷◌,
  if◌then◌else◌, ◌>>=◌,
}
use ycpl.Text.{Bytes, codes, str_eq}
use ycpl.Token.{TokenType, Token}
use ycpl.Ast.{
  AstType, Expr, ident, literal, Stmt, expr_stmt, return_stmt, defer_stmt, var_decl, assign_stmt,
  block_stmt, if_stmt, switch_stmt, for_in_stmt, for_stmt, for_c_style_stmt, break_stmt,
  continue_stmt, Stmts, no_stmts, Body, no_body, body, Init, no_stmt, init_stmt, Cases, no_cases,
  push_stmt, push_case,
}
use ycpl.Parser.Cursor.{
  Parser, advance, check, peek_is, emit_error, expect, expected, skip_newlines,
}
use ycpl.Parser.Types.{parse_type}
use ycpl.Parser.Expressions.{parse_expression, parse_expression_without_struct_literals}
use ycpl.Parser.Simple.{
  accept, is_at_end, at_close, is_assign, first_lexeme, is_assignment, plain_op, name_of,
  is_default, annotated, parse_head, init_of, parse_for_init, clause, optional_type, parse_const,
  declared, define, parse_assign, behind_lhs, behind_name, parse_simple, returned, parse_return,
}

module _ (stmt : Parser → Option (Option Stmt × Parser)) (fuel : ℕ) where
  unfoldable pub block_loop : ℕ → Stmts → Parser → Option (Stmts × Parser)
  block_loop zero stmts s = none
  block_loop (suc n) stmts s =
      if at_close s
      then some (stmts, s)
      else (stmt s >>= λ r. block_loop n (push_stmt stmts (r.0)) (skip_newlines (r.1)))

  unfoldable pub parse_block : Parser → Option (Stmts × Parser)
  parse_block s =
      block_loop fuel no_stmts
        (skip_newlines (expected TokenType.lbrace (codes "expected '{' to start block") s))
      >>= λ r. some (r.0, expected TokenType.rbrace (codes "expected '}' to end block") (r.1))

  -- One round of a switch: the cases, the default and the state behind it.
  unfoldable pub parse_label : Cases → Body → Parser → Option ((Cases × Body) × Parser)
  parse_label cases default s =
      let t = advance s in
      let wrong = emit_error s.cur (codes "expected 'case' or 'default' in switch") t in
      if not (check TokenType.ident s)
      then some (
        (cases, default),
        advance (emit_error s.cur (codes "expected 'case' or 'default' in switch") s),
      )
      else if str_eq s.cur.lexeme (codes "case")
      then (parse_expression_without_struct_literals fuel t >>= λ v.
          parse_block (v.1) >>= λ b. some ((push_case cases (v.0) (b.0), default), b.1))
      else if str_eq s.cur.lexeme (codes "default")
      then (parse_block (
            if is_default default
            then emit_error s.cur (codes "duplicate default in switch") t
            else t)
          >>= λ b. some ((cases, body (b.0)), b.1))
      else if check TokenType.lbrace wrong
      then (parse_block wrong >>= λ b. some ((cases, default), b.1))
      else some ((cases, default), wrong)

  unfoldable pub switch_loop : ℕ → Cases → Body → Parser → Option ((Cases × Body) × Parser)
  switch_loop zero cases default s = none
  switch_loop (suc n) cases default s =
      if at_close s
      then some ((cases, default), s)
      else (parse_label cases default s >>= λ r.
          switch_loop n (r.0.0) (r.0.1) (skip_newlines (r.1)))

  unfoldable pub parse_switch_stmt : Parser → Option (Stmt × Parser)
  parse_switch_stmt s =
      parse_expression_without_struct_literals fuel
        (expected TokenType.kw_switch (codes "expected 'switch'") s)
      >>= λ v.
          switch_loop fuel no_cases no_body
            (skip_newlines (expected TokenType.lbrace (codes "expected '{' to start switch") (v.1)))
          >>= λ r. some (
            switch_stmt (v.0) (r.0.0) (r.0.1),
            expected TokenType.rbrace (codes "expected '}' to close switch") (r.1),
          )

  unfoldable pub parse_defer : Parser → Option (Stmt × Parser)
  parse_defer s =
      if check TokenType.lbrace s
      then (parse_block s >>= λ b. some (defer_stmt (block_stmt (b.0)), b.1))
      else (parse_expression fuel s >>= λ r.
          some (defer_stmt (expr_stmt (r.0)), accept TokenType.newline (r.1)))

  -- What stands behind the block of an `if`: `else if` is a block of one statement.
  unfoldable pub parse_else : Parser → Option (Body × Parser)
  parse_else s =
      let t = advance s in
      if not (check TokenType.kw_else s)
      then some (no_body, s)
      else if check TokenType.lbrace t
      then (parse_block t >>= λ b. some (body (b.0), b.1))
      else if check TokenType.kw_if t
      then (stmt t >>= λ r. some (body (push_stmt no_stmts (r.0)), r.1))
      else some (no_body, t)

  unfoldable pub parse_if : Parser → Option (Stmt × Parser)
  parse_if s = parse_head fuel s >>= λ cond. parse_block (cond.1) >>= λ b.
      parse_else (b.1) >>= λ r. some (if_stmt (cond.0) (b.0) (r.0), r.1)

  abbrev pub for_init : Parser → Option (Init × Parser)
  for_init s =
      if check TokenType.semicolon s
      then some (no_stmt, s)
      else (parse_for_init fuel s >>= λ r. some (init_stmt (r.0), r.1))

  -- `for (`, from behind the bracket on.
  unfoldable pub parse_for_clauses : Parser → Option (Stmt × Parser)
  parse_for_clauses s = for_init s >>= λ init.
      clause fuel TokenType.semicolon
        (expected TokenType.semicolon (codes "expected ';' after for-init") (init.1))
      >>= λ cond.
          clause fuel TokenType.rparen
            (expected TokenType.semicolon (codes "expected ';' after for-cond") (cond.1))
          >>= λ post.
              parse_block
                (expected TokenType.rparen (codes "expected ')' after for clauses") (post.1))
              >>= λ b. some (for_c_style_stmt (init.0) (cond.0) (post.0) (b.0), b.1)

  unfoldable pub parse_for : Parser → Option (Stmt × Parser)
  parse_for s =
      if check TokenType.lparen s
      then parse_for_clauses (advance s)
      else if check TokenType.ident s
      then (parse_head fuel
            (expected TokenType.kw_in (codes "expected 'in' in for loop") (advance s))
          >>= λ iterable. parse_block (iterable.1) >>= λ b.
              some (for_in_stmt s.cur.lexeme (iterable.0) (b.0), b.1))
      else (parse_block s >>= λ b. some (for_stmt (b.0), b.1))

-- A statement that is there.
abbrev pub present : Stmt × Parser → Option (Option Stmt × Parser)
present (t, s) = some (some t, s)

unfoldable pub parse_stmt : ℕ → Parser → Option (Option Stmt × Parser)
parse_stmt zero s = none
parse_stmt (suc fuel) newlines =
    let stmt = parse_stmt fuel in
    let s = skip_newlines newlines in
    let t = advance s in
    if check TokenType.kw_break s
    then present (break_stmt, accept TokenType.newline t)
    else if check TokenType.kw_continue s
    then present (continue_stmt, accept TokenType.newline t)
    else if check TokenType.kw_return s
    then parse_return fuel t
    else if check TokenType.kw_defer s
    then parse_defer stmt fuel t >>= present
    else if check TokenType.kw_if s
    then parse_if stmt fuel t >>= present
    else if check TokenType.kw_switch s
    then parse_switch_stmt stmt fuel s >>= present
    else if check TokenType.kw_for s
    then parse_for stmt fuel t >>= present
    else if check TokenType.kw_const s
    then parse_const fuel t
    else if check TokenType.lbrace s
    then (parse_block stmt fuel s >>= λ b. present (block_stmt (b.0), b.1))
    else parse_simple fuel s
