-- ===== src/Parser/Simple.antt =====
-- Statements in which no others stand (bootstrap/cpp/src/parser/parser.cpp). Each function is given the
-- fuel for its expressions. The statement of a result is `none` where the code returns null.
use ycpl.Base.{
  ℕ, Bool, true, false, ◌&&◌, ◌||◌, Option, none, some, List, [], ◌∷◌, if◌then◌else◌, ◌>>=◌,
}
use ycpl.Text.{Bytes, codes, str_eq}
use ycpl.Token.{TokenType, Token}
use ycpl.Ast.{
  AstType, Expr, ident, literal, Stmt, expr_stmt, return_stmt, var_decl, assign_stmt, Body, no_body,
  body,
}
use ycpl.Parser.Cursor.{Parser, advance, check, peek_is, emit_error, expect}
use ycpl.Parser.Types.{parse_type}
use ycpl.Parser.Expressions.{parse_expression, parse_expression_without_struct_literals}

-- `match`, where its result is not used.
abbrev pub accept : TokenType → Parser → Parser
accept type s = if check type s then advance s else s

abbrev pub is_at_end : Parser → Bool
is_at_end = check TokenType.eof_token

abbrev pub at_close : Parser → Bool
at_close s = check TokenType.rbrace s || is_at_end s

-- `:=` or `=` stands next.
abbrev pub is_assign : Parser → Bool
is_assign s =
    check TokenType.assign s
    && (str_eq s.cur.lexeme (codes ":=") || str_eq s.cur.lexeme (codes "="))

-- `lexer.peek(1).lexeme`; the end of the source has none.
abbrev pub first_lexeme : List Token → Bytes
first_lexeme [] = []
first_lexeme (token ∷ rest) = token.lexeme

abbrev pub is_assignment : Parser → Bool
is_assignment s =
    check TokenType.assign s
    || check TokenType.plus_assign s
    || check TokenType.minus_assign s
    || check TokenType.mul_assign s
    || check TokenType.div_assign s
    || check TokenType.mod_assign s

-- The operator of an assignment.
unfoldable pub plain_op : Bytes → Bytes
plain_op op =
    if str_eq op (codes "+=")
    then codes "+"
    else if str_eq op (codes "-=")
    then codes "-"
    else if str_eq op (codes "*=")
    then codes "*"
    else if str_eq op (codes "/=")
    then codes "/"
    else if str_eq op (codes "%=")
    then codes "%"
    else codes "="

-- `dynamic_cast<Ident *>`
abbrev pub name_of : Expr → Option Bytes
name_of (ident name) = some name
name_of other = none

abbrev pub is_default : Body → Bool
is_default no_body = false
is_default (body stmts) = true

module _ (fuel : ℕ) where
  -- The type behind a name's `:` and its value, which is `none` with an error where `:=` is missing.
  abbrev pub annotated : Bytes → Parser → Option ((AstType × Option Expr) × Parser)
  annotated message s = parse_type fuel s >>= λ t.
      if is_assign (t.1)
      then (parse_expression fuel (advance (t.1)) >>= λ r. some ((t.0, some (r.0)), r.1))
      else some ((t.0, none), emit_error t.1.cur message (t.1))

  -- The condition of `if`, or what `for` runs over: a name before `{` is no struct literal.
  unfoldable pub parse_head : Parser → Option (Expr × Parser)
  parse_head s =
      if check TokenType.ident s && peek_is TokenType.lbrace 0 s
      then some (ident s.cur.lexeme, advance s)
      else parse_expression_without_struct_literals fuel s

  -- The first clause of `for (`.
  abbrev pub init_of : Bytes → (AstType × Option Expr) × Parser → Stmt × Parser
  init_of name ((t, none), s) = (var_decl name (some t) (literal [] TokenType.illegal) false, s)
  init_of name ((t, some e), s) = (var_decl name (some t) e false, s)

  unfoldable pub parse_for_init : Parser → Option (Stmt × Parser)
  parse_for_init s =
      if check TokenType.ident s && peek_is TokenType.colon 0 s
      then (annotated (codes "expected ':=' or '=' after type annotation in for-init")
            (advance (advance s))
          >>= λ r. some (init_of s.cur.lexeme r))
      else if check TokenType.ident s
          && (peek_is TokenType.assign 0 s && str_eq (first_lexeme s.left) (codes ":="))
      then (parse_expression fuel (advance (advance s)) >>= λ r.
          some (var_decl s.cur.lexeme none (r.0) false, r.1))
      else (parse_expression fuel s >>= λ r. some (expr_stmt (r.0), r.1))

  -- A clause of `for (` that may be missing.
  abbrev pub clause : TokenType → Parser → Option (Option Expr × Parser)
  clause close s =
      if check close s
      then some (none, s)
      else (parse_expression fuel s >>= λ r. some (some (r.0), r.1))

  abbrev pub optional_type : Parser → Option (Option AstType × Parser)
  optional_type s =
      if check TokenType.colon s
      then (parse_type fuel (advance s) >>= λ t. some (some (t.0), t.1))
      else some (none, s)

  unfoldable pub parse_const : Parser → Option (Option Stmt × Parser)
  parse_const s =
      let name = expect TokenType.ident (codes "expected identifier after 'const'") s in
      optional_type (name.1) >>= λ type.
      if is_assign (type.1)
      then (parse_expression fuel (advance (type.1)) >>= λ r.
          some (some (var_decl name.0.lexeme (type.0) (r.0) true), accept TokenType.newline (r.1)))
      else some (
        none,
        emit_error type.1.cur (codes "expected ':=' or '=' after const declaration") (type.1),
      )

  -- A declaration of a variable with its type, from behind `:` on.
  abbrev pub declared : Bytes → (AstType × Option Expr) × Parser → Option Stmt × Parser
  declared name ((t, none), s) = (none, s)
  declared name ((t, some e), s) =
      (some (var_decl name (some t) e false), accept TokenType.newline s)

  -- What stands to the left of `:=` must be a name.
  abbrev pub define : Token → Option Bytes → Expr → Parser → Option Stmt × Parser
  define token none e s = (
    none,
    emit_error token (codes "':=' can only be used with an identifier on the left-hand side") s,
  )
  define token (some name) e s = (some (var_decl name none e false), s)

  -- An assignment, from its operator on.
  unfoldable pub parse_assign : Expr → Parser → Option (Option Stmt × Parser)
  parse_assign lhs s = parse_expression fuel (advance s) >>= λ r.
      let t = accept TokenType.newline (r.1) in
      some (
        if str_eq s.cur.lexeme (codes ":=")
        then define s.cur (name_of lhs) (r.0) t
        else (some (assign_stmt lhs (r.0) (plain_op s.cur.lexeme)), t))

  abbrev pub behind_lhs : Expr → Parser → Option (Option Stmt × Parser)
  behind_lhs lhs s =
      if is_assignment s
      then parse_assign lhs s
      else some (some (expr_stmt lhs), accept TokenType.newline s)

  -- A name that may have a type.
  abbrev pub behind_name : Option Bytes → Expr → Parser → Option (Option Stmt × Parser)
  behind_name none lhs s = behind_lhs lhs s
  behind_name (some name) lhs s =
      if check TokenType.colon s
      then (annotated (codes "expected ':=' or '=' after type annotation in variable declaration")
            (advance s)
          >>= λ r. some (declared name r))
      else behind_lhs lhs s

  -- A statement without a keyword.
  unfoldable pub parse_simple : Parser → Option (Option Stmt × Parser)
  parse_simple s = parse_expression fuel s >>= λ lhs. behind_name (name_of (lhs.0)) (lhs.0) (lhs.1)

  abbrev pub returned : Parser → Option (Option Expr × Parser)
  returned s =
      if check TokenType.newline s || at_close s
      then some (none, s)
      else (parse_expression fuel s >>= λ r. some (some (r.0), r.1))

  unfoldable pub parse_return : Parser → Option (Option Stmt × Parser)
  parse_return s =
      returned s >>= λ r. some (some (return_stmt (r.0)), accept TokenType.newline (r.1))
