-- ===== src/Parser/Functions.antt =====
-- Declarations of functions (bootstrap/cpp/src/parser/parser.cpp), with their parameters.
use ycpl.Base.{
  ℕ, zero, suc, Bool, true, false, not, ◌&&◌, ◌||◌, Option, none, some, List, [], ◌∷◌, ◌++◌,
  if◌then◌else◌, ◌>>=◌,
}
use ycpl.Text.{Bytes, codes}
use ycpl.Token.{TokenType, Token}
use ycpl.Ast.{AstType, named_type, no_stmts, Body, no_body, body, Param, Decl, func_decl}
use ycpl.Parser.Cursor.{
  Parser, advance, check, peek_is, is, emit_error, expect, expected, skip_tokens,
}
use ycpl.Parser.Types.{parse_type, pointer_prefix, wrap_pointers}
use ycpl.Parser.Primary.{starts_type}
use ycpl.Parser.Statements.{parse_block, parse_stmt}
use ycpl.Parser.Declarations.{unquoted}

-- `...`, as one token or as three.
abbrev pub consume_ellipsis : Parser → Bool × Parser
consume_ellipsis s =
    if check TokenType.ellipsis s
    then (true, advance s)
    else if check TokenType.dot s && (peek_is TokenType.dot 0 s && peek_is TokenType.dot 1 s)
    then (true, advance (advance (advance s)))
    else (false, s)

abbrev pub is_empty : Bytes → Bool
is_empty [] = true
is_empty (c ∷ cs) = false

-- The type of a parameter, which may be missing behind `...` or a prefix of its name.
unfoldable pub param_type : ℕ → Bytes → Bool → Parser → Option (AstType × Parser)
param_type fuel prefix variadic s =
    if starts_type s
    then parse_type fuel s
    else if variadic
    then some (named_type (codes "any"), s)
    else if is_empty prefix
    then some (
      named_type (codes "int"),
      emit_error s.cur (codes "expected parameter type after name (use: 'name type', e.g. 'x int')")
          s,
    )
    else some (wrap_pointers prefix (named_type (codes "int")), s)

abbrev pub before_close : Token → Bool
before_close token = not (is TokenType.rparen token) && not (is TokenType.eof_token token)

-- The state behind a variadic parameter, which must be the last.
abbrev pub behind_variadic : Parser → Parser
behind_variadic s =
    let t = advance s in
    let u = emit_error t.cur (codes "variadic parameter must be the last parameter") t in
    if check TokenType.comma s then skip_tokens before_close u.left u else s

unfoldable pub param_loop : ℕ → ℕ → List Param → Parser → Option (List Param × Parser)
param_loop fuel zero params s = none
param_loop fuel (suc n) params s =
    let prefix = pointer_prefix s.left [] s in
    let name = expect TokenType.ident (codes "expected parameter name") (prefix.1) in
    let dots = consume_ellipsis (name.1) in
    param_type fuel (prefix.0) (dots.0) (dots.1) >>= λ t.
    let param : Param = record { name = name.0.lexeme; type = t.0; variadic = dots.0 } in
    if dots.0
    then some (params ++ param ∷ [], behind_variadic (t.1))
    else if check TokenType.comma (t.1)
    then param_loop fuel n (params ++ param ∷ []) (advance (t.1))
    else some (params ++ param ∷ [], t.1)

abbrev pub params_of : ℕ → Parser → Option (List Param × Parser)
params_of fuel s = if check TokenType.rparen s then some ([], s) else param_loop fuel fuel [] s

-- The type that is returned.
abbrev pub ret_type_of : ℕ → Parser → Option (Option AstType × Parser)
ret_type_of fuel s =
    if starts_type s then (parse_type fuel s >>= λ t. some (some (t.0), t.1)) else some (none, s)

abbrev pub extern_name_of : Parser → Option Bytes × Parser
extern_name_of s =
    let name = expect TokenType.string (codes "expected string literal after 'as'") (advance s) in
    if check TokenType.kw_as s then (some (unquoted name.0.lexeme), name.1) else (none, s)

-- The body of a function, which may be missing where it is declared only.
abbrev pub function_body : Bool → ℕ → Parser → Option (Body × Parser)
function_body declared fuel s =
    if check TokenType.lbrace s
    then (parse_block (parse_stmt fuel) fuel s >>= λ b. some (body (b.0), b.1))
    else if declared
    then some (no_body, s)
    else some (body no_stmts, emit_error s.cur (codes "expected function body") s)

-- The receiver and the name of a function; the state stands behind its first name.
abbrev pub method_name : Bytes → Parser → (Option Bytes × Bytes) × Parser
method_name first s =
    let method = expect TokenType.ident (codes "expected method name after '.'") (advance s) in
    if check TokenType.dot s then ((some first, method.0.lexeme), method.1) else ((none, first), s)

unfoldable pub parse_function_decl : Bool → Bool → Bool → ℕ → Parser → Option (Decl × Parser)
parse_function_decl is_pub is_extern is_intrinsic fuel s =
    let first =
      expect TokenType.ident (codes "expected function or method name")
        (expected TokenType.kw_fn (codes "expected 'fn'") s) in
    let name = method_name first.0.lexeme (first.1) in
    params_of fuel (expected TokenType.lparen (codes "expected '(' after fn name") (name.1))
    >>= λ ps.
        ret_type_of fuel (expected TokenType.rparen (codes "expected ')' after params") (ps.1))
        >>= λ r.
            let external = extern_name_of (r.1) in
            function_body (is_extern || is_intrinsic) fuel (external.1) >>= λ b. some (
              func_decl record {
                name = name.0.1;
                receiver_name = name.0.0;
                params = ps.0;
                ret_type = r.0;
                is_pub = is_pub;
                is_extern = is_extern;
                is_intrinsic = is_intrinsic;
                extern_name = external.0;
                body_of = b.0;
              },
              b.1,
            )
