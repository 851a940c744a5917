-- ===== src/Parser/Primary.antt =====
-- Lists of expressions, calls, literals and names (bootstrap/cpp/src/parser/parser.cpp). Each function
-- is given `parse_expression` and the fuel for its loops, which read a token in each round.
use ycpl.Base.{
  ℕ, zero, suc, ◌+◌, Bool, true, ◌&&◌, ◌||◌, Option, none, some, [], ◌==◌, if◌then◌else◌, ◌>>=◌,
}
use ycpl.Text.{Bytes, codes, str_eq}
use ycpl.Token.{TokenType}
use ycpl.Ast.{
  named_type, array_type, Expr, ident, literal, type_expr, call_expr, array_literal,
  byte_array_literal, member_expr, index_expr, postfix_expr, struct_literal, vec_literal,
  vec_literal_with, Exprs, no_exprs, push_expr, Inits, no_inits, push_init,
}
use ycpl.Parser.Cursor.{
  Parser, advance, check, check_word, peek_is, emit_error, expect, expected, expected_type_gt,
  skip_newlines,
}
use ycpl.Parser.Types.{parse_type}
use ycpl.Parser.Strings.{
  decode_string_literal_content, byte_literals, callee_path_for_parser, ends_with_for_parser,
}

-- The tokens that may start a type in an argument.
abbrev pub starts_type : Parser → Bool
starts_type s =
    check TokenType.ident s
    || check TokenType.lbrack s
    || check TokenType.deref s
    || check TokenType.address_of s
    || check TokenType.kw_byte s

-- Whether the first argument of the call is a type.
abbrev pub is_type_argument : Bytes → Parser → Bool
is_type_argument path s =
    ((str_eq path (codes "cast") || ends_with_for_parser path (codes ".cast")) && starts_type s)
    || ((str_eq path (codes "array.new")
          || str_eq path (codes "array.make")
          || ends_with_for_parser path (codes ".new")
          || ends_with_for_parser path (codes ".make"))
        && check TokenType.lbrack s
        && peek_is TokenType.rbrack 0 s)
    || ((str_eq path (codes "mem.sizeof") || ends_with_for_parser path (codes ".sizeof"))
        && starts_type s)

module _ (expression : Parser → Option (Expr × Parser)) (fuel : ℕ) where
  unfoldable pub parse_call_arg_for : Expr → ℕ → Parser → Option (Expr × Parser)
  parse_call_arg_for callee arg_index s =
      if arg_index == 0 && is_type_argument (callee_path_for_parser callee) s
      then (parse_type fuel s >>= λ t. some (type_expr (t.0), t.1))
      else expression s

  -- The loop over the arguments of a call.
  unfoldable pub arg_loop : ℕ → Expr → ℕ → Exprs → Parser → Option (Exprs × Parser)
  arg_loop zero callee arg_index args s = none
  arg_loop (suc n) callee arg_index args s =
      parse_call_arg_for callee arg_index (skip_newlines s) >>= λ arg.
      let t = skip_newlines (arg.1) in
      if check TokenType.comma t
      then arg_loop n callee (arg_index + 1) (push_expr args (arg.0)) (advance t)
      else some (push_expr args (arg.0), t)

  -- The arguments behind `(`, up to the state behind `)`.
  unfoldable pub call_args : Expr → Parser → Option (Exprs × Parser)
  call_args callee s =
      let t = skip_newlines (advance s) in
      (if check TokenType.rparen t then some (no_exprs, t) else arg_loop fuel callee 0 no_exprs t)
      >>= λ r. some (r.0, expected TokenType.rparen (codes "expected ')' in call") (r.1))

  unfoldable pub parse_postfix : ℕ → Expr → Parser → Option (Expr × Parser)
  parse_postfix zero left s = none
  parse_postfix (suc n) left s =
      let again = parse_postfix n in
      if check TokenType.lparen s
      then (call_args left s >>= λ r. again (call_expr left (r.0)) (r.1))
      else if check TokenType.lbrack s
      then (expression (advance s) >>= λ r.
          again (index_expr left (r.0))
            (expected TokenType.rbrack (codes "expected ']' after index") (r.1)))
      else if check TokenType.plusplus s || check TokenType.minusminus s
      then again (postfix_expr s.cur.lexeme left) (advance s)
      else if check TokenType.dot s
      then (let member =
            expect TokenType.ident (codes "expected member name after '.'") (advance s) in
          again (member_expr left member.0.lexeme) (member.1))
      else some (left, s)

  abbrev pub postfix : Expr × Parser → Option (Expr × Parser)
  postfix r = parse_postfix fuel (r.0) (r.1)

  -- The loop over the elements of an array, up to its closing token.
  unfoldable pub element_loop : TokenType → ℕ → Exprs → Parser → Option (Exprs × Parser)
  element_loop close zero elems s = none
  element_loop close (suc n) elems s = expression (skip_newlines s) >>= λ elem.
      let t = skip_newlines (elem.1) in
      let next = skip_newlines (advance t) in
      let all = push_expr elems (elem.0) in
      if check TokenType.comma t
      then (if check close next then some (all, next) else element_loop close n all next)
      else some (all, t)

  abbrev pub elements : TokenType → Parser → Option (Exprs × Parser)
  elements close s =
      let t = skip_newlines s in
      if check close t then some (no_exprs, t) else element_loop close fuel no_exprs t

  -- `parse_array_literal` and `parse_byte_array_literal` up to the node that they build.
  abbrev pub bracketed : Bytes → Bytes → Parser → Option (Exprs × Parser)
  bracketed opening closing s =
      elements TokenType.rbrack (expected TokenType.lbrack opening s) >>= λ r.
      some (r.0, expected TokenType.rbrack closing (r.1))

  unfoldable pub parse_array_literal : Parser → Option (Expr × Parser)
  parse_array_literal s =
      bracketed (codes "expected '[' to start array literal")
        (codes "expected ']' to close array literal") s
      >>= λ r. some (array_literal none (r.0), r.1)

  unfoldable pub parse_byte_array_literal : Parser → Option (Expr × Parser)
  parse_byte_array_literal s =
      bracketed (codes "expected '[' to start byte array literal")
        (codes "expected ']' to close byte array literal") s
      >>= λ r. some (byte_array_literal (r.0), r.1)

  -- `[]Name{ … }` behind its brackets, from the name on.
  unfoldable pub typed_array_literal : Parser → Option (Expr × Parser)
  typed_array_literal s =
      let name =
        expect TokenType.ident (codes "expected type name after '[]' in typed array literal") s in
      elements TokenType.rbrace
        (expected TokenType.lbrace (codes "expected '{' to start typed array literal") (name.1))
      >>= λ r. some (
        array_literal (some (array_type (named_type name.0.lexeme) true 0)) (r.0),
        expected TokenType.rbrace (codes "expected '}' to close typed array literal") (r.1),
      )

  -- The state behind the capacity of a `Vec` literal and an optional comma.
  abbrev pub behind_capacity : Parser → Parser
  behind_capacity s =
      let t = skip_newlines s in
      let u = skip_newlines (advance t) in
      if check TokenType.comma t
      then (if check TokenType.rbrace u
          then u
          else emit_error u.cur (codes "Vec literal accepts only one capacity field") u)
      else t

  abbrev pub capacity_field : Parser → Parser
  capacity_field s =
      let field = expect TokenType.ident (codes "expected 'capacity' in Vec literal") s in
      expected TokenType.colon (codes "expected ':' after Vec capacity") (
        if str_eq field.0.lexeme (codes "capacity")
        then field.1
        else emit_error (field.0) (codes "Vec literal only supports the 'capacity' field")
            (field.1))

  abbrev pub close_vec : Expr × Parser → Expr × Parser
  close_vec (e, s) = (e, expected TokenType.rbrace (codes "expected '}' to close Vec literal") s)

  -- A `Vec` literal, from `<` on.
  unfoldable pub parse_vec_literal : Parser → Option (Expr × Parser)
  parse_vec_literal s = parse_type fuel (advance s) >>= λ elem.
      let t = skip_newlines (
        expected TokenType.lbrace (codes "expected '{' after Vec<T>")
          (expected_type_gt (codes "expected '>' after Vec element type") (elem.1))) in
      if check TokenType.rbrace t
      then some (close_vec (vec_literal (elem.0), t))
      else (expression (capacity_field t) >>= λ capacity.
          some (close_vec (vec_literal_with (elem.0) (capacity.0), behind_capacity (capacity.1))))

  -- One field of a struct literal: with a name, or without.
  unfoldable pub parse_init : Parser → Option ((Option Bytes × Expr) × Parser)
  parse_init s =
      if check TokenType.ident s && peek_is TokenType.colon 0 s
      then (expression
            (expected TokenType.colon (codes "expected ':' in struct field init") (advance s))
          >>= λ r. some ((some s.cur.lexeme, r.0), r.1))
      else (expression s >>= λ r. some ((none, r.0), r.1))

  unfoldable pub init_loop : ℕ → Inits → Parser → Option (Inits × Parser)
  init_loop zero inits s = none
  init_loop (suc n) inits s = parse_init (skip_newlines s) >>= λ r.
      let t = skip_newlines (r.1) in
      let next = skip_newlines (advance t) in
      let all = push_init inits (r.0.0) (r.0.1) in
      if check TokenType.comma t
      then (if check TokenType.rbrace next then some (all, next) else init_loop n all next)
      else some (all, t)

  -- The fields of a struct literal, from `{` on.
  unfoldable pub parse_struct_literal : Bytes → Parser → Option (Expr × Parser)
  parse_struct_literal name s =
      let t = skip_newlines (advance s) in
      (if check TokenType.rbrace t then some (no_inits, t) else init_loop fuel no_inits t) >>= λ r.
      some (
        struct_literal (named_type name) (r.0),
        expected TokenType.rbrace (codes "expected '}' to close struct literal") (r.1),
      )

  -- What a name starts; `s` stands behind it.
  unfoldable pub parse_name : Bytes → Parser → Option (Expr × Parser)
  parse_name name s =
      if str_eq name (codes "Vec") && check TokenType.lt s
      then parse_vec_literal s
      else if check TokenType.lparen s
      then (call_args (ident name) s >>= λ r. some (call_expr (ident name) (r.0), r.1))
      else if check TokenType.lbrace s && s.suppress_struct_literal_depth == 0
      then parse_struct_literal name s
      else some (ident name, s)

  -- A literal of bytes; `s` stands behind `byte`.
  unfoldable pub parse_bytes : Parser → Option (Expr × Parser)
  parse_bytes s =
      if check TokenType.lbrack s
      then parse_byte_array_literal s
      else if check TokenType.string s
      then some (
        byte_array_literal (byte_literals (decode_string_literal_content s.cur.lexeme)),
        advance s,
      )
      else some (
        byte_array_literal no_exprs,
        emit_error s.cur (codes "expected '[' or string literal after 'byte'") s,
      )

  abbrev pub parenthesised : Parser → Option (Expr × Parser)
  parenthesised s = expression (advance s) >>= λ r.
      some (r.0, expected TokenType.rparen (codes "expected ')'") (r.1))

  -- `parse_primary` up to the call of `parse_postfix`.
  unfoldable pub parse_operand : Parser → Option (Expr × Parser)
  parse_operand s =
      if check TokenType.int s
        || check TokenType.float s
        || check TokenType.string s
        || check TokenType.char s
      then some (literal s.cur.lexeme s.cur.type, advance s)
      else if check TokenType.kw_true s || check TokenType.kw_false s
      then some (literal s.cur.lexeme TokenType.bool, advance s)
      else if check TokenType.kw_none s
      then some (literal s.cur.lexeme TokenType.none, advance s)
      else if check TokenType.lbrack s
      then parse_array_literal s
      else if check TokenType.ident s
      then parse_name s.cur.lexeme (advance s)
      else if check TokenType.lparen s
      then parenthesised s
      else if check TokenType.kw_byte s || check_word (codes "byte") s
      then parse_bytes (advance s)
      else some (
        literal [] TokenType.illegal,
        advance (emit_error s.cur (codes "unexpected token in expression") s),
      )

  unfoldable pub parse_primary : Parser → Option (Expr × Parser)
  parse_primary s = parse_operand s >>= postfix
