-- ===== src/Parser/Declarations.antt =====
-- Declarations (bootstrap/cpp/src/parser/parser.cpp). The loops run on fuel. Those over the fields of a
-- struct and over the variants of an enum may go round without reading a token; Fields and Stuck are
-- about them.
pub mod Stuck
pub mod Fields
use ycpl.Base.{
  ℕ, zero, suc, ◌+◌, ◌-◌, Bool, true, false, not, ◌&&◌, ◌||◌, Option, none, some, List, [], ◌∷◌,
  ◌++◌, ltb, if◌then◌else◌, ◌>>=◌, length, take, drop, ◌==◌,
}
use ycpl.Text.{Bytes, codes, str_eq}
use ycpl.Token.{TokenType, Token}
use ycpl.Ast.{
  AstType, named_type, Stmt, no_stmts, Body, no_body, body, ℤ, pos, negsuc, Param, StructField,
  typed_field, inline_field, Decl, package_decl, import_decl, struct_decl, enum_decl,
  type_alias_decl, func_decl, stmt_decl,
}
use ycpl.Parser.Cursor.{
  Parser, advance, check, peek_is, is, emit_error, expect, expected, skip_newlines, skip_tokens,
}
use ycpl.Parser.Types.{parse_type, pointer_prefix, wrap_pointers}
use ycpl.Parser.Primary.{starts_type}
use ycpl.Parser.Simple.{is_at_end, accept, at_close}
use ycpl.Parser.Statements.{parse_block, parse_stmt}

-- `=` stands next.
abbrev pub check_equals : Parser → Bool
check_equals s = check TokenType.assign s && str_eq s.cur.lexeme (codes "=")

abbrev pub prefixed : Bytes → Bytes × List Bytes → Bytes × List Bytes
prefixed text (full, parts) = (text ++ full, parts)

-- The loop over `.name`: the text that it adds, and the names.
unfoldable pub dotted : Bytes → ℕ → Parser → Option ((Bytes × List Bytes) × Parser)
dotted message zero s = none
dotted message (suc n) s =
    if check TokenType.dot s
    then (let part = expect TokenType.ident message (advance s) in
        dotted message n (part.1) >>= λ r.
        some ((codes "." ++ part.0.lexeme ++ r.0.0, part.0.lexeme ∷ r.0.1), r.1))
    else some (([], []), s)

-- Without `module` or `package` it would report an error; `parse_program` tests for them before.
unfoldable pub parse_module_decl : ℕ → Parser → Option (Decl × Parser)
parse_module_decl fuel s =
    let name = expect TokenType.ident (codes "expected module/package name") (advance s) in
    dotted (codes "expected identifier in module/package name") fuel (name.1) >>= λ r.
    some (package_decl (name.0.lexeme ++ r.0.0), accept TokenType.newline (r.1))

-- The parts of a path between slashes.
unfoldable pub split_path : Bytes → Bytes → List Bytes
split_path [] part = part ∷ []
split_path (c ∷ cs) part =
    let parts = split_path cs [] in
    let same = split_path cs (part ++ c ∷ []) in if c == b'/' then part ∷ parts else same

abbrev pub front_byte : Bytes → ℕ
front_byte [] = 0
front_byte (c ∷ cs) = c

-- A string without the quotes at its ends, if it has both.
abbrev pub unquoted : Bytes → Bytes
unquoted raw =
    let n = length raw in
    if ltb 1 n && (front_byte raw == b'"' && front_byte (drop (n - 1) raw) == b'"')
    then take (n - 2) (drop 1 raw)
    else raw

-- The path of an import with its parts.
unfoldable pub import_path : ℕ → Parser → Option ((Bytes × List Bytes) × Parser)
import_path fuel s =
    let name = expect TokenType.ident (codes "expected import path") s in
    let full = unquoted s.cur.lexeme in
    if check TokenType.string s
    then some ((full, split_path full []), advance s)
    else (dotted (codes "expected identifier in import path") fuel (name.1) >>= λ r.
        some ((name.0.lexeme ++ r.0.0, name.0.lexeme ∷ r.0.1), r.1))

abbrev pub import_alias : Parser → Option Bytes × Parser
import_alias s =
    let name = expect TokenType.ident (codes "expected alias after 'as'") (advance s) in
    if check TokenType.kw_as s then (some name.0.lexeme, name.1) else (none, s)

unfoldable pub parse_import_decl : ℕ → Parser → Option (Decl × Parser)
parse_import_decl fuel s =
    import_path fuel (expected TokenType.kw_import (codes "expected 'import'") s) >>= λ r.
    let alias = import_alias (r.1) in
    some (import_decl (r.0.0) (r.0.1) (alias.0), accept TokenType.newline (alias.1))

-- The state behind a field.
abbrev pub behind_field : Parser → Parser
behind_field s = skip_newlines (accept TokenType.newline s)

-- The loop over the fields of an inline struct.
unfoldable pub inline_loop :
    ℕ → ℕ → List (Bytes × AstType) → Parser → Option (List (Bytes × AstType) × Parser)
inline_loop fuel zero fields s = none
inline_loop fuel (suc n) fields s =
    let name = expect TokenType.ident (codes "expected field name in inline struct") s in
    if at_close s
    then some (fields, s)
    else (parse_type fuel (name.1) >>= λ t.
        inline_loop fuel n (fields ++ (name.0.lexeme, t.0) ∷ []) (behind_field (t.1)))

-- The type of a field, or the struct that stands in its place.
unfoldable pub parse_field : ℕ → Bytes → Parser → Option (StructField × Parser)
parse_field fuel name s =
    if check TokenType.kw_struct s
    then (inline_loop fuel fuel [] (
          skip_newlines (
            expected TokenType.lbrace (codes "expected '{' for inline struct in field")
              (advance s)))
        >>= λ r. some (
          inline_field name (r.0),
          expected TokenType.rbrace (codes "expected '}' after inline struct") (r.1),
        ))
    else (parse_type fuel s >>= λ t. some (typed_field name (t.0), t.1))

unfoldable pub struct_loop : ℕ → ℕ → List StructField → Parser → Option (List StructField × Parser)
struct_loop fuel zero fields s = none
struct_loop fuel (suc n) fields s =
    let name = expect TokenType.ident (codes "expected field name in struct") s in
    if at_close s
    then some (fields, s)
    else (parse_field fuel name.0.lexeme (name.1) >>= λ r.
        struct_loop fuel n (fields ++ r.0 ∷ []) (behind_field (r.1)))

unfoldable pub parse_struct_decl : Bool → ℕ → Parser → Option (Decl × Parser)
parse_struct_decl is_pub fuel s =
    let name =
      expect TokenType.ident (codes "expected struct name")
        (expected TokenType.kw_struct (codes "expected 'struct'") s) in
    struct_loop fuel fuel []
      (skip_newlines (expected TokenType.lbrace (codes "expected '{' after struct name") (name.1)))
    >>= λ r. some (
      struct_decl name.0.lexeme (r.0) is_pub,
      expected TokenType.rbrace (codes "expected '}' to close struct") (r.1),
    )

unfoldable pub parse_type_alias_decl : Bool → ℕ → Parser → Option (Decl × Parser)
parse_type_alias_decl is_pub fuel s =
    let name =
      expect TokenType.ident (codes "expected type alias name")
        (expected TokenType.kw_type (codes "expected 'type'") s) in
    parse_type fuel (if check_equals (name.1) then advance (name.1) else name.1) >>= λ t.
    some (type_alias_decl name.0.lexeme (t.0) is_pub, accept TokenType.newline (t.1))

unfoldable pub negate : ℤ → ℤ
negate (pos zero) = pos 0
negate (pos (suc n)) = negsuc n
negate (negsuc n) = pos (suc n)

-- `++next_value`, where a `long long` is an unbounded integer.
unfoldable pub next_value : ℤ → ℤ
next_value (pos n) = pos (suc n)
next_value (negsuc zero) = pos 0
next_value (negsuc (suc n)) = negsuc n

-- `stoll` gives the value of an integer, or throws.
module _ (stoll : Bytes → Option ℤ) where
  abbrev pub value_of : Bool → Option ℤ → Token → ℤ → Parser → ℤ × Parser
  value_of neg none token next s = (next, emit_error token (codes "invalid integer enum value") s)
  value_of neg (some v) token next s = (if neg then negate v else v, s)

  -- The value of a variant, from behind `=` on.
  unfoldable pub enum_value : ℤ → Parser → ℤ × Parser
  enum_value next s =
      let neg = check TokenType.minus s in
      let token =
        expect TokenType.int (codes "expected integer enum value") (if neg then advance s else s) in
      value_of neg (stoll token.0.lexeme) (token.0) next (token.1)

  abbrev pub behind_variant : Parser → Parser
  behind_variant s =
      let t = skip_newlines s in
      skip_newlines
        (if check TokenType.comma t then skip_newlines (advance t) else accept TokenType.newline t)

  unfoldable pub enum_loop :
      ℕ → List (Bytes × Option ℤ) → ℤ → Parser → Option (List (Bytes × Option ℤ) × Parser)
  enum_loop zero variants next s = none
  enum_loop (suc n) variants next s =
      let name = expect TokenType.ident (codes "expected enum variant name") s in
      let value = enum_value next (advance (name.1)) in
      let numbered =
        enum_loop n (variants ++ (name.0.lexeme, some (value.0)) ∷ []) (next_value (value.0))
          (behind_variant (value.1)) in
      let plain =
        enum_loop n (variants ++ (name.0.lexeme, none) ∷ []) (next_value next)
          (behind_variant (name.1)) in
      if at_close s then some (variants, s) else if check_equals (name.1) then numbered else plain

  unfoldable pub parse_enum_decl : Bool → ℕ → Parser → Option (Decl × Parser)
  parse_enum_decl is_pub fuel s =
      let name =
        expect TokenType.ident (codes "expected enum name")
          (expected TokenType.kw_enum (codes "expected 'enum'") s) in
      enum_loop fuel [] (pos 0)
        (skip_newlines (expected TokenType.lbrace (codes "expected '{' after enum name") (name.1)))
      >>= λ r. some (
        enum_decl name.0.lexeme (r.0) is_pub,
        expected TokenType.rbrace (codes "expected '}' to close enum") (r.1),
      )
