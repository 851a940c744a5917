-- ===== src/Parser/Types.antt =====
-- `parse_type` (bootstrap/cpp/src/parser/parser.cpp). It runs on fuel; more than the tokens that are left
-- is enough, since it reads a token before it calls itself.
pub mod Reads
pub mod Spelled
pub mod Whole
use ycpl.Base.{
  ℕ, zero, suc, ◌+◌, Bool, true, false, ◌&&◌, ◌||◌, Option, none, some, List, [], ◌∷◌, ◌++◌,
  if◌then◌else◌, ◌>>=◌,
}
use ycpl.Text.{Bytes, codes, str_eq}
use ycpl.Token.{TokenType, Token}
use ycpl.Ast.{AstType, named_type, pointer_type, array_type, map_type, vec_type}
use ycpl.Parser.Cursor.{
  Parser, advance, check, check_word, peek_is, expect, expected, expected_type_gt, skip_tokens, is,
}

abbrev pub is_owned : Token → Bool
is_owned token = is TokenType.ident token && str_eq token.lexeme (codes "owned")

-- The loop over `*` and `&`, with `ptr_prefix`.
unfoldable pub pointer_prefix : List Token → Bytes → Parser → Bytes × Parser
pointer_prefix [] prefix s = (prefix, s)
pointer_prefix (token ∷ rest) prefix s =
    let star = pointer_prefix rest (prefix ++ b'*' ∷ []) (advance s) in
    let amp = pointer_prefix rest (prefix ++ b'&' ∷ []) (advance s) in
    if check TokenType.deref s
    then star
    else if check TokenType.address_of s
    then amp
    else (prefix, s)

abbrev pub behind_brackets : Parser → Parser
behind_brackets s =
    expected TokenType.rbrack (codes "expected ']' after '[' in array type") (advance s)

-- The loop over `[]`.
unfoldable pub array_depth : List Token → ℕ → Parser → ℕ × Parser
array_depth [] depth s = (depth, s)
array_depth (token ∷ rest) depth s =
    let more = array_depth rest (suc depth) (behind_brackets s) in
    if check TokenType.lbrack s then more else (depth, s)

unfoldable pub wrap_arrays : ℕ → AstType → AstType
wrap_arrays zero base = base
wrap_arrays (suc depth) base = wrap_arrays depth (array_type base true 0)

unfoldable pub wrap_pointers : Bytes → AstType → AstType
wrap_pointers [] base = base
wrap_pointers (c ∷ prefix) base = wrap_pointers prefix (pointer_type base)

-- The type behind the prefixes, where `parse` is `parse_type` itself.
unfoldable pub parse_base :
    (Parser → Option (AstType × Parser)) → Parser → Option (AstType × Parser)
parse_base parse s =
    if check_word (codes "Map") s && peek_is TokenType.lt 0 s
    then (parse (expected TokenType.lt (codes "expected '<' after Map") (advance s)) >>= λ key.
        parse
          (expected TokenType.comma (codes "expected ',' between Map key and value types") (key.1))
        >>= λ v. some (
          map_type (key.0) (v.0),
          expected_type_gt (codes "expected '>' after Map value type") (v.1),
        ))
    else if check_word (codes "Vec") s && peek_is TokenType.lt 0 s
    then (parse (expected TokenType.lt (codes "expected '<' after Vec") (advance s)) >>= λ elem.
        some (
          vec_type (elem.0),
          expected_type_gt (codes "expected '>' after Vec element type") (elem.1),
        ))
    else if check TokenType.kw_byte s || check_word (codes "byte") s
    then some (named_type (codes "byte"), advance s)
    else let name = expect TokenType.ident (codes "expected type name") s in
      some (named_type name.0.lexeme, name.1)

abbrev pub behind_owned : Parser → Parser
behind_owned s = skip_tokens is_owned s.left s

abbrev pub behind_prefix :
    (Parser → Option (AstType × Parser)) → Bytes × Parser → Option (AstType × Parser)
behind_prefix parse (prefix, s) =
    let arrays = array_depth s.left 0 s in
    if check TokenType.lbrack s
    then (parse (arrays.1) >>= λ base.
        some (wrap_pointers prefix (wrap_arrays (arrays.0) (base.0)), base.1))
    else (parse_base parse s >>= λ base. some (wrap_pointers prefix (base.0), base.1))

unfoldable pub parse_type : ℕ → Parser → Option (AstType × Parser)
parse_type zero s = none
parse_type (suc fuel) s =
    let t = behind_owned s in behind_prefix (parse_type fuel) (pointer_prefix t.left [] t)
