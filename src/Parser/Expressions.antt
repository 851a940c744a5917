-- ===== src/Parser/Expressions.antt =====
-- The operators of expressions (bootstrap/cpp/src/parser/parser.cpp). `parse_expression` runs on fuel; two
-- more than the tokens that are left are enough, since a token is read before it is called again.
pub mod Grammar
pub mod Levels
pub mod Whole
use ycpl.Base.{ℕ, zero, suc, Bool, ◌&&◌, ◌||◌, Option, none, some, ◌+◌, ◌-◌, if◌then◌else◌, ◌>>=◌}
use ycpl.Text.{Bytes, codes}
use ycpl.Token.{TokenType, Token}
use ycpl.Ast.{Expr, unary_expr, binary_expr}
use ycpl.Parser.Cursor.{Parser, advance, check, is, peek_is}
use ycpl.Parser.Primary.{parse_primary, parse_array_literal, typed_array_literal, postfix}

-- The loop of a level: operators of the level and operands of the next, to the left.
unfoldable pub left_assoc :
    (Token → Bool)
    → (Token → Bytes)
    → (Parser → Option (Expr × Parser))
    → ℕ
    → Expr
    → Parser
    → Option (Expr × Parser)
left_assoc is_op text operand zero left s = none
left_assoc is_op text operand (suc n) left s =
    if is_op s.cur
    then (operand (advance s) >>= λ r.
        left_assoc is_op text operand n (binary_expr (text s.cur) left (r.0)) (r.1))
    else some (left, s)

unfoldable pub level :
    ℕ
    → (Token → Bool)
    → (Token → Bytes)
    → (Parser → Option (Expr × Parser))
    → Parser
    → Option (Expr × Parser)
level n is_op text operand s = operand s >>= λ r. left_assoc is_op text operand n (r.0) (r.1)

abbrev pub lexeme_of : Token → Bytes
lexeme_of token = token.lexeme

-- A `*` that was taken for a dereference is written as `*`.
abbrev pub product_text : Token → Bytes
product_text token = if is TokenType.deref token then codes "*" else token.lexeme

abbrev pub is_or : Token → Bool
is_or = is TokenType.or

abbrev pub is_and : Token → Bool
is_and = is TokenType.and

abbrev pub is_bit_or : Token → Bool
is_bit_or token = is TokenType.bit_or token || is TokenType.pipe token

abbrev pub is_bit_xor : Token → Bool
is_bit_xor token = is TokenType.bit_xor token || is TokenType.caret token

abbrev pub is_bit_and : Token → Bool
is_bit_and token =
    is TokenType.bit_and token || is TokenType.address_of token || is TokenType.amp token

abbrev pub is_equality : Token → Bool
is_equality token = is TokenType.eq token || is TokenType.neq token

abbrev pub is_comparison : Token → Bool
is_comparison token =
    is TokenType.lt token || is TokenType.gt token || is TokenType.le token || is TokenType.ge token

abbrev pub is_shift : Token → Bool
is_shift token = is TokenType.shl token || is TokenType.shr token

abbrev pub is_sum : Token → Bool
is_sum token = is TokenType.plus token || is TokenType.minus token

abbrev pub is_product : Token → Bool
is_product token =
    is TokenType.star token
    || is TokenType.deref token
    || is TokenType.slash token
    || is TokenType.percent token

abbrev pub is_prefix : Token → Bool
is_prefix token =
    is TokenType.bang token
    || is TokenType.minus token
    || is TokenType.plus token
    || is TokenType.plusplus token
    || is TokenType.minusminus token
    || is TokenType.deref token
    || is TokenType.address_of token

abbrev pub prefix_text : Token → Bytes
prefix_text token =
    if is TokenType.deref token
    then codes "*"
    else if is TokenType.address_of token
    then codes "&"
    else token.lexeme

-- `[]Name{` stands next.
abbrev pub is_typed_array : Parser → Bool
is_typed_array s =
    peek_is TokenType.rbrack 0 s && peek_is TokenType.ident 1 s && peek_is TokenType.lbrace 2 s

module _ (expression : Parser → Option (Expr × Parser)) (fuel : ℕ) where
  unfoldable pub parse_unary : ℕ → Parser → Option (Expr × Parser)
  parse_unary zero s = none
  parse_unary (suc n) s =
      if is_prefix s.cur
      then (parse_unary n (advance s) >>= λ r. some (unary_expr (prefix_text s.cur) (r.0), r.1))
      else if check TokenType.lbrack s
      then (if is_typed_array s
          then typed_array_literal expression fuel (advance (advance s))
          else parse_array_literal expression fuel s)
        >>= postfix expression fuel
      else parse_primary expression fuel s

  unfoldable pub parse_multiplicative : Parser → Option (Expr × Parser)
  parse_multiplicative = level fuel is_product product_text (parse_unary fuel)

  unfoldable pub parse_additive : Parser → Option (Expr × Parser)
  parse_additive = level fuel is_sum lexeme_of parse_multiplicative

  unfoldable pub parse_shift : Parser → Option (Expr × Parser)
  parse_shift = level fuel is_shift lexeme_of parse_additive

  unfoldable pub parse_comparison : Parser → Option (Expr × Parser)
  parse_comparison = level fuel is_comparison lexeme_of parse_shift

  unfoldable pub parse_equality : Parser → Option (Expr × Parser)
  parse_equality = level fuel is_equality lexeme_of parse_comparison

  unfoldable pub parse_bitwise_and : Parser → Option (Expr × Parser)
  parse_bitwise_and = level fuel is_bit_and lexeme_of parse_equality

  unfoldable pub parse_bitwise_xor : Parser → Option (Expr × Parser)
  parse_bitwise_xor = level fuel is_bit_xor lexeme_of parse_bitwise_and

  unfoldable pub parse_bitwise_or : Parser → Option (Expr × Parser)
  parse_bitwise_or = level fuel is_bit_or lexeme_of parse_bitwise_xor

  unfoldable pub parse_logical_and : Parser → Option (Expr × Parser)
  parse_logical_and = level fuel is_and lexeme_of parse_bitwise_or

  unfoldable pub parse_logical_or : Parser → Option (Expr × Parser)
  parse_logical_or = level fuel is_or lexeme_of parse_logical_and

unfoldable pub parse_expression : ℕ → Parser → Option (Expr × Parser)
parse_expression zero s = none
parse_expression (suc fuel) s = parse_logical_or (parse_expression fuel) fuel s

unfoldable pub parse_expression_without_struct_literals : ℕ → Parser → Option (Expr × Parser)
parse_expression_without_struct_literals fuel s =
    let inside = record s { suppress_struct_literal_depth = suc s.suppress_struct_literal_depth } in
    parse_expression fuel inside >>= λ r.
    some (r.0, record r.1 { suppress_struct_literal_depth = r.1.suppress_struct_literal_depth - 1 })
