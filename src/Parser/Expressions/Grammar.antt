-- ===== src/Parser/Expressions/Grammar.antt =====
-- The grammar of operators, as trees with the tokens that they are written with
-- (bootstrap/cpp/src/parser/parser.cpp).
use ycpl.Base.{
  ℕ, zero, suc, ◌+◌, ◌≤◌, ◌≡◌, refl, ap, Bool, true, false, ◌||◌, Option, List, [], ◌∷◌, ◌==◌,
  if◌then◌else◌, drop,
}
use ycpl.Text.{Bytes, codes, str_eq}
use ycpl.Token.{TokenType, Token}
use ycpl.Ast.{Expr, ident, literal, unary_expr, binary_expr}
use ycpl.Parser.Cursor.{Parser, advance, advance_to, is}
use ycpl.Parser.Expressions.{
  level, parse_unary, parse_multiplicative, parse_additive, parse_shift, parse_comparison,
  parse_equality, parse_bitwise_and, parse_bitwise_xor, parse_bitwise_or, parse_logical_and,
  parse_logical_or,
}

-- The operators by height, as the table of precedences has them: products bind tightest.
unfoldable pub operators : ℕ → Token → Bool
operators h =
    if h == 0
    then (λ token.
        is TokenType.star token
        || is TokenType.deref token
        || is TokenType.slash token
        || is TokenType.percent token)
    else if h == 1
    then (λ token. is TokenType.plus token || is TokenType.minus token)
    else if h == 2
    then (λ token. is TokenType.shl token || is TokenType.shr token)
    else if h == 3
    then (λ token.
        is TokenType.lt token
        || is TokenType.gt token
        || is TokenType.le token
        || is TokenType.ge token)
    else if h == 4
    then (λ token. is TokenType.eq token || is TokenType.neq token)
    else if h == 5
    then (λ token.
        is TokenType.bit_and token || is TokenType.address_of token || is TokenType.amp token)
    else if h == 6
    then (λ token. is TokenType.bit_xor token || is TokenType.caret token)
    else if h == 7
    then (λ token. is TokenType.bit_or token || is TokenType.pipe token)
    else if h == 8
    then is TokenType.and
    else is TokenType.or

-- What an operator is called in the tree: as it is written, and `*` for the mark of a dereference.
unfoldable pub operator_text : ℕ → Token → Bytes
operator_text h token =
    if h == 0 then (if is TokenType.deref token then codes "*" else token.lexeme) else token.lexeme

-- The parser of a height: the levels below and the unary operators.
unfoldable pub parse_height :
    (Parser → Option (Expr × Parser)) → ℕ → ℕ → Parser → Option (Expr × Parser)
parse_height expression fuel zero = parse_unary expression fuel fuel
parse_height expression fuel (suc h) =
    level fuel (operators h) (operator_text h) (parse_height expression fuel h)

pub parse_height_lem :
    (expression : Parser → Option (Expr × Parser)) (fuel : ℕ)
    → parse_height expression fuel 10 ≡ parse_logical_or expression fuel
unfolding parse_height operators operator_text parse_logical_or parse_logical_and parse_bitwise_or
    parse_bitwise_xor parse_bitwise_and parse_equality parse_comparison parse_shift parse_additive
    parse_multiplicative
parse_height_lem expression fuel = refl

pub data Tree : Type 0 where
  value_at : Token → Tree
  name_at : Token → Tree
  prefix_at : Token → Tree → Tree
  group_at : Token → Tree → Token → Tree
  infix_at : ℕ → Token → Tree → Tree → Tree

-- The tokens of a tree before others, and the expression that it means.
unfoldable pub tokens : Tree → List Token → List Token
tokens (value_at token) rest = token ∷ rest
tokens (name_at token) rest = token ∷ rest
tokens (prefix_at op t) rest = op ∷ tokens t rest
tokens (group_at opening t closing) rest = opening ∷ tokens t (closing ∷ rest)
tokens (infix_at h op l r) rest = tokens l (op ∷ tokens r rest)

-- The operators in front of an operand, and what they are called in the tree.
abbrev pub is_sign : Token → Bool
is_sign token =
    is TokenType.bang token
    || is TokenType.minus token
    || is TokenType.plus token
    || is TokenType.plusplus token
    || is TokenType.minusminus token
    || is TokenType.deref token
    || is TokenType.address_of token

abbrev pub sign_text : Token → Bytes
sign_text token =
    if is TokenType.deref token
    then codes "*"
    else if is TokenType.address_of token
    then codes "&"
    else token.lexeme

unfoldable pub meaning : Tree → Expr
meaning (value_at token) = literal token.lexeme token.type
meaning (name_at token) = ident token.lexeme
meaning (prefix_at op t) = unary_expr (sign_text op) (meaning t)
meaning (group_at opening t closing) = meaning t
meaning (infix_at h op l r) = binary_expr (operator_text h op) (meaning l) (meaning r)

unfoldable pub height : Tree → ℕ
height (infix_at h op l r) = suc h
height other = 0

unfoldable pub nodes : Tree → ℕ
nodes (value_at token) = 1
nodes (name_at token) = 1
nodes (prefix_at op t) = suc (nodes t)
nodes (group_at opening t closing) = suc (nodes t)
nodes (infix_at h op l r) = suc (nodes l + nodes r)

-- A token that goes on behind an operand: a call, an index, a field, a step, or a literal of a struct.
abbrev pub continues : Token → Bool
continues token =
    is TokenType.lparen token
    || is TokenType.lbrack token
    || is TokenType.plusplus token
    || is TokenType.minusminus token
    || is TokenType.dot token
    || is TokenType.lbrace token

-- A token that ends an operand of a height.
unfoldable pub Stops : ℕ → Token → Type 0
Stops zero token = continues token ≡ false
Stops (suc h) token = (operators h token ≡ false) × Stops h token

abbrev pub is_value : Token → Bool
is_value token =
    is TokenType.int token
    || is TokenType.float token
    || is TokenType.string token
    || is TokenType.char token

-- Sentences of the grammar: the left operand of an operator binds at least as tightly as it, the right
-- operand and the operand of a prefix more tightly, and anything stands in brackets.
unfoldable pub IsSentence : Tree → Type 0
IsSentence (value_at token) = is_value token ≡ true
IsSentence (name_at token) =
    (is TokenType.ident token ≡ true) × (str_eq token.lexeme (codes "Vec") ≡ false)
IsSentence (prefix_at op t) = (is_sign op ≡ true) × (height t ≡ 0) × IsSentence t
IsSentence (group_at opening t closing) =
    (is TokenType.lparen opening ≡ true)
    × (is TokenType.rparen closing ≡ true)
    × (height t ≤ 10)
    × IsSentence t
IsSentence (infix_at h op l r) =
    (operators h op ≡ true)
    × Stops h op
    × (height l ≤ suc h)
    × (height r ≤ h)
    × IsSentence l
    × IsSentence r

-- The current token and those that are left.
pub record Sees (s : Parser) (ts : List Token) : Type 0 where
  pub seen : s.cur ∷ s.left ≡ ts

head_token : Token → List Token → Token
head_token d [] = d
head_token d (t ∷ ts) = t

pub Sees-cur : {s : Parser} {t : Token} {ts : List Token} → Sees s (t ∷ ts) → s.cur ≡ t
unfolding head_token
Sees-cur {s} h = ap (head_token s.cur) h.seen

pub Sees-next :
    {s : Parser} {t u : Token} {ts : List Token} → Sees s (t ∷ u ∷ ts) → Sees (advance s) (u ∷ ts)
unfolding advance
Sees-next {s} h =
    let e : s.left ≡ _ = ap (drop 1) h.seen in
    record { seen = ap (λ l. let v = advance_to l s in v.cur ∷ v.left) e }
