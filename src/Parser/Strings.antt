-- ===== src/Parser/Strings.antt =====
-- The bytes of a string literal, and the paths and texts that the parser compares
-- (bootstrap/cpp/src/parser/parser.cpp).
use ycpl.Base.{
  ℕ, ◌+◌, ◌-◌, ◌*◌, ◌/◌, ◌%◌, Bool, ◌&&◌, [], ◌∷◌, ◌++◌, ltb, leb, ◌==◌, if◌then◌else◌, length,
  get_or, take, drop,
}
use ycpl.Text.{Bytes, str_eq}
use ycpl.Token.{TokenType}
use ycpl.Ast.{Expr, ident, member_expr, literal, Exprs, no_exprs, expr_then}
use ycpl.Lexer.Cursor.{is_digit, is_xdigit}

abbrev pub hex_digit : ℕ → ℕ
hex_digit c =
    if is_digit c
    then c - b'0'
    else if leb b'a' c && leb c b'f'
    then 10 + (c - b'a')
    else 10 + (c - b'A')

abbrev pub unescaped : ℕ → ℕ
unescaped c = if c == b'n' then 10 else if c == b'r' then 13 else if c == b't' then 9 else c

-- The loop between the quotes. Behind `\x` at most two digits are read, and none is NUL. A backslash
-- at the very end stands for itself.
unfoldable pub decode : Bytes → Bytes
decode [] = []
decode (c ∷ []) = c ∷ []
decode (c ∷ d ∷ []) =
    let rest = decode (d ∷ []) in
    if c == b'\\' then (if d == b'x' then 0 ∷ [] else unescaped d ∷ []) else c ∷ rest
decode (c ∷ d ∷ a ∷ []) =
    let rest = decode (d ∷ a ∷ []) in
    let after_escape = decode (a ∷ []) in
    if c == b'\\'
    then (if d == b'x'
        then (if is_xdigit a then hex_digit a ∷ [] else 0 ∷ after_escape)
        else unescaped d ∷ after_escape)
    else c ∷ rest
decode (c ∷ d ∷ a ∷ b ∷ cs) =
    let rest = decode (d ∷ a ∷ b ∷ cs) in
    let after_escape = decode (a ∷ b ∷ cs) in
    let after_one = decode (b ∷ cs) in
    let after_two = decode cs in
    if c == b'\\'
    then (if d == b'x'
        then (if is_xdigit a
            then (if is_xdigit b
                then (16 * hex_digit a + hex_digit b) ∷ after_two
                else hex_digit a ∷ after_one)
            else 0 ∷ after_escape)
        else unescaped d ∷ after_escape)
    else c ∷ rest

-- `lexeme.substr(1, lexeme.size() - 2)`
abbrev pub between_quotes : Bytes → Bytes
between_quotes lexeme = take (length lexeme - 2) (drop 1 lexeme)

abbrev pub decode_string_literal_content : Bytes → Bytes
decode_string_literal_content lexeme =
    if ltb (length lexeme) 2
    then []
    else if get_or lexeme 0 0 == b'`'
    then between_quotes lexeme
    else decode (between_quotes lexeme)

-- `std::to_string` of a byte.
abbrev pub digits_of : ℕ → Bytes
digits_of n =
    if ltb n 10
    then (48 + n) ∷ []
    else if ltb n 100
    then (48 + n / 10) ∷ (48 + n % 10) ∷ []
    else (48 + n / 100) ∷ (48 + n / 10 % 10) ∷ (48 + n % 10) ∷ []

-- The literals of the constructor of `ByteArrayLiteral` from bytes.
pub byte_literals : Bytes → Exprs
byte_literals [] = no_exprs
byte_literals (c ∷ cs) = expr_then (literal (digits_of c) TokenType.int) (byte_literals cs)

abbrev pub joined_path : Bytes → Bytes → Bytes
joined_path base member = if length base == 0 then member else base ++ b'.' ∷ member

unfoldable pub callee_path_for_parser : Expr → Bytes
callee_path_for_parser (ident name) = name
callee_path_for_parser (member_expr object member) =
    joined_path (callee_path_for_parser object) member
callee_path_for_parser other = []

abbrev pub ends_with_for_parser : Bytes → Bytes → Bool
ends_with_for_parser value suffix =
    leb (length suffix) (length value) && str_eq (drop (length value - length suffix) value) suffix
