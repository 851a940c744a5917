-- ===== src/Lexer/Scan.antt =====
-- `scan_token`, `next_token`, `peek` and `tokenize_all` (bootstrap/cpp/src/lexer/lexer.cpp).
-- `tokenize_all` runs on fuel; more than the bytes of the source is enough, since each token but the
-- last reads one.
pub mod Operators
pub mod Lexemes
pub mod Printed
pub mod Words
pub mod Sentences
pub mod Whole
pub mod Ahead
use ycpl.Base.{
  ℕ, zero, suc, ◌+◌, Bool, true, false, ◌&&◌, ◌||◌, Option, none, some, List, [], ◌∷◌, ◌++◌, leb,
  ◌==◌, if◌then◌else◌, length, ◌>>=◌,
}
use ycpl.Text.{Bytes, codes}
use ycpl.Token.{TokenType, Token, Position, is_eof}
use ycpl.Lexer.Cursor.{
  Lexer, position, advance, step_back, peek_char, peek_nonspace_char, emit_error, make_token,
  make_token_single, is_at_end, is_digit, is_ident_start,
}
use ycpl.Lexer.Skip.{skip_whitespace_and_comments}
use ycpl.Lexer.Literals.{
  identifier_or_keyword, number_literal, string_literal, char_literal, illegal,
}

-- The tokens of two bytes, by the byte that was read and the next, in the order of the tests.
unfoldable pub follow : ℕ → ℕ → Option TokenType
follow c d =
    if c == b':' && d == b'='
    then some TokenType.assign
    else if c == b'+' && d == b'='
    then some TokenType.plus_assign
    else if c == b'+' && d == b'+'
    then some TokenType.plusplus
    else if c == b'-' && d == b'='
    then some TokenType.minus_assign
    else if c == b'-' && d == b'>'
    then some TokenType.arrow
    else if c == b'-' && d == b'-'
    then some TokenType.minusminus
    else if c == b'*' && d == b'='
    then some TokenType.mul_assign
    else if c == b'/' && d == b'='
    then some TokenType.div_assign
    else if c == b'%' && d == b'='
    then some TokenType.mod_assign
    else if c == b'&' && d == b'&'
    then some TokenType.and
    else if c == b'|' && d == b'|'
    then some TokenType.or
    else if c == b'!' && d == b'='
    then some TokenType.neq
    else if c == b'=' && d == b'='
    then some TokenType.eq
    else if c == b'=' && d == b'>'
    then some TokenType.arrow_r
    else if c == b'<' && d == b'='
    then some TokenType.le
    else if c == b'<' && d == b'<'
    then some TokenType.shl
    else if c == b'>' && d == b'='
    then some TokenType.ge
    else if c == b'>' && d == b'>'
    then some TokenType.shr
    else none

-- `*` and `&` are prefix operators before a name and before these bytes.
abbrev pub prefixes : ℕ → Bool
prefixes next = is_ident_start next || next == b'*' || next == b'&' || next == b'(' || next == b'['

-- The tokens of one byte, by the byte that was read and the first byte behind it that is no blank.
unfoldable pub alone : ℕ → ℕ → Option TokenType
alone c next =
    if c == b'('
    then some TokenType.lparen
    else if c == b')'
    then some TokenType.rparen
    else if c == b'{'
    then some TokenType.lbrace
    else if c == b'}'
    then some TokenType.rbrace
    else if c == b'['
    then some TokenType.lbrack
    else if c == b']'
    then some TokenType.rbrack
    else if c == b','
    then some TokenType.comma
    else if c == b'.'
    then some TokenType.dot
    else if c == b':'
    then some TokenType.colon
    else if c == b';'
    then some TokenType.semicolon
    else if c == b'?'
    then some TokenType.question
    else if c == b'+'
    then some TokenType.plus
    else if c == b'-'
    then some TokenType.minus
    else if c == b'*'
    then some (if prefixes next then TokenType.deref else TokenType.star)
    else if c == b'/'
    then some TokenType.slash
    else if c == b'%'
    then some TokenType.percent
    else if c == b'^'
    then some TokenType.caret
    else if c == b'&'
    then some (if prefixes next then TokenType.address_of else TokenType.bit_and)
    else if c == b'|'
    then some TokenType.bit_or
    else if c == b'!'
    then some TokenType.bang
    else if c == b'~'
    then some TokenType.tilde
    else if c == b'='
    then some TokenType.assign
    else if c == b'<'
    then some TokenType.lt
    else if c == b'>'
    then some TokenType.gt
    else none

-- The cases of the `switch` behind the operators, where `c` was read and `s` stands behind it.
unfoldable pub scan_literal : Position → ℕ → Lexer → Token × Lexer
scan_literal start c s =
    if c == b'\''
    then char_literal start s
    else if c == b'"' || c == b'`'
    then string_literal start c s
    else if is_digit c
    then number_literal start (step_back c s)
    else if is_ident_start c
    then identifier_or_keyword start (step_back c s)
    else illegal start (codes "unexpected character '" ++ c ∷ codes "'") (c ∷ []) s

abbrev pub scan_single : Position → ℕ → Lexer → Option TokenType → Token × Lexer
scan_single start c s (some type) = (make_token_single type (c ∷ []) start, s)
scan_single start c s none = scan_literal start c s

abbrev pub scan_pair : Position → ℕ → Lexer → Option TokenType → Token × Lexer
scan_pair start c s (some type) =
    (make_token type (c ∷ peek_char s 0 ∷ []) start (position (advance s)), advance s)
scan_pair start c s none = scan_single start c s (alone c (peek_nonspace_char s))

unfoldable pub scan_token : Lexer → Token × Lexer
scan_token s =
    let start = position s in
    let c = peek_char s 0 in
    let t = advance s in
    let dots = advance (advance t) in
    if c == b'.' && peek_char t 0 == b'.' && peek_char t 1 == b'.'
    then (make_token TokenType.ellipsis (codes "...") start (position dots), dots)
    else scan_pair start c t (follow c (peek_char t 0))

abbrev pub eof_token : Lexer → Token
eof_token s = make_token TokenType.eof_token [] (position s) (position s)

-- The first of the tokens that the loop over white space pushed, the end, or a token.
unfoldable pub choose_token : Lexer × List Token → Token × Lexer
choose_token (s, token ∷ more) = (token, s)
choose_token (s, []) = if is_at_end s then (eof_token s, s) else scan_token s

unfoldable pub next_token : Lexer → Option (Token × Lexer)
next_token s = skip_whitespace_and_comments s [] true >>= λ r. some (choose_token r)

-- `k` calls of `next_token` on a copy; the token is the last one's. What the copy reports to
-- `error_cb` is left out.
unfoldable pub peek : ℕ → Lexer → Token → Option Token
peek zero copy token = some token
peek (suc k) copy token = next_token copy >>= λ r. peek k (r.1) (r.0)

abbrev pub push_until :
    (Lexer → Option (List Token × Lexer)) → Token × Lexer → Option (List Token × Lexer)
push_until again (token, s) =
    if is_eof token.type then some (token ∷ [], s) else (again s >>= λ r. some (token ∷ r.0, r.1))

unfoldable pub tokenize : ℕ → Lexer → Option (List Token × Lexer)
tokenize zero s = none
tokenize (suc fuel) s = next_token s >>= λ r. push_until (tokenize fuel) r

-- The tokens, and the state with the errors.
abbrev pub tokenize_all : Lexer → Option (List Token × Lexer)
tokenize_all s = tokenize (suc (length s.left)) s
