-- ===== src/Lexer/Literals.antt =====
-- The literals and names of the lexer (bootstrap/cpp/src/lexer/lexer.cpp). The text from `st` on is an
-- argument where the lexeme is cut out of the source.
pub mod Quoted
pub mod Numbers
use ycpl.Base.{
  ℕ, zero, suc, Bool, true, false, not, ◌&&◌, ◌||◌, Option, none, some, List, [], ◌∷◌, ◌++◌, leb,
  ◌==◌, if◌then◌else◌,
}
use ycpl.Text.{Bytes, codes}
use ycpl.Token.{TokenType, Token, Position}
use ycpl.Lexer.Keywords.{keywords, find}
use ycpl.Lexer.Cursor.{
  Lexer, position, advance, peek_char, emit_error, make_token, substr, advance_while, is_digit,
  is_xdigit, is_ident_part, is_letter, is_at_end,
}

-- `make_token(type, src.substr(st, current - st), start, Position{line, column})`
abbrev pub token_from : Bytes → Position → TokenType → Lexer → Token × Lexer
token_from text start type s = (make_token type (substr text s) start (position s), s)

abbrev pub keyword_type : Option TokenType → TokenType
keyword_type none = TokenType.ident
keyword_type (some type) = type

unfoldable pub identifier_or_keyword : Position → Lexer → Token × Lexer
identifier_or_keyword start s =
    let first = advance s in
    let t = advance_while is_ident_part first.left first in
    token_from s.left start (keyword_type (find keywords (substr s.left t))) t

abbrev pub while_digits : Lexer → Lexer
while_digits s = advance_while is_digit s.left s

abbrev pub is_bit : ℕ → Bool
is_bit c = c == b'0' || c == b'1'

abbrev pub is_octal : ℕ → Bool
is_octal c = leb b'0' c && leb c b'7'

-- The literal behind `0x`, behind `0b`, and behind the 0 of an octal literal.
abbrev pub radix_literal : (ℕ → Bool) → Lexer → Lexer
radix_literal digit s = let t = advance (advance s) in advance_while digit t.left t

-- The loop stops at the first byte that is no octal digit; a digit there is an error, and the digits
-- that follow are read.
unfoldable pub octal_literal : Lexer → Lexer
octal_literal s =
    let first = advance s in
    let t = advance_while is_octal first.left first in
    if is_digit (peek_char t 0)
    then emit_error (while_digits t) (codes "invalid digit in octal literal")
    else t

-- The fraction and the exponent, each with whether it is there.
unfoldable pub fraction : Lexer → Bool × Lexer
fraction s =
    if peek_char s 0 == b'.' && is_digit (peek_char s 1)
    then (true, while_digits (advance s))
    else (false, s)

abbrev pub sign : Lexer → Lexer
sign s = if peek_char s 0 == b'+' || peek_char s 0 == b'-' then advance s else s

unfoldable pub exponent : Lexer → Bool × Lexer
exponent s =
    let digits = sign (advance s) in
    if peek_char s 0 == b'e' || peek_char s 0 == b'E'
    then (
      true,
      while_digits (
          if is_digit (peek_char digits 0)
          then digits
          else emit_error digits (codes "malformed exponent in number literal")),
    )
    else (false, s)

unfoldable pub decimal_literal : Position → Lexer → Token × Lexer
decimal_literal start s =
    let whole = while_digits s in
    let f = fraction whole in
    let e = exponent (f.1) in
    token_from s.left start (if f.0 || e.0 then TokenType.float else TokenType.int) (e.1)

unfoldable pub number_literal : Position → Lexer → Token × Lexer
number_literal start s =
    let zero_first = peek_char s 0 == b'0' in
    if zero_first && is_letter b'x' (peek_char s 1)
    then token_from s.left start TokenType.int (radix_literal is_xdigit s)
    else if zero_first && is_letter b'b' (peek_char s 1)
    then token_from s.left start TokenType.int (radix_literal is_bit s)
    else if zero_first && is_digit (peek_char s 1)
    then token_from s.left start TokenType.int (octal_literal s)
    else decimal_literal start s

-- The loop over a string literal, with the text at `current` and what `sb` holds: whether the closing
-- quote was met, `sb`, and the state.
unfoldable pub string_body : Bytes → Bytes → Lexer → Bool × Bytes × Lexer
string_body [] sb s = (false, sb, s)
string_body (c ∷ []) sb s =
    if c == b'\\'
    then (false, sb ++ c ∷ [], emit_error (advance s) (codes "unterminated escape in string"))
    else if c == b'"'
    then (true, sb, advance s)
    else (false, sb ++ c ∷ [], advance s)
string_body (c ∷ d ∷ cs) sb s =
    let escaped = string_body cs (sb ++ c ∷ d ∷ []) (advance (advance s)) in
    let rest = string_body (d ∷ cs) (sb ++ c ∷ []) (advance s) in
    if c == b'\\' then escaped else if c == b'"' then (true, sb, advance s) else rest

-- `make_token(TokenType::ILLEGAL, sb.str(), start, Position{line, column})` after the error.
abbrev pub illegal : Position → Bytes → Bytes → Lexer → Token × Lexer
illegal start message sb s =
    let t = emit_error s message in (make_token TokenType.illegal sb start (position t), t)

abbrev pub end_string : Bytes → Position → Bool × Bytes × Lexer → Token × Lexer
end_string text start (true, sb, s) = token_from text start TokenType.string s
end_string text start (false, sb, s) = illegal start (codes "unterminated string literal") sb s

abbrev pub not_backquote : ℕ → Bool
not_backquote c = not (c == b'`')

-- `s` stands behind the opening quote, and `body` is where the loop over a raw string ends.
unfoldable pub string_literal : Position → ℕ → Lexer → Token × Lexer
string_literal start quote s =
    let text = quote ∷ s.left in
    let body = advance_while not_backquote s.left s in
    if quote == b'`'
    then (if is_at_end body
        then illegal start (codes "unterminated raw string literal") (quote ∷ substr s.left body)
            body
        else token_from text start TokenType.string (advance body))
    else end_string text start (string_body s.left (quote ∷ []) s)

abbrev pub not_quote : ℕ → Bool
not_quote c = not (c == b'\'')

-- The end of a character literal: a missing quote is an error, and the text up to one is read.
unfoldable pub close_char : Lexer → Lexer
close_char s =
    let found =
      if peek_char s 0 == b'\''
      then s
      else let t = emit_error s (codes "unterminated/invalid char literal") in
        advance_while not_quote t.left t in
    if peek_char found 0 == b'\'' then advance found else found

unfoldable pub char_literal : Position → Lexer → Token × Lexer
char_literal start s =
    let text = b'\'' ∷ s.left in
    let escape = advance s in
    if is_at_end s
    then illegal start (codes "unterminated char literal") (codes "'") s
    else if peek_char s 0 == b'\\'
    then (if is_at_end escape
        then illegal start (codes "unterminated char escape") (b'\'' ∷ b'\\' ∷ []) escape
        else token_from text start TokenType.char (close_char (advance escape)))
    else token_from text start TokenType.char (close_char escape)
