-- ===== src/Lexer/Cursor.antt =====
-- The lexer's state and the functions that read and advance it (bootstrap/cpp/src/lexer/lexer.cpp).
-- `src` and `current` are the text from `current` on; a read past the end gives NUL.
pub mod Moves
pub mod Reached
use Prim.Native.Nat.{bit_or}
use ycpl.Base.{
  ℕ, ◌+◌, ◌-◌, Bool, true, false, ◌&&◌, ◌||◌, List, [], ◌∷◌, ◌++◌, ltb, leb, ◌==◌, if◌then◌else◌,
  length, get_or, take,
}
use ycpl.Text.{Bytes}
use ycpl.Token.{TokenType, Token, Position}

-- A call of `error_cb`.
pub record Report : Type 0 where
  pub line : ℕ
  pub column : ℕ
  pub message : Bytes

-- `left` is `src.substr(current)`.
pub record Lexer : Type 0 where
  pub left : Bytes
  pub line : ℕ
  pub column : ℕ
  pub errors : List Report

abbrev pub new_lexer : Bytes → Lexer
new_lexer src = record { left = src; line = 1; column = 1; errors = [] }

abbrev pub position : Lexer → Position
position s = record { line = s.line; column = s.column }

abbrev pub is_at_end : Lexer → Bool
is_at_end s = length s.left == 0

-- `advance` on the text at `current`. The byte that it returns is `peek_char s 0`.
abbrev pub advance_on : Bytes → Lexer → Lexer
advance_on [] s = s
advance_on (c ∷ rest) s = record s {
  left = rest;
  line = if c == b'\n' then s.line + 1 else s.line;
  column = if c == b'\n' then 1 else s.column + 1;
}

unfoldable pub advance : Lexer → Lexer
advance s = advance_on s.left s

-- `--current; if (column > 1) --column;`, where `c` is the byte stepped back over.
unfoldable pub step_back : ℕ → Lexer → Lexer
step_back c s = record s {
  left = c ∷ s.left;
  column = if ltb 1 s.column then s.column - 1 else s.column;
}

abbrev pub peek_char : Lexer → ℕ → ℕ
peek_char s ahead = get_or s.left ahead 0

abbrev is_space : ℕ → Bool
is_space c = c == b' ' || c == b'\t' || c == b'\r' || c == b'\n'

-- The first byte that is no blank, `peek_nonspace_char()` from the text at `current`.
unfoldable pub nonspace : Bytes → ℕ
nonspace [] = 0
nonspace (c ∷ rest) = if is_space c then nonspace rest else c

abbrev pub peek_nonspace_char : Lexer → ℕ
peek_nonspace_char s = nonspace s.left

abbrev pub emit_error : Lexer → Bytes → Lexer
emit_error s message = record s {
  errors = s.errors ++ record { line = s.line; column = s.column; message = message } ∷ [];
}

abbrev pub make_token : TokenType → Bytes → Position → Position → Token
make_token type lexeme start end = record { type = type; lexeme = lexeme; start = start; end = end }

abbrev pub make_token_single : TokenType → Bytes → Position → Token
make_token_single type lexeme start =
    make_token type lexeme start
      (record { line = start.line; column = start.column + length lexeme - 1 })

-- `src.substr(st, current - st)`, where `text` is the text from `st` on.
abbrev pub substr : Bytes → Lexer → Bytes
substr text s = take (length text - length s.left) text

-- `while (p(peek_char())) advance();` with `cs` the text at `current`.
unfoldable pub advance_while : (ℕ → Bool) → Bytes → Lexer → Lexer
advance_while p [] s = s
advance_while p (c ∷ cs) s = let rest = advance_while p cs (advance s) in if p c then rest else s

-- `isdigit`, `isxdigit`, `isalpha` and `isalnum` of the C locale.
abbrev pub is_digit : ℕ → Bool
is_digit c = leb b'0' c && leb c b'9'

abbrev pub is_xdigit : ℕ → Bool
is_xdigit c = is_digit c || (leb b'a' c && leb c b'f') || (leb b'A' c && leb c b'F')

abbrev pub is_alpha : ℕ → Bool
is_alpha c = (leb b'a' c && leb c b'z') || (leb b'A' c && leb c b'Z')

abbrev pub is_ident_start : ℕ → Bool
is_ident_start c = is_alpha c || c == b'_'

abbrev pub is_ident_part : ℕ → Bool
is_ident_part c = is_alpha c || is_digit c || c == b'_'

-- `(c | 0x20) == letter`
abbrev pub is_letter : ℕ → ℕ → Bool
is_letter letter c = bit_or c 32 == letter
