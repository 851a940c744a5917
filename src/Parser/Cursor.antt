-- ===== src/Parser/Cursor.antt =====
-- The parser's state over the tokens, and what tests and takes them (bootstrap/cpp/src/parser/parser.cpp).
-- The tokens that `lexer.next_token()` will give are a list; behind its last, the end of the source, it
-- gives the end again. `prev` is left out, since nothing reads it.
use ycpl.Base.{ℕ, ◌-◌, Bool, ◌&&◌, List, [], ◌∷◌, ◌++◌, ◌==◌, if◌then◌else◌}
use ycpl.Text.{Bytes, codes, str_eq}
use ycpl.Token.{TokenType, Token, enumerator}
use ycpl.Lexer.Cursor.{Report, make_token}

pub record Parser : Type 0 where
  pub cur : Token
  pub left : List Token
  pub errors : List Report
  pub suppress_struct_literal_depth : ℕ

abbrev pub is : TokenType → Token → Bool
is type token = enumerator token.type == enumerator type

-- `cur = lexer.next_token()`
abbrev pub advance_to : List Token → Parser → Parser
advance_to [] s = s
advance_to (token ∷ rest) s = record s { cur = token; left = rest }

-- The constructor, where `next_token` gives the first token.
unfoldable pub new_parser : Token → List Token → Parser
new_parser cur left = record {
  cur = cur;
  left = left;
  errors = [];
  suppress_struct_literal_depth = 0;
}

unfoldable pub advance : Parser → Parser
advance s = advance_to s.left s

abbrev pub check : TokenType → Parser → Bool
check type s = is type s.cur

-- `cur.lexeme == word` of a name.
abbrev pub check_word : Bytes → Parser → Bool
check_word word s = check TokenType.ident s && str_eq s.cur.lexeme word

-- `lexer.peek(k + 1).type == type`
abbrev pub token_is : TokenType → List Token → ℕ → Bool
token_is type [] k = enumerator type == enumerator TokenType.eof_token
token_is type (token ∷ rest) k =
    let later = token_is type rest (k - 1) in if k == 0 then is type token else later

abbrev pub peek_is : TokenType → ℕ → Parser → Bool
peek_is type k s = token_is type s.left k

abbrev pub emit_error : Token → Bytes → Parser → Parser
emit_error at message s = record s {
  errors =
      s.errors ++ record { line = at.start.line; column = at.start.column; message = message } ∷ [];
}

abbrev pub expect : TokenType → Bytes → Parser → Token × Parser
expect type message s =
    if check type s
    then (s.cur, advance s)
    else (make_token type [] s.cur.start s.cur.end, emit_error s.cur message s)

-- The state behind `expect`, where its token is not used.
abbrev pub expected : TokenType → Bytes → Parser → Parser
expected type message s = if check type s then advance s else emit_error s.cur message s

-- Of `>>` the first half is taken, and the second stays.
abbrev pub halved : Parser → Parser
halved s = record s { cur = record s.cur { type = TokenType.gt; lexeme = codes ">" } }

abbrev pub expected_type_gt : Bytes → Parser → Parser
expected_type_gt message s =
    if check TokenType.gt s
    then advance s
    else if check TokenType.shr s
    then halved s
    else emit_error s.cur message s

-- `while (p(cur)) advance();` with the tokens that are left.
unfoldable pub skip_tokens : (Token → Bool) → List Token → Parser → Parser
skip_tokens p [] s = s
skip_tokens p (token ∷ rest) s =
    let more = skip_tokens p rest (advance s) in if p s.cur then more else s

abbrev pub skip_newlines : Parser → Parser
skip_newlines s = skip_tokens (is TokenType.newline) s.left s
