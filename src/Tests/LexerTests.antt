-- ===== src/Tests/LexerTests.antt =====
-- Runs of the lexer, and its theorems at concrete inputs.
use ycpl.Base.{ℕ, suc, ◌≡◌, refl, true, some, List, [], ◌∷◌, length, arith}
use ycpl.Text.{Bytes, codes}
use ycpl.Token.{TokenType, Token}
use ycpl.Lexer.Keywords.{find}
use ycpl.Lexer.Cursor.{Lexer, new_lexer, make_token, advance, step_back, advance_while, nonspace}
use ycpl.Lexer.Cursor.Reached.{Scans}
use ycpl.Lexer.Skip.{block, round, skip}
use ycpl.Lexer.Skip.Nested.{done, nested, back, plain, round_nested}
use ycpl.Lexer.Literals.{
  identifier_or_keyword, octal_literal, fraction, exponent, decimal_literal, number_literal,
  string_body, string_literal, close_char, char_literal,
}
use ycpl.Lexer.Scan.{
  follow, alone, scan_literal, scan_token, choose_token, next_token, peek, tokenize, tokenize_all,
}
use ycpl.Lexer.Scan.Operators.{scan_token-Scanned}
use ycpl.Lexer.Scan.Lexemes.{Covers, tokenize_all-Covers}
use ycpl.Lexer.Scan.Words.{IsWord, name, number, mark}
use ycpl.Lexer.Scan.Whole.{AreWords}
use ycpl.Lexer.Scan.Ahead.{peek-tokenize}

abbrev token_on : TokenType → Bytes → ℕ → ℕ → Token
token_on type lexeme first last =
    make_token type lexeme (record { line = 1; column = first })
      (record { line = 1; column = last })

abbrev sum_source : Bytes
sum_source = codes "a+1 // b"

abbrev sum_tokens : List Token
sum_tokens =
    token_on TokenType.ident (codes "a") 1 2
    ∷ token_on TokenType.plus (codes "+") 2 2
    ∷ token_on TokenType.int (codes "1") 3 4
    ∷ token_on TokenType.eof_token [] 9 9
    ∷ []

abbrev sum_end : Lexer
sum_end = record { left = []; line = 1; column = 9; errors = [] }

sum_run : tokenize_all (new_lexer sum_source) ≡ some (sum_tokens, sum_end)
unfolding find advance step_back advance_while nonspace block round skip identifier_or_keyword
    octal_literal fraction exponent decimal_literal number_literal string_body string_literal
    close_char char_literal follow alone scan_literal scan_token choose_token next_token tokenize
sum_run = refl

peek-tokenize_example :
    peek 3 (new_lexer sum_source) (token_on TokenType.illegal [] 1 1)
    ≡ some (token_on TokenType.int (codes "1") 3 4)
peek-tokenize_example =
    peek-tokenize (suc (length sum_source)) (new_lexer sum_source) sum_end sum_tokens 2
      (token_on TokenType.illegal [] 1 1) sum_run (omega arith)

-- An octal literal with a wrong digit, a string that does not end, and a byte that starts no token.
bad_run :
    tokenize_all (new_lexer (codes "09@"))
    ≡ some (
      token_on TokenType.int (codes "09") 1 3
          ∷ token_on TokenType.illegal (codes "@") 3 4
          ∷ token_on TokenType.eof_token [] 4 4
          ∷ [],
      record {
        left = [];
        line = 1;
        column = 4;
        errors =
            record { line = 1; column = 3; message = codes "invalid digit in octal literal" }
            ∷ record { line = 1; column = 4; message = codes "unexpected character '@'" }
            ∷ [];
      },
    )
unfolding find advance step_back advance_while nonspace block round skip identifier_or_keyword
    octal_literal fraction exponent decimal_literal number_literal string_body string_literal
    close_char char_literal follow alone scan_literal scan_token choose_token next_token tokenize
bad_run = refl

abbrev comment_source : Bytes
comment_source = codes "fn f() { /* a /* b */ */ x := 1 }"

tokenize_all-Covers_example :
    (tokens : List Token) × (t : Lexer) × (tokenize_all (new_lexer comment_source)
      ≡ some (tokens, t))
    × Covers comment_source (record { line = 1; column = 1 }) tokens
    × (t.left ≡ [])
tokenize_all-Covers_example = tokenize_all-Covers comment_source

abbrev three : Lexer
three = record (new_lexer (codes "...x")) { column = 4 }

scan_token-Scanned_example : Scans three (scan_token three)
scan_token-Scanned_example = scan_token-Scanned b'.' (codes "..x") three refl (omega arith) refl

mark_plus : IsWord (codes "+")
unfolding alone
mark_plus = mark b'+' (λ next. (TokenType.plus, refl))

abbrev words_source : List Bytes
words_source = codes "fn" ∷ codes "go" ∷ codes "42" ∷ codes "+" ∷ []

abbrev words_words : AreWords words_source
words_words = (
  name b'f' (codes "n") refl (refl, tt),
  (
    name b'g' (codes "o") refl (refl, tt),
    (number b'4' (codes "2") refl (λ e. omega arith) (refl, tt), (mark_plus, tt)),
  ),
)

abbrev nested_source : Lexer
nested_source = new_lexer (codes "/*a/**/*/b")

round_nested_example :
    (t : Lexer) × (round true nested_source ≡ some (t, [])) × (t.left ≡ codes "b") × (t.errors ≡ [])
round_nested_example =
    round_nested (codes "a/**/*/") (codes "b") nested_source true
      (plain 0 b'a' b'/' _ refl refl
        (nested 0 b'/' b'*' _ refl (back 1 b'*' b'/' _ refl (back 0 b'*' b'/' _ refl done))))
      refl
