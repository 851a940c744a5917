-- ===== src/Tests/FrontTests.antt =====
-- The lexer and the parser on a source with errors.
use ycpl.Base.{ℕ, ◌+◌, ◌≡◌, refl, inl, Option, none, some, List, [], ◌∷◌, length, arith}
use ycpl.Text.{Bytes, codes}
use ycpl.Token.{TokenType, Token}
use ycpl.Ast.{ℤ}
use ycpl.Lexer.Keywords.{find}
use ycpl.Lexer.Cursor.{Lexer, new_lexer, make_token, advance, step_back, advance_while, nonspace}
use ycpl.Lexer.Skip.{block, round, skip}
use ycpl.Lexer.Literals.{
  identifier_or_keyword, octal_literal, fraction, exponent, decimal_literal, number_literal,
  string_body, string_literal, close_char, char_literal,
}
use ycpl.Lexer.Scan.{
  follow, alone, scan_literal, scan_token, choose_token, next_token, tokenize, tokenize_all,
}
use ycpl.Parser.Cursor.{check, new_parser}
use ycpl.Parser.Statements.{parse_stmt}
use ycpl.Parser.Program.{parse_program}
use ycpl.Parser.Total.{Ended, Every, Within, Returns, spent}
use ycpl.Parser.Total.Whole.{parse_stmt-Returns}
use ycpl.Parser.Total.Program.{is_plain}
use ycpl.Front.{parse_program-tokenize_all}

abbrev token_on : TokenType → Bytes → ℕ → ℕ → Token
token_on type lexeme first last =
    make_token type lexeme (record { line = 1; column = first })
      (record { line = 1; column = last })

-- An `if` with a condition that does not close and a block that does not open.
abbrev wrong_source : Bytes
wrong_source = codes "if (+1 }"

abbrev first : Token
first = token_on TokenType.kw_if (codes "if") 1 3

abbrev others : List Token
others =
    token_on TokenType.lparen (codes "(") 4 4
    ∷ token_on TokenType.plus (codes "+") 5 5
    ∷ token_on TokenType.int (codes "1") 6 7
    ∷ token_on TokenType.rbrace (codes "}") 8 8
    ∷ token_on TokenType.eof_token [] 9 9
    ∷ []

abbrev wrong_end : Lexer
wrong_end = record { left = []; line = 1; column = 9; errors = [] }

wrong_run : tokenize_all (new_lexer wrong_source) ≡ some (first ∷ others, wrong_end)
unfolding find advance step_back advance_while nonspace block round skip identifier_or_keyword
    octal_literal fraction exponent decimal_literal number_literal string_body string_literal
    close_char char_literal follow alone scan_literal scan_token choose_token next_token tokenize
wrong_run = refl

wrong-plain : Every is_plain (first ∷ others)
unfolding Every
wrong-plain = (refl, (refl, (refl, (refl, (refl, (refl, tt))))))

abbrev no_value : Bytes → Option ℤ
no_value text = none

parse_program-tokenize_all_example :
    Returns is_plain
      (length wrong_source)
      (parse_program no_value (length wrong_source + 3) (new_parser first others))
parse_program-tokenize_all_example =
    parse_program-tokenize_all no_value wrong_source first others wrong_end wrong_run wrong-plain

wrong-Within : Within is_plain 5 (new_parser first others)
unfolding Ended Every new_parser
wrong-Within = record {
  ended = refl;
  bound = omega arith;
  current = inl refl;
  behind = (refl, (refl, (refl, (refl, (refl, tt)))));
}

parse_stmt-Returns_example :
    Returns is_plain
      (spent 5 (check TokenType.eof_token (new_parser first others)))
      (parse_stmt 8 (new_parser first others))
parse_stmt-Returns_example =
    parse_stmt-Returns 8 5 (new_parser first others) (omega arith) wrong-Within
