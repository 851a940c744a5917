-- ===== src/Front.antt =====
-- The lexer and the parser together (bootstrap/cpp/src/lexer/lexer.cpp, bootstrap/cpp/src/parser/parser.cpp).
use ycpl.Base.{
  none, drop, ℕ, ◌+◌, ◌≤◌, ◌≡◌, refl, sym, ap, ◌∙◌, ◌≢◌, inl, Option, some, List, [], ◌∷◌, ◌++◌,
  length, arith, length-append,
}
use mathlib.Core.Path.{subst}
use ycpl.Text.{Bytes, codes}
use ycpl.Token.{Token, Position}
use ycpl.Ast.{ℤ}
use ycpl.Lexer.Cursor.{Lexer, new_lexer}
use ycpl.Lexer.Scan.{tokenize_all}
use ycpl.Lexer.Scan.Lexemes.{Covers, finish, line_end, word, tokenize_all-Covers}
use ycpl.Parser.Cursor.{new_parser}
use ycpl.Parser.Program.{parse_program}
use ycpl.Parser.Total.{Ended, Every, Returns}
use ycpl.Parser.Total.Program.{is_plain, parse_program-Returns}

-- Tokens with the end behind them, no more than some number.
record Ending (n : ℕ) (tokens : List Token) : Type 0 where
  cur : Token
  left : List Token
  parts : tokens ≡ cur ∷ left
  ended : Ended cur left
  few : length left ≤ n

Ending-cons :
    (n m : ℕ) (token : Token) (tokens : List Token)
    → n + 1 ≤ m
    → Ending n tokens
    → Ending m (token ∷ tokens)
unfolding Ended
Ending-cons n m token tokens l e = record {
  cur = token;
  left = e.cur ∷ e.left;
  parts = ap (λ ts. token ∷ ts) e.parts;
  ended = e.ended;
  few = omega (arith, l, e.few);
}

length_positive : (w : Bytes) → w ≢ [] → 1 ≤ length w
length_positive [] h = absurd (h refl)
length_positive (c ∷ w) h = omega arith

Covers-Ending :
    {src : Bytes} {p : Position} {tokens : List Token}
    → Covers src p tokens
    → Ending (length src) tokens
unfolding Ended
Covers-Ending (finish g p gap) = record {
  cur = _;
  left = [];
  parts = refl;
  ended = refl;
  few = omega arith;
}
Covers-Ending (line_end src g h rest p token tokens e gap lines t covers) =
    Ending-cons (length rest) (length src) token tokens
      (omega (
        arith,
        ap length e,
        length-append (g ++ codes "\n" ++ h) rest,
        length-append (g ++ codes "\n") h,
        length-append g (codes "\n"),
      ))
      (Covers-Ending covers)
Covers-Ending (word src g rest p token tokens e gap new some_byte kind start covers) =
    Ending-cons (length rest) (length src) token tokens
      (omega (
        arith,
        ap length e,
        length-append (g ++ token.lexeme) rest,
        length-append g token.lexeme,
        length_positive token.lexeme some_byte,
      ))
      (Covers-Ending covers)

head_or : Token → List Token → Token
head_or d [] = d
head_or d (t ∷ ts) = t

-- The parts of a list are those that it is written with.
Ended-cons :
    (n : ℕ) (cur : Token) (left : List Token)
    → Ending n (cur ∷ left)
    → Ended cur left × (length left ≤ n)
unfolding head_or
Ended-cons n cur left e =
    let c : cur ≡ e.cur = ap (head_or cur) e.parts in
    let l : left ≡ e.left = ap (drop 1) e.parts in
    (
      subst (λ t. Ended t left) (sym c) (subst (λ ts. Ended e.cur ts) (sym l) e.ended),
      subst (λ ts. length ts ≤ n) (sym l) e.few,
    )

tokens_of : Option (List Token × Lexer) → List Token
tokens_of none = []
tokens_of (some r) = r.0

tokenize_all-Ending :
    (src : Bytes) (tokens : List Token) (t : Lexer)
    → tokenize_all (new_lexer src) ≡ some (tokens, t)
    → Ending (length src) tokens
unfolding tokens_of
tokenize_all-Ending src tokens t e =
    let (tokens', t', e', covers, _) = tokenize_all-Covers src in
    subst (Ending (length src)) (ap tokens_of (sym e' ∙ e)) (Covers-Ending covers)

-- The parser gives a program for the tokens of every source in which no struct and no enum is declared,
-- whatever is wrong in it, on three more fuel than the source has bytes.
pub parse_program-tokenize_all :
    (stoll : Bytes → Option ℤ) (src : Bytes) (cur : Token) (left : List Token) (t : Lexer)
    → tokenize_all (new_lexer src) ≡ some (cur ∷ left, t)
    → Every is_plain (cur ∷ left)
    → Returns is_plain (length src) (parse_program stoll (length src + 3) (new_parser cur left))
unfolding new_parser Every
parse_program-tokenize_all stoll src cur left t e plain =
    let (ended, few) =
      Ended-cons (length src) cur left (tokenize_all-Ending src (cur ∷ left) t e) in
    parse_program-Returns stoll (length src + 3) (length src) (new_parser cur left) (omega arith)
      record { ended = ended; bound = few; current = inl (plain.0); behind = plain.1 }
