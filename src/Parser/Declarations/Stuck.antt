-- ===== src/Parser/Declarations/Stuck.antt =====
-- The loop over the variants of an enum at wrong tokens (bootstrap/cpp/src/parser/parser.cpp), which
-- `expect` leaves where they are.
use ycpl.Base.{ℕ, zero, suc, ◌≡◌, refl, false, Option, none, List, arith}
use ycpl.Text.{Bytes}
use ycpl.Token.{TokenType, Token}
use ycpl.Ast.{ℤ}
use ycpl.Parser.Cursor.{Parser, is, skip_newlines, emit_error}
use ycpl.Parser.Types.Spelled.{skip_none}
use ycpl.Parser.Simple.{at_close}
use ycpl.Parser.Declarations.{enum_loop, check_equals}

-- A token that the loop over the variants of an enum does not take: no name, no bracket, and none of the
-- tokens that stand behind a name.
pub record IsWrong (token : Token) : Type 0 where
  pub no_name : is TokenType.ident token ≡ false
  pub no_close : is TokenType.rbrace token ≡ false
  pub no_end : is TokenType.eof_token token ≡ false
  pub no_comma : is TokenType.comma token ≡ false
  pub no_break : is TokenType.newline token ≡ false
  pub no_assign : is TokenType.assign token ≡ false

pub skip_wrong : (s : Parser) → is TokenType.newline s.cur ≡ false → skip_newlines s ≡ s
skip_wrong s h = skip_none (is TokenType.newline) s.left s h

-- At a token that is no name and that cannot stand behind one, the loop over the variants of an enum does
-- not end: it gives no result on any fuel, for any `stoll`.
pub enum_loop-IsWrong :
    (stoll : Bytes → Option ℤ) (n : ℕ) (variants : List (Bytes × Option ℤ)) (next : ℤ) (s : Parser)
    → IsWrong s.cur
    → enum_loop stoll n variants next s ≡ none
unfolding enum_loop
enum_loop-IsWrong stoll zero variants next s w = refl
enum_loop-IsWrong stoll (suc n) variants next s w =
    let open_yet : at_close s ≡ false = ground arith in
    let plain : check_equals s ≡ false = ground arith in
    rw
      (
        w.no_name,
        open_yet,
        plain,
        skip_wrong (emit_error s.cur _ s) w.no_break,
        w.no_comma,
        w.no_break,
        skip_wrong (emit_error s.cur _ s) w.no_break,
      )
      (enum_loop-IsWrong stoll n _ _ (emit_error s.cur _ s) w)
