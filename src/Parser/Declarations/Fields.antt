-- ===== src/Parser/Declarations/Fields.antt =====
-- The loop over the fields of a struct at wrong tokens (bootstrap/cpp/src/parser/parser.cpp).
use ycpl.Base.{ℕ, zero, suc, ◌≡◌, refl, false, none, some, List, [], ◌∷◌, arith}
use ycpl.Text.{Bytes, codes}
use ycpl.Token.{TokenType, Token}
use ycpl.Ast.{named_type, StructField, typed_field}
use ycpl.Parser.Cursor.{Parser, is, emit_error}
use ycpl.Parser.Types.{parse_type, parse_base, pointer_prefix, wrap_pointers, is_owned}
use ycpl.Parser.Types.Spelled.{skip_none}
use ycpl.Parser.Simple.{at_close}
use ycpl.Parser.Declarations.{struct_loop, parse_field}
use ycpl.Parser.Declarations.Stuck.{skip_wrong}

-- A token that is no name, starts no type, and ends no struct.
pub record StartsNone (token : Token) : Type 0 where
  pub no_name : is TokenType.ident token ≡ false
  pub no_byte : is TokenType.kw_byte token ≡ false
  pub no_star : is TokenType.deref token ≡ false
  pub no_amp : is TokenType.address_of token ≡ false
  pub no_bracket : is TokenType.lbrack token ≡ false
  pub no_struct : is TokenType.kw_struct token ≡ false
  pub no_break : is TokenType.newline token ≡ false
  pub no_close : is TokenType.rbrace token ≡ false
  pub no_end : is TokenType.eof_token token ≡ false

pointer_none : (ls : List Token) (s : Parser) → StartsNone s.cur → pointer_prefix ls [] s ≡ ([], s)
unfolding pointer_prefix
pointer_none [] s w = refl
pointer_none (t ∷ ls) s w = rw (w.no_star, w.no_amp) refl

abbrev named_wrongly : Parser → Parser
named_wrongly s = emit_error s.cur (codes "expected type name") s

-- An error is reported for the type, and the token stays.
type_none :
    (fuel : ℕ) (s : Parser)
    → StartsNone s.cur
    → parse_type (suc fuel) s ≡ some (named_type [], named_wrongly s)
unfolding parse_type parse_base wrap_pointers
type_none fuel s w =
    let o : is_owned s.cur ≡ false = ground arith in
    rw (skip_none is_owned s.left s o, pointer_none s.left s w, w.no_bracket, w.no_name, w.no_byte)
      refl

field_none :
    (fuel : ℕ) (name : Bytes) (s : Parser)
    → StartsNone s.cur
    → parse_field (suc fuel) name s ≡ some (typed_field name (named_type []), named_wrongly s)
unfolding parse_field
field_none fuel name s w = rw (w.no_struct, type_none fuel s w) refl

-- At a token that is no name, starts no type and ends no struct, such as `pub`, the loop over the fields
-- of a struct does not end: it gives no result on any fuel.
pub struct_loop-StartsNone :
    (fuel n : ℕ) (fields : List StructField) (s : Parser)
    → StartsNone s.cur
    → struct_loop fuel n fields s ≡ none
unfolding struct_loop parse_field parse_type
struct_loop-StartsNone fuel zero fields s w = refl
struct_loop-StartsNone zero (suc n) fields s w =
    let open_yet : at_close s ≡ false = ground arith in rw (w.no_name, open_yet, w.no_struct) refl
struct_loop-StartsNone (suc fuel) (suc n) fields s w =
    let open_yet : at_close s ≡ false = ground arith in
    let t = emit_error s.cur (codes "expected field name in struct") s in
    rw
      (
        w.no_name,
        open_yet,
        field_none fuel [] t w,
        w.no_break,
        skip_wrong (named_wrongly t) w.no_break,
      )
      (struct_loop-StartsNone (suc fuel) n _ (named_wrongly t) w)
