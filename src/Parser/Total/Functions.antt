-- ===== src/Parser/Total/Functions.antt =====
-- Declarations of functions, modules and imports are read from any tokens
-- (bootstrap/cpp/src/parser/parser.cpp).
use ycpl.Base.{
  ◌||◌, [], ℕ, zero, suc, ◌+◌, ◌-◌, ◌≤◌, ◌<◌, ◌≡◌, refl, Bool, true, false, ◌&&◌, List, arith,
}
use ycpl.Parser.Cursor.{is, Parser, advance, check, peek_is, emit_error, expect, expected}
use ycpl.Text.{Bytes, codes}
use ycpl.Token.{TokenType, Token}
use ycpl.Ast.{Param}
use ycpl.Parser.Types.{pointer_prefix}
use ycpl.Parser.Primary.{starts_type}
use ycpl.Parser.Statements.{parse_stmt}
use ycpl.Parser.Declarations.{
  dotted, parse_module_decl, import_path, import_alias, parse_import_decl, parse_type_alias_decl,
  check_equals,
}
use ycpl.Parser.Functions.{
  params_of, ret_type_of, consume_ellipsis, is_empty, param_type, before_close, behind_variadic,
  param_loop, extern_name_of, function_body, method_name, parse_function_decl,
}
use ycpl.Parser.Total.{
  Within, Returns, returns, Returns-weaken, Returns-if, Returns-bind, Within-if, Within-if_next,
  emit-Within, advance-Within, left_over, take-Within, other_type, expected-Within, expect-Within,
  expected_take-Within, skip-Within,
}
use ycpl.Parser.Total.Types.{pointer-Within, parse_type-Returns}
use ycpl.Parser.Total.Simple.{accept-Within}
use ycpl.Parser.Total.Statements.{block-Returns}
use ycpl.Parser.Total.Whole.{parse_stmt-Returns}

module _ {ok : Token → Bool} where
  dotted-Returns :
      (message : Bytes) (n w : ℕ) (s : Parser)
      → w < n
      → Within ok w s
      → Returns ok w (dotted message n s)
  unfolding dotted
  dotted-Returns message zero w s l h = absurd (omega arith)
  dotted-Returns message (suc n) w s l h =
      Returns-if (check TokenType.dot s)
        (λ c.
          let o = other_type TokenType.dot s.cur c refl in
          let z = left_over h o in
          Returns-weaken (omega arith) (
            Returns-bind
              (dotted-Returns message n (w - 1) _ (omega arith)
                (expect-Within (take-Within h o) TokenType.ident message))
              λ r k. returns k))
        λ _. returns h

  pub module-Returns :
      (fuel w : ℕ) (s : Parser)
      → w < fuel
      → Within ok w s
      → is TokenType.eof_token s.cur ≡ false
      → Returns ok (w - 1) (parse_module_decl fuel s)
  unfolding parse_module_decl
  module-Returns fuel w s l h o =
      let z = left_over h o in
      Returns-bind
        (dotted-Returns _ fuel (w - 1) _ (omega arith)
          (expect-Within (take-Within h o) TokenType.ident _))
        λ r k. returns (accept-Within TokenType.newline k)

  alias-Within : (w : ℕ) (s : Parser) → Within ok w s → Within ok w ((import_alias s).1)
  alias-Within w s h =
      Within-if_next (check TokenType.kw_as s) _ _
        (expect-Within (advance-Within h) TokenType.ident _) h

  pub import-Returns :
      (fuel w : ℕ) (s : Parser)
      → w < fuel
      → Within ok w s
      → check TokenType.kw_import s ≡ true
      → Returns ok (w - 1) (parse_import_decl fuel s)
  unfolding parse_import_decl import_path
  import-Returns fuel w s l h b =
      let o = other_type TokenType.kw_import s.cur b refl in
      let z = left_over h o in
      let t = expected TokenType.kw_import (codes "expected 'import'") s in
      let g = expected_take-Within h TokenType.kw_import (codes "expected 'import'") b o in
      Returns-bind
        (Returns-if (check TokenType.string t) (λ _. returns (advance-Within g))
          λ _.
            Returns-bind
              (dotted-Returns _ fuel (w - 1) _ (omega arith) (expect-Within g TokenType.ident _))
              λ r k. returns k)
        λ r k. returns (accept-Within TokenType.newline (alias-Within (w - 1) (r.1) k))

  pub alias_decl-Returns :
      (is_pub : Bool) (fuel w : ℕ) (s : Parser)
      → w < fuel
      → Within ok w s
      → check TokenType.kw_type s ≡ true
      → Returns ok (w - 1) (parse_type_alias_decl is_pub fuel s)
  unfolding parse_type_alias_decl
  alias_decl-Returns is_pub fuel w s l h b =
      let o = other_type TokenType.kw_type s.cur b refl in
      let z = left_over h o in
      let t = expected TokenType.kw_type (codes "expected 'type'") s in
      let name = expect TokenType.ident (codes "expected type alias name") t in
      let g =
        expect-Within (expected_take-Within h TokenType.kw_type (codes "expected 'type'") b o)
          TokenType.ident (codes "expected type alias name") in
      Returns-bind
        (parse_type-Returns fuel (w - 1) _ (omega arith)
          (Within-if (check_equals (name.1)) (λ _. advance-Within g) λ _. g))
        λ t k. returns (accept-Within TokenType.newline k)

  ellipsis-Within : (w : ℕ) (s : Parser) → Within ok w s → Within ok w ((consume_ellipsis s).1)
  ellipsis-Within w s h = Within-if_next (check TokenType.ellipsis s) _ _ (advance-Within h) (
      Within-if_next
        (check TokenType.dot s && (peek_is TokenType.dot 0 s && peek_is TokenType.dot 1 s)) _ _
        (advance-Within (advance-Within (advance-Within h))) h)

  param_type-Returns :
      (fuel : ℕ) (prefix : Bytes) (variadic : Bool) (w : ℕ) (s : Parser)
      → w < fuel
      → Within ok w s
      → Returns ok w (param_type fuel prefix variadic s)
  unfolding param_type
  param_type-Returns fuel prefix variadic w s l h =
      Returns-if (starts_type s) (λ _. parse_type-Returns fuel w s l h)
        λ _.
          Returns-if variadic (λ _. returns h)
            λ _.
              Returns-if (is_empty prefix)
                (λ _. returns (
                  emit-Within s.cur
                    (codes "expected parameter type after name (use: 'name type', e.g. 'x int')")
                    h))
                λ _. returns h

  variadic-Within : (w : ℕ) (s : Parser) → Within ok w s → Within ok w (behind_variadic s)
  variadic-Within w s h =
      let t = advance s in
      let u = emit_error t.cur (codes "variadic parameter must be the last parameter") t in
      Within-if (check TokenType.comma s)
        (λ _. skip-Within before_close u.left u (
          emit-Within t.cur (codes "variadic parameter must be the last parameter")
            (advance-Within h)))
        λ _. h

  param_loop-Returns :
      (fuel n : ℕ) (params : List Param) (w : ℕ) (s : Parser)
      → w < n
      → w < fuel
      → Within ok w s
      → Returns ok w (param_loop fuel n params s)
  unfolding param_loop
  param_loop-Returns fuel zero params w s k l h = absurd (omega arith)
  param_loop-Returns fuel (suc n) params w s k l h =
      let prefix = pointer_prefix s.left [] s in
      let name = expect TokenType.ident (codes "expected parameter name") (prefix.1) in
      let dots = consume_ellipsis (name.1) in
      Returns-bind
        (param_type-Returns fuel (prefix.0) (dots.0) w (dots.1) l (
          ellipsis-Within w (name.1) (
            expect-Within (pointer-Within s.left [] s h) TokenType.ident
              (codes "expected parameter name"))))
        λ t g.
          Returns-if (dots.0) (λ _. returns (variadic-Within w (t.1) g))
            λ _.
              Returns-if (check TokenType.comma (t.1))
                (λ c.
                  let o = other_type TokenType.comma t.1.cur c refl in
                  let z = left_over g o in
                  Returns-weaken (omega arith) (
                    param_loop-Returns fuel n _ (w - 1) _ (omega arith) (omega arith)
                      (take-Within g o)))
                λ _. returns g

  params-Returns :
      (fuel w : ℕ) (s : Parser) → w < fuel → Within ok w s → Returns ok w (params_of fuel s)
  params-Returns fuel w s l h =
      Returns-if (check TokenType.rparen s) (λ _. returns h)
        λ _. param_loop-Returns fuel fuel [] w s l l h

  ret_type-Returns :
      (fuel w : ℕ) (s : Parser) → w < fuel → Within ok w s → Returns ok w (ret_type_of fuel s)
  ret_type-Returns fuel w s l h =
      Returns-if (starts_type s)
        (λ _. Returns-bind (parse_type-Returns fuel w s l h) λ t k. returns k) λ _. returns h

  body-Returns :
      (declared : Bool) (fuel w : ℕ) (s : Parser)
      → w + 3 ≤ fuel
      → Within ok w s
      → Returns ok w (function_body declared fuel s)
  body-Returns declared fuel w s l h =
      Returns-if (check TokenType.lbrace s)
        (λ _.
          Returns-bind (block-Returns (parse_stmt fuel) fuel (parse_stmt-Returns fuel) w s l h)
            λ b k. returns k)
        λ _.
          Returns-if declared (λ _. returns h)
            λ _. returns (emit-Within s.cur (codes "expected function body") h)

  method-Within :
      (first : Bytes) (w : ℕ) (s : Parser) → Within ok w s → Within ok w ((method_name first s).1)
  method-Within first w s h =
      Within-if_next (check TokenType.dot s) _ _
        (expect-Within (advance-Within h) TokenType.ident _) h

  extern-Within : (w : ℕ) (s : Parser) → Within ok w s → Within ok w ((extern_name_of s).1)
  extern-Within w s h =
      Within-if_next (check TokenType.kw_as s) _ _
        (expect-Within (advance-Within h) TokenType.string _) h

  pub function-Returns :
      (is_pub is_extern is_intrinsic : Bool) (fuel w : ℕ) (s : Parser)
      → w + 2 ≤ fuel
      → Within ok w s
      → check TokenType.kw_fn s ≡ true
      → Returns ok (w - 1) (parse_function_decl is_pub is_extern is_intrinsic fuel s)
  unfolding parse_function_decl
  function-Returns is_pub is_extern is_intrinsic fuel w s l h b =
      let o = other_type TokenType.kw_fn s.cur b refl in
      let z = left_over h o in
      let first =
        expect TokenType.ident (codes "expected function or method name")
          (expected TokenType.kw_fn (codes "expected 'fn'") s) in
      let g = method-Within first.0.lexeme (w - 1) (first.1) (
        expect-Within (expected_take-Within h TokenType.kw_fn (codes "expected 'fn'") b o)
          TokenType.ident (codes "expected function or method name")) in
      Returns-bind
        (params-Returns fuel (w - 1) _ (omega arith) (expected-Within g TokenType.lparen _))
        λ ps k.
          Returns-bind
            (ret_type-Returns fuel (w - 1) _ (omega arith) (expected-Within k TokenType.rparen _))
            λ r j.
              Returns-bind
                (body-Returns (is_extern || is_intrinsic) fuel (w - 1) _ (omega arith)
                  (extern-Within (w - 1) (r.1) j))
                λ b i. returns i
