-- ===== src/Parser/Total/Program.antt =====
-- `parse_program` ends where no struct and no enum is declared (bootstrap/cpp/src/parser/parser.cpp).
use ycpl.Base.{
  [], ℕ, zero, suc, ◌+◌, ◌-◌, ◌≤◌, ◌<◌, ◌≡◌, ◌⊎◌, inl, inr, Bool, true, false, not, ◌||◌, Option,
  none, some, List, arith, Bool-cases, if◌then◌else◌, ◌>>=◌,
}
use ycpl.Text.{Bytes}
use ycpl.Token.{TokenType, Token}
use ycpl.Ast.{ℤ, Decl, Stmt}
use ycpl.Parser.Cursor.{Parser, advance, check, is}
use ycpl.Parser.Statements.{parse_stmt}
use ycpl.Parser.Declarations.{parse_struct_decl, parse_enum_decl, parse_type_alias_decl}
use ycpl.Parser.Functions.{parse_function_decl}
use ycpl.Parser.Program.{
  stmt_found, function_or_stmt, parse_decl, found, top_decl, program_loop, parse_program,
}
use ycpl.Parser.Total.{
  Within, Returns, returns, Returns-weaken, Returns-if, Returns-bind, left_over, take-Within,
  newlines-Within, spent, spent_least, spent_open, spent_most,
}
use ycpl.Parser.Total.Whole.{parse_stmt-Returns}
use ycpl.Parser.Total.Functions.{
  module-Returns, import-Returns, alias_decl-Returns, function-Returns,
}

-- A token that starts no struct and no enum.
abbrev pub is_plain : Token → Bool
is_plain token = not (is TokenType.kw_struct token || is TokenType.kw_enum token)

no_struct :
    (t : Token)
    → (is_plain t ≡ true) ⊎ (is TokenType.gt t ≡ true)
    → is TokenType.kw_struct t ≡ false
no_struct t (inl h) = ground arith
no_struct t (inr h) = grind arith

no_enum :
    (t : Token) → (is_plain t ≡ true) ⊎ (is TokenType.gt t ≡ true) → is TokenType.kw_enum t ≡ false
no_enum t (inl h) = ground arith
no_enum t (inr h) = grind arith

module _ {ok : Token → Bool} where
  stmt_found-Returns :
      {w : ℕ} (r : Option Stmt × Parser) → Within ok w (r.1) → Returns ok w (stmt_found r)
  stmt_found-Returns (none, s) h = returns h
  stmt_found-Returns (some t, s) h = returns h

  fn_or_stmt-Returns :
      (is_pub is_extern is_intrinsic : Bool) (fuel w : ℕ) (t : Parser)
      → w + 3 ≤ fuel
      → Within ok w t
      → Returns ok (spent w (check TokenType.eof_token t)) (
          if check TokenType.kw_fn t
          then parse_function_decl is_pub is_extern is_intrinsic fuel t >>= found
          else parse_stmt fuel t >>= stmt_found)
  fn_or_stmt-Returns is_pub is_extern is_intrinsic fuel w t l h =
      Returns-if (check TokenType.kw_fn t)
        (λ b. Returns-weaken (spent_least w (check TokenType.eof_token t)) (
          Returns-bind (function-Returns is_pub is_extern is_intrinsic fuel w t (omega arith) h b)
            λ r k. returns k))
        λ _. Returns-bind (parse_stmt-Returns fuel w t l h) stmt_found-Returns

  function_or_stmt-Returns :
      (is_pub : Bool) (fuel w : ℕ) (s : Parser)
      → w + 3 ≤ fuel
      → Within ok w s
      → Returns ok (spent w (check TokenType.eof_token s)) (function_or_stmt is_pub fuel s)
  function_or_stmt-Returns is_pub fuel w s l h =
      let e = check TokenType.kw_extern s in
      let i = check TokenType.kw_intrinsic s in
      elim (Bool-cases (e || i)) [
        | inl b ↦
            let o : is TokenType.eof_token s.cur ≡ false = grind arith in
            let z = left_over h o in
            let least = spent_least w (check TokenType.eof_token s) in
            let most = spent_most (w - 1) (check TokenType.eof_token (advance s)) in
            rw b (
              Returns-weaken (omega arith) (
                fn_or_stmt-Returns is_pub e i fuel (w - 1) (advance s) (omega arith)
                  (take-Within h o)))
        | inr b ↦ rw b (fn_or_stmt-Returns is_pub e i fuel w s l h)
      ]

module _ (stoll : Bytes → Option ℤ) where
  -- What stands behind `pub`.
  abbrev plain_decl : Bool → ℕ → Parser → Option (Option Decl × Parser)
  plain_decl is_pub fuel t =
      if check TokenType.kw_struct t
      then parse_struct_decl is_pub fuel t >>= found
      else if check TokenType.kw_enum t
      then parse_enum_decl stoll is_pub fuel t >>= found
      else if check TokenType.kw_type t
      then parse_type_alias_decl is_pub fuel t >>= found
      else function_or_stmt is_pub fuel t

  plain_decl-Returns :
      (is_pub : Bool) (fuel w : ℕ) (t : Parser)
      → w + 3 ≤ fuel
      → Within is_plain w t
      → Returns is_plain (spent w (check TokenType.eof_token t)) (plain_decl is_pub fuel t)
  plain_decl-Returns is_pub fuel w t l h =
      let s : check TokenType.kw_struct t ≡ false = no_struct t.cur h.current in
      let e : check TokenType.kw_enum t ≡ false = no_enum t.cur h.current in
      rw (s, e)
        (Returns-if (check TokenType.kw_type t)
          (λ b.
            Returns-weaken (spent_least w (check TokenType.eof_token t)) (
              Returns-bind (alias_decl-Returns is_pub fuel w t (omega arith) h b) λ r k. returns k))
          λ _. function_or_stmt-Returns is_pub fuel w t l h)

  decl-Returns :
      (fuel w : ℕ) (s : Parser)
      → w + 3 ≤ fuel
      → Within is_plain w s
      → is TokenType.eof_token s.cur ≡ false
      → Returns is_plain (w - 1) (parse_decl stoll fuel s)
  unfolding parse_decl
  decl-Returns fuel w s l h o =
      let z = left_over h o in
      elim (Bool-cases (check TokenType.kw_pub s)) [
        | inl b ↦
            let most = spent_most (w - 1) (check TokenType.eof_token (advance s)) in
            rw b (
              Returns-weaken (omega arith)
                (plain_decl-Returns true fuel (w - 1) (advance s) (omega arith) (take-Within h o)))
        | inr b ↦ rw b (
            Returns-weaken (spent_open w (check TokenType.eof_token s) o)
              (plain_decl-Returns false fuel w s l h))
      ]

  top-Returns :
      (fuel w : ℕ) (s : Parser)
      → w + 3 ≤ fuel
      → Within is_plain w s
      → is TokenType.eof_token s.cur ≡ false
      → Returns is_plain (w - 1) (top_decl stoll fuel s)
  unfolding top_decl
  top-Returns fuel w s l h o =
      Returns-if (check TokenType.kw_module s || check TokenType.kw_package s)
        (λ _. Returns-bind (module-Returns fuel w s (omega arith) h o) λ r k. returns k)
        λ _.
          Returns-if (check TokenType.kw_import s)
            (λ b. Returns-bind (import-Returns fuel w s (omega arith) h b) λ r k. returns k)
            λ _. decl-Returns fuel w s l h o

  program_loop-Returns :
      (fuel n : ℕ) (decls : List Decl) (w : ℕ) (s : Parser)
      → w < n
      → w + 3 ≤ fuel
      → Within is_plain w s
      → Returns is_plain w (program_loop stoll fuel n decls s)
  unfolding program_loop
  program_loop-Returns fuel zero decls w s k l h = absurd (omega arith)
  program_loop-Returns fuel (suc n) decls w s k l h =
      Returns-if (check TokenType.eof_token s) (λ _. returns h)
        λ o.
          let z = left_over h o in
          Returns-bind (top-Returns fuel w s l h o) λ d g. Returns-weaken (omega arith) (
            program_loop-Returns fuel n _ (w - 1) _ (omega arith) (omega arith) (newlines-Within g))

  -- `parse_program` gives a result for any tokens without `struct` and `enum` that have the end of the
  -- source behind them, on three more fuel than the tokens that are left: each of its rounds reads a
  -- token, whatever is wrong in the tokens.
  pub parse_program-Returns :
      (fuel w : ℕ) (s : Parser)
      → w + 3 ≤ fuel
      → Within is_plain w s
      → Returns is_plain w (parse_program stoll fuel s)
  unfolding parse_program
  parse_program-Returns fuel w s l h = program_loop-Returns fuel fuel [] w s (omega arith) l h
