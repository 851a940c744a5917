-- ===== src/Parser/Program.antt =====
-- Programs (bootstrap/cpp/src/parser/parser.cpp): declarations in a row, with statements among them.
use ycpl.Base.{
  ℕ, zero, suc, Bool, ◌||◌, Option, none, some, List, [], ◌∷◌, ◌++◌, if◌then◌else◌, ◌>>=◌,
}
use ycpl.Text.{Bytes}
use ycpl.Token.{TokenType}
use ycpl.Ast.{Stmt, ℤ, Decl, stmt_decl}
use ycpl.Parser.Cursor.{Parser, advance, check, skip_newlines}
use ycpl.Parser.Simple.{is_at_end, accept}
use ycpl.Parser.Statements.{parse_stmt}
use ycpl.Parser.Declarations.{
  parse_module_decl, parse_import_decl, parse_struct_decl, parse_type_alias_decl, parse_enum_decl,
}
use ycpl.Parser.Functions.{parse_function_decl}

abbrev pub found : Decl × Parser → Option (Option Decl × Parser)
found (d, s) = some (some d, s)

abbrev pub stmt_found : Option Stmt × Parser → Option (Option Decl × Parser)
stmt_found (none, s) = some (none, s)
stmt_found (some t, s) = some (some (stmt_decl t), s)

-- A function or a statement, behind `pub`; `extern` and `intrinsic` may stand before.
abbrev pub function_or_stmt : Bool → ℕ → Parser → Option (Option Decl × Parser)
function_or_stmt is_pub fuel s =
    let is_extern = check TokenType.kw_extern s in
    let is_intrinsic = check TokenType.kw_intrinsic s in
    let t = if is_extern || is_intrinsic then advance s else s in
    if check TokenType.kw_fn t
    then parse_function_decl is_pub is_extern is_intrinsic fuel t >>= found
    else parse_stmt fuel t >>= stmt_found

module _ (stoll : Bytes → Option ℤ) where
  unfoldable pub parse_decl : ℕ → Parser → Option (Option Decl × Parser)
  parse_decl fuel s =
      let is_pub = check TokenType.kw_pub s in
      let t = accept TokenType.kw_pub s in
      if check TokenType.kw_struct t
      then parse_struct_decl is_pub fuel t >>= found
      else if check TokenType.kw_enum t
      then parse_enum_decl stoll is_pub fuel t >>= found
      else if check TokenType.kw_type t
      then parse_type_alias_decl is_pub fuel t >>= found
      else function_or_stmt is_pub fuel t

  -- One round of `parse_program`.
  unfoldable pub top_decl : ℕ → Parser → Option (Option Decl × Parser)
  top_decl fuel s =
      if check TokenType.kw_module s || check TokenType.kw_package s
      then parse_module_decl fuel s >>= found
      else if check TokenType.kw_import s
      then parse_import_decl fuel s >>= found
      else parse_decl fuel s

  abbrev pub push_decl : List Decl → Option Decl → List Decl
  push_decl decls none = decls
  push_decl decls (some d) = decls ++ d ∷ []

  unfoldable pub program_loop : ℕ → ℕ → List Decl → Parser → Option (List Decl × Parser)
  program_loop fuel zero decls s = none
  program_loop fuel (suc n) decls s =
      if is_at_end s
      then some (decls, s)
      else (top_decl fuel s >>= λ d.
          program_loop fuel n (push_decl decls (d.0)) (skip_newlines (d.1)))

  unfoldable pub parse_program : ℕ → Parser → Option (List Decl × Parser)
  parse_program fuel s = program_loop fuel fuel [] s
