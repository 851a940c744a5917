-- ===== src/Ast.antt =====
-- The types, expressions, statements and declarations of the syntax tree (bootstrap/cpp/src/ast/ast.h). A pointer that may be null
-- is two constructors, and a vector of nodes is a list of its own.
use ycpl.Base.{ℕ, Bool, Option, none, some, List}
use ycpl.Text.{Bytes}
use ycpl.Token.{TokenType}

-- `FuncType` is left out: the parser builds none.
pub data AstType : Type 0 where
  named_type : Bytes → AstType
  pointer_type : AstType → AstType
  array_type : AstType → Bool → ℕ → AstType
  map_type : AstType → AstType → AstType
  vec_type : AstType → AstType

mutual
  pub data Expr : Type 0 where
    ident : Bytes → Expr
    literal : Bytes → TokenType → Expr
    type_expr : AstType → Expr
    unary_expr : Bytes → Expr → Expr
    binary_expr : Bytes → Expr → Expr → Expr
    call_expr : Expr → Exprs → Expr
    array_literal : Option AstType → Exprs → Expr
    byte_array_literal : Exprs → Expr
    member_expr : Expr → Bytes → Expr
    index_expr : Expr → Expr → Expr
    postfix_expr : Bytes → Expr → Expr
    struct_literal : AstType → Inits → Expr
    vec_literal : AstType → Expr
    vec_literal_with : AstType → Expr → Expr

  pub data Exprs : Type 0 where
    no_exprs : Exprs
    expr_then : Expr → Exprs → Exprs

  pub data Inits : Type 0 where
    no_inits : Inits
    init_then : Option Bytes → Expr → Inits → Inits

-- `push_back` on a vector of nodes, and `emplace_back` on a vector of field initialisers.
pub push_expr : Exprs → Expr → Exprs
push_expr no_exprs e = expr_then e no_exprs
push_expr (expr_then d es) e = expr_then d (push_expr es e)

pub push_init : Inits → Option Bytes → Expr → Inits
push_init no_inits name e = init_then name e no_inits
push_init (init_then m d inits) name e = init_then m d (push_init inits name e)

-- Statements. `no_body` and `no_stmt` are null pointers.
mutual
  pub data Stmt : Type 0 where
    expr_stmt : Expr → Stmt
    return_stmt : Option Expr → Stmt
    defer_stmt : Stmt → Stmt
    var_decl : Bytes → Option AstType → Expr → Bool → Stmt
    assign_stmt : Expr → Expr → Bytes → Stmt
    block_stmt : Stmts → Stmt
    if_stmt : Expr → Stmts → Body → Stmt
    switch_stmt : Expr → Cases → Body → Stmt
    for_in_stmt : Bytes → Expr → Stmts → Stmt
    for_stmt : Stmts → Stmt
    for_c_style_stmt : Init → Option Expr → Option Expr → Stmts → Stmt
    break_stmt : Stmt
    continue_stmt : Stmt

  pub data Stmts : Type 0 where
    no_stmts : Stmts
    stmt_then : Stmt → Stmts → Stmts

  pub data Body : Type 0 where
    no_body : Body
    body : Stmts → Body

  pub data Init : Type 0 where
    no_stmt : Init
    init_stmt : Stmt → Init

  pub data Cases : Type 0 where
    no_cases : Cases
    case_then : Expr → Stmts → Cases → Cases

-- `if (s) stmts.push_back(s)`
pub push_stmt : Stmts → Option Stmt → Stmts
push_stmt stmts none = stmts
push_stmt no_stmts (some s) = stmt_then s no_stmts
push_stmt (stmt_then t stmts) (some s) = stmt_then t (push_stmt stmts (some s))

-- `emplace_back` on a vector of cases.
pub push_case : Cases → Expr → Stmts → Cases
push_case no_cases e stmts = case_then e stmts no_cases
push_case (case_then d others cases) e stmts = case_then d others (push_case cases e stmts)

-- `long long`, without its bounds.
pub data ℤ : Type 0 where
  pos : ℕ → ℤ
  negsuc : ℕ → ℤ

pub record Param : Type 0 where
  pub name : Bytes
  pub type : AstType
  pub variadic : Bool

-- A field of a struct, with a type or with fields of its own.
pub data StructField : Type 0 where
  typed_field : Bytes → AstType → StructField
  inline_field : Bytes → List (Bytes × AstType) → StructField

pub record FuncDecl : Type 0 where
  pub name : Bytes
  pub receiver_name : Option Bytes
  pub params : List Param
  pub ret_type : Option AstType
  pub is_pub : Bool
  pub is_extern : Bool
  pub is_intrinsic : Bool
  pub extern_name : Option Bytes
  pub body_of : Body

-- Declarations. The names that later passes give a function are left out.
pub data Decl : Type 0 where
  package_decl : Bytes → Decl
  import_decl : Bytes → List Bytes → Option Bytes → Decl
  struct_decl : Bytes → List StructField → Bool → Decl
  enum_decl : Bytes → List (Bytes × Option ℤ) → Bool → Decl
  type_alias_decl : Bytes → AstType → Bool → Decl
  func_decl : FuncDecl → Decl
  stmt_decl : Stmt → Decl
