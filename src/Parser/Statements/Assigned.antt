-- ===== src/Parser/Statements/Assigned.antt =====
-- Assignments and definitions (bootstrap/cpp/src/parser/parser.cpp).
use ycpl.Base.{
  ℕ, suc, ◌≤◌, ◌<◌, ◌≡◌, refl, ap, ◌∙◌, inl, inr, Bool, true, false, ◌||◌, none, some, List, ◌∷◌,
  if◌then◌else◌, arith, Bool-cases,
}
use ycpl.Text.{Bytes, codes, str_eq}
use ycpl.Token.{TokenType, Token}
use ycpl.Ast.{Expr, ident, Stmt, var_decl, assign_stmt}
use ycpl.Parser.Cursor.{Parser, advance, check, is}
use ycpl.Parser.Types.Spelled.{skip_none}
use ycpl.Parser.Expressions.{parse_expression}
use ycpl.Parser.Expressions.Grammar.{
  Tree, value_at, name_at, prefix_at, group_at, infix_at, tokens, meaning, height, nodes, operators,
  Stops, IsSentence, Sees, Sees-cur, Sees-next,
}
use ycpl.Parser.Expressions.Levels.{Sees-tree}
use ycpl.Parser.Expressions.Whole.{parse_expression-tokens}
use ycpl.Parser.Simple.{plain_op, is_assignment, accept, parse_assign, parse_simple}
use ycpl.Parser.Statements.{parse_stmt}

-- The tokens of assignments.
abbrev pub assigns : Token → Bool
assigns token =
    is TokenType.assign token
    || is TokenType.plus_assign token
    || is TokenType.minus_assign token
    || is TokenType.mul_assign token
    || is TokenType.div_assign token
    || is TokenType.mod_assign token

abbrev quiet : Token → Bool
quiet token = assigns token || is TokenType.newline token

-- An assignment or the end of a line ends every operand.
quiet-Stops : (t : Token) → quiet t ≡ true → Stops 10 t
unfolding Stops operators
quiet-Stops t h = (
  grind arith,
  (
    grind arith,
    (
      grind arith,
      (
        grind arith,
        (
          grind arith,
          (grind arith, (grind arith, (grind arith, (grind arith, (grind arith, grind arith))))),
        ),
      ),
    ),
  ),
)

-- The operator of an assignment: what it applies before it stores, and `=` where that is nothing.
unfoldable pub applied : Bytes → Bytes
applied op =
    if str_eq op (codes "+=")
    then codes "+"
    else if str_eq op (codes "-=")
    then codes "-"
    else if str_eq op (codes "*=")
    then codes "*"
    else if str_eq op (codes "/=")
    then codes "/"
    else if str_eq op (codes "%=")
    then codes "%"
    else codes "="

-- What an operator makes of a name and a value: a variable for `:=`, an assignment for others.
abbrev pub assigned : Bytes → Bytes → Expr → Stmt
assigned name op e =
    if str_eq op (codes ":=")
    then var_decl name none e false
    else assign_stmt (ident name) e (applied op)

simple_stmt :
    (fuel : ℕ) (s : Parser)
    → is TokenType.ident s.cur ≡ true
    → parse_stmt (suc fuel) s ≡ parse_simple fuel s
unfolding parse_stmt
simple_stmt fuel s h =
    let a : check TokenType.newline s ≡ false = grind arith in
    let k : check TokenType.kw_break s ≡ false = grind arith in
    let l : check TokenType.kw_continue s ≡ false = grind arith in
    let m : check TokenType.kw_return s ≡ false = grind arith in
    let n : check TokenType.kw_defer s ≡ false = grind arith in
    let o : check TokenType.kw_if s ≡ false = grind arith in
    let p : check TokenType.kw_switch s ≡ false = grind arith in
    let q : check TokenType.kw_for s ≡ false = grind arith in
    let r : check TokenType.kw_const s ≡ false = grind arith in
    let t : check TokenType.lbrace s ≡ false = grind arith in
    rw (skip_none (is TokenType.newline) s.left s a, k, l, m, n, o, p, q, r, t) refl

-- The end of a line is taken.
accept-newline :
    {f : Token} {g : Token} {fs : List Token} (v : Parser)
    → is TokenType.newline f ≡ true
    → Sees v (f ∷ g ∷ fs)
    → Sees (accept TokenType.newline v) (g ∷ fs)
accept-newline {f} {g} {fs} v h sees =
    let e : check TokenType.newline v ≡ true = ap (is TokenType.newline) (Sees-cur sees) ∙ h in
    rw e (Sees-next sees)

module _ (fuel : ℕ) (name : Bytes) where
  behind_op :
      (e : Expr) (s v : Parser)
      → assigns s.cur ≡ true
      → parse_expression fuel (advance s) ≡ some (e, v)
      → parse_assign fuel (ident name) s
        ≡ some (some (assigned name s.cur.lexeme e), accept TokenType.newline v)
  unfolding parse_assign plain_op applied
  behind_op e s v h d = elim (Bool-cases (str_eq s.cur.lexeme (codes ":="))) [
    | inl c ↦ rw (d, c) refl
    | inr c ↦ rw (d, c) refl
  ]

  of_name :
      (e : Expr) (s t v : Parser)
      → parse_expression fuel s ≡ some (ident name, t)
      → assigns t.cur ≡ true
      → parse_expression fuel (advance t) ≡ some (e, v)
      → parse_simple fuel s ≡ some (some (assigned name t.cur.lexeme e), accept TokenType.newline v)
  unfolding parse_simple
  of_name e s t v d h k =
      let c : check TokenType.colon t ≡ false = grind arith in
      let o : is_assignment t ≡ true = h in rw (d, c, o) (behind_op e t v h k)

nodes_positive : (t : Tree) → 1 ≤ nodes t
unfolding nodes
nodes_positive (value_at token) = omega arith
nodes_positive (name_at token) = omega arith
nodes_positive (prefix_at op t) = omega arith
nodes_positive (group_at opening t closing) = omega arith
nodes_positive (infix_at h op l r) = omega arith

-- A name, an assignment and a sentence on a line are read as a statement, on more fuel than the sentence
-- has nodes: `:=` makes a variable, `+=` and its like an assignment with their operator, and `=` a plain
-- assignment. What stands on the next line stays.
pub parse_stmt-assigned :
    (name op f g : Token) (t : Tree) (fs : List Token) (n : ℕ) (s : Parser)
    → is TokenType.ident name ≡ true
    → str_eq name.lexeme (codes "Vec") ≡ false
    → assigns op ≡ true
    → is TokenType.newline f ≡ true
    → IsSentence t
    → height t ≤ 10
    → nodes t < n
    → Sees s (name ∷ op ∷ tokens t (f ∷ g ∷ fs))
    → (u : Parser) × (parse_stmt (suc (suc n)) s
        ≡ some (some (assigned name.lexeme op.lexeme (meaning t)), u))
      × Sees u (g ∷ fs)
unfolding tokens meaning IsSentence height nodes
parse_stmt-assigned name op f g t fs n s i v o l p h w sees =
    let behind = tokens t (f ∷ g ∷ fs) in
    let (s1, d, sees1) =
      parse_expression-tokens (name_at name) n s op behind (i, v) (omega arith)
        (omega (arith, nodes_positive t)) sees (quiet-Stops op (ground arith)) in
    let c = Sees-cur sees1 in
    let (s2, e, sees2) =
      parse_expression-tokens t n (advance s1) f (g ∷ fs) p h w (Sees-tree t (f ∷ g ∷ fs) sees1)
        (quiet-Stops f (ground arith)) in
    (
      accept TokenType.newline s2,
      simple_stmt (suc n) s (ap (is TokenType.ident) (Sees-cur sees) ∙ i)
          ∙ of_name (suc n) name.lexeme (meaning t) s s1 s2 d (ap assigns c ∙ o) e
          ∙ ap
              (λ x.
                some
                  (some (assigned name.lexeme x.lexeme (meaning t)), accept TokenType.newline s2))
              c,
      accept-newline s2 l sees2,
    )
