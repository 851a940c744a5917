-- ===== src/Parser/Expressions/Whole.antt =====
-- Whole expressions (bootstrap/cpp/src/parser/parser.cpp).
use mathlib.Core.Path.{subst}
use ycpl.Base.{
  ℕ, zero, suc, ◌≤◌, ◌<◌, ◌≡◌, refl, sym, ap, ◌∙◌, inl, inr, Bool, true, false, ◌||◌, Option, some,
  List, ◌∷◌, ◌==◌, arith, Bool-cases, eq_of_==,
}
use ycpl.Text.{Bytes, codes, str_eq}
use ycpl.Token.{TokenType, Token}
use ycpl.Ast.{Expr, ident, literal, unary_expr}
use ycpl.Parser.Cursor.{Parser, advance, check, is}
use ycpl.Parser.Primary.{parse_operand, parse_primary, parse_name, parenthesised}
use ycpl.Parser.Expressions.{is_prefix, prefix_text, parse_unary, parse_expression}
use ycpl.Parser.Expressions.Grammar.{
  operators, parse_height, parse_height_lem, Tree, value_at, name_at, prefix_at, group_at, infix_at,
  tokens, meaning, height, nodes, continues, Stops, is_value, IsSentence, Sees, Sees-cur, Sees-next,
}
use ycpl.Parser.Expressions.Levels.{
  Reads, Loops, raise, settle, infix-Loops, postfix_stops, Sees-tree,
}

-- A token that starts an operand is no prefix and no bracket.
abbrev starts_operand : Token → Bool
starts_operand token = is_value token || is TokenType.ident token || is TokenType.lparen token

no_prefix : (t : Token) → starts_operand t ≡ true → is_prefix t ≡ false
no_prefix t h = grind arith

no_bracket : (t : Token) → starts_operand t ≡ true → is TokenType.lbrack t ≡ false
no_bracket t h = grind arith

-- A tree that no operator of two operands holds together is read by the unary operators, on `j` of fuel.
abbrev Unary : ℕ → ℕ → Tree → Type 0
Unary n j t =
    (s : Parser) (f : Token) (fs : List Token)
    → Sees s (tokens t (f ∷ fs))
    → Stops 0 f
    → (u : Parser) × (parse_unary (parse_expression n) n j s ≡ some (meaning t, u))
      × Sees u (f ∷ fs)

operand_reads :
    (expression : Parser → Option (Expr × Parser)) (m j : ℕ) (s u : Parser) (e : Expr)
    → starts_operand s.cur ≡ true
    → parse_operand expression (suc m) s ≡ some (e, u)
    → continues u.cur ≡ false
    → parse_unary expression (suc m) (suc j) s ≡ some (e, u)
unfolding parse_unary parse_primary
operand_reads expression m j s u e o h k =
    rw (no_prefix s.cur o, no_bracket s.cur o, h) (postfix_stops expression (suc m) m e u k)

value-Unary :
    (m j : ℕ) (token : Token) → is_value token ≡ true → Unary (suc m) (suc j) (value_at token)
unfolding tokens meaning Stops parse_operand
value-Unary m j token v s f fs sees stops =
    let c = Sees-cur sees in
    let w : is_value s.cur ≡ true = ap is_value c ∙ v in
    let behind = Sees-next sees in
    (
      advance s,
      operand_reads (parse_expression (suc m)) m j s (advance s) _ (ground arith) (rw w refl)
            (ap continues (Sees-cur behind) ∙ stops)
          ∙ ap (λ t. some (literal t.lexeme t.type, advance s)) c,
      behind,
    )

name_alone :
    (expression : Parser → Option (Expr × Parser)) (fuel : ℕ) (name : Bytes) (s : Parser)
    → str_eq name (codes "Vec") ≡ false
    → continues s.cur ≡ false
    → parse_name expression fuel name s ≡ some (ident name, s)
unfolding parse_name
name_alone expression fuel name s v k =
    let a : check TokenType.lparen s ≡ false = ground arith in
    let b : check TokenType.lbrace s ≡ false = ground arith in rw (v, a, b) refl

operand_name :
    (expression : Parser → Option (Expr × Parser)) (fuel : ℕ) (s : Parser)
    → is TokenType.ident s.cur ≡ true
    → parse_operand expression fuel s ≡ parse_name expression fuel s.cur.lexeme (advance s)
unfolding parse_operand
operand_name expression fuel s h =
    let a : is_value s.cur ≡ false = grind arith in
    let b : (check TokenType.kw_true s || check TokenType.kw_false s) ≡ false = grind arith in
    let c : check TokenType.kw_none s ≡ false = grind arith in
    let d : check TokenType.lbrack s ≡ false = grind arith in rw (a, b, c, d, h) refl

operand_group :
    (expression : Parser → Option (Expr × Parser)) (fuel : ℕ) (s : Parser)
    → is TokenType.lparen s.cur ≡ true
    → parse_operand expression fuel s ≡ parenthesised expression fuel s
unfolding parse_operand
operand_group expression fuel s h =
    let a : is_value s.cur ≡ false = grind arith in
    let b : (check TokenType.kw_true s || check TokenType.kw_false s) ≡ false = grind arith in
    let c : check TokenType.kw_none s ≡ false = grind arith in
    let d : check TokenType.lbrack s ≡ false = grind arith in
    let e : check TokenType.ident s ≡ false = grind arith in rw (a, b, c, d, e, h) refl

variable-Unary :
    (m j : ℕ) (token : Token)
    → is TokenType.ident token ≡ true
    → str_eq token.lexeme (codes "Vec") ≡ false
    → Unary (suc m) (suc j) (name_at token)
unfolding tokens meaning Stops
variable-Unary m j token i v s f fs sees stops =
    let c = Sees-cur sees in
    let w : is TokenType.ident s.cur ≡ true = ap (is TokenType.ident) c ∙ i in
    let behind = Sees-next sees in
    let k = ap continues (Sees-cur behind) ∙ stops in
    (
      advance s,
      operand_reads (parse_expression (suc m)) m j s (advance s) _ (ground arith)
            (operand_name _ (suc m) s w
              ∙ name_alone _ (suc m) s.cur.lexeme (advance s)
                  (ap (λ t. str_eq t.lexeme (codes "Vec")) c ∙ v) k)
            k
          ∙ ap (λ t. some (ident t.lexeme, advance s)) c,
      behind,
    )

prefix-Unary :
    (n j : ℕ) (op : Token) (t : Tree)
    → is_prefix op ≡ true
    → Unary n j t
    → Unary n (suc j) (prefix_at op t)
unfolding tokens meaning parse_unary
prefix-Unary n j op t p unary s f fs sees stops =
    let c = Sees-cur sees in
    let w : is_prefix s.cur ≡ true = ap is_prefix c ∙ p in
    let (u, e, sees_u) = unary (advance s) f fs (Sees-tree t (f ∷ fs) sees) stops in
    (u, rw (w, e) (ap (λ x. some (unary_expr (prefix_text x) (meaning t), u)) c), sees_u)

-- A closing bracket ends every operand.
closing-Stops : (t : Token) → is TokenType.rparen t ≡ true → Stops 10 t
unfolding Stops operators
closing-Stops t h = (
  grind arith,
  (
    grind arith,
    (
      grind arith,
      (
        grind arith,
        (
          grind arith,
          (grind arith, (grind arith, (grind arith, (grind arith, (grind arith, grind arith))))),
        ),
      ),
    ),
  ),
)

group-Unary :
    (m j : ℕ) (opening closing : Token) (t : Tree)
    → is TokenType.lparen opening ≡ true
    → is TokenType.rparen closing ≡ true
    → Reads m 10 t
    → Unary (suc m) (suc j) (group_at opening t closing)
unfolding tokens meaning parse_expression Stops
group-Unary m j opening closing t o c reads s f fs sees stops =
    let first = ap (is TokenType.lparen) (Sees-cur sees) ∙ o in
    let (u, e, sees_u) =
      reads (advance s) closing (f ∷ fs) (Sees-tree t (closing ∷ f ∷ fs) sees)
        (closing-Stops closing c) in
    let w : check TokenType.rparen u ≡ true = ap (is TokenType.rparen) (Sees-cur sees_u) ∙ c in
    let behind = Sees-next sees_u in
    (
      advance u,
      operand_reads (parse_expression (suc m)) m j s (advance u) _ (ground arith)
          (operand_group _ (suc m) s first
            ∙ rw (sym (ap (λ p. p (advance s)) (parse_height_lem (parse_expression m) m)) ∙ e, w)
                refl)
          (ap continues (Sees-cur behind) ∙ stops),
      behind,
    )

-- What is read at a height is read at those above.
climb : (n h b : ℕ) (t : Tree) → nodes t < n → h ≤ b → Reads n h t → Reads n b t
climb n h zero t w le reads = subst (λ x. Reads n x t) (omega arith) reads
climb n h (suc b) t w le reads = elim (Bool-cases (h == suc b)) [
  | inl e ↦ subst (λ x. Reads n x t) (eq_of_== _ _ e) reads
  | inr e ↦ settle n b t w (raise n b t (climb n h b t w (ground arith) reads))
]

-- A sentence is read by the parser of each height that it fits.
record Fits (n : ℕ) (t : Tree) : Type 0 where
  unary : height t ≡ 0 → (j : ℕ) → nodes t ≤ j → Unary n j t
  loops : (h : ℕ) → height t ≤ suc h → Loops n h t
  reads : (b : ℕ) → height t ≤ b → Reads n b t

of_Unary :
    (n : ℕ) (t : Tree)
    → nodes t < n
    → height t ≡ 0
    → ((j : ℕ) → nodes t ≤ j → Unary n j t)
    → Fits n t
unfolding parse_height
of_Unary n t w z unary =
    let zeroth : Reads n 0 t = λ s f fs. unary n (omega arith) s f fs in
    let reads : (b : ℕ) → Reads n b t = λ b. climb n 0 b t w (omega arith) zeroth in
    record { unary = λ _. unary; loops = λ h _. raise n h t (reads h); reads = λ b _. reads b }

of_infix :
    (n h : ℕ) (op : Token) (l r : Tree)
    → nodes (infix_at h op l r) < n
    → Loops n h (infix_at h op l r)
    → Fits n (infix_at h op l r)
unfolding height
of_infix n h op l r w loops =
    let t = infix_at h op l r in
    let reads : (b : ℕ) → suc h ≤ b → Reads n b t =
      λ b le. climb n (suc h) b t w le (settle n h t w loops) in
    record {
      unary = λ e. absurd (omega arith);
      loops = λ g le. elim (Bool-cases (g == h)) [
        | inl e ↦ subst (λ x. Loops n x t) (sym (eq_of_== _ _ e)) loops
        | inr e ↦ raise n g t (reads g (ground arith))
      ];
      reads = reads;
    }

-- Fuel that is as much as some positive number is that of a step.
with_step : (P : ℕ → Type 0) (k : ℕ) → ((j : ℕ) → k ≤ j → P (suc j)) → (j : ℕ) → suc k ≤ j → P j
with_step P k step zero le = absurd (omega arith)
with_step P k step (suc j) le = step j (omega arith)

fits : (t : Tree) (n : ℕ) → IsSentence t → nodes t < n → Fits n t
unfolding IsSentence nodes height
fits t zero p w = absurd (omega arith)
fits (value_at token) (suc m) p w =
    of_Unary (suc m) (value_at token) w refl
      (with_step (λ j. Unary (suc m) j (value_at token)) 0 λ j _. value-Unary m j token p)
fits (name_at token) (suc m) p w =
    of_Unary (suc m) (name_at token) w refl (
      with_step (λ j. Unary (suc m) j (name_at token)) 0
        λ j _. variable-Unary m j token (p.0) (p.1))
fits (prefix_at op t) (suc m) p w =
    let (o, z, q) = p in
    of_Unary (suc m) (prefix_at op t) w refl (
      with_step (λ j. Unary (suc m) j (prefix_at op t)) (nodes t)
        λ j le. prefix-Unary (suc m) j op t o ((fits t (suc m) q (omega arith)).unary z j le))
fits (group_at opening t closing) (suc m) p w =
    let (o, c, h, q) = p in
    of_Unary (suc m) (group_at opening t closing) w refl (
      with_step (λ j. Unary (suc m) j (group_at opening t closing)) (nodes t)
        λ j _. group-Unary m j opening closing t o c ((fits t m q (omega arith)).reads 10 h))
fits (infix_at h op l r) (suc m) p w =
    let (o, stops, hl, hr, pl, pr) = p in
    of_infix (suc m) h op l r w (
      infix-Loops (suc m) h op l r o stops w ((fits l (suc m) pl (omega arith)).loops h hl)
        ((fits r (suc m) pr (omega arith)).reads h hr))

-- The expression that a sentence of the grammar means is read from its tokens, on more fuel than it has
-- nodes, where the next token goes on with no operand and is no operator; that token and those behind it
-- stay.
pub parse_expression-tokens :
    (t : Tree) (n : ℕ) (s : Parser) (f : Token) (fs : List Token)
    → IsSentence t
    → height t ≤ 10
    → nodes t < n
    → Sees s (tokens t (f ∷ fs))
    → Stops 10 f
    → (u : Parser) × (parse_expression (suc n) s ≡ some (meaning t, u)) × Sees u (f ∷ fs)
unfolding parse_expression
parse_expression-tokens t n s f fs p h w sees stops =
    let (u, e, sees_u) = (fits t n p w).reads 10 h s f fs sees stops in
    (u, sym (ap (λ q. q s) (parse_height_lem (parse_expression n) n)) ∙ e, sees_u)
