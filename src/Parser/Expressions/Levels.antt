-- ===== src/Parser/Expressions/Levels.antt =====
-- The loops of the levels of operators, and operands (bootstrap/cpp/src/parser/parser.cpp).
use mathlib.Core.Path.{subst}
use ycpl.Base.{
  ℕ, zero, suc, ◌+◌, ◌≤◌, ◌<◌, ◌≡◌, refl, sym, ap, ◌∙◌, Bool, true, false, ◌||◌, Option, some, List,
  ◌∷◌, arith,
}
use ycpl.Text.{Bytes}
use ycpl.Token.{TokenType, Token}
use ycpl.Ast.{Expr, binary_expr}
use ycpl.Parser.Cursor.{Parser, advance, check}
use ycpl.Parser.Primary.{parse_postfix}
use ycpl.Parser.Expressions.{left_assoc, level, parse_expression}
use ycpl.Parser.Expressions.Grammar.{
  operators, operator_text, parse_height, Tree, value_at, name_at, prefix_at, group_at, infix_at,
  tokens, meaning, nodes, continues, Stops, Sees, Sees-cur, Sees-next,
}

loop_stops :
    (is_op : Token → Bool) (text : Token → Bytes) (operand : Parser → Option (Expr × Parser))
    (n : ℕ) (left : Expr) (s : Parser)
    → is_op s.cur ≡ false
    → left_assoc is_op text operand (suc n) left s ≡ some (left, s)
unfolding left_assoc
loop_stops is_op text operand n left s h = rw h refl

loop_step :
    (is_op : Token → Bool) (text : Token → Bytes) (operand : Parser → Option (Expr × Parser))
    (n : ℕ) (left right : Expr) (s u : Parser)
    → is_op s.cur ≡ true
    → operand (advance s) ≡ some (right, u)
    → left_assoc is_op text operand (suc n) left s
      ≡ left_assoc is_op text operand n (binary_expr (text s.cur) left right) u
unfolding left_assoc
loop_step is_op text operand n left right s u h e = rw (h, e) refl

pub postfix_stops :
    (expression : Parser → Option (Expr × Parser)) (fuel n : ℕ) (e : Expr) (s : Parser)
    → continues s.cur ≡ false
    → parse_postfix expression fuel (suc n) e s ≡ some (e, s)
unfolding parse_postfix
postfix_stops expression fuel n e s h =
    let a : check TokenType.lparen s ≡ false = ground arith in
    let b : check TokenType.lbrack s ≡ false = ground arith in
    let c : (check TokenType.plusplus s || check TokenType.minusminus s) ≡ false = ground arith in
    let d : check TokenType.dot s ≡ false = ground arith in rw (a, b, c, d) refl

-- A tree is read at a height, where the token behind it ends an operand of that height.
abbrev pub Reads : ℕ → ℕ → Tree → Type 0
Reads n b t =
    (s : Parser) (f : Token) (fs : List Token)
    → Sees s (tokens t (f ∷ fs))
    → Stops b f
    → (u : Parser) × (parse_height (parse_expression n) n b s ≡ some (meaning t, u))
      × Sees u (f ∷ fs)

-- A tree is read up to the loop over the operators of a height.
abbrev pub Loops : ℕ → ℕ → Tree → Type 0
Loops n h t =
    (s : Parser) (f : Token) (fs : List Token)
    → Sees s (tokens t (f ∷ fs))
    → Stops h f
    → (m : ℕ) × (u : Parser) × (parse_height (parse_expression n) n (suc h) s
        ≡ left_assoc (operators h) (operator_text h) (parse_height (parse_expression n) n h) m
            (meaning t) u)
      × (n ≤ m + nodes t)
      × Sees u (f ∷ fs)

pub raise : (n h : ℕ) (t : Tree) → Reads n h t → Loops n h t
unfolding parse_height level
raise n h t reads s f fs sees stops =
    let (u, e, sees_u) = reads s f fs sees stops in (n, u, rw e refl, omega arith, sees_u)

close_loop :
    (n h m : ℕ) (e : Expr) (u : Parser) (f : Token) (fs : List Token)
    → 0 < m
    → operators h f ≡ false
    → Sees u (f ∷ fs)
    → left_assoc (operators h) (operator_text h) (parse_height (parse_expression n) n h) m e u
      ≡ some (e, u)
close_loop n h zero e u f fs l k sees = absurd (omega arith)
close_loop n h (suc m) e u f fs l k sees =
    loop_stops (operators h) (operator_text h) _ m e u (ap (operators h) (Sees-cur sees) ∙ k)

pub settle : (n h : ℕ) (t : Tree) → nodes t < n → Loops n h t → Reads n (suc h) t
unfolding Stops
settle n h t l loops s f fs sees stops =
    let (m, u, e, k, sees_u) = loops s f fs sees (stops.1) in
    (u, e ∙ close_loop n h m (meaning t) u f fs (omega arith) (stops.0) sees_u, sees_u)

pub infix_step :
    (n h m : ℕ) (op : Token) (l r : Tree) (u : Parser) (f : Token) (fs : List Token)
    → operators h op ≡ true
    → Reads n h r
    → Sees u (op ∷ tokens r (f ∷ fs))
    → Sees (advance u) (tokens r (f ∷ fs))
    → Stops h f
    → (v : Parser) × (left_assoc
          (operators h)
          (operator_text h)
          (parse_height (parse_expression n) n h)
          (suc m)
          (meaning l)
          u
        ≡ left_assoc
            (operators h)
            (operator_text h)
            (parse_height (parse_expression n) n h)
            m
            (meaning (infix_at h op l r))
            v)
      × Sees v (f ∷ fs)
unfolding meaning
infix_step n h m op l r u f fs o reads sees behind stops =
    let (v, e, sees_v) = reads (advance u) f fs behind stops in
    let c = Sees-cur sees in
    (
      v,
      loop_step (operators h) (operator_text h) _ m (meaning l) (meaning r) u v
            (ap (operators h) c ∙ o) e
          ∙ ap
              (λ t.
                left_assoc (operators h) (operator_text h) (parse_height (parse_expression n) n h) m
                  (binary_expr (operator_text h t) (meaning l) (meaning r)) v)
              c,
      sees_v,
    )

-- The tokens of a tree are some token and others.
pub first_token :
    (t : Tree) (ts : List Token) → (x : Token) × (xs : List Token) × (tokens t ts ≡ x ∷ xs)
unfolding tokens
first_token (value_at token) ts = (token, ts, refl)
first_token (name_at token) ts = (token, ts, refl)
first_token (prefix_at op t) ts = (op, tokens t ts, refl)
first_token (group_at opening t closing) ts = (opening, tokens t (closing ∷ ts), refl)
first_token (infix_at h op l r) ts = first_token l (op ∷ tokens r ts)

pub Sees-tree :
    {s : Parser} {op : Token} (t : Tree) (ts : List Token)
    → Sees s (op ∷ tokens t ts)
    → Sees (advance s) (tokens t ts)
Sees-tree {s} {op} t ts h =
    let (x, xs, e) = first_token t ts in
    subst (Sees (advance s)) (sym e) (Sees-next (subst (λ l. Sees s (op ∷ l)) e h))

infix_loops_at :
    (n h m : ℕ) (op : Token) (l r : Tree) (s u : Parser) (f : Token) (fs : List Token)
    → operators h op ≡ true
    → nodes (infix_at h op l r) < n
    → n ≤ m + nodes l
    → Reads n h r
    → parse_height (parse_expression n) n (suc h) s
      ≡ left_assoc
          (operators h)
          (operator_text h)
          (parse_height (parse_expression n) n h)
          m
          (meaning l)
          u
    → Sees u (op ∷ tokens r (f ∷ fs))
    → Stops h f
    → (k : ℕ) × (v : Parser) × (parse_height (parse_expression n) n (suc h) s
        ≡ left_assoc
            (operators h)
            (operator_text h)
            (parse_height (parse_expression n) n h)
            k
            (meaning (infix_at h op l r))
            v)
      × (n ≤ k + nodes (infix_at h op l r))
      × Sees v (f ∷ fs)
unfolding nodes
infix_loops_at n h zero op l r s u f fs o w k reads e sees stops = absurd (omega arith)
infix_loops_at n h (suc m) op l r s u f fs o w k reads e sees stops =
    let (v, d, sees_v) =
      infix_step n h m op l r u f fs o reads sees (Sees-tree r (f ∷ fs) sees) stops in
    (m, v, e ∙ d, omega arith, sees_v)

-- An operator and its right operand lengthen what is read.
pub infix-Loops :
    (n h : ℕ) (op : Token) (l r : Tree)
    → operators h op ≡ true
    → Stops h op
    → nodes (infix_at h op l r) < n
    → Loops n h l
    → Reads n h r
    → Loops n h (infix_at h op l r)
unfolding tokens
infix-Loops n h op l r o p w loops reads s f fs sees stops =
    let (m, u, e, k, sees_u) = loops s op (tokens r (f ∷ fs)) sees p in
    infix_loops_at n h m op l r s u f fs o w k reads e sees_u stops
