-- ===== src/Parser/Total/Types.antt =====
-- `parse_type` gives a type for any tokens (bootstrap/cpp/src/parser/parser.cpp).
use ycpl.Base.{
  Bool, ℕ, zero, suc, ◌-◌, ◌≤◌, ◌<◌, ◌≡◌, refl, true, ◌||◌, ◌&&◌, Option, List, [], ◌∷◌, arith,
}
use ycpl.Text.{Bytes, codes}
use ycpl.Token.{TokenType, Token}
use ycpl.Ast.{AstType}
use ycpl.Parser.Cursor.{Parser, advance, check, check_word, peek_is}
use ycpl.Parser.Types.{
  is_owned, pointer_prefix, behind_brackets, array_depth, parse_base, behind_owned, behind_prefix,
  parse_type,
}
use ycpl.Parser.Total.{
  Ended, Within, Returns, returns, Returns-if, Returns-bind, weaken, Within-if_next, advance-Within,
  left_over, take-Within, other_type, expected-Within, expect-Within, expected_type_gt-Within,
  skip-Within,
}

pub pointer-Within :
    {ok : Token → Bool} {w : ℕ} (ls : List Token) (prefix : Bytes) (s : Parser)
    → Within ok w s
    → Within ok w ((pointer_prefix ls prefix s).1)
unfolding pointer_prefix
pointer-Within [] prefix s h = h
pointer-Within (t ∷ ls) prefix s h =
    Within-if_next (check TokenType.deref s) _ _
      (pointer-Within ls _ (advance s) (advance-Within h))
      (Within-if_next (check TokenType.address_of s) _ _
        (pointer-Within ls _ (advance s) (advance-Within h)) h)

behind_brackets-Within :
    {ok : Token → Bool} {w : ℕ} {s : Parser} → Within ok w s → Within ok w (behind_brackets s)
behind_brackets-Within h = expected-Within (advance-Within h) TokenType.rbrack _

array-Within :
    {ok : Token → Bool} {w : ℕ} (ls : List Token) (depth : ℕ) (s : Parser)
    → Within ok w s
    → Within ok w ((array_depth ls depth s).1)
unfolding array_depth
array-Within [] depth s h = h
array-Within (t ∷ ls) depth s h =
    Within-if_next (check TokenType.lbrack s) _ _
      (array-Within ls (suc depth) (behind_brackets s) (behind_brackets-Within h)) h

-- A bracket is taken.
brackets_to-Within :
    {ok : Token → Bool} {w : ℕ} (ls : List Token) (depth : ℕ) (s : Parser)
    → check TokenType.lbrack s ≡ true
    → Ended s.cur ls
    → Within ok w (behind_brackets s)
    → Within ok w ((array_depth ls depth s).1)
unfolding array_depth Ended
brackets_to-Within [] depth s b e h = absurd (cc (e, other_type TokenType.lbrack s.cur b refl))
brackets_to-Within (t ∷ ls) depth s b e h = rw b (array-Within ls (suc depth) (behind_brackets s) h)

module _ {ok : Token → Bool} (parse : Parser → Option (AstType × Parser)) (f : ℕ)
    (total : (v : ℕ) (s : Parser) → v < f → Within ok v s → Returns ok v (parse s)) where
  parse_base-Returns :
      (w : ℕ) (s : Parser) → w ≤ f → Within ok w s → Returns ok w (parse_base parse s)
  unfolding parse_base
  parse_base-Returns w s l h =
      Returns-if (check_word (codes "Map") s && peek_is TokenType.lt 0 s)
        (λ m.
          let o = other_type TokenType.ident s.cur (ground arith) refl in
          let z = left_over h o in
          Returns-bind
            (total (w - 1) _ (omega arith) (expected-Within (take-Within h o) TokenType.lt _))
            λ key k.
              Returns-bind (total (w - 1) _ (omega arith) (expected-Within k TokenType.comma _))
                λ v k'. returns (weaken _ (omega arith) (expected_type_gt-Within k' _)))
        λ _.
          Returns-if (check_word (codes "Vec") s && peek_is TokenType.lt 0 s)
            (λ m.
              let o = other_type TokenType.ident s.cur (ground arith) refl in
              let z = left_over h o in
              Returns-bind
                (total (w - 1) _ (omega arith) (expected-Within (take-Within h o) TokenType.lt _))
                λ elem k. returns (weaken _ (omega arith) (expected_type_gt-Within k _)))
            λ _.
              Returns-if (check TokenType.kw_byte s || check_word (codes "byte") s)
                (λ _. returns (advance-Within h)) λ _. returns (expect-Within h TokenType.ident _)

  behind_prefix-Returns :
      (w : ℕ) (prefix : Bytes) (s : Parser)
      → w ≤ f
      → Within ok w s
      → Returns ok w (behind_prefix parse (prefix, s))
  behind_prefix-Returns w prefix s l h =
      Returns-if (check TokenType.lbrack s)
        (λ b.
          let o = other_type TokenType.lbrack s.cur b refl in
          let z = left_over h o in
          Returns-bind
            (total (w - 1) _ (omega arith) (
              brackets_to-Within s.left 0 s b h.ended
                (expected-Within (take-Within h o) TokenType.rbrack _)))
            λ p k. returns (weaken (p.1) (omega arith) k))
        λ _. Returns-bind (parse_base-Returns w s l h) λ p k. returns k

pub parse_type-Returns :
    {ok : Token → Bool} (n w : ℕ) (s : Parser)
    → w < n
    → Within ok w s
    → Returns ok w (parse_type n s)
unfolding parse_type
parse_type-Returns zero w s l h = absurd (omega arith)
parse_type-Returns (suc f) w s l h =
    let t = behind_owned s in
    behind_prefix-Returns (parse_type f) f (parse_type-Returns f) w _ _ (omega arith)
      (pointer-Within t.left [] t (skip-Within is_owned s.left s h))
