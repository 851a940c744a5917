-- ===== src/Lexer/Skip/Nested.antt =====
-- Block comments in one another are passed over to the closing mark (bootstrap/cpp/src/lexer/lexer.cpp).
use mathlib.Core.Path.{subst}
use ycpl.Base.{
  ℕ, zero, suc, ◌≡◌, refl, sym, ap, ◌∙◌, Bool, true, false, some, List, [], ◌∷◌, ◌++◌, get_or,
  arith,
}
use ycpl.Text.{Bytes}
use ycpl.Lexer.Cursor.{Lexer, Report, advance, advance_on, peek_char}
use ycpl.Lexer.Cursor.Moves.{step_left, step_two_left}
use ycpl.Lexer.Skip.{opens, closes, block, end_block, block_comment, round}

-- A comment's text behind its opening mark with as many closing marks as the depth needs.
pub data Closed : ℕ → Bytes → Type 0 where
  done : Closed 0 []
  nested :
      (depth c d : ℕ) (text : Bytes)
      → opens c d ≡ true
      → Closed (suc (suc depth)) text
      → Closed (suc depth) (c ∷ d ∷ text)
  back :
      (depth c d : ℕ) (text : Bytes)
      → closes c d ≡ true
      → Closed depth text
      → Closed (suc depth) (c ∷ d ∷ text)
  plain :
      (depth c d : ℕ) (text : Bytes)
      → opens c d ≡ false
      → closes c d ≡ false
      → Closed (suc depth) (d ∷ text)
      → Closed (suc depth) (c ∷ d ∷ text)

advance_on-errors : (l : Bytes) (s : Lexer) → (advance_on l s).errors ≡ s.errors
advance_on-errors [] s = refl
advance_on-errors (c ∷ l) s = refl

advance-errors : (s : Lexer) → (advance s).errors ≡ s.errors
unfolding advance
advance-errors s = advance_on-errors s.left s

-- The loop ends at depth 0, right behind the text, and reports nothing.
record Passes (rest : Bytes) (errors : List Report) (r : Lexer × ℕ) : Type 0 where
  left_eq : r.0.left ≡ rest
  errors_eq : r.0.errors ≡ errors
  depth_eq : r.1 ≡ 0

Passes-errors :
    {rest : Bytes} {a b : List Report} {r : Lexer × ℕ} → a ≡ b → Passes rest a r → Passes rest b r
Passes-errors {rest} {r = r} e h = subst (λ x. Passes rest x r) e h

two_errors : (s : Lexer) → (advance (advance s)).errors ≡ s.errors
two_errors s = advance-errors (advance s) ∙ advance-errors s

block-Passes :
    (depth : ℕ) (text : Bytes)
    → Closed depth text
    → (rest : Bytes) (s : Lexer) → s.left ≡ text ++ rest
    → Passes rest s.errors (block (text ++ rest) depth s)
unfolding block
block-Passes _ _ done rest s h = record { left_eq = h; errors_eq = refl; depth_eq = refl }
block-Passes _ _ (nested depth c d text e k) rest s h = rw e (
    Passes-errors (two_errors s)
      (block-Passes (suc (suc depth)) text k rest (advance (advance s)) (step_two_left s h)))
block-Passes _ _ (back depth c d text e k) rest s h =
    let n : opens c d ≡ false = ground arith in
    rw (n, e)
      (Passes-errors (two_errors s)
        (block-Passes depth text k rest (advance (advance s)) (step_two_left s h)))
block-Passes _ _ (plain depth c d text e n k) rest s h =
    rw (e, n)
      (Passes-errors (advance-errors s)
        (block-Passes (suc depth) (d ∷ text) k rest (advance s) (step_left s h)))

end_block-Passes :
    (rest : Bytes) (errors : List Report) (r : Lexer × ℕ)
    → Passes rest errors r
    → ((end_block r).left ≡ rest) × ((end_block r).errors ≡ errors)
end_block-Passes rest errors (t, zero) h = (h.left_eq, h.errors_eq)
end_block-Passes rest errors (t, suc depth) h = absurd (omega (arith, h.depth_eq))

-- A comment with comments in it, closed as often as it is opened, is passed over in one round with
-- no token and no error, whatever stands behind it.
pub round_nested :
    (text rest : Bytes) (s : Lexer) (emit_newline : Bool)
    → Closed 1 text
    → s.left ≡ b'/' ∷ b'*' ∷ (text ++ rest)
    → (t : Lexer) × (round emit_newline s ≡ some (t, [])) × (t.left ≡ rest) × (t.errors ≡ s.errors)
unfolding round
round_nested text rest s emit_newline closed h =
    let f : peek_char s 0 ≡ b'/' = ap (λ l. get_or l 0 0) h in
    let g : peek_char s 1 ≡ b'*' = ap (λ l. get_or l 1 0) h in
    let body = advance (advance s) in
    let left = step_two_left s h in
    let passes = block-Passes 1 text closed rest body left in
    let passes' : Passes rest body.errors (block body.left 1 body) =
      subst (λ l. Passes rest body.errors (block l 1 body)) (sym left) passes in
    let (l, e) = end_block-Passes rest body.errors (block body.left 1 body) passes' in
    (block_comment s, rw (f, g) refl, l, e ∙ two_errors s)
