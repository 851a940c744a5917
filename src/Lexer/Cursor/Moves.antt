-- ===== src/Lexer/Cursor/Moves.antt =====
-- Positions in the text and what advancing changes (bootstrap/cpp/src/lexer/lexer.cpp).
use mathlib.Core.List.{append_assoc}
use ycpl.Base.{
  ℕ, ◌+◌, ◌-◌, ◌≤◌, ◌≡◌, ◌≢◌, refl, sym, ap, ◌∙◌, inl, inr, Bool, true, false, [], ◌∷◌, ◌++◌, ltb,
  ◌==◌, if◌then◌else◌, length, take-length, get_or, take, arith, Bool-cases, length-append,
}
use ycpl.Text.{Bytes}
use ycpl.Token.{Position}
use ycpl.Lexer.Cursor.{
  Lexer, position, advance_on, advance, step_back, emit_error, substr, advance_while,
}

-- The position behind a byte, and behind a text.
abbrev pub next_position : ℕ → Position → Position
next_position c p = record {
  line = if c == b'\n' then p.line + 1 else p.line;
  column = if c == b'\n' then 1 else p.column + 1;
}

unfoldable pub after : Bytes → Position → Position
after [] p = p
after (c ∷ cs) p = after cs (next_position c p)

pub after-append : (a b : Bytes) (p : Position) → after (a ++ b) p ≡ after b (after a p)
unfolding after
after-append [] b p = refl
after-append (c ∷ a) b p = after-append a b (next_position c p)

pub after_column : (a : Bytes) (p : Position) → 1 ≤ p.column → 1 ≤ (after a p).column
unfolding after
after_column [] p h = h
after_column (c ∷ a) p h = after_column a (next_position c p) (ground arith)

-- From `s` to `t` the lexer has consumed `text`, and stands behind it.
pub record Consumed (s : Lexer) (text : Bytes) (t : Lexer) : Type 0 where
  pub left_eq : s.left ≡ text ++ t.left
  pub position_eq : position t ≡ after text (position s)

pub stay : (s : Lexer) → Consumed s [] s
unfolding after
stay s = record { left_eq = refl; position_eq = refl }

pub emit_error-Consumed :
    {s t : Lexer} {text : Bytes} (message : Bytes)
    → Consumed s text t
    → Consumed s text (emit_error t message)
emit_error-Consumed message h = record { left_eq = h.left_eq; position_eq = h.position_eq }

pub join : {s t u : Lexer} {a b : Bytes} → Consumed s a t → Consumed t b u → Consumed s (a ++ b) u
join {s} {t} {u} {a} {b} h k = record {
  left_eq = h.left_eq ∙ (ap (λ r. a ++ r) k.left_eq ∙ sym (append_assoc a b u.left));
  position_eq = k.position_eq ∙ (ap (after b) h.position_eq ∙ sym (after-append a b (position s)));
}

pub step : {c : ℕ} {cs : Bytes} {s : Lexer} → s.left ≡ c ∷ cs → Consumed s (c ∷ []) (advance s)
unfolding advance after
step {c} {cs} {s} h = record {
  left_eq = h ∙ ap (λ r. c ∷ r) (ap (λ l. (advance_on l s).left) (sym h));
  position_eq = ap (λ l. position (advance_on l s)) h;
}

pub step_left : {c : ℕ} {cs : Bytes} (s : Lexer) → s.left ≡ c ∷ cs → (advance s).left ≡ cs
unfolding advance
step_left s h = ap (λ l. (advance_on l s).left) h

pub step_then :
    {c : ℕ} {cs : Bytes} {s t : Lexer} {text : Bytes}
    → s.left ≡ c ∷ cs
    → Consumed (advance s) text t
    → Consumed s (c ∷ text) t
step_then h k = join (step h) k

pub step_two :
    {c d : ℕ} {cs : Bytes} {s t : Lexer} {text : Bytes}
    → s.left ≡ c ∷ d ∷ cs
    → Consumed (advance (advance s)) text t
    → Consumed s (c ∷ d ∷ text) t
step_two h k = step_then h (step_then (step_left _ h) k)

pub step_two_left :
    {c d : ℕ} {cs : Bytes} (s : Lexer) → s.left ≡ c ∷ d ∷ cs → (advance (advance s)).left ≡ cs
step_two_left s h = step_left _ (step_left s h)

-- A byte that is read and is not NUL stands in the text.
pub one : (cs : Bytes) (k : ℕ) → k ≢ 0 → get_or cs 0 0 ≡ k → (rest : Bytes) × (cs ≡ k ∷ rest)
one [] k n h = absurd (n (sym h))
one (c ∷ cs) k n h = (cs, ap (λ x. x ∷ cs) h)

pub two :
    (cs : Bytes) (k l : ℕ)
    → k ≢ 0
    → l ≢ 0
    → get_or cs 0 0 ≡ k
    → get_or cs 1 0 ≡ l
    → (rest : Bytes) × (cs ≡ k ∷ l ∷ rest)
two [] k l n m h e = absurd (n (sym h))
two (c ∷ cs) k l n m h e = let r = one cs l m e in (r.0, ap (λ x. x ∷ cs) h ∙ ap (λ t. k ∷ t) r.1)

-- The lexeme cut out of the source is the text that was consumed.
pub substr-Consumed : {s t : Lexer} {text : Bytes} → Consumed s text t → substr s.left t ≡ text
substr-Consumed {s} {t} {text} h =
    let e : length s.left - length t.left ≡ length text =
      omega (arith, ap length h.left_eq, length-append text t.left) in
    rw e (ap (take (length text)) h.left_eq ∙ take-length text t.left)

-- The text that the loop passes over: the longest prefix whose bytes satisfy the test.
unfoldable pub span : (ℕ → Bool) → Bytes → Bytes
span p [] = []
span p (c ∷ cs) = if p c then c ∷ span p cs else []

module _ (p : ℕ → Bool) where
  pub span_step : (c : ℕ) (cs : Bytes) → p c ≡ true → span p (c ∷ cs) ≡ c ∷ span p cs
  unfolding span
  span_step c cs h = rw h refl

  pub advance_while-Consumed :
      (cs : Bytes) (s : Lexer) → s.left ≡ cs → Consumed s (span p cs) (advance_while p cs s)
  unfolding advance_while span
  advance_while-Consumed [] s h = stay s
  advance_while-Consumed (c ∷ cs) s h = elim (Bool-cases (p c)) [
    | inl e ↦ rw e (step_then h (advance_while-Consumed cs (advance s) (step_left _ h)))
    | inr e ↦ rw e (stay s)
  ]

column_back : (n : ℕ) → 1 ≤ n → (if ltb 1 (n + 1) then n + 1 - 1 else n + 1) ≡ n
column_back n h = ground arith

-- Stepping back over the byte that was just read undoes the step.
pub step_back-advance :
    (c : ℕ) (cs : Bytes) (s : Lexer)
    → s.left ≡ c ∷ cs
    → (c == b'\n') ≡ false
    → 1 ≤ s.column
    → step_back c (advance s) ≡ s
unfolding advance step_back
step_back-advance c cs s h e k =
    ap (λ l. step_back c (advance_on l s)) h
    ∙ rw (e, column_back s.column k) (λ i. record s { left = sym h i })
