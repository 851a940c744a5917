-- ===== src/Lexer/Cursor/Reached.antt =====
-- Runs of the lexer that may read nothing, and tokens cut out of the source
-- (bootstrap/cpp/src/lexer/lexer.cpp).
use mathlib.Core.Path.{subst}
use ycpl.Base.{ℕ, ◌≡◌, refl, sym, ap, ◌∙◌, ◌≢◌, Bool, true, false, [], ◌∷◌, ◌++◌, if◌then◌else◌}
use ycpl.Text.{Bytes}
use ycpl.Token.{TokenType, Token, Position, is_eof}
use ycpl.Lexer.Cursor.{
  Lexer, position, advance, advance_on, emit_error, advance_while, substr, make_token,
}
use ycpl.Lexer.Cursor.Moves.{
  Consumed, stay, step, join, span, span_step, advance_while-Consumed, emit_error-Consumed,
  substr-Consumed,
}

abbrev pub Reached : Lexer → Lexer → Type 0
Reached s t = (text : Bytes) × Consumed s text t

-- At least one byte was read.
abbrev pub Begun : Lexer → Lexer → Type 0
Begun s t = (text : Bytes) × (text ≢ []) × Consumed s text t

pub still : (s : Lexer) → Reached s s
still s = ([], stay s)

pub append-ne : (a b : Bytes) → a ≢ [] → a ++ b ≢ []
append-ne [] b h e = h refl
append-ne (c ∷ a) b h e = cc e

pub then-Reached : {s t u : Lexer} → Reached s t → Reached t u → Reached s u
then-Reached h k = (h.0 ++ k.0, join (h.1) (k.1))

pub Begun-then : {s t u : Lexer} → Begun s t → Reached t u → Begun s u
Begun-then h k = (h.0 ++ k.0, append-ne (h.0) (k.0) (h.1), join (h.2) (k.1))

pub reported : {s t : Lexer} (message : Bytes) → Reached s t → Reached s (emit_error t message)
reported message h = (h.0, emit_error-Consumed message (h.1))

pub reach_if :
    {s t u : Lexer} (b : Bool) → Reached s t → Reached s u → Reached s (if b then t else u)
reach_if true h k = h
reach_if false h k = k

pub reach_while : (p : ℕ → Bool) (s : Lexer) → Reached s (advance_while p s.left s)
reach_while p s = (span p s.left, advance_while-Consumed p s.left s refl)

pub Begun-step : {c : ℕ} {cs : Bytes} (s : Lexer) → s.left ≡ c ∷ cs → Begun s (advance s)
Begun-step {c} s h = (c ∷ [], (λ e. cc e), step h)

pub Begun-while :
    {c : ℕ} {cs : Bytes} (p : ℕ → Bool) (s : Lexer)
    → s.left ≡ c ∷ cs
    → p c ≡ true
    → Begun s (advance_while p s.left s)
Begun-while {c} {cs} p s h k =
    let e = ap (span p) h ∙ span_step p c cs k in
    (span p s.left, rw e (λ n. cc n), advance_while-Consumed p s.left s refl)

reach_on : (cs : Bytes) (s : Lexer) → s.left ≡ cs → Reached s (advance s)
unfolding advance
reach_on [] s h = subst (Reached s) (sym (ap (λ l. advance_on l s) h)) (still s)
reach_on (c ∷ cs) s h = (c ∷ [], step h)

pub reach_step : (s : Lexer) → Reached s (advance s)
reach_step s = reach_on s.left s refl

-- A token that holds the text between two states, with the position where it starts.
pub record Scanned (s : Lexer) (token : Token) (t : Lexer) : Type 0 where
  pub consumed : Consumed s token.lexeme t
  pub begun : token.lexeme ≢ []
  pub start_eq : token.start ≡ position s
  pub kind : is_eof token.type ≡ false

pub token-Scanned :
    {s t : Lexer} {type : TokenType} {text : Bytes} (lexeme : Bytes) (end : Position)
    → Consumed s text t
    → text ≢ []
    → lexeme ≡ text
    → is_eof type ≡ false
    → Scanned s (make_token type lexeme (position s) end) t
token-Scanned lexeme end h n e k = record {
  consumed = rw e h;
  begun = rw e n;
  start_eq = refl;
  kind = k;
}

pub substr-Scanned :
    {s t : Lexer} {type : TokenType} (text : Bytes) (end : Position)
    → s.left ≡ text
    → Begun s t
    → is_eof type ≡ false
    → Scanned s (make_token type (substr text t) (position s) end) t
substr-Scanned {t = t} text end e h k =
    token-Scanned (substr text t) end (h.2) (h.1)
      (ap (λ l. substr l t) (sym e) ∙ substr-Consumed (h.2)) k

abbrev pub Scans : Lexer → Token × Lexer → Type 0
Scans s r = Scanned s (r.0) (r.1)
