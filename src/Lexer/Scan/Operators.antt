-- ===== src/Lexer/Scan/Operators.antt =====
-- Operators and the choice of a token hold what was read (bootstrap/cpp/src/lexer/lexer.cpp).
use mathlib.Core.Path.{subst}
use ycpl.Base.{
  ℕ, ◌≤◌, ◌≡◌, refl, sym, ap, ◌∙◌, inl, inr, Bool, true, false, not, ◌||◌, ◌&&◌, Option, none, some,
  [], ◌∷◌, ◌==◌, if◌then◌else◌, get_or, arith, Bool-cases, eq_of_==,
}
use ycpl.Text.{Bytes, codes}
use ycpl.Token.{TokenType, is_eof}
use ycpl.Lexer.Cursor.{
  Lexer, position, advance, peek_char, peek_nonspace_char, is_digit, is_ident_start,
}
use ycpl.Lexer.Cursor.Moves.{
  Consumed, stay, step, step_then, step_two, emit_error-Consumed, one, two, step_back-advance,
}
use ycpl.Lexer.Cursor.Reached.{token-Scanned, Scans}
use ycpl.Lexer.Literals.Numbers.{number-Scanned, identifier-Scanned}
use ycpl.Lexer.Literals.Quoted.{string-Scanned, char-Scanned}
use ycpl.Lexer.Scan.{follow, alone, scan_literal, scan_single, scan_pair, scan_token}

fine : Option TokenType → Bool
fine none = true
fine (some type) = not (is_eof type)

fine_if :
    (b : Bool) (x y : Option TokenType) → fine (if b then x else y) ≡ (if b then fine x else fine y)
fine_if true x y = refl
fine_if false x y = refl

if_same : (b : Bool) → (if b then true else true) ≡ true
if_same true = refl
if_same false = refl

fine-some :
    (o : Option TokenType) (type : TokenType) → fine o ≡ true → o ≡ some type → is_eof type ≡ false
unfolding fine
fine-some none type h e = cc e
fine-some (some t) type h e = ground arith

follow-fine : (c d : ℕ) → fine (follow c d) ≡ true
unfolding follow fine
follow-fine c d = simp (fine_if, if_same) refl

follow-kind : (c d : ℕ) (type : TokenType) → follow c d ≡ some type → is_eof type ≡ false
follow-kind c d type h = fine-some (follow c d) type (follow-fine c d) h

follow_zero : (c : ℕ) → follow c 0 ≡ none
unfolding follow
follow_zero c = ground arith

alone-kind : (c next : ℕ) (type : TokenType) → alone c next ≡ some type → is_eof type ≡ false
unfolding alone
alone-kind c next type h = ground arith

literal-Scanned :
    (c : ℕ) (cs : Bytes) (s : Lexer)
    → s.left ≡ c ∷ cs
    → 1 ≤ s.column
    → (c == b'\n') ≡ false
    → Scans s (scan_literal (position s) c (advance s))
unfolding scan_literal
literal-Scanned c cs s h l m = elim (Bool-cases (c == b'\'')) [
  | inl e ↦
      let k = subst (λ x. Consumed s (x ∷ []) (advance s)) (eq_of_== _ _ e) (step h) in
      rw e (char-Scanned s (advance s) k)
  | inr e ↦ elim (Bool-cases (c == b'"' || c == b'`')) [
    | inl k ↦ rw (e, k) (string-Scanned s (advance s) c (step h))
    | inr k ↦ elim (Bool-cases (is_digit c)) [
      | inl n ↦ rw (e, k, n, step_back-advance c cs s h m l) (number-Scanned s h n)
      | inr n ↦ elim (Bool-cases (is_ident_start c)) [
        | inl o ↦ rw (e, k, n, o, step_back-advance c cs s h m l) (identifier-Scanned s h)
        | inr o ↦
            rw (e, k, n, o)
              (token-Scanned (c ∷ []) _ (emit_error-Consumed _ (step h)) (λ x. cc x) refl refl)
      ]
    ]
  ]
]

single-Scanned :
    (c : ℕ) (cs : Bytes) (s : Lexer)
    → s.left ≡ c ∷ cs
    → 1 ≤ s.column
    → (c == b'\n') ≡ false
    → (o : Option TokenType) → ((type : TokenType) → o ≡ some type → is_eof type ≡ false)
    → Scans s (scan_single (position s) c (advance s) o)
single-Scanned c cs s h l m none k = literal-Scanned c cs s h l m
single-Scanned c cs s h l m (some type) k =
    token-Scanned (c ∷ []) _ (step h) (λ x. cc x) refl (k type refl)

pair-Scanned :
    (c : ℕ) (cs : Bytes) (s : Lexer)
    → s.left ≡ c ∷ cs
    → 1 ≤ s.column
    → (c == b'\n') ≡ false
    → (o : Option TokenType) → follow c (peek_char (advance s) 0) ≡ o
    → Scans s (scan_pair (position s) c (advance s) o)
pair-Scanned c cs s h l m none k =
    single-Scanned c cs s h l m (alone c (peek_nonspace_char (advance s))) (alone-kind c _)
pair-Scanned c cs s h l m (some type) k =
    let d = peek_char (advance s) 0 in
    let r = one (advance s).left d (λ z. cc (sym k ∙ ap (follow c) z ∙ follow_zero c)) refl in
    token-Scanned (c ∷ d ∷ []) _ (step_then h (step r.1)) (λ x. cc x) refl (follow-kind c d type k)

-- A token holds what was read, at least one byte, and starts where it was read.
pub scan_token-Scanned :
    (c : ℕ) (cs : Bytes) (s : Lexer)
    → s.left ≡ c ∷ cs
    → 1 ≤ s.column
    → (c == b'\n') ≡ false
    → Scans s (scan_token s)
unfolding scan_token
scan_token-Scanned c cs s h l m =
    let t = advance s in
    let e : peek_char s 0 ≡ c = ap (λ x. get_or x 0 0) h in
    elim (Bool-cases (c == b'.' && peek_char t 0 == b'.' && peek_char t 1 == b'.')) [
      | inl k ↦
          let r =
            two t.left b'.' b'.' (λ n. omega arith) (λ n. omega arith) (ground arith)
              (ground arith) in
          let d : c ≡ b'.' = ground arith in
          rw (e, k)
            (token-Scanned (codes "...") _
              (step_then (h ∙ ap (λ x. x ∷ cs) d) (step_two r.1 (stay _))) (λ x. cc x) refl refl)
      | inr k ↦ rw (e, k) (pair-Scanned c cs s h l m _ refl)
    ]
