-- ===== src/Lexer/Literals/Quoted.antt =====
-- String and character literals hold what was read (bootstrap/cpp/src/lexer/lexer.cpp).
use mathlib.Core.List.{append-nil, append_assoc}
use ycpl.Base.{
  ℕ, ◌≡◌, refl, sym, ap, ◌∙◌, inl, inr, Bool, true, false, [], ◌∷◌, ◌++◌, ◌==◌, arith, Bool-cases,
  eq_of_==,
}
use ycpl.Text.{Bytes}
use ycpl.Token.{TokenType, is_eof}
use ycpl.Lexer.Cursor.{Lexer, position, advance, advance_while, peek_char, is_at_end}
use ycpl.Lexer.Cursor.Moves.{
  Consumed, stay, step, step_two, step_left, step_two_left, join, emit_error-Consumed,
  substr-Consumed, one,
}
use ycpl.Lexer.Cursor.Reached.{
  Reached, still, then-Reached, reported, reach_if, reach_while, reach_step, substr-Scanned,
  token-Scanned, Scans,
}
use ycpl.Lexer.Literals.{
  string_body, illegal, token_from, end_string, string_literal, not_backquote, not_quote,
  close_char, char_literal,
}

-- The loop over a string literal reads what it adds to `sb`, unless it ends at the closing quote.
Body : Bytes → Lexer → Bool × Bytes × Lexer → Type 0
Body sb s r = (text : Bytes) × Consumed s text (r.2) × (r.0 ≡ false → r.1 ≡ sb ++ text)

Body-step :
    (sb a : Bytes) (s t : Lexer) (r : Bool × Bytes × Lexer)
    → Consumed s a t
    → Body (sb ++ a) t r
    → Body sb s r
unfolding Body
Body-step sb a s t r c (text, k, e) = (a ++ text, join c k, λ f. e f ∙ append_assoc sb a text)

Body-end :
    (sb : Bytes) (s : Lexer) (t : Lexer) (text : Bytes)
    → Consumed s text t
    → Body sb s (false, sb ++ text, t)
unfolding Body
Body-end sb s t text c = (text, c, λ f. refl)

Body-closed :
    (sb : Bytes) (s : Lexer) (t : Lexer) (text : Bytes)
    → Consumed s text t
    → Body sb s (true, sb, t)
unfolding Body
Body-closed sb s t text c = (text, c, λ f. cc f)

string_body-Body : (cs sb : Bytes) (s : Lexer) → s.left ≡ cs → Body sb s (string_body cs sb s)
unfolding string_body Body
string_body-Body [] sb s h = ([], stay s, λ f. sym (append-nil sb))
string_body-Body (c ∷ []) sb s h = elim (Bool-cases (c == b'\\')) [
  | inl e ↦ rw e (Body-end sb s _ (c ∷ []) (emit_error-Consumed _ (step h)))
  | inr e ↦ elim (Bool-cases (c == b'"')) [
    | inl k ↦ rw (e, k) (Body-closed sb s (advance s) (c ∷ []) (step h))
    | inr k ↦ rw (e, k) (Body-end sb s (advance s) (c ∷ []) (step h))
  ]
]
string_body-Body (c ∷ d ∷ cs) sb s h = elim (Bool-cases (c == b'\\')) [
  | inl e ↦ rw e (
      Body-step sb (c ∷ d ∷ []) s _ _ (step_two h (stay _))
        (string_body-Body cs (sb ++ c ∷ d ∷ []) _ (step_two_left s h)))
  | inr e ↦ elim (Bool-cases (c == b'"')) [
    | inl k ↦ rw (e, k) (Body-closed sb s (advance s) (c ∷ []) (step h))
    | inr k ↦
        rw (e, k)
          (Body-step sb (c ∷ []) s (advance s) _ (step h)
            (string_body-Body (d ∷ cs) (sb ++ c ∷ []) _ (step_left s h)))
  ]
]

-- The literal starts at `s`, and `t` stands behind its opening quote.
module _ (s t : Lexer) (q : ℕ) (h : Consumed s (q ∷ []) t) where
  from_quote :
      (type : TokenType) (u : Lexer)
      → is_eof type ≡ false
      → Reached t u
      → Scans s (token_from (q ∷ t.left) (position s) type u)
  from_quote type u k r =
      substr-Scanned (q ∷ t.left) (position u) h.left_eq (q ∷ r.0, (λ e. cc e), join h (r.1)) k

  illegal-Scanned :
      (message sb text : Bytes) (u : Lexer)
      → Consumed t text u
      → sb ≡ q ∷ text
      → Scans s (illegal (position s) message sb u)
  illegal-Scanned message sb text u c e =
      token-Scanned sb _ (emit_error-Consumed message (join h c)) (λ n. cc n) e refl

  end_string-Scanned :
      (r : Bool × Bytes × Lexer)
      → Body (q ∷ []) t r
      → Scans s (end_string (q ∷ t.left) (position s) r)
  unfolding Body
  end_string-Scanned (true, sb, u) (text, c, e) = from_quote TokenType.string u refl (text, c)
  end_string-Scanned (false, sb, u) (text, c, e) = illegal-Scanned _ sb text u c (e refl)

  pub string-Scanned : Scans s (string_literal (position s) q t)
  unfolding string_literal
  string-Scanned =
      let body = advance_while not_backquote t.left t in
      let r = reach_while not_backquote t in
      elim (Bool-cases (q == b'`')) [
        | inl e ↦ elim (Bool-cases (is_at_end body)) [
          | inl k ↦
              rw (e, k)
                (illegal-Scanned _ _ (r.0) body (r.1) (ap (λ l. q ∷ l) (substr-Consumed (r.1))))
          | inr k ↦
              rw (e, k)
                (from_quote TokenType.string (advance body) refl (then-Reached r (reach_step body)))
        ]
        | inr e ↦ rw e (end_string-Scanned _ (string_body-Body t.left (q ∷ []) t refl))
      ]

close-Reached : (s : Lexer) → Reached s (close_char s)
unfolding close_char
close-Reached s =
    let found =
      reach_if (peek_char s 0 == b'\'') (still s)
        (then-Reached (reported _ (still s)) (reach_while not_quote _)) in
    reach_if _ (then-Reached found (reach_step _)) found

module _ (s t : Lexer) (h : Consumed s (b'\'' ∷ []) t) where
  pub char-Scanned : Scans s (char_literal (position s) t)
  unfolding char_literal
  char-Scanned = elim (Bool-cases (is_at_end t)) [
    | inl e ↦ rw e (illegal-Scanned s t b'\'' h _ _ [] t (stay t) refl)
    | inr e ↦ elim (Bool-cases (peek_char t 0 == b'\\')) [
      | inl k ↦ elim (Bool-cases (is_at_end (advance t))) [
        | inl m ↦
            let r = one t.left b'\\' (λ n. omega arith) (eq_of_== _ _ k) in
            rw (e, k, m) (illegal-Scanned s t b'\'' h _ _ (b'\\' ∷ []) (advance t) (step r.1) refl)
        | inr m ↦
            rw (e, k, m)
              (from_quote s t b'\'' h TokenType.char _ refl (
                then-Reached (reach_step t)
                  (then-Reached (reach_step (advance t)) (close-Reached _))))
      ]
      | inr k ↦
          rw (e, k)
            (from_quote s t b'\'' h TokenType.char _ refl
              (then-Reached (reach_step t) (close-Reached _)))
    ]
  ]
