-- ===== src/Lexer/Skip/Rounds.antt =====
-- What one round of the loop over white space and comments does (bootstrap/cpp/src/lexer/lexer.cpp).
use ycpl.Base.{
  ℕ, zero, suc, ◌≡◌, refl, ◌≢◌, inl, inr, true, false, ◌&&◌, ◌||◌, Option, none, some, List, [],
  ◌∷◌, ◌==◌, arith, Bool-cases, eq_of_==,
}
use ycpl.Text.{Bytes, codes}
use ycpl.Token.{Token}
use ycpl.Lexer.Cursor.{Lexer, advance, peek_char}
use ycpl.Lexer.Cursor.Moves.{
  one, two, Consumed, stay, step, step_left, step_then, step_two, step_two_left, span,
  advance_while-Consumed, emit_error-Consumed,
}
use ycpl.Lexer.Skip.{
  is_blank, no_newline, opens, closes, block, end_block, line_comment, block_comment, newline_token,
  round,
}
use ycpl.Lexer.Skip.Gaps.{
  Piece, block_text, block_text-Comment, span-IsLine, span-EndsLine, blank, line_of, block_of,
}

block-Consumed :
    (cs : Bytes) (depth : ℕ) (s : Lexer)
    → s.left ≡ cs
    → Consumed s (block_text cs depth) ((block cs depth s).0)
unfolding block block_text
block-Consumed cs zero s h = stay s
block-Consumed [] (suc depth) s h = stay s
block-Consumed (c ∷ []) (suc depth) s h = step h
block-Consumed (c ∷ d ∷ cs) (suc depth) s h = elim (Bool-cases (opens c d)) [
  | inl e ↦ rw e (step_two h (block-Consumed cs (suc (suc depth)) _ (step_two_left s h)))
  | inr e ↦ elim (Bool-cases (closes c d)) [
    | inl k ↦ rw (e, k) (step_two h (block-Consumed cs depth _ (step_two_left s h)))
    | inr k ↦ rw (e, k) (step_then h (block-Consumed (d ∷ cs) (suc depth) _ (step_left s h)))
  ]
]

end_block-Consumed :
    {s : Lexer} {text : Bytes} (r : Lexer × ℕ)
    → Consumed s text (r.0)
    → Consumed s text (end_block r)
end_block-Consumed (t, zero) h = h
end_block-Consumed (t, suc depth) h = emit_error-Consumed _ h

-- What one round does, by the bytes at `current`.
pub data Round : Lexer → Option (Lexer × List Token) → Type 0 where
  skipped :
      (s t : Lexer) (a : Bytes) → Piece a t.left → a ≢ [] → Consumed s a t → Round s (some (t, []))
  newline :
      (s : Lexer)
      → Consumed s (codes "\n") (advance s)
      → Round s (some (advance s, newline_token s ∷ []))
  stopped :
      (s : Lexer)
      → is_blank (peek_char s 0) ≡ false
      → (peek_char s 0 == b'\n') ≡ false
      → (peek_char s 0 == b'/' && (peek_char s 1 == b'/' || peek_char s 1 == b'*')) ≡ false
      → Round s none

line_comment-Round :
    (cs : Bytes) (s : Lexer) → s.left ≡ b'/' ∷ b'/' ∷ cs → Round s (some (line_comment s, []))
line_comment-Round cs s h =
    let body = advance (advance s) in
    let read = advance_while-Consumed no_newline body.left body refl in
    skipped s _ (b'/' ∷ b'/' ∷ span no_newline body.left)
      (line_of _ _ (span-IsLine body.left) (span-EndsLine body.left _ read.left_eq)) (λ n. cc n)
      (step_two h read)

block_comment-Round :
    (cs : Bytes) (s : Lexer) → s.left ≡ b'/' ∷ b'*' ∷ cs → Round s (some (block_comment s, []))
block_comment-Round cs s h =
    let body = advance (advance s) in
    let read = end_block-Consumed _ (block-Consumed body.left 1 body refl) in
    skipped s _ (b'/' ∷ b'*' ∷ block_text body.left 1)
      (block_of _ _ (block_text-Comment body.left 1 _ read.left_eq)) (λ n. cc n) (step_two h read)

blank_ne : (c : ℕ) → is_blank c ≡ true → c ≢ 0
blank_ne c h e = ground arith

pub round-Round : (s : Lexer) → Round s (round true s)
unfolding round
round-Round s = elim (Bool-cases (is_blank (peek_char s 0))) [
  | inl e ↦
      let r = one s.left (peek_char s 0) (blank_ne _ e) refl in
      rw e (skipped s _ (peek_char s 0 ∷ []) (blank _ _ e) (λ n. cc n) (step r.1))
  | inr e ↦ elim (Bool-cases (peek_char s 0 == b'\n')) [
    | inl k ↦
        let r = one s.left b'\n' (λ n. omega arith) (eq_of_== _ _ k) in
        rw (e, k) (newline s (step r.1))
    | inr k ↦ elim (Bool-cases (peek_char s 0 == b'/' && peek_char s 1 == b'/')) [
      | inl m ↦
          let r =
            two s.left b'/' b'/' (λ n. omega arith) (λ n. omega arith) (ground arith)
              (ground arith) in
          rw (e, k, m) (line_comment-Round r.0 s r.1)
      | inr m ↦ elim (Bool-cases (peek_char s 0 == b'/' && peek_char s 1 == b'*')) [
        | inl n ↦
            let r =
              two s.left b'/' b'*' (λ n. omega arith) (λ n. omega arith) (ground arith)
                (ground arith) in
            rw (e, k, m, n) (block_comment-Round r.0 s r.1)
        | inr n ↦ rw (e, k, m, n) (stopped s e k (ground arith))
      ]
    ]
  ]
]
