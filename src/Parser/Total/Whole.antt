-- ===== src/Parser/Total/Whole.antt =====
-- `parse_stmt` gives a result for any tokens (bootstrap/cpp/src/parser/parser.cpp).
use ycpl.Base.{
  Bool, ℕ, zero, suc, ◌+◌, ◌-◌, ◌≤◌, ◌<◌, ◌≡◌, refl, sym, inl, inr, true, false, List, [], ◌∷◌,
  ◌==◌, arith, Bool-cases,
}
use mathlib.Core.Path.{subst}
use ycpl.Token.{TokenType, Token, enumerator}
use ycpl.Parser.Cursor.{Parser, advance, check, is, skip_tokens, skip_newlines}
use ycpl.Parser.Types.Spelled.{skip_none}
use ycpl.Parser.Statements.{parse_stmt}
use ycpl.Parser.Total.{
  Ended, Within, Returns, returns, Returns-weaken, Returns-if, Returns-bind, left_over, take-Within,
  other_type, skip-Within, spent, spent_least, spent_most,
}
use ycpl.Parser.Total.Simple.{accept-Within, const-Returns, simple-Returns, return-Returns}
use ycpl.Parser.Total.Statements.{
  open_block-Returns, switch-Returns, defer-Returns, if-Returns, for-Returns,
}

-- A line break that stands next is read.
break_to-Within :
    {ok : Token → Bool} {w : ℕ} (ls : List Token) (s : Parser)
    → check TokenType.newline s ≡ true
    → Ended s.cur ls
    → Within ok w (advance s)
    → Within ok w (skip_tokens (is TokenType.newline) ls s)
unfolding Ended skip_tokens
break_to-Within [] s b e h = absurd (cc (e, other_type TokenType.newline s.cur b refl))
break_to-Within (t ∷ ls) s b e h = rw b (skip-Within (is TokenType.newline) ls (advance s) h)

module _ {ok : Token → Bool} (m : ℕ)
    (total : (v : ℕ) (s : Parser)
      → v + 3 ≤ m
      → Within ok v s
      → Returns ok (spent v (check TokenType.eof_token s)) (parse_stmt m s)) where
  -- A statement behind the line breaks before it.
  behind_breaks-Returns :
      (w : ℕ) (before : Parser)
      → w + 2 ≤ m
      → Within ok w (skip_newlines before)
      → Returns ok
          (spent w (check TokenType.eof_token (skip_newlines before)))
          (parse_stmt (suc m) before)
  unfolding parse_stmt
  behind_breaks-Returns w before l h =
      let s = skip_newlines before in
      let stmt = parse_stmt m in
      let least = spent_least w (check TokenType.eof_token s) in
      let keyword : (k : TokenType)
          → check k s ≡ true
          → (enumerator k == enumerator TokenType.eof_token) ≡ false
          → (0 < w) × Within ok (w - 1) (advance s) =
        λ k b e. let o = other_type k s.cur b e in (left_over h o, take-Within h o) in
      Returns-if (check TokenType.kw_break s)
        (λ b.
          let (z, g) = keyword TokenType.kw_break b refl in
          Returns-weaken least (returns (accept-Within TokenType.newline g)))
        λ _.
          Returns-if (check TokenType.kw_continue s)
            (λ b.
              let (z, g) = keyword TokenType.kw_continue b refl in
              Returns-weaken least (returns (accept-Within TokenType.newline g)))
            λ _.
              Returns-if (check TokenType.kw_return s)
                (λ b.
                  let (z, g) = keyword TokenType.kw_return b refl in
                  Returns-weaken least (return-Returns m (w - 1) _ (omega arith) g))
                λ _.
                  Returns-if (check TokenType.kw_defer s)
                    (λ b.
                      let (z, g) = keyword TokenType.kw_defer b refl in
                      Returns-weaken least (
                        Returns-bind (defer-Returns stmt m total (w - 1) _ (omega arith) g)
                          λ r k. returns k))
                    λ _.
                      Returns-if (check TokenType.kw_if s)
                        (λ b.
                          let (z, g) = keyword TokenType.kw_if b refl in
                          Returns-weaken least (
                            Returns-bind (if-Returns stmt m total (w - 1) _ (omega arith) g)
                              λ r k. returns k))
                        λ _.
                          Returns-if (check TokenType.kw_switch s)
                            (λ b. Returns-weaken least (
                              Returns-bind (switch-Returns stmt m total w s l h b)
                                λ r k. returns k))
                            λ _.
                              Returns-if (check TokenType.kw_for s)
                                (λ b.
                                  let (z, g) = keyword TokenType.kw_for b refl in
                                  Returns-weaken least (
                                    Returns-bind
                                      (for-Returns stmt m total (w - 1) _ (omega arith) g)
                                      λ r k. returns k))
                                λ _.
                                  Returns-if (check TokenType.kw_const s)
                                    (λ b.
                                      let (z, g) = keyword TokenType.kw_const b refl in
                                      Returns-weaken least
                                        (const-Returns m (w - 1) _ (omega arith) g))
                                    λ _.
                                      Returns-if (check TokenType.lbrace s)
                                        (λ b. Returns-weaken least (
                                          Returns-bind (open_block-Returns stmt m total w s l h b)
                                            λ r k. returns k))
                                        λ _. simple-Returns m w s l h

  stmt_step :
      (w : ℕ) (s : Parser)
      → w + 2 ≤ m
      → Within ok w s
      → Returns ok (spent w (check TokenType.eof_token s)) (parse_stmt (suc m) s)
  stmt_step w s l h = elim (Bool-cases (check TokenType.newline s)) [
    | inl b ↦
        let o = other_type TokenType.newline s.cur b refl in
        let z = left_over h o in
        let least = spent_least w (check TokenType.eof_token s) in
        let most = spent_most (w - 1) (check TokenType.eof_token (skip_newlines s)) in
        Returns-weaken (omega arith) (
          behind_breaks-Returns (w - 1) s (omega arith)
            (break_to-Within s.left s b h.ended (take-Within h o)))
    | inr b ↦
        let e : skip_newlines s ≡ s = skip_none (is TokenType.newline) s.left s b in
        subst (λ t. Returns ok (spent w (check TokenType.eof_token t)) (parse_stmt (suc m) s)) e
          (behind_breaks-Returns w s l (subst (Within ok w) (sym e) h))
  ]

-- From any tokens with the end of the source behind them `parse_stmt` gives a result, on three more fuel
-- than the tokens that are left: loops and nested statements end whatever is wrong in them. Where the
-- source has not ended, at least one token is read.
pub parse_stmt-Returns :
    {ok : Token → Bool} (n w : ℕ) (s : Parser)
    → w + 3 ≤ n
    → Within ok w s
    → Returns ok (spent w (check TokenType.eof_token s)) (parse_stmt n s)
parse_stmt-Returns zero w s l h = absurd (omega arith)
parse_stmt-Returns (suc m) w s l h = stmt_step m (parse_stmt-Returns m) w s (omega arith) h
