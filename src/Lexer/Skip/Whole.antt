-- ===== src/Lexer/Skip/Whole.antt =====
-- The loop over white space and comments as a whole (bootstrap/cpp/src/lexer/lexer.cpp).
use mathlib.Core.List.{append-nil}
use mathlib.Core.Path.{subst}
use ycpl.Base.{
  ℕ, zero, suc, ◌<◌, ◌≡◌, refl, ap, ◌≢◌, ◌&&◌, ◌||◌, true, false, Option, none, some, List, [], ◌∷◌,
  ◌++◌, ◌==◌, length, arith, length-append,
}
use ycpl.Text.{Bytes, codes}
use ycpl.Token.{Token}
use ycpl.Lexer.Cursor.{Lexer, advance, peek_char}
use ycpl.Lexer.Cursor.Moves.{Consumed, stay, join}
use ycpl.Lexer.Skip.{skip_whitespace_and_comments, is_blank, newline_token, round, skip, resume}
use ycpl.Lexer.Skip.Gaps.{Piece, Gap, Lines, empty, piece, no_lines, more, line_end}
use ycpl.Lexer.Skip.Rounds.{Round, skipped, newline, stopped, round-Round}

-- No white space and no comment stands at `current`.
abbrev pub Stopped : Lexer → Type 0
Stopped s =
    (is_blank (peek_char s 0) ≡ false)
    × ((peek_char s 0 == b'\n') ≡ false)
    × ((peek_char s 0 == b'/' && (peek_char s 1 == b'/' || peek_char s 1 == b'*')) ≡ false)

-- What the loop leaves of the source, and the tokens that it has pushed: none, where it met no line
-- end, or first the token of the first line end.
pub data Skipped (s : Lexer) : Lexer → List Token → Type 0 where
  quiet : (g : Bytes) (t : Lexer) → Gap g t.left → Consumed s g t → Skipped s t []
  noisy :
      (g h : Bytes) (u t : Lexer) (out : List Token)
      → Gap g u.left
      → Consumed s g u
      → Consumed u (codes "\n") (advance u)
      → Lines h t.left
      → Consumed (advance u) h t
      → Skipped s t (newline_token u ∷ out)

-- After a line end: the tokens that were pushed stay in front.
pub data Passed (s : Lexer) (token : Token) : Lexer → List Token → Type 0 where
  passed :
      (g : Bytes) (t : Lexer) (out : List Token)
      → Lines g t.left
      → Consumed s g t
      → Passed s token t (token ∷ out)

length_positive : (a : Bytes) → a ≢ [] → 0 < length a
length_positive [] h = absurd (h refl)
length_positive (c ∷ a) h = omega arith

left_less :
    (s t : Lexer) (a : Bytes) (fuel : ℕ)
    → Consumed s a t
    → a ≢ []
    → length s.left < suc fuel
    → length t.left < fuel
left_less s t a fuel h n k =
    omega (arith, ap length h.left_eq, length-append a t.left, length_positive a n)

Result : (Lexer → List Token → Type 0) → Option (Lexer × List Token) → Type 0
Result P none = ⊥
Result P (some (t, out)) = P t out × Stopped t

Passed-before :
    (s t : Lexer) (token : Token) (a : Bytes)
    → ((g rest : Bytes) → t.left ≡ g ++ rest → Lines g rest → Lines (a ++ g) rest)
    → Consumed s a t
    → (r : Option (Lexer × List Token)) → Result (Passed t token) r
    → Result (Passed s token) r
unfolding Result
Passed-before s t token a h k none r = r
Passed-before s t token a h k (some (_, _)) (passed g u out l c, e) =
    (passed (a ++ g) u out (h g u.left c.left_eq l) (join k c), e)

-- One round before the rest of the loop, once a token has been pushed.
module _ (token : Token) (fuel : ℕ) where
  abbrev Rest : Type 0
  Rest =
      (s : Lexer) (out : List Token)
      → length s.left < fuel
      → Result (Passed s token) (skip fuel true s (token ∷ out))

  Passed-round :
      Rest
      → (s : Lexer) (out : List Token) → length s.left < suc fuel
      → (r : Option (Lexer × List Token)) → Round s r
      → Result (Passed s token) (resume (skip fuel true) r s (token ∷ out))
  unfolding Result
  Passed-round rest s out h _ (skipped _ t a p n c) =
      Passed-before s t token a (λ g r f. more a g r (subst (Piece a) f p)) c _
        (rw append-nil (rest t out (left_less s t a fuel c n h)))
  Passed-round rest s out h _ (newline _ c) =
      Passed-before s (advance s) token (codes "\n") (λ g r f. line_end g r) c _
        (rest (advance s) (out ++ newline_token s ∷ [])
          (left_less s (advance s) (codes "\n") fuel c (λ e. cc e) h))
  Passed-round rest s out h _ (stopped _ e k n) =
      (passed [] s out (no_lines s.left) (stay s), (e, k, n))

passed_lem : (token : Token) (fuel : ℕ) → Rest token fuel
unfolding skip
passed_lem token zero s out h = absurd (omega arith)
passed_lem token (suc fuel) s out h =
    Passed-round token fuel (passed_lem token fuel) s out h (round true s) (round-Round s)

Skipped-before :
    (s t : Lexer) (a : Bytes)
    → Piece a t.left
    → Consumed s a t
    → (r : Option (Lexer × List Token)) → Result (Skipped t) r
    → Result (Skipped s) r
unfolding Result
Skipped-before s t a p c none r = r
Skipped-before s t a p c (some (_, _)) (quiet g u l k, e) =
    (quiet (a ++ g) u (piece a g _ (subst (Piece a) k.left_eq p) l) (join c k), e)
Skipped-before s t a p c (some (_, _)) (noisy g h u v out l k n m d, e) =
    (noisy (a ++ g) h u v out (piece a g _ (subst (Piece a) k.left_eq p) l) (join c k) n m d, e)

Skipped-newline :
    (s : Lexer)
    → Consumed s (codes "\n") (advance s)
    → (r : Option (Lexer × List Token)) → Result (Passed (advance s) (newline_token s)) r
    → Result (Skipped s) r
unfolding Result
Skipped-newline s c none r = r
Skipped-newline s c (some (_, _)) (passed g u out l k, e) =
    (noisy [] g s u out (empty s.left) (stay s) c l k, e)

Skipped-round :
    (fuel : ℕ)
    → ((s : Lexer) → length s.left < fuel → Result (Skipped s) (skip fuel true s []))
    → (s : Lexer) → length s.left < suc fuel
    → (r : Option (Lexer × List Token)) → Round s r
    → Result (Skipped s) (resume (skip fuel true) r s [])
unfolding Result
Skipped-round fuel rest s h _ (skipped _ t a p n c) =
    Skipped-before s t a p c _ (rest t (left_less s t a fuel c n h))
Skipped-round fuel rest s h _ (newline _ c) = Skipped-newline s c _ (
    passed_lem (newline_token s) fuel (advance s) []
      (left_less s (advance s) (codes "\n") fuel c (λ e. cc e) h))
Skipped-round fuel rest s h _ (stopped _ e k n) = (quiet [] s (empty s.left) (stay s), (e, k, n))

skip-Skipped :
    (fuel : ℕ) (s : Lexer) → length s.left < fuel → Result (Skipped s) (skip fuel true s [])
unfolding skip
skip-Skipped zero s h = absurd (omega arith)
skip-Skipped (suc fuel) s h =
    Skipped-round fuel (skip-Skipped fuel) s h (round true s) (round-Round s)

returned :
    (P : Lexer → List Token → Type 0) (r : Option (Lexer × List Token))
    → Result P r
    → (t : Lexer) × (out : List Token) × (r ≡ some (t, out)) × P t out × Stopped t
unfolding Result
returned P none r = elim r [ ]
returned P (some (t, out)) r = (t, out, refl, r.0, r.1)

pub skip_lem :
    (s : Lexer)
    → (t : Lexer) × (out : List Token) × (skip_whitespace_and_comments s [] true ≡ some (t, out))
      × Skipped s t out
      × Stopped t
skip_lem s = returned (Skipped s) _ (skip-Skipped (suc (length s.left)) s (omega arith))
