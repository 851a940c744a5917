-- ===== src/Lexer/Scan/Lexemes.antt =====
-- The tokens of a source, and what stands between them (bootstrap/cpp/src/lexer/lexer.cpp).
use mathlib.Core.Path.{subst}
use mathlib.Core.List.{append-nil}
use ycpl.Base.{
  ℕ, zero, suc, ◌≤◌, ◌<◌, ◌≡◌, refl, sym, ap, ◌∙◌, ◌≢◌, true, false, Option, none, some, List, [],
  ◌∷◌, ◌++◌, ◌==◌, length, get_or, arith, length-append, ◌>>=◌,
}
use ycpl.Text.{Bytes, codes}
use ycpl.Token.{TokenType, Token, Position, is_eof}
use ycpl.Lexer.Cursor.{Lexer, new_lexer, position, advance, peek_char, make_token, is_at_end}
use ycpl.Lexer.Cursor.Moves.{Consumed, join, after, after_column}
use ycpl.Lexer.Cursor.Reached.{Scanned}
use ycpl.Lexer.Skip.{newline_token}
use ycpl.Lexer.Skip.Gaps.{Gap, Lines, begins_gap}
use ycpl.Lexer.Skip.Whole.{Stopped, Skipped, quiet, noisy, skip_lem}
use ycpl.Lexer.Scan.{eof_token, choose_token, next_token, tokenize, tokenize_all, push_until}
use ycpl.Lexer.Scan.Operators.{scan_token-Scanned}

-- The tokens cover a source from a position on: before each token stand blanks and whole comments
-- alone, the lexeme, at which no blank, line end or comment begins, stands in the source at the token's start, and behind the token of a line end stand
-- blanks, comments and line ends that have no token. The last token is the end of the source.
pub data Covers : Bytes → Position → List Token → Type 0 where
  finish :
      (g : Bytes) (p : Position)
      → Gap g []
      → Covers g p (make_token TokenType.eof_token [] (after g p) (after g p) ∷ [])
  line_end :
      (src g h rest : Bytes) (p : Position) (token : Token) (tokens : List Token)
      → src ≡ g ++ codes "\n" ++ h ++ rest
      → Gap g (codes "\n" ++ h ++ rest)
      → Lines h rest
      → token ≡ make_token TokenType.newline (codes "\n") (after g p) (after (g ++ codes "\n") p)
      → Covers rest (after (g ++ codes "\n" ++ h) p) tokens
      → Covers src p (token ∷ tokens)
  word :
      (src g rest : Bytes) (p : Position) (token : Token) (tokens : List Token)
      → src ≡ g ++ token.lexeme ++ rest
      → Gap g (token.lexeme ++ rest)
      → begins_gap (token.lexeme ++ rest) ≡ false
      → token.lexeme ≢ []
      → is_eof token.type ≡ false
      → token.start ≡ after g p
      → Covers rest (after (g ++ token.lexeme) p) tokens
      → Covers src p (token ∷ tokens)

-- The next token and what is read before and behind it.
pub data Next (s : Lexer) : Token → Lexer → Type 0 where
  at_end :
      (g : Bytes) (t : Lexer) → Gap g t.left → Consumed s g t → t.left ≡ [] → Next s (eof_token t) t
  at_line :
      (g h : Bytes) (u t : Lexer)
      → Gap g u.left
      → Consumed s g u
      → Consumed u (codes "\n") (advance u)
      → Lines h t.left
      → Consumed (advance u) h t
      → Next s (newline_token u) t
  at_word :
      (g : Bytes) (t u : Lexer) (token : Token)
      → Gap g t.left
      → begins_gap t.left ≡ false
      → Consumed s g t
      → Scanned t token u
      → Next s token u

pub column_positive : (s t : Lexer) (g : Bytes) → Consumed s g t → 1 ≤ s.column → 1 ≤ t.column
column_positive s t g c h =
    subst (λ (p : Position). 1 ≤ p.column) (sym c.position_eq) (after_column g (position s) h)

pub Next-column : (s t : Lexer) (token : Token) → Next s token t → 1 ≤ s.column → 1 ≤ t.column
Next-column s _ _ (at_end g t gap c e) h = column_positive s t g c h
Next-column s _ _ (at_line g k u t gap c n lines d) h =
    column_positive s t (g ++ codes "\n" ++ k) (join (join c n) d) h
Next-column s _ _ (at_word g t u token gap new c w) h =
    column_positive s u (g ++ token.lexeme) (join c w.consumed) h

pub Next-kind :
    (s t : Lexer) (token : Token) → Next s token t → token.lexeme ≢ [] → is_eof token.type ≡ false
Next-kind s _ _ (at_end g t gap c e) h = absurd (h refl)
Next-kind s _ _ (at_line g k u t gap c n lines d) h = refl
Next-kind s _ _ (at_word g t u token gap new c w) h = w.kind

abbrev pub Picks : Lexer → Token × Lexer → Type 0
Picks s r = Next s (r.0) (r.1)

begins_gap-Stopped : (t : Lexer) → Stopped t → begins_gap t.left ≡ false
begins_gap-Stopped t (not_blank, not_line, not_mark) = rw (not_blank, not_line, not_mark) refl

choose_quiet :
    (s t : Lexer) (g l : Bytes)
    → t.left ≡ l
    → Gap g t.left
    → Consumed s g t
    → Stopped t
    → 1 ≤ s.column
    → Picks s (choose_token (t, []))
unfolding choose_token
choose_quiet s t g [] e gap c stopped h =
    let k : is_at_end t ≡ true = ap (λ l. length l == 0) e in rw k (at_end g t gap c e)
choose_quiet s t g (b ∷ l) e gap c stopped h =
    let k : is_at_end t ≡ false = ap (λ l. length l == 0) e ∙ ground arith in
    let f : peek_char t 0 ≡ b = ap (λ x. get_or x 0 0) e in
    rw k (
      at_word g t _ _ gap (begins_gap-Stopped t stopped) c (
        scan_token-Scanned b l t e (column_positive s t g c h)
          (ap (λ x. x == b'\n') (sym f) ∙ stopped.1)))

choose-Next :
    (s t : Lexer) (out : List Token)
    → Skipped s t out
    → Stopped t
    → 1 ≤ s.column
    → Picks s (choose_token (t, out))
unfolding choose_token
choose-Next s _ _ (quiet g t gap c) stopped h = choose_quiet s t g t.left refl gap c stopped h
choose-Next s _ _ (noisy g r u t out gap c n lines d) stopped h = at_line g r u t gap c n lines d

pub next_token-Next :
    (s : Lexer) → 1 ≤ s.column → (r : Token × Lexer) × (next_token s ≡ some r) × Picks s r
unfolding next_token
next_token-Next s h =
    let (t, out, e, k, stopped) = skip_lem s in
    (choose_token (t, out), rw e refl, choose-Next s t out k stopped h)

shorter :
    (s t : Lexer) (a : Bytes) (fuel : ℕ)
    → Consumed s a t
    → a ≢ []
    → length s.left < suc fuel
    → length t.left < fuel
shorter s t [] fuel c n h = absurd (n refl)
shorter s t (b ∷ a) fuel c n h = omega (arith, ap length c.left_eq, length-append (b ∷ a) t.left)

Tokens : Lexer → Option (List Token × Lexer) → Type 0
Tokens s none = ⊥
Tokens s (some (tokens, t)) = Covers s.left (position s) tokens × (t.left ≡ [])

Tokens-line :
    (s u t : Lexer) (g h : Bytes)
    → Gap g u.left
    → Consumed s g u
    → Consumed u (codes "\n") (advance u)
    → Lines h t.left
    → Consumed (advance u) h t
    → (r : Option (List Token × Lexer)) → Tokens t r
    → Tokens s (r >>= λ r. some (newline_token u ∷ r.0, r.1))
unfolding Tokens
Tokens-line s u t g h gap c n lines d none k = k
Tokens-line s u t g h gap c n lines d (some (tokens, v)) k =
    let ended = join c n in
    let both = join ended d in
    (
      line_end s.left g h t.left (position s) (newline_token u) tokens both.left_eq
          (subst (Gap g) (join n d).left_eq gap) lines
          (λ i. make_token TokenType.newline (codes "\n") (c.position_eq i) (ended.position_eq i))
          (subst (λ p. Covers t.left p tokens) both.position_eq (k.0)),
      k.1,
    )

Tokens-word :
    (s t u : Lexer) (g : Bytes) (token : Token)
    → Gap g t.left
    → begins_gap t.left ≡ false
    → Consumed s g t
    → Scanned t token u
    → (r : Option (List Token × Lexer)) → Tokens u r
    → Tokens s (r >>= λ r. some (token ∷ r.0, r.1))
unfolding Tokens
Tokens-word s t u g token gap new c w none k = k
Tokens-word s t u g token gap new c w (some (tokens, v)) k =
    let both = join c w.consumed in
    (
      word s.left g u.left (position s) token tokens both.left_eq
          (subst (Gap g) w.consumed.left_eq gap)
          (subst (λ l. begins_gap l ≡ false) w.consumed.left_eq new) w.begun w.kind
          (w.start_eq ∙ c.position_eq) (subst (λ p. Covers u.left p tokens) both.position_eq (k.0)),
      k.1,
    )

Tokens-end :
    (s t : Lexer) (g : Bytes)
    → Gap g t.left
    → Consumed s g t
    → t.left ≡ []
    → Tokens s (some (eof_token t ∷ [], t))
unfolding Tokens
Tokens-end s t g gap c e =
    let whole : s.left ≡ g = c.left_eq ∙ (ap (λ l. g ++ l) e ∙ append-nil g) in
    (
      subst (λ l. Covers l (position s) (eof_token t ∷ [])) (sym whole)
          (subst (λ p. Covers g (position s) (make_token TokenType.eof_token [] p p ∷ []))
            (sym c.position_eq) (finish g (position s) (subst (Gap g) e gap))),
      e,
    )

nonempty_line : (g h : Bytes) → g ++ codes "\n" ++ h ≢ []
nonempty_line g h e =
    omega (arith, ap length e, length-append (g ++ codes "\n") h, length-append g (codes "\n"))

nonempty_word : (g w : Bytes) → w ≢ [] → g ++ w ≢ []
nonempty_word [] w h e = h e
nonempty_word (c ∷ g) w h e = cc e

-- One token before the rest, on enough fuel.
push-Tokens :
    (fuel : ℕ)
    → ((s : Lexer) → length s.left < fuel → 1 ≤ s.column → Tokens s (tokenize fuel s))
    → (s : Lexer) → length s.left < suc fuel
    → 1 ≤ s.column
    → (token : Token) (t : Lexer) → Next s token t
    → Tokens s (push_until (tokenize fuel) (token, t))
push-Tokens fuel rest s h l _ _ (at_end g t gap c e) = Tokens-end s t g gap c e
push-Tokens fuel rest s h l _ _ (at_line g k u t gap c n lines d) =
    let both = join (join c n) d in
    Tokens-line s u t g k gap c n lines d _ (
      rest t (shorter s t (g ++ codes "\n" ++ k) fuel both (nonempty_line g k) h)
        (column_positive s t _ both l))
push-Tokens fuel rest s h l _ _ (at_word g t u token gap new c w) =
    let both = join c w.consumed in
    rw w.kind (
      Tokens-word s t u g token gap new c w _ (
        rest u (shorter s u (g ++ token.lexeme) fuel both (nonempty_word g token.lexeme w.begun) h)
          (column_positive s u _ both l)))

tokenize-Tokens :
    (fuel : ℕ) (s : Lexer) → length s.left < fuel → 1 ≤ s.column → Tokens s (tokenize fuel s)
unfolding tokenize
tokenize-Tokens zero s h l = absurd (omega arith)
tokenize-Tokens (suc fuel) s h l =
    let (r, e, next) = next_token-Next s l in
    rw e (push-Tokens fuel (tokenize-Tokens fuel) s h l (r.0) (r.1) next)

returned :
    (s : Lexer) (r : Option (List Token × Lexer))
    → Tokens s r
    → (tokens : List Token) × (t : Lexer) × (r ≡ some (tokens, t))
      × Covers s.left (position s) tokens
      × (t.left ≡ [])
unfolding Tokens
returned s none r = elim r [ ]
returned s (some (tokens, t)) r = (tokens, t, refl, r.0, r.1)

-- Every source gives a list of tokens that covers it from line 1, column 1: between the lexemes stand
-- just the blanks, the line ends and the whole comments, to the end of the line or to the mark that
-- matches the opening one, or the end of the source, and each token starts where its lexeme stands.
pub tokenize_all-Covers :
    (src : Bytes)
    → (tokens : List Token) × (t : Lexer) × (tokenize_all (new_lexer src) ≡ some (tokens, t))
      × Covers src (record { line = 1; column = 1 }) tokens
      × (t.left ≡ [])
tokenize_all-Covers src =
    returned (new_lexer src) _
      (tokenize-Tokens (suc (length src)) (new_lexer src) (omega arith) (omega arith))
