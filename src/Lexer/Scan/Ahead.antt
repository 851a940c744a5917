-- ===== src/Lexer/Scan/Ahead.antt =====
-- Looking ahead and reading on give the same tokens (bootstrap/cpp/src/lexer/lexer.cpp).
use mathlib.Core.Path.{subst}
use ycpl.Base.{
  ℕ, zero, suc, ◌<◌, ◌≡◌, refl, ap, ◌∙◌, inl, inr, Option, none, some, List, [], ◌∷◌, length,
  get_or, arith, Bool-cases, ◌>>=◌,
}
use ycpl.Token.{Token, is_eof}
use ycpl.Lexer.Cursor.{Lexer}
use ycpl.Lexer.Scan.{next_token, peek, push_until, tokenize}

get_or-default :
    (tokens : List Token) (k : ℕ) (a b : Token)
    → k < length tokens
    → get_or tokens k a ≡ get_or tokens k b
get_or-default [] k a b h = absurd (omega arith)
get_or-default (x ∷ tokens) zero a b h = refl
get_or-default (x ∷ tokens) (suc k) a b h = get_or-default tokens k a b (omega arith)

-- What `tokenize` found from the second token on.
abbrev Ahead : Lexer → Option (List Token × Lexer) → Type 0
Ahead s none = Unit
Ahead s (some (tokens, t)) =
    (k : ℕ) (default : Token)
    → k < length tokens
    → peek (suc k) s default ≡ some (get_or tokens k default)

after_first :
    (s : Lexer) (r : Token × Lexer) (t : Lexer) (tokens : List Token)
    → next_token s ≡ some r
    → Ahead (r.1) (some (tokens, t))
    → Ahead s (some (r.0 ∷ tokens, t))
unfolding peek
after_first s r t tokens e h zero default l = rw e refl
after_first s r t tokens e h (suc k) default l =
    rw e (h k (r.0) (omega arith) ∙ ap some (get_or-default tokens k (r.0) default (omega arith)))

Ahead-push :
    (s : Lexer) (r : Token × Lexer) (rest : Option (List Token × Lexer))
    → next_token s ≡ some r
    → Ahead (r.1) rest
    → Ahead s (rest >>= λ q. some (r.0 ∷ q.0, q.1))
Ahead-push s r none e h = tt
Ahead-push s r (some (tokens, t)) e h = after_first s r t tokens e h

Ahead-last :
    (s t : Lexer) (token : Token) → next_token s ≡ some (token, t) → Ahead s (some (token ∷ [], t))
unfolding peek
Ahead-last s t token e zero default l = rw e refl
Ahead-last s t token e (suc k) default l = absurd (omega arith)

Ahead-step :
    (fuel : ℕ)
    → ((s : Lexer) → Ahead s (tokenize fuel s))
    → (s : Lexer) (o : Option (Token × Lexer)) → next_token s ≡ o
    → Ahead s (o >>= λ r. push_until (tokenize fuel) r)
Ahead-step fuel ih s none e = tt
Ahead-step fuel ih s (some (token, t)) e = elim (Bool-cases (is_eof token.type)) [
  | inl k ↦ rw k (Ahead-last s t token e)
  | inr k ↦ rw k (Ahead-push s (token, t) (tokenize fuel t) e (ih t))
]

tokenize-Ahead : (fuel : ℕ) (s : Lexer) → Ahead s (tokenize fuel s)
unfolding tokenize
tokenize-Ahead zero s = tt
tokenize-Ahead (suc fuel) s = Ahead-step fuel (tokenize-Ahead fuel) s (next_token s) refl

-- Looking ahead by k + 1 gives the token that stands at index k of all the tokens.
pub peek-tokenize :
    (fuel : ℕ) (s t : Lexer) (tokens : List Token) (k : ℕ) (default : Token)
    → tokenize fuel s ≡ some (tokens, t)
    → k < length tokens
    → peek (suc k) s default ≡ some (get_or tokens k default)
peek-tokenize fuel s t tokens k default e h =
    let all : Ahead s (some (tokens, t)) = subst (Ahead s) e (tokenize-Ahead fuel s) in
    all k default h
