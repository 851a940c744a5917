-- ===== src/Parser/Total.antt =====
-- What each function of the parser leaves of the tokens (bootstrap/cpp/src/parser/parser.cpp), where the
-- last of them is the end of the source.
pub mod Types
pub mod Primary
pub mod Literals
pub mod Operands
pub mod Expressions
pub mod Simple
pub mod Statements
pub mod Whole
pub mod Functions
pub mod Program
use ycpl.Base.{
  ℕ, zero, suc, ◌+◌, ◌-◌, ◌≤◌, ◌<◌, ◌≡◌, refl, sym, ap, ◌∙◌, ◌≢◌, ◌⊎◌, inl, inr, Bool, true, false,
  not, ◌||◌, ◌&&◌, Option, none, some, List, [], ◌∷◌, ◌++◌, ltb, leb, ◌==◌, if◌then◌else◌, length,
  get_or, take, drop, arith, Bool-cases, Option-cases, length-append, eq_of_==, ==_refl, ◌>>=◌,
}
use ycpl.Text.{Bytes, codes, str_eq}
use ycpl.Token.{TokenType, Token, enumerator}
use ycpl.Parser.Cursor.{
  Parser, advance, advance_to, check, is, emit_error, expect, expected, expected_type_gt, halved,
  skip_tokens, skip_newlines,
}

-- The last token is the end of the source.
unfoldable pub Ended : Token → List Token → Type 0
Ended token [] = is TokenType.eof_token token ≡ true
Ended token (next ∷ rest) = Ended next rest

-- All tokens pass a test.
unfoldable pub Every : (Token → Bool) → List Token → Type 0
Every ok [] = Unit
Every ok (token ∷ rest) = (ok token ≡ true) × Every ok rest

-- The tokens end, at most `w` are left, and they pass a test; so does the current one, unless it is one
-- half of `>>`.
pub record Within (ok : Token → Bool) (w : ℕ) (s : Parser) : Type 0 where
  pub ended : Ended s.cur s.left
  pub bound : length s.left ≤ w
  pub current : (ok s.cur ≡ true) ⊎ (is TokenType.gt s.cur ≡ true)
  pub behind : Every ok s.left

-- There is a result, and at most `w` tokens are left behind it.
pub data Returns {ℓ} {A : Type ℓ} (ok : Token → Bool) (w : ℕ) : Option (A × Parser) → Type ℓ where
  returns : {r : A × Parser} → Within ok w (r.1) → Returns ok w (some r)

module _ {ℓ} {A : Type ℓ} where
  pub Returns-weaken :
      {ok : Token → Bool} {v w : ℕ} {r : Option (A × Parser)}
      → v ≤ w
      → Returns ok v r
      → Returns ok w r
  Returns-weaken l (returns h) = returns record {
    ended = h.ended;
    bound = omega (arith, h.bound, l);
    current = h.current;
    behind = h.behind;
  }

  pub Returns-if :
      {ok : Token → Bool} {w : ℕ} (b : Bool) {x y : Option (A × Parser)}
      → (b ≡ true → Returns ok w x)
      → (b ≡ false → Returns ok w y)
      → Returns ok w (if b then x else y)
  Returns-if true hx hy = hx refl
  Returns-if false hx hy = hy refl

  pub Returns-bind {κ} :
      {B : Type κ} {ok : Token → Bool} {v w : ℕ} {r : Option (A × Parser)}
      {k : A × Parser → Option (B × Parser)}
      → Returns ok v r
      → ((p : A × Parser) → Within ok v (p.1) → Returns ok w (k p))
      → Returns ok w (r >>= k)
  Returns-bind (returns {r} h) f = f r h

pub weaken : {ok : Token → Bool} {v w : ℕ} (s : Parser) → v ≤ w → Within ok v s → Within ok w s
weaken s l h = record {
  ended = h.ended;
  bound = omega (arith, h.bound, l);
  current = h.current;
  behind = h.behind;
}

pub Within-if :
    {ok : Token → Bool} {w : ℕ} {s t : Parser} (b : Bool)
    → (b ≡ true → Within ok w s)
    → (b ≡ false → Within ok w t)
    → Within ok w (if b then s else t)
Within-if true hs ht = hs refl
Within-if false hs ht = ht refl

pub emit-Within :
    {ok : Token → Bool} {w : ℕ} {s : Parser} (at : Token) (m : Bytes)
    → Within ok w s
    → Within ok w (emit_error at m s)
emit-Within at m h = record {
  ended = h.ended;
  bound = h.bound;
  current = h.current;
  behind = h.behind;
}

advance_to-Within :
    {ok : Token → Bool} {w : ℕ} {s : Parser} (ls : List Token)
    → Ended s.cur ls
    → length ls ≤ w
    → Every ok ls
    → Within ok w s
    → Within ok w (advance_to ls s)
unfolding Ended Every
advance_to-Within [] e l b h = h
advance_to-Within (t ∷ ls) e l b h = record {
  ended = e;
  bound = omega arith;
  current = inl (b.0);
  behind = b.1;
}

pub advance-Within :
    {ok : Token → Bool} {w : ℕ} {s : Parser} → Within ok w s → Within ok w (advance s)
unfolding advance
advance-Within {ok} {w} {s} h = advance_to-Within s.left h.ended h.bound h.behind h

-- A token that is not the end has others behind it.
take_to-Within :
    {ok : Token → Bool} {w : ℕ} (s : Parser) (ls : List Token)
    → is TokenType.eof_token s.cur ≡ false
    → Ended s.cur ls
    → length ls ≤ w
    → Every ok ls
    → (0 < w) × Within ok (w - 1) (advance_to ls s)
unfolding Ended Every
take_to-Within s [] o e l b = absurd (cc (e, o))
take_to-Within s (t ∷ ls) o e l b =
    (omega arith, record { ended = e; bound = omega arith; current = inl (b.0); behind = b.1 })

module _ {ok : Token → Bool} {w : ℕ} {s : Parser} (h : Within ok w s) where
  pub left_over : is TokenType.eof_token s.cur ≡ false → 0 < w
  left_over o = (take_to-Within s s.left o h.ended h.bound h.behind).0

  pub take-Within : is TokenType.eof_token s.cur ≡ false → Within ok (w - 1) (advance s)
  unfolding advance
  take-Within o = (take_to-Within s s.left o h.ended h.bound h.behind).1

-- A token of another type is not the end.
pub other_type :
    (k : TokenType) (t : Token)
    → is k t ≡ true
    → (enumerator k == enumerator TokenType.eof_token) ≡ false
    → is TokenType.eof_token t ≡ false
other_type k t h o = grind arith

halved_to-Ended :
    (s : Parser) (ls : List Token)
    → is TokenType.eof_token s.cur ≡ false
    → Ended s.cur ls
    → Ended (halved s).cur ls
unfolding Ended
halved_to-Ended s [] o e = absurd (cc (e, o))
halved_to-Ended s (t ∷ ls) o e = e

pub Within-if_next {ℓ} :
    {A : Type ℓ} {ok : Token → Bool} {w : ℕ} (b : Bool) (x y : A × Parser)
    → Within ok w (x.1)
    → Within ok w (y.1)
    → Within ok w ((if b then x else y).1)
Within-if_next true x y hx hy = hx
Within-if_next false x y hx hy = hy

module _ {ok : Token → Bool} {w : ℕ} {s : Parser} (h : Within ok w s) where
  pub expected-Within : (k : TokenType) (m : Bytes) → Within ok w (expected k m s)
  expected-Within k m = Within-if (check k s) (λ _. advance-Within h) (λ _. emit-Within s.cur m h)

  pub expect-Within : (k : TokenType) (m : Bytes) → Within ok w ((expect k m s).1)
  expect-Within k m = Within-if_next (check k s) _ _ (advance-Within h) (emit-Within s.cur m h)

  pub expected_type_gt-Within : (m : Bytes) → Within ok w (expected_type_gt m s)
  expected_type_gt-Within m =
      Within-if (check TokenType.gt s) (λ _. advance-Within h)
        λ _.
          Within-if (check TokenType.shr s)
            (λ e. record {
              ended = halved_to-Ended s s.left (other_type TokenType.shr s.cur e refl) h.ended;
              bound = h.bound;
              current = inr refl;
              behind = h.behind;
            })
            λ _. emit-Within s.cur m h

pub skip-Within :
    {ok : Token → Bool} {w : ℕ} (p : Token → Bool) (ls : List Token) (s : Parser)
    → Within ok w s
    → Within ok w (skip_tokens p ls s)
unfolding skip_tokens
skip-Within p [] s h = h
skip-Within p (t ∷ ls) s h =
    Within-if (p s.cur) (λ _. skip-Within p ls (advance s) (advance-Within h)) (λ _. h)

pub newlines-Within :
    {ok : Token → Bool} {w : ℕ} {s : Parser} → Within ok w s → Within ok w (skip_newlines s)
newlines-Within {ok} {w} {s} h = skip-Within (is TokenType.newline) s.left s h

-- How many tokens are left behind one that is taken: the end stays.
unfoldable pub spent : ℕ → Bool → ℕ
spent w true = w
spent w false = w - 1

pub spent_least : (w : ℕ) (b : Bool) → w - 1 ≤ spent w b
unfolding spent
spent_least w true = omega arith
spent_least w false = omega arith

pub spent_open : (w : ℕ) (b : Bool) → b ≡ false → spent w b ≤ w - 1
unfolding spent
spent_open w true o = absurd (cc o)
spent_open w false o = omega arith

pub spent_most : (w : ℕ) (b : Bool) → spent w b ≤ w
unfolding spent
spent_most w true = omega arith
spent_most w false = omega arith

module _ {ok : Token → Bool} {w : ℕ} {s : Parser} (h : Within ok w s) where
  pub advance-spent : Within ok (spent w (is TokenType.eof_token s.cur)) (advance s)
  unfolding spent
  advance-spent = elim (Bool-cases (is TokenType.eof_token s.cur)) [
    | inl e ↦ rw e (advance-Within h)
    | inr o ↦ rw o (take-Within h o)
  ]

  pub expected_take-Within :
      (k : TokenType) (m : Bytes)
      → check k s ≡ true
      → is TokenType.eof_token s.cur ≡ false
      → Within ok (w - 1) (expected k m s)
  expected_take-Within k m b o = rw b (take-Within h o)
