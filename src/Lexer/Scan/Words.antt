-- ===== src/Lexer/Scan/Words.antt =====
-- Names, numbers and marks apart by blanks (bootstrap/cpp/src/lexer/lexer.cpp).
use ycpl.Base.{
  ℕ, ◌≡◌, refl, sym, ap, ◌∙◌, ◌≢◌, Bool, true, false, ◌||◌, ◌&&◌, Option, none, some, [], ◌∷◌, ◌++◌,
  ◌==◌, if◌then◌else◌, length, get_or, drop, arith,
}
use ycpl.Text.{Bytes}
use ycpl.Text.Bytes.{drop-append}
use ycpl.Token.{TokenType, Token, token_type_to_string}
use ycpl.Lexer.Keywords.{keywords, find}
use ycpl.Lexer.Cursor.{
  Lexer, position, advance, peek_char, peek_nonspace_char, is_digit, is_ident_start, is_ident_part,
  step_back,
}
use ycpl.Lexer.Cursor.Moves.{span}
use ycpl.Lexer.Literals.{keyword_type, identifier_or_keyword, number_literal}
use ycpl.Lexer.Scan.{follow, alone, scan_token, scan_literal}

pub none_if :
    {A : Type 0} (b : Bool) (x : A) (o : Option A)
    → b ≡ false
    → o ≡ none
    → (if b then some x else o) ≡ none
none_if b x o h k = rw h k

pub other : (c a : ℕ) → c ≢ a → (c == a) ≡ false
other c a h = ground arith

pub and_false : (a b : Bool) → a ≡ false → (a && b) ≡ false
and_false a b h = rw h refl

and_false_right : (a b : Bool) → b ≡ false → (a && b) ≡ false
and_false_right true b h = h
and_false_right false b h = refl

-- No operator starts like a name or a number, and none ends with a blank.
alone-start : (c next : ℕ) → is_ident_start c || is_digit c ≡ true → alone c next ≡ none
unfolding alone
alone-start c next h =
    let n = λ (a : ℕ) (e : is_ident_start a || is_digit a ≡ false). other c a (λ f. cc (f, h, e)) in
    search (none_if, n) depth 60

follow-start : (c d : ℕ) → is_ident_start c || is_digit c ≡ true → follow c d ≡ none
unfolding follow
follow-start c d h =
    let n = λ (a : ℕ) (b : Bool) (e : is_ident_start a || is_digit a ≡ false).
      and_false (c == a) b (other c a (λ f. cc (f, h, e))) in
    search (none_if, n) depth 60

pub follow-blank : (c : ℕ) → follow c b' ' ≡ none
unfolding follow
follow-blank c = search (none_if, and_false_right) depth 60

abbrev pub Every : (ℕ → Bool) → Bytes → Type 0
Every p [] = Unit
Every p (c ∷ cs) = (p c ≡ true) × Every p cs

pub span-Every :
    (p : ℕ → Bool) (w : Bytes) (c : ℕ) (rest : Bytes)
    → Every p w
    → p c ≡ false
    → span p (w ++ c ∷ rest) ≡ w
unfolding span
span-Every p [] c rest h k = rw k refl
span-Every p (d ∷ w) c rest h k = rw (h.0) (ap (λ l. d ∷ l) (span-Every p w c rest (h.1) k))

-- A word that a blank ends: a name or keyword, a decimal number, or an operator of one byte.
pub data IsWord : Bytes → Type 0 where
  name : (c : ℕ) (cs : Bytes) → is_ident_start c ≡ true → Every is_ident_part cs → IsWord (c ∷ cs)
  number : (c : ℕ) (cs : Bytes) → is_digit c ≡ true → c ≢ b'0' → Every is_digit cs → IsWord (c ∷ cs)
  mark : (c : ℕ) → ((next : ℕ) → (type : TokenType) × (alone c next ≡ some type)) → IsWord (c ∷ [])

-- The type that a word is given.
abbrev pub Kind : (w : Bytes) → IsWord w → TokenType → Type 0
Kind _ (name c cs h k) type = type ≡ keyword_type (find keywords (c ∷ cs))
Kind _ (number c cs h n k) type = type ≡ TokenType.int
Kind _ (mark c h) type = token_type_to_string type ≡ c ∷ []

abbrev pub Lexed : (w rest : Bytes) → IsWord w → Token × Lexer → Type 0
Lexed w rest word r = (r.0.lexeme ≡ w) × (r.1.left ≡ rest) × Kind w word r.0.type

pub cancel : (a b c : Bytes) → a ++ b ≡ a ++ c → b ≡ c
cancel a b c h = sym (drop-append a b) ∙ (ap (drop (length a)) h ∙ drop-append a c)

-- The scan of a word goes by its first byte.
module _ (c : ℕ) (cs : Bytes) (s : Lexer) (h : s.left ≡ c ∷ cs) where
  pub first_byte : peek_char s 0 ≡ c
  first_byte = ap (λ l. get_or l 0 0) h

  pub scan-start :
      is_ident_start c || is_digit c ≡ true → scan_token s ≡ scan_literal (position s) c (advance s)
  unfolding scan_token
  scan-start k =
      let dot = other c b'.' (λ f. cc (f, k)) in
      rw
        (
          first_byte,
          dot,
          follow-start c (peek_char (advance s) 0) k,
          alone-start c (peek_nonspace_char (advance s)) k,
        )
        refl

  pub scan-name :
      is_ident_start c ≡ true
      → scan_literal (position s) c (advance s)
        ≡ identifier_or_keyword (position s) (step_back c (advance s))
  unfolding scan_literal
  scan-name k =
      let q = other c b'\'' (λ f. cc (f, k)) in
      let d = other c b'"' (λ f. cc (f, k)) in
      let b = other c b'`' (λ f. cc (f, k)) in
      let n : is_digit c ≡ false = ground arith in rw (q, d, b, n, k) refl

  pub scan-number :
      is_digit c ≡ true
      → scan_literal (position s) c (advance s)
        ≡ number_literal (position s) (step_back c (advance s))
  unfolding scan_literal
  scan-number k =
      let q = other c b'\'' (λ f. cc (f, k)) in
      let d = other c b'"' (λ f. cc (f, k)) in
      let b = other c b'`' (λ f. cc (f, k)) in rw (q, d, b, k) refl
