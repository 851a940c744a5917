-- ===== src/Lexer/Scan/Printed.antt =====
-- Operators and keywords are printed as they are written (bootstrap/cpp/src/lexer).
use ycpl.Base.{
  ℕ, ◌≡◌, refl, sym, ap, ◌∙◌, ◌≢◌, inl, inr, Bool, true, false, ◌&&◌, Option, none, some, List, [],
  ◌∷◌, ◌==◌, if◌then◌else◌, arith, Bool-cases, eq_of_==,
}
use ycpl.Text.{Bytes, str_eq}
use ycpl.Token.{TokenType, token_type_to_string}
use ycpl.Text.Bytes.{eq_of_str_eq}
use ycpl.Lexer.Keywords.{keywords, find}
use ycpl.Lexer.Scan.{follow, alone}

-- The name of the token, where there is one, is the text.
data Named (text : Bytes) : Option TokenType → Type 0 where
  unnamed : Named text none
  named : (type : TokenType) → token_type_to_string type ≡ text → Named text (some type)

named_if :
    (c a : ℕ) (type : TokenType) (o : Option TokenType)
    → token_type_to_string type ≡ a ∷ []
    → Named (c ∷ []) o
    → Named (c ∷ []) (if c == a then some type else o)
named_if c a type o h k = elim (Bool-cases (c == a)) [
  | inl e ↦ rw e (named type (h ∙ ap (λ x. x ∷ []) (sym (eq_of_== c a e))))
  | inr e ↦ rw e k
]

named_choice :
    (c a : ℕ) (b : Bool) (x y : TokenType) (o : Option TokenType)
    → token_type_to_string x ≡ a ∷ []
    → token_type_to_string y ≡ a ∷ []
    → Named (c ∷ []) o
    → Named (c ∷ []) (if c == a then some (if b then x else y) else o)
named_choice c a true x y o h k = named_if c a x o h
named_choice c a false x y o h k = named_if c a y o k

-- Also for two bytes, where `:=` has the name of `=`.
named_pair :
    (c d a b : ℕ) (type : TokenType) (o : Option TokenType)
    → token_type_to_string type ≡ a ∷ b ∷ []
    → Named (c ∷ d ∷ []) o
    → Named (c ∷ d ∷ []) (if c == a && d == b then some type else o)
named_pair c d a b type o h k = elim (Bool-cases (c == a && d == b)) [
  | inl e ↦
      let f : c ≡ a = ground arith in
      let g : d ≡ b = ground arith in rw e (named type (h ∙ λ i. sym f i ∷ sym g i ∷ []))
  | inr e ↦ rw e k
]

named_skip :
    (text : Bytes) (b : Bool) (type : TokenType) (o : Option TokenType)
    → b ≡ false
    → Named text o
    → Named text (if b then some type else o)
named_skip text b type o h k = rw h k

ruleset names = (named_if, named_choice, named_pair, unnamed, refl)

alone-Named : (c next : ℕ) → Named (c ∷ []) (alone c next)
unfolding alone token_type_to_string
alone-Named c next = search names depth 40

follow-Named : (c d : ℕ) → c ≢ b':' → Named (c ∷ d ∷ []) (follow c d)
unfolding follow token_type_to_string
follow-Named c d h =
    named_skip _ (c == b':' && d == b'=') _ _ (ground arith) (search names depth 40)

name_of :
    (text : Bytes) (o : Option TokenType) (type : TokenType)
    → Named text o
    → o ≡ some type
    → token_type_to_string type ≡ text
name_of text _ type unnamed e = cc e
name_of text _ type (named t h) e = cc

all_named : List (Bytes × TokenType) → Bool
all_named [] = true
all_named ((word, type) ∷ rest) = str_eq (token_type_to_string type) word && all_named rest

find-Named :
    (table : List (Bytes × TokenType)) (name : Bytes)
    → all_named table ≡ true
    → Named name (find table name)
unfolding find all_named
find-Named [] name h = unnamed
find-Named ((word, type) ∷ rest) name h =
    let k : str_eq (token_type_to_string type) word ≡ true = ground arith in
    elim (Bool-cases (str_eq name word)) [
      | inl e ↦ rw e (named type (eq_of_str_eq _ word k ∙ sym (eq_of_str_eq name word e)))
      | inr e ↦ rw e (find-Named rest name (ground arith))
    ]

keywords_named : all_named keywords ≡ true
unfolding all_named token_type_to_string
keywords_named = refl

-- The printed name of an operator's or a keyword's type is its text in the source, for the operators
-- of one byte, for those of two bytes other than `:=`, and for all the keywords.
pub printed :
    ((c next : ℕ) (type : TokenType)
      → alone c next ≡ some type
      → token_type_to_string type ≡ c ∷ [])
    × ((c d : ℕ) (type : TokenType)
        → follow c d ≡ some type
        → c ≢ b':'
        → token_type_to_string type ≡ c ∷ d ∷ [])
    × ((name : Bytes) (type : TokenType)
        → find keywords name ≡ some type
        → token_type_to_string type ≡ name)
printed = (
  λ c next type. name_of _ _ type (alone-Named c next),
  λ c d type e h. name_of _ _ type (follow-Named c d h) e,
  λ name type. name_of _ _ type (find-Named keywords name keywords_named),
)
