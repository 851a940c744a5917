-- ===== src/Parser/Types/Reads.antt =====
-- Tokens of types, and what the parser sees of them (bootstrap/cpp/src/parser/parser.cpp).
use ycpl.Base.{
  ◌*◌, ◌≤◌, ◌≡◌, refl, sym, ap, ◌∙◌, inl, inr, Bool, true, false, not, List, [], ◌∷◌, ◌==◌,
  if◌then◌else◌, length, drop, arith, Bool-cases, ==_refl,
}
use ycpl.Text.{Bytes, codes}
use ycpl.Token.{TokenType, Token, enumerator}
use ycpl.Parser.Cursor.{Parser, advance, advance_to, check, is, expected, expected_type_gt}

-- The type and the text of a token; `>>` counts as two closing brackets.
abbrev pub Piece : Type 0
Piece = TokenType × Bytes

abbrev pub gt_piece : Piece
gt_piece = (TokenType.gt, codes ">")

unfoldable pub pieces : List Token → List Piece
pieces [] = []
pieces (token ∷ rest) =
    if is TokenType.shr token
    then gt_piece ∷ gt_piece ∷ pieces rest
    else (token.type, token.lexeme) ∷ pieces rest

pub record Shows (s : Parser) (ps : List Piece) : Type 0 where
  pub shown : pieces (s.cur ∷ s.left) ≡ ps

pub length-pieces : (tokens : List Token) → length (pieces tokens) ≤ 2 * length tokens
unfolding pieces
length-pieces [] = omega arith
length-pieces (token ∷ rest) = ground (arith, length-pieces rest)

head_type : Piece → List Piece → TokenType
head_type p [] = p.0
head_type p (q ∷ ps) = q.0

head_text : List Piece → Bytes
head_text [] = []
head_text (q ∷ ps) = q.1

-- What a piece that is no closing bracket says of the state.
pub record Front (s : Parser) (k : TokenType) (l : Bytes) (ps : List Piece) : Type 0 where
  pub type_eq : s.cur.type ≡ k
  pub lexeme_eq : s.cur.lexeme ≡ l
  pub left_eq : pieces s.left ≡ ps

module _ (token : Token) (rest : List Token) where
  pieces_plain :
      is TokenType.shr token ≡ false
      → pieces (token ∷ rest) ≡ (token.type, token.lexeme) ∷ pieces rest
  unfolding pieces
  pieces_plain e = rw e refl

  pieces_shr :
      is TokenType.shr token ≡ true → pieces (token ∷ rest) ≡ gt_piece ∷ gt_piece ∷ pieces rest
  unfolding pieces
  pieces_shr e = rw e refl

plain-Front :
    (s : Parser) (k : TokenType) (l : Bytes) (ps : List Piece)
    → is TokenType.shr s.cur ≡ false
    → pieces (s.cur ∷ s.left) ≡ (k, l) ∷ ps
    → Front s k l ps
unfolding head_type head_text
plain-Front s k l ps e h =
    let g = sym (pieces_plain s.cur s.left e) ∙ h in
    record {
      type_eq = ap (head_type gt_piece) g;
      lexeme_eq = ap head_text g;
      left_eq = ap (drop 1) g;
    }

-- A token that is no closing bracket.
abbrev pub other_than_gt : TokenType → Bool
other_than_gt k = not (enumerator k == enumerator TokenType.gt)

pub front :
    (s : Parser) (k : TokenType) (l : Bytes) (ps : List Piece)
    → other_than_gt k ≡ true
    → Shows s ((k, l) ∷ ps)
    → Front s k l ps
unfolding head_type
front s k l ps o h = elim (Bool-cases (is TokenType.shr s.cur)) [
  | inr e ↦ plain-Front s k l ps e h.shown
  | inl e ↦
      let g : TokenType.gt ≡ k =
        ap (head_type gt_piece) (sym (pieces_shr s.cur s.left e) ∙ h.shown) in
      absurd (cc (ap other_than_gt g, o))
]

advance-Shows :
    (s : Parser) (left : List Token) (p : Piece) (ps : List Piece)
    → s.left ≡ left
    → pieces left ≡ p ∷ ps
    → Shows (advance s) (p ∷ ps)
unfolding advance pieces
advance-Shows s [] p ps e h = absurd (cc h)
advance-Shows s (token ∷ rest) p ps e h = record {
  shown = ap (λ l. let t = advance_to l s in pieces (t.cur ∷ t.left)) e ∙ h;
}

-- What the next tokens show once the first is taken.
pub next :
    {s : Parser} {k : TokenType} {l : Bytes} {p : Piece} {ps : List Piece}
    → Front s k l (p ∷ ps)
    → Shows (advance s) (p ∷ ps)
next {s} {p = p} {ps = ps} f = advance-Shows s s.left p ps refl f.left_eq

-- A test on the type of the current token.
pub check-Front :
    {s : Parser} {k : TokenType} {l : Bytes} {ps : List Piece} (type : TokenType)
    → Front s k l ps
    → check type s ≡ (enumerator k == enumerator type)
check-Front type f = ap (λ t. enumerator t == enumerator type) f.type_eq

pub expected-Front :
    {s : Parser} {k : TokenType} {l : Bytes} {ps : List Piece} (message : Bytes)
    → Front s k l ps
    → expected k message s ≡ advance s
expected-Front {s} {k} message f =
    let e : check k s ≡ true = check-Front k f ∙ ==_refl (enumerator k) in rw e refl

-- A closing bracket is taken whole or in half.
pub gt-Shows :
    (s : Parser) (p : Piece) (ps : List Piece) (message : Bytes)
    → Shows s (gt_piece ∷ p ∷ ps)
    → Shows (expected_type_gt message s) (p ∷ ps)
unfolding pieces
gt-Shows s p ps message h = elim (Bool-cases (is TokenType.shr s.cur)) [
  | inr e ↦
      let f = plain-Front s TokenType.gt (codes ">") (p ∷ ps) e h.shown in
      let c : check TokenType.gt s ≡ true = check-Front TokenType.gt f in rw c (next f)
  | inl e ↦
      let c : check TokenType.gt s ≡ false = ground arith in
      rw (c, e) (record { shown = ap (drop 1) (sym (pieces_shr s.cur s.left e) ∙ h.shown) })
]
