-- ===== src/Parser/Types/Spelled.antt =====
-- Types are read back from their tokens (bootstrap/cpp/src/parser/parser.cpp).
use mathlib.Core.Path.{subst}
use ycpl.Base.{
  ℕ, suc, ◌+◌, ◌≡◌, refl, sym, ap, ◌∙◌, ◌⊎◌, inl, inr, Bool, true, false, ◌&&◌, Option, some, List,
  [], ◌∷◌, ◌==◌, if◌then◌else◌, length, Bool-cases,
}
use ycpl.Text.{Bytes, codes, str_eq}
use ycpl.Token.{TokenType, Token, enumerator}
use ycpl.Text.Bytes.{eq_of_str_eq, str_eq_refl}
use ycpl.Ast.{AstType, named_type, pointer_type, array_type, map_type, vec_type}
use ycpl.Parser.Cursor.{
  Parser, advance, advance_to, check, expected, expected_type_gt, peek_is, token_is, skip_tokens,
}
use ycpl.Parser.Types.{is_owned, parse_base, parse_type}
use ycpl.Parser.Types.Reads.{
  Piece, gt_piece, Shows, Front, other_than_gt, front, next, check-Front, expected-Front, gt-Shows,
  pieces,
}

-- The token of a type's name: `byte` is a keyword.
unfoldable pub name_kind : Bytes → TokenType
name_kind n = if str_eq n (codes "byte") then TokenType.kw_byte else TokenType.ident

-- The pieces of a type before others.
unfoldable pub spell : AstType → List Piece → List Piece
spell (named_type n) rest = (name_kind n, n) ∷ rest
spell (pointer_type t) rest = (TokenType.deref, codes "*") ∷ spell t rest
spell (array_type t slice size) rest =
    (TokenType.lbrack, codes "[") ∷ (TokenType.rbrack, codes "]") ∷ spell t rest
spell (map_type k v) rest =
    (TokenType.ident, codes "Map")
    ∷ (TokenType.lt, codes "<")
    ∷ spell k ((TokenType.comma, codes ",") ∷ spell v (gt_piece ∷ rest))
spell (vec_type t) rest =
    (TokenType.ident, codes "Vec") ∷ (TokenType.lt, codes "<") ∷ spell t (gt_piece ∷ rest)

-- Names that mean themselves, and arrays without a size.
unfoldable pub IsWritten : AstType → Type 0
IsWritten (named_type n) =
    (str_eq n (codes "owned") ≡ false)
    × (str_eq n (codes "Map") ≡ false)
    × (str_eq n (codes "Vec") ≡ false)
IsWritten (pointer_type t) = IsWritten t
IsWritten (array_type t slice size) = (slice ≡ true) × (size ≡ 0) × IsWritten t
IsWritten (map_type k v) = IsWritten k × IsWritten v
IsWritten (vec_type t) = IsWritten t

unfoldable pub size : AstType → ℕ
size (named_type n) = 0
size (pointer_type t) = suc (size t)
size (array_type t slice length) = suc (size t)
size (map_type k v) = suc (size k + size v)
size (vec_type t) = suc (size t)

unfoldable pub depth_of : AstType → ℕ
depth_of (array_type t slice size) = suc (depth_of t)
depth_of other = 0

-- What a parse of a type leaves.
abbrev pub Read : Option (AstType × Parser) → AstType → List Piece → Type 0
Read r t ps = (s : Parser) × (r ≡ some (t, s)) × Shows s ps

pub skip_none :
    (p : Token → Bool) (ls : List Token) (s : Parser) → p s.cur ≡ false → skip_tokens p ls s ≡ s
unfolding skip_tokens
skip_none p [] s h = refl
skip_none p (t ∷ ls) s h = rw h refl

right_false : (b : Bool) → (b && false) ≡ false
right_false true = refl
right_false false = refl

-- The token of a name.
pub kind_cases :
    (n : Bytes)
    → ((name_kind n ≡ TokenType.kw_byte) × (str_eq n (codes "byte") ≡ true))
      ⊎ ((name_kind n ≡ TokenType.ident) × (str_eq n (codes "byte") ≡ false))
unfolding name_kind
kind_cases n = elim (Bool-cases (str_eq n (codes "byte"))) [
  | inl e ↦ inl (rw e refl, e)
  | inr e ↦ inr (rw e refl, e)
]

pub name-Front :
    (n : Bytes) (s : Parser) (rest : List Piece)
    → Shows s ((name_kind n, n) ∷ rest)
    → Front s (name_kind n) n rest
name-Front n s rest h =
    front s (name_kind n) n rest
      (elim (kind_cases n) [ inl (e, _) ↦ ap other_than_gt e | inr (e, _) ↦ ap other_than_gt e ]) h

-- No type that is written starts with the word `owned`.
pub not_owned :
    (t : AstType) (s : Parser) (rest : List Piece)
    → IsWritten t
    → Shows s (spell t rest)
    → is_owned s.cur ≡ false
unfolding spell IsWritten
not_owned (named_type n) s rest w h =
    let f = name-Front n s rest h in rw (f.lexeme_eq, w.0) (right_false _)
not_owned (pointer_type t) s rest w h =
    let f = front s _ _ _ refl h in rw (check-Front TokenType.ident f) refl
not_owned (array_type t slice size) s rest w h =
    let f = front s _ _ _ refl h in rw (check-Front TokenType.ident f) refl
not_owned (map_type k v) s rest w h =
    let f = front s _ _ _ refl h in rw (check-Front TokenType.ident f, f.lexeme_eq) refl
not_owned (vec_type t) s rest w h =
    let f = front s _ _ _ refl h in rw (check-Front TokenType.ident f, f.lexeme_eq) refl

-- A name is one token.
pub name_base :
    (n : Bytes) (parse : Parser → Option (AstType × Parser)) (s : Parser) (p : Piece)
    (ps : List Piece)
    → IsWritten (named_type n)
    → Shows s ((name_kind n, n) ∷ p ∷ ps)
    → Read (parse_base parse s) (named_type n) (p ∷ ps)
unfolding parse_base IsWritten
name_base n parse s p ps w h =
    let f = name-Front n s (p ∷ ps) h in
    let a = w.1 in
    let b = w.2 in
    elim (kind_cases n) [
      | inl (k, e) ↦
          let same = eq_of_str_eq n (codes "byte") e in
          let m = check-Front TokenType.ident f ∙ ap (λ t. enumerator t == 2) k in
          let c =
            check-Front TokenType.kw_byte f
            ∙ ap (λ t. enumerator t == enumerator TokenType.kw_byte) k in
          (advance s, rw (m, c) (ap (λ x. some (named_type x, advance s)) (sym same)), next f)
      | inr (k, e) ↦
          let m = check-Front TokenType.ident f ∙ ap (λ t. enumerator t == 2) k in
          let c =
            check-Front TokenType.kw_byte f
            ∙ ap (λ t. enumerator t == enumerator TokenType.kw_byte) k in
          (advance s, rw (f.lexeme_eq, a, b, e, m, c) refl, next f)
    ]

-- A map and a vector, where their parts are read on the same fuel.
abbrev pub Reads : ℕ → AstType → Type 0
Reads n t =
    (s : Parser) (p : Piece) (ps : List Piece)
    → Shows s (spell t (p ∷ ps))
    → Read (parse_type n s) t (p ∷ ps)

pub spell_some :
    (t : AstType) (rest : List Piece) → (p : Piece) × (ps : List Piece) × (spell t rest ≡ p ∷ ps)
unfolding spell
spell_some (named_type n) rest = (_, _, refl)
spell_some (pointer_type t) rest = (_, _, refl)
spell_some (array_type t slice size) rest = (_, _, refl)
spell_some (map_type k v) rest = (_, _, refl)
spell_some (vec_type t) rest = (_, _, refl)

pub next_spell :
    {s : Parser} {k : TokenType} {l : Bytes} (t : AstType) (rest : List Piece)
    → Front s k l (spell t rest)
    → Shows (advance s) (spell t rest)
next_spell {s} {k} {l} t rest f =
    let (p, ps, e) = spell_some t rest in
    let g : Front s k l (p ∷ ps) = subst (Front s k l) e f in
    subst (Shows (advance s)) (sym e) (next g)

peek_lt :
    {s : Parser} {k : TokenType} {l m : Bytes} {ps qs : List Piece}
    → Front s k l ((TokenType.lt, m) ∷ ps)
    → Front (advance s) TokenType.lt m qs
    → peek_is TokenType.lt 0 s ≡ true
unfolding advance pieces
peek_lt {s} {m = m} {ps = ps} f g = go s.left f.left_eq g.type_eq
  where
    go :
        (ts : List Token)
        → pieces ts ≡ (TokenType.lt, m) ∷ ps
        → (advance_to ts s).cur.type ≡ TokenType.lt
        → token_is TokenType.lt ts 0 ≡ true
    go [] h e = cc h
    go (t ∷ ts) h e = ap (λ x. enumerator x == enumerator TokenType.lt) e

-- The name of a map or a vector with its opening bracket.
opened :
    (name : Bytes) (s : Parser) (t : AstType) (rest : List Piece) (message : Bytes)
    → Shows s ((TokenType.ident, name) ∷ (TokenType.lt, codes "<") ∷ spell t rest)
    → (check TokenType.ident s ≡ true)
      × (str_eq s.cur.lexeme name ≡ true)
      × (peek_is TokenType.lt 0 s ≡ true)
      × Shows (expected TokenType.lt message (advance s)) (spell t rest)
opened name s t rest message h =
    let f = front s _ _ _ refl h in
    let g = front (advance s) _ _ _ refl (next f) in
    (
      check-Front TokenType.ident f,
      ap (λ x. str_eq x name) f.lexeme_eq ∙ str_eq_refl name,
      peek_lt f g,
      rw (expected-Front message g) (next_spell t rest g),
    )

pub map_base :
    (n : ℕ) (k v : AstType) (s : Parser) (p : Piece) (ps : List Piece)
    → Reads n k
    → Reads n v
    → Shows s (spell (map_type k v) (p ∷ ps))
    → Read (parse_base (parse_type n) s) (map_type k v) (p ∷ ps)
unfolding parse_base spell
map_base n k v s p ps read_k read_v h =
    let (i, l, peek, shows) = opened (codes "Map") s k _ (codes "expected '<' after Map") h in
    let (u, e, shows_u) = read_k _ _ _ shows in
    let f = front u _ _ _ refl shows_u in
    let message = codes "expected ',' between Map key and value types" in
    let at_value : Shows (expected TokenType.comma message u) (spell v (gt_piece ∷ p ∷ ps)) =
      rw (expected-Front message f) (next_spell v (gt_piece ∷ p ∷ ps) f) in
    let (w, e', shows_w) = read_v _ _ _ at_value in
    (
      expected_type_gt (codes "expected '>' after Map value type") w,
      rw (i, l, peek, e, e') refl,
      gt-Shows w p ps _ shows_w,
    )

pub vec_base :
    (n : ℕ) (t : AstType) (s : Parser) (p : Piece) (ps : List Piece)
    → Reads n t
    → Shows s (spell (vec_type t) (p ∷ ps))
    → Read (parse_base (parse_type n) s) (vec_type t) (p ∷ ps)
unfolding parse_base spell
vec_base n t s p ps read h =
    let (i, l, peek, shows) = opened (codes "Vec") s t _ (codes "expected '<' after Vec") h in
    let (u, e, shows_u) = read _ _ _ shows in
    let f = front s _ _ _ refl h in
    let m : str_eq s.cur.lexeme (codes "Map") ≡ false =
      ap (λ x. str_eq x (codes "Map")) f.lexeme_eq in
    (
      expected_type_gt (codes "expected '>' after Vec element type") u,
      rw (i, l, m, peek, e) refl,
      gt-Shows u p ps _ shows_u,
    )
