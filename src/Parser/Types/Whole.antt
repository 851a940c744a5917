-- ===== src/Parser/Types/Whole.antt =====
-- Prefixes, arrays and whole types are read back from their tokens (bootstrap/cpp/src/parser/parser.cpp).
use ycpl.Base.{
  ℕ, zero, suc, ◌*◌, ◌≤◌, ◌<◌, ◌≡◌, refl, sym, ap, ◌∙◌, ◌≢◌, inl, inr, Bool, true, false, some,
  List, [], ◌∷◌, ◌++◌, ◌==◌, length, arith,
}
use ycpl.Text.{Bytes, codes}
use ycpl.Token.{TokenType, Token, enumerator}
use ycpl.Ast.{AstType, named_type, pointer_type, array_type, map_type, vec_type}
use ycpl.Parser.Cursor.{Parser, advance, advance_to, check}
use ycpl.Parser.Types.{
  is_owned, pointer_prefix, behind_brackets, array_depth, wrap_arrays, wrap_pointers, parse_base,
  behind_prefix, parse_type,
}
use ycpl.Parser.Types.Reads.{
  Piece, Shows, Front, front, next, check-Front, expected-Front, pieces, length-pieces,
}
use ycpl.Parser.Types.Spelled.{
  name_kind, spell, IsWritten, size, depth_of, Read, Reads, skip_none, not_owned, name-Front,
  name_base, map_base, vec_base, kind_cases, next_spell, spell_some,
}

abbrev Prefixed : AstType → Type 0
Prefixed t =
    (n : ℕ) (prefix : Bytes) (s : Parser) (p : Piece) (ps : List Piece)
    → Shows s (spell t (p ∷ ps))
    → size t ≤ n
    → Read (behind_prefix (parse_type n) (pointer_prefix s.left prefix s)) (wrap_pointers prefix t)
        (p ∷ ps)

abbrev Arrays : AstType → Type 0
Arrays t =
    (n d : ℕ) (ls : List Token) (s : Parser) (p : Piece) (ps : List Piece)
    → Shows s (spell t (p ∷ ps))
    → size t < n
    → depth_of t ≤ length ls
    → let a = array_depth ls d s in
      (base : AstType) × (u : Parser) × (parse_type n (a.1) ≡ some (base, u))
      × (wrap_arrays (a.0) base ≡ wrap_arrays d t)
      × Shows u (p ∷ ps)

no_prefix :
    (ls : List Token) (prefix : Bytes) (s : Parser)
    → check TokenType.deref s ≡ false
    → check TokenType.address_of s ≡ false
    → pointer_prefix ls prefix s ≡ (prefix, s)
unfolding pointer_prefix
no_prefix [] prefix s h k = refl
no_prefix (t ∷ ls) prefix s h k = rw (h, k) refl

base-Prefixed :
    (t : AstType) (n : ℕ) (prefix : Bytes) (s : Parser) (ps : List Piece)
    → check TokenType.deref s ≡ false
    → check TokenType.address_of s ≡ false
    → check TokenType.lbrack s ≡ false
    → Read (parse_base (parse_type n) s) t ps
    → Read
        (behind_prefix (parse_type n) (pointer_prefix s.left prefix s))
        (wrap_pointers prefix t)
        ps
base-Prefixed t n prefix s ps h k l (u, e, shows) =
    (u, rw (no_prefix s.left prefix s h k, l, e) refl, shows)

of_prefix : (t : AstType) → IsWritten t → Prefixed t → (n : ℕ) → size t < n → Reads n t
unfolding parse_type wrap_pointers
of_prefix t w f zero h s p ps shows = absurd (omega arith)
of_prefix t w f (suc n) h s p ps shows =
    let e = skip_none is_owned s.left s (not_owned t s (p ∷ ps) w shows) in
    rw e (f n [] s p ps shows (omega arith))

wrap-append :
    (prefix : Bytes) (c : ℕ) (t : AstType)
    → wrap_pointers (prefix ++ c ∷ []) t ≡ wrap_pointers prefix (pointer_type t)
unfolding wrap_pointers
wrap-append [] c t = refl
wrap-append (d ∷ prefix) c t = wrap-append prefix c (pointer_type t)

pointer_step :
    (ls : List Token) (prefix : Bytes) (s : Parser)
    → pieces ls ≢ []
    → check TokenType.deref s ≡ true
    → pointer_prefix ls prefix s
      ≡ pointer_prefix (advance_to ls s).left (prefix ++ b'*' ∷ []) (advance s)
unfolding pointer_prefix pieces
pointer_step [] prefix s h k = absurd (h refl)
pointer_step (t ∷ ls) prefix s h k = rw k refl

shows_more :
    {k : TokenType} {l : Bytes} (t : AstType) (rest : List Piece) (s : Parser)
    → Front s k l (spell t rest)
    → pieces s.left ≢ []
shows_more t rest s g e = let (q, qs, c) = spell_some t rest in cc (e, g.left_eq, c)

pointer-Prefixed : (t : AstType) → Prefixed t → Prefixed (pointer_type t)
unfolding spell size advance
pointer-Prefixed t f n prefix s p ps shows h =
    let g = front s _ _ _ refl shows in
    let nonempty : pieces s.left ≢ [] = shows_more t (p ∷ ps) s g in
    let step = pointer_step s.left prefix s nonempty (check-Front TokenType.deref g) in
    let (u, e, shows_u) =
      f n (prefix ++ b'*' ∷ []) (advance s) p ps (next_spell t (p ∷ ps) g) (omega arith) in
    (u, rw (step, e) (ap (λ x. some (x, u)) (wrap-append prefix b'*' t)), shows_u)

base-Arrays :
    (t : AstType) (n d : ℕ) (ls : List Token) (s : Parser) (ps : List Piece)
    → check TokenType.lbrack s ≡ false
    → Read (parse_type n s) t ps
    → let a = array_depth ls d s in
      (base : AstType) × (u : Parser) × (parse_type n (a.1) ≡ some (base, u))
      × (wrap_arrays (a.0) base ≡ wrap_arrays d t)
      × Shows u ps
unfolding array_depth
base-Arrays t n d [] s ps h (u, e, shows) = (t, u, e, refl, shows)
base-Arrays t n d (x ∷ ls) s ps h (u, e, shows) = rw h (t, u, e, refl, shows)

behind-Shows :
    (t : AstType) (slice : Bool) (z : ℕ) (s : Parser) (rest : List Piece)
    → Shows s (spell (array_type t slice z) rest)
    → (check TokenType.lbrack s ≡ true) × Shows (behind_brackets s) (spell t rest)
unfolding spell
behind-Shows t slice z s rest h =
    let f = front s _ _ _ refl h in
    let g = front (advance s) _ _ _ refl (next f) in
    (
      check-Front TokenType.lbrack f,
      rw (expected-Front (codes "expected ']' after '[' in array type") g) (next_spell t rest g),
    )

-- One pair of brackets, and what the loop reads behind them.
array_more :
    (t : AstType) (slice : Bool) (z n d : ℕ) (ls : List Token) (s : Parser) (p : Piece)
    (ps : List Piece)
    → slice ≡ true
    → z ≡ 0
    → Arrays t
    → Shows s (spell (array_type t slice z) (p ∷ ps))
    → size t < n
    → depth_of t < length ls
    → let a = array_depth ls d s in
      (base : AstType) × (u : Parser) × (parse_type n (a.1) ≡ some (base, u))
      × (wrap_arrays (a.0) base ≡ wrap_arrays d (array_type t slice z))
      × Shows u (p ∷ ps)
unfolding array_depth wrap_arrays
array_more t slice z n d [] s p ps e k f h l m = absurd (omega arith)
array_more t slice z n d (x ∷ ls) s p ps e k f h l m =
    let (c, shows) = behind-Shows t slice z s (p ∷ ps) h in
    let (base, u, r, w, shows_u) =
      f n (suc d) ls (behind_brackets s) p ps shows (omega arith) (omega arith) in
    let q : wrap_arrays d (array_type t true 0) ≡ wrap_arrays d (array_type t slice z) =
      λ i. wrap_arrays d (array_type t (sym e i) (sym k i)) in
    rw c (base, u, r, w ∙ q, shows_u)

array-Arrays :
    (t : AstType) (slice : Bool) (z : ℕ)
    → slice ≡ true
    → z ≡ 0
    → Arrays t
    → Arrays (array_type t slice z)
unfolding depth_of size
array-Arrays t slice z e k f n d ls s p ps h l m =
    array_more t slice z n d ls s p ps e k f h (omega arith) (omega arith)

spell-length :
    (t : AstType) (p : Piece) (ps : List Piece) → 2 * depth_of t < length (spell t (p ∷ ps))
unfolding spell depth_of
spell-length (named_type n) p ps = omega arith
spell-length (pointer_type t) p ps = omega arith
spell-length (array_type t slice z) p ps = omega (arith, spell-length t p ps)
spell-length (map_type k v) p ps = omega arith
spell-length (vec_type t) p ps = omega arith

array-Prefixed :
    (t : AstType) (slice : Bool) (z : ℕ)
    → slice ≡ true
    → z ≡ 0
    → Arrays t
    → Prefixed (array_type t slice z)
unfolding size depth_of wrap_arrays
array-Prefixed t slice z e k f n prefix s p ps h l =
    let (c, _) = behind-Shows t slice z s (p ∷ ps) h in
    let deref : check TokenType.deref s ≡ false = ground arith in
    let amp : check TokenType.address_of s ≡ false = ground arith in
    let long : depth_of t < length s.left = omega (
      arith,
      ap length h.shown,
      length-pieces (s.cur ∷ s.left),
      spell-length (array_type t slice z) p ps,
    ) in
    let (base, u, r, w, shows) =
      array_more t slice z n 0 s.left s p ps e k f h (omega arith) long in
    (
      u,
      rw (no_prefix s.left prefix s deref amp, c, r) (ap (λ x. some (wrap_pointers prefix x, u)) w),
      shows,
    )

-- A type that is read by its base, from what the current token is.
of_base :
    (t : AstType) (kind : TokenType) (text : Bytes) (rest : Piece → List Piece → List Piece)
    → ((p : Piece) (ps : List Piece) (s : Parser)
        → Shows s (spell t (p ∷ ps))
        → Front s kind text (rest p ps))
    → (enumerator kind == enumerator TokenType.deref) ≡ false
    → (enumerator kind == enumerator TokenType.address_of) ≡ false
    → (enumerator kind == enumerator TokenType.lbrack) ≡ false
    → ((n : ℕ) (s : Parser) (p : Piece) (ps : List Piece)
        → Shows s (spell t (p ∷ ps))
        → size t ≤ n
        → Read (parse_base (parse_type n) s) t (p ∷ ps))
    → IsWritten t
    → Prefixed t × Arrays t
of_base t kind text rest at d a b read written = (prefixed, arrays)
  where
    prefixed : Prefixed t
    prefixed n prefix s p ps h l =
        let f = at p ps s h in
        base-Prefixed t n prefix s (p ∷ ps) (check-Front TokenType.deref f ∙ d)
          (check-Front TokenType.address_of f ∙ a) (check-Front TokenType.lbrack f ∙ b)
          (read n s p ps h l)

    arrays : Arrays t
    arrays n depth ls s p ps h l m =
        base-Arrays t n depth ls s (p ∷ ps) (check-Front TokenType.lbrack (at p ps s h) ∙ b)
          (of_prefix t written prefixed n l s p ps h)

name_other :
    (n : Bytes) (type : TokenType)
    → (enumerator TokenType.kw_byte == enumerator type) ≡ false
    → (enumerator TokenType.ident == enumerator type) ≡ false
    → (enumerator (name_kind n) == enumerator type) ≡ false
name_other n type h k = elim (kind_cases n) [
  | inl (e, _) ↦ ap (λ t. enumerator t == enumerator type) e ∙ h
  | inr (e, _) ↦ ap (λ t. enumerator t == enumerator type) e ∙ k
]

read_both : (t : AstType) → IsWritten t → Prefixed t × Arrays t
unfolding IsWritten size spell
read_both (named_type n) w =
    of_base (named_type n) (name_kind n) n _ (λ p ps s h. name-Front n s (p ∷ ps) h)
      (name_other n TokenType.deref refl refl) (name_other n TokenType.address_of refl refl)
      (name_other n TokenType.lbrack refl refl)
      (λ m s p ps h l. name_base n (parse_type m) s p ps w h) w
read_both (pointer_type t) w =
    let f = (read_both t w).0 in
    let g = pointer-Prefixed t f in
    (
      g,
      λ n d ls s p ps h l m.
          base-Arrays (pointer_type t) n d ls s (p ∷ ps)
            (check-Front TokenType.lbrack (front s _ _ _ refl h))
            (of_prefix (pointer_type t) w g n l s p ps h),
    )
read_both (array_type t slice z) w =
    let f = (read_both t w.2).1 in
    (array-Prefixed t slice z (w.0) (w.1) f, array-Arrays t slice z (w.0) (w.1) f)
read_both (map_type k v) w =
    let f = (read_both k w.0).0 in
    let g = (read_both v w.1).0 in
    of_base (map_type k v) TokenType.ident (codes "Map") _ (λ p ps s h. front s _ _ _ refl h) refl
      refl refl
      (λ n s p ps h l.
        map_base n k v s p ps (of_prefix k (w.0) f n (omega arith))
          (of_prefix v (w.1) g n (omega arith)) h)
      w
read_both (vec_type t) w =
    let f = (read_both t w).0 in
    of_base (vec_type t) TokenType.ident (codes "Vec") _ (λ p ps s h. front s _ _ _ refl h) refl
      refl refl (λ n s p ps h l. vec_base n t s p ps (of_prefix t w f n (omega arith)) h) w

-- A type whose names are no words of the grammar and whose arrays have no size is read back from its
-- tokens, on more fuel than it has nodes, and the tokens behind it stay: closing brackets may stand
-- alone or two in one token.
pub parse_type-spell :
    (t : AstType) (n : ℕ) (s : Parser) (p : Piece) (ps : List Piece)
    → IsWritten t
    → size t < n
    → Shows s (spell t (p ∷ ps))
    → Read (parse_type n s) t (p ∷ ps)
parse_type-spell t n s p ps w h shows = of_prefix t w (read_both t w).0 n h s p ps shows
