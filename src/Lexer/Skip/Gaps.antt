-- ===== src/Lexer/Skip/Gaps.antt =====
-- What the lexer may pass over between tokens (bootstrap/cpp/src/lexer/lexer.cpp).
use mathlib.Core.Path.{subst}
use ycpl.Base.{
  ℕ, zero, suc, ◌≡◌, refl, sym, ap, ◌∙◌, ◌≢◌, ◌⊎◌, ◌&&◌, ◌==◌, drop, inl, inr, Bool, true, false,
  ◌||◌, [], ◌∷◌, ◌++◌, if◌then◌else◌, get_or, arith, Bool-cases,
}
use ycpl.Text.{Bytes}
use ycpl.Lexer.Cursor.Moves.{span}
use ycpl.Lexer.Skip.{no_newline, opens, closes}

-- A blank byte; a mark that opens a block comment, and one that closes it.
abbrev pub white : ℕ → Bool
white c = c == b' ' || c == b'\t' || c == b'\r'

abbrev pub opening : ℕ → ℕ → Bool
opening c d = c == b'/' && d == b'*'

abbrev pub closing : ℕ → ℕ → Bool
closing c d = c == b'*' && d == b'/'

-- The text of a block comment behind its opening mark, at a depth, and the text that follows: a mark
-- changes the depth, and the comment ends at depth 0, or with the source.
pub data Comment : ℕ → Bytes → Bytes → Type 0 where
  closed : (rest : Bytes) → Comment 0 [] rest
  unclosed : (depth : ℕ) → Comment (suc depth) [] []
  nested :
      (depth c d : ℕ) (text rest : Bytes)
      → opening c d ≡ true
      → Comment (suc (suc depth)) text rest
      → Comment (suc depth) (c ∷ d ∷ text) rest
  back :
      (depth c d : ℕ) (text rest : Bytes)
      → closing c d ≡ true
      → Comment depth text rest
      → Comment (suc depth) (c ∷ d ∷ text) rest
  plain :
      (depth c : ℕ) (text rest : Bytes)
      → opening c (get_or (text ++ rest) 0 0) || closing c (get_or (text ++ rest) 0 0) ≡ false
      → Comment (suc depth) text rest
      → Comment (suc depth) (c ∷ text) rest

-- A text without a line end.
abbrev pub IsLine : Bytes → Type 0
IsLine [] = Unit
IsLine (c ∷ cs) = (c ≢ b'\n') × IsLine cs

-- The source or its line ends here.
abbrev pub EndsLine : Bytes → Type 0
EndsLine rest = (rest ≡ []) ⊎ ((more : Bytes) × (rest ≡ b'\n' ∷ more))

-- A blank, a comment up to the end of its line, or a whole block comment, before the text `rest`.
pub data Piece : Bytes → Bytes → Type 0 where
  blank : (c : ℕ) (rest : Bytes) → white c ≡ true → Piece (c ∷ []) rest
  line_of : (text rest : Bytes) → IsLine text → EndsLine rest → Piece (b'/' ∷ b'/' ∷ text) rest
  block_of : (text rest : Bytes) → Comment 1 text rest → Piece (b'/' ∷ b'*' ∷ text) rest

-- Pieces, without line ends between them; and pieces and line ends.
pub data Gap : Bytes → Bytes → Type 0 where
  empty : (rest : Bytes) → Gap [] rest
  piece : (a b rest : Bytes) → Piece a (b ++ rest) → Gap b rest → Gap (a ++ b) rest

pub data Lines : Bytes → Bytes → Type 0 where
  no_lines : (rest : Bytes) → Lines [] rest
  more : (a b rest : Bytes) → Piece a (b ++ rest) → Lines b rest → Lines (a ++ b) rest
  line_end : (b rest : Bytes) → Lines b rest → Lines (b'\n' ∷ b) rest

-- Whether a blank, a line end or a comment begins here.
abbrev pub begins_gap : Bytes → Bool
begins_gap text =
    let c = get_or text 0 0 in
    let d = get_or text 1 0 in white c || c == b'\n' || (c == b'/' && (d == b'/' || d == b'*'))

-- The text that `block` consumes.
unfoldable pub block_text : Bytes → ℕ → Bytes
block_text cs zero = []
block_text [] (suc depth) = []
block_text (c ∷ []) (suc depth) = c ∷ []
block_text (c ∷ d ∷ cs) (suc depth) =
    let deeper = block_text cs (suc (suc depth)) in
    let back = block_text cs depth in
    let rest = block_text (d ∷ cs) (suc depth) in
    if opens c d then c ∷ d ∷ deeper else if closes c d then c ∷ d ∷ back else c ∷ rest

marks_false : (a b : Bool) → a ≡ false → b ≡ false → a || b ≡ false
marks_false a b h k = rw (h, k) refl

-- What `block` consumes of the text is the comment, whatever it leaves.
pub block_text-Comment :
    (cs : Bytes) (depth : ℕ) (rest : Bytes)
    → cs ≡ block_text cs depth ++ rest
    → Comment depth (block_text cs depth) rest
unfolding block_text
block_text-Comment cs zero rest h = closed rest
block_text-Comment [] (suc depth) rest h = subst (Comment (suc depth) []) h (unclosed depth)
block_text-Comment (c ∷ []) (suc depth) rest h =
    let last : [] ≡ rest = ap (drop 1) h in
    subst (Comment (suc depth) (c ∷ [])) last (plain depth c [] [] (ground arith) (unclosed depth))
block_text-Comment (c ∷ d ∷ cs) (suc depth) rest h = elim (Bool-cases (opens c d)) [
  | inl e ↦ rw e (
      nested depth c d _ rest e
        (block_text-Comment cs (suc (suc depth)) rest (ap (drop 2) (rw e at h))))
  | inr e ↦ elim (Bool-cases (closes c d)) [
    | inl k ↦
        rw (e, k)
          (back depth c d _ rest k
            (block_text-Comment cs depth rest (ap (drop 2) (rw (e, k) at h))))
    | inr k ↦
        let tail : d ∷ cs ≡ block_text (d ∷ cs) (suc depth) ++ rest =
          ap (drop 1) (rw (e, k) at h) in
        rw (e, k)
          (plain depth c _ rest
            (subst (λ t. opening c (get_or t 0 0) || closing c (get_or t 0 0) ≡ false) tail
              (marks_false _ _ e k))
            (block_text-Comment (d ∷ cs) (suc depth) rest tail))
  ]
]

-- So is what a line comment consumes.
pub span-IsLine : (cs : Bytes) → IsLine (span no_newline cs)
unfolding span
span-IsLine [] = tt
span-IsLine (c ∷ cs) = elim (Bool-cases (no_newline c)) [
  | inl e ↦ rw e (ground arith, span-IsLine cs)
  | inr e ↦ rw e tt
]

pub span-EndsLine : (cs rest : Bytes) → cs ≡ span no_newline cs ++ rest → EndsLine rest
unfolding span
span-EndsLine [] rest h = inl (sym h)
span-EndsLine (c ∷ cs) rest h = elim (Bool-cases (no_newline c)) [
  | inl e ↦ span-EndsLine cs rest (ap (drop 1) (rw e at h))
  | inr e ↦
      let here : c ≡ b'\n' = ground arith in
      let whole : c ∷ cs ≡ rest = rw e at h in inr (cs, sym whole ∙ ap (λ x. x ∷ cs) here)
]
