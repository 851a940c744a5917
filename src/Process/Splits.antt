-- ===== src/Process/Splits.antt =====
-- The words of a text, and what `yc_arg_vector_push_words` makes of them.
use mathlib.Core.Path.{subst}
use mathlib.Core.List.{append_assoc}
use ycpl.Base.{
  ℕ, zero, suc, ◌≤◌, ◌≡◌, refl, sym, inl, inr, true, Option, none, some, List, [], ◌∷◌, ◌++◌,
  length, arith, Bool-cases,
}
use ycpl.Text.{Bytes}
use ycpl.Process.{is_blank, words, ArgVector, Allocator, arg_vector_push_words}
use ycpl.Process.Words.{
  blank, NoBlank, IsWord, NoBlank-append, words_blank, words_letter, IsArgVector, Pushed,
  arg_vector_push_words_lem,
}

-- What stands between words.
abbrev pub AllBlank : Bytes → Type 0
AllBlank [] = Unit
AllBlank (c ∷ bs) = (blank c ≡ true) × AllBlank bs

-- The text ends, or goes on with a blank.
abbrev pub EndsWord : Bytes → Type 0
EndsWord [] = Unit
EndsWord (c ∷ rest) = blank c ≡ true

-- The words of a text, from the first to the last: blanks before each, and at the end.
pub data Splits : Bytes → List Bytes → Type 0 where
  last : (bs : Bytes) → AllBlank bs → Splits bs []
  next :
      (bs w rest : Bytes) (ws : List Bytes)
      → AllBlank bs
      → IsWord w
      → EndsWord rest
      → Splits rest ws
      → Splits (bs ++ w ++ rest) (w ∷ ws)

Splits-blank :
    (b : ℕ) (text : Bytes) (ws : List Bytes)
    → is_blank b ≡ true
    → Splits text ws
    → Splits (b ∷ text) ws
Splits-blank b _ _ h (last bs blanks) = last (b ∷ bs) (h, blanks)
Splits-blank b _ _ h (next bs w rest ws blanks word ends more) =
    next (b ∷ bs) w rest ws (h, blanks) word ends more

words-Splits-current :
    (text : Bytes) (c : ℕ) (current : Bytes)
    → NoBlank (c ∷ current)
    → ((t : Bytes) → length t ≤ length text → Splits t (words t []))
    → Splits ((c ∷ current) ++ text) (words text (c ∷ current))
unfolding words
words-Splits-current [] c current h whole =
    next [] (c ∷ current) [] [] tt ((λ e. cc e), h) tt (last [] tt)
words-Splits-current (b ∷ text) c current h whole = elim (Bool-cases (is_blank b)) [
  | inl e ↦ subst (Splits ((c ∷ current) ++ b ∷ text)) (sym (words_blank b text c current e)) (
      next [] (c ∷ current) (b ∷ text) (words text []) tt ((λ n. cc n), h) e
        (Splits-blank b text (words text []) e (whole text (omega arith))))
  | inr e ↦
      let more =
        words-Splits-current text c (current ++ b ∷ []) (h.0, NoBlank-append current b h.1 e)
          (λ t less. whole t (omega (arith, less))) in
      subst (Splits ((c ∷ current) ++ b ∷ text)) (sym (words_letter b text c current e)) (
        subst (λ t. Splits (c ∷ t) (words text (c ∷ (current ++ b ∷ []))))
          (append_assoc current (b ∷ []) text) more)
]

words-Splits-within : (n : ℕ) (text : Bytes) → length text ≤ n → Splits text (words text [])
unfolding words
words-Splits-within n [] le = last [] tt
words-Splits-within zero (b ∷ text) le = absurd (omega arith)
words-Splits-within (suc n) (b ∷ text) le =
    let whole : (t : Bytes) → length t ≤ length text → Splits t (words t []) =
      λ t less. words-Splits-within n t (omega (arith, less, le)) in
    elim (Bool-cases (is_blank b)) [
      | inl e ↦ rw e (Splits-blank b text (words text []) e (whole text (omega arith)))
      | inr e ↦ rw e (words-Splits-current text b [] (e, tt) whole)
    ]

-- The loop over the text finds its words.
words-Splits : (text : Bytes) → Splits text (words text [])
words-Splits text = words-Splits-within (length text) text (omega arith)

-- The words of an argument: none of null.
abbrev pub AreWordsOf : Option Bytes → List Bytes → Type 0
AreWordsOf none ws = ws ≡ []
AreWordsOf (some text) ws = Splits text ws

-- `yc_arg_vector_push_words` enters the words of the text in order, which are what stands between its
-- blanks: all of them where it succeeds, and the first few where it fails. Null has no words.
pub arg_vector_push_words-Pushed :
    (m : Allocator) (text : Option Bytes) (v : ArgVector)
    → IsArgVector v
    → (ws : List Bytes) × AreWordsOf text ws × Pushed ws v (arg_vector_push_words m text v)
arg_vector_push_words-Pushed m none v valid = ([], refl, arg_vector_push_words_lem m none v valid)
arg_vector_push_words-Pushed m (some text) v valid =
    (words text [], words-Splits text, arg_vector_push_words_lem m (some text) v valid)
