-- ===== src/Process/Words.antt =====
-- Splitting linker flags into words, and pushing them onto an argument vector.
use mathlib.Core.List.{append-nil, append_assoc}
use ycpl.Base.{
  ◌||◌, ◌==◌, ℕ, ◌*◌, ◌^◌, ◌≤◌, ◌<◌, ◌≡◌, refl, sym, ap, ◌∙◌, ◌≢◌, inl, inr, Bool, true, false,
  Option, none, some, List, [], ◌∷◌, ◌++◌, length, if◌then◌else◌, arith, Bool-cases, length-append,
}
use ycpl.Text.{Bytes}
use ycpl.Process.{
  is_blank, words, ArgVector, Allocator, arg_vector_push, push_all, arg_vector_push_words,
}

-- The white space of the shell, as `yc_arg_vector_push_words` has it.
abbrev pub blank : ℕ → Bool
blank c = c == b' ' || c == b'\t' || c == b'\r' || c == b'\n'

abbrev pub NoBlank : Bytes → Type 0
NoBlank [] = Unit
NoBlank (c ∷ w) = (blank c ≡ false) × NoBlank w

-- A word has a byte, and no blank.
abbrev pub IsWord : Bytes → Type 0
IsWord w = (w ≢ []) × NoBlank w

abbrev pub AreWords : List Bytes → Type 0
AreWords [] = Unit
AreWords (w ∷ ws) = IsWord w × AreWords ws

-- Words with a blank behind each.
unfoldable pub unwords : List Bytes → Bytes
unwords [] = []
unwords (w ∷ ws) = w ++ 32 ∷ unwords ws

module _ (b : ℕ) (text : Bytes) where
  pub words_blank :
      (c : ℕ) (current : Bytes)
      → is_blank b ≡ true
      → words (b ∷ text) (c ∷ current) ≡ (c ∷ current) ∷ words text []
  unfolding words
  words_blank c current e = ground arith

  pub words_letter :
      (c : ℕ) (current : Bytes)
      → is_blank b ≡ false
      → words (b ∷ text) (c ∷ current) ≡ words text (c ∷ (current ++ b ∷ []))
  unfolding words
  words_letter c current e = ground arith

  words_first : is_blank b ≡ false → words (b ∷ text) [] ≡ words text (b ∷ [])
  unfolding words
  words_first e = rw e refl

pub NoBlank-append : (w : Bytes) (b : ℕ) → NoBlank w → is_blank b ≡ false → NoBlank (w ++ b ∷ [])
NoBlank-append [] b h e = (e, tt)
NoBlank-append (c ∷ w) b h e = (h.0, NoBlank-append w b h.1 e)

words-AreWords : (text current : Bytes) → NoBlank current → AreWords (words text current)
unfolding words
words-AreWords [] [] h = tt
words-AreWords [] (c ∷ current) h = ((λ e. cc e, h), tt)
words-AreWords (b ∷ text) [] h = elim (Bool-cases (is_blank b)) [
  | inl e ↦ rw e (words-AreWords text [] tt)
  | inr e ↦ rw e (words-AreWords text (b ∷ []) (e, tt))
]
words-AreWords (b ∷ text) (c ∷ current) h = elim (Bool-cases (is_blank b)) [
  | inl e ↦ rw (words_blank b text c current e) ((λ n. cc n, h), words-AreWords text [] tt)
  | inr e ↦
      rw (words_letter b text c current e)
        (words-AreWords text (c ∷ (current ++ b ∷ [])) (h.0, NoBlank-append current b h.1 e))
]

words_word :
    (w rest : Bytes) (c : ℕ) (current : Bytes)
    → NoBlank w
    → words (w ++ 32 ∷ rest) (c ∷ current) ≡ (c ∷ (current ++ w)) ∷ words rest []
words_word [] rest c current h = words_blank 32 rest c current refl ∙ rw append-nil refl
words_word (d ∷ w) rest c current h =
    words_letter d (w ++ 32 ∷ rest) c current h.0
    ∙ words_word w rest c (current ++ d ∷ []) h.1
    ∙ rw append_assoc refl

words-unwords : (ws : List Bytes) → AreWords ws → words (unwords ws) [] ≡ ws
unfolding words unwords
words-unwords [] h = refl
words-unwords ([] ∷ ws) h = absurd (h.0.0 refl)
words-unwords ((c ∷ w) ∷ ws) h =
    words_first c (w ++ 32 ∷ unwords ws) h.0.1.0
    ∙ (words_word w (unwords ws) c [] h.0.1.1 ∙ ap (λ t. (c ∷ w) ∷ t) (words-unwords ws h.1))

-- The words of a text are not empty and hold no blank, and words joined by blanks are split again.
pub words_split :
    ((text : Bytes) → AreWords (words text []))
    × ((ws : List Bytes) → AreWords ws → words (unwords ws) [] ≡ ws)
words_split = (λ text. words-AreWords text [] tt, words-unwords)

-- The array holds what it counts, within its capacity.
pub record IsArgVector (v : ArgVector) : Type 0 where
  pub counted : v.len ≡ length v.items
  pub fits : v.len ≤ v.cap
  pub small : v.cap * 8 < 2 ^ 64

-- `yc_arg_vector_push` enters the text at the end, or leaves the items as they are.
pub arg_vector_push-IsArgVector :
    (m : Allocator) (text : Bytes) (v : ArgVector)
    → IsArgVector v
    → IsArgVector (arg_vector_push m text v).1
      × ((arg_vector_push m text v).1.items
          ≡ (if (arg_vector_push m text v).0 then v.items ++ text ∷ [] else v.items))
unfolding arg_vector_push
arg_vector_push-IsArgVector m text v valid = ground (arith, length-append v.items (text ∷ []))

-- What a run of pushes enters: all of the texts, or the first few of them.
abbrev pub Pushed : List Bytes → ArgVector → Bool × ArgVector → Type 0
Pushed ws v r =
    IsArgVector r.1
    × ((entered : List Bytes) × (left : List Bytes) × (r.1.items ≡ v.items ++ entered)
        × (entered ++ left ≡ ws)
        × (r.0 ≡ true → left ≡ []))

push_all-Pushed :
    (m : Allocator) (ws : List Bytes) (v : ArgVector)
    → IsArgVector v
    → Pushed ws v (push_all m ws v)
unfolding push_all
push_all-Pushed m [] v valid = (valid, ([], [], sym (append-nil v.items), refl, λ _. refl))
push_all-Pushed m (w ∷ ws) v valid =
    let r = arg_vector_push m w v in
    let (valid₁, items₁) = arg_vector_push-IsArgVector m w v valid in
    elim (Bool-cases r.0) [
      | inr off ↦
          rw off (valid₁, ([], w ∷ ws, items₁ ∙ rw off (sym (append-nil v.items)), refl, λ h. cc))
      | inl on ↦
          let (valid₂, (entered, left, items₂, split, all)) = push_all-Pushed m ws r.1 valid₁ in
          let before : r.1.items ≡ v.items ++ w ∷ [] = items₁ ∙ rw on refl in
          rw on (
            valid₂,
            (
              w ∷ entered,
              left,
              items₂ ∙ rw before (append_assoc v.items (w ∷ []) entered),
              ap (λ t. w ∷ t) split,
              all,
            ),
          )
    ]

-- `yc_arg_vector_push_words` pushes the words that its loop finds; null has none.
pub arg_vector_push_words_lem :
    (m : Allocator) (text : Option Bytes) (v : ArgVector)
    → IsArgVector v
    → Pushed (elim text [ none ↦ [] | some t ↦ words t [] ]) v (arg_vector_push_words m text v)
unfolding arg_vector_push_words
arg_vector_push_words_lem m none v valid =
    (valid, ([], [], sym (append-nil v.items), refl, λ _. refl))
arg_vector_push_words_lem m (some text) v valid = push_all-Pushed m (words text []) v valid
