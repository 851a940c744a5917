-- ===== src/Process/Unpack.antt =====
-- Packed arguments: what `yc_unpack_argv` reads back.
use mathlib.Core.List.{append-nil, append_assoc}
use ycpl.Base.{
  ℕ, ◌≡◌, refl, sym, ap, ◌∙◌, ◌≢◌, inl, inr, Bool, true, false, none, some, List, [], ◌∷◌, ◌++◌,
  ◌==◌, ◌>>=◌, if◌then◌else◌, arith, Bool-cases, Option-cases, eq_of_==,
}
use ycpl.Text.{Bytes}
use ycpl.Process.{unpack, unpack_argv}

-- Each argument with its NUL.
unfoldable pub pack : List Bytes → Bytes
pack [] = []
pack (a ∷ args) = a ++ 0 ∷ pack args

-- A C string holds no NUL.
abbrev pub IsText : Bytes → Type 0
IsText [] = Unit
IsText (c ∷ a) = (c ≢ 0) × IsText a

abbrev pub AreTexts : List Bytes → Type 0
AreTexts [] = Unit
AreTexts (a ∷ args) = IsText a × AreTexts args

unpack_arg :
    (a rest current : Bytes)
    → IsText a
    → unpack (a ++ 0 ∷ rest) current ≡ (unpack rest [] >>= λ args. some ((current ++ a) ∷ args))
unfolding unpack
unpack_arg [] rest current h = rw append-nil
unpack_arg (c ∷ a) rest current (ne, h) =
    ground (arith, unpack_arg a rest (current ++ c ∷ []), append_assoc current (c ∷ []) a)

unpack-pack : (args : List Bytes) → AreTexts args → unpack (pack args) [] ≡ some args
unfolding unpack pack
unpack-pack [] h = refl
unpack-pack (a ∷ args) (h, hs) = rw (unpack_arg a (pack args) [] h, unpack-pack args hs) refl

-- `yc_unpack_argv` gives back the arguments that were packed, each with its NUL, where the vector gets
-- its memory.
pub unpack_argv-pack :
    (memory : List Bytes → Bool) (args : List Bytes)
    → AreTexts args
    → unpack_argv memory (pack args) ≡ (if memory args then some args else none)
unfolding unpack_argv
unpack_argv-pack memory args h = rw (unpack-pack args h, ◌>>=◌) refl

module _ (b : ℕ) (packed current : Bytes) where
  unpack_end :
      (b == 0) ≡ true
      → unpack (b ∷ packed) current ≡ (unpack packed [] >>= λ args. some (current ∷ args))
  unfolding unpack
  unpack_end e = ground arith

  unpack_on : (b == 0) ≡ false → unpack (b ∷ packed) current ≡ unpack packed (current ++ b ∷ [])
  unfolding unpack
  unpack_on e = ground arith

IsText-append : (a : Bytes) (c : ℕ) → IsText a → c ≢ 0 → IsText (a ++ c ∷ [])
IsText-append [] c h ne = (ne, tt)
IsText-append (d ∷ a) c (h, hs) ne = (h, IsText-append a c hs ne)

unpack_sound :
    (packed current : Bytes) (args : List Bytes)
    → unpack packed current ≡ some args
    → IsText current
    → (pack args ≡ current ++ packed) × AreTexts args
unfolding unpack pack
unpack_sound [] [] [] h t = (refl, tt)
unpack_sound [] [] (a ∷ args) h t = cc
unpack_sound [] (c ∷ current) args h t = cc
unpack_sound (b ∷ packed) current args h t = elim (Bool-cases (b == 0)) [
  | inl e ↦ elim (Option-cases (unpack packed [])) [
    | inl failed ↦ ground (arith, unpack_end b packed current e)
    | inr (rest, run) ↦
        let same : current ∷ rest ≡ args = ground (arith, unpack_end b packed current e) in
        let (packs, texts) = unpack_sound packed [] rest run tt in
        rw (← same, eq_of_== b 0 e) (ap (λ p. current ++ 0 ∷ p) packs, (t, texts))
  ]
  | inr e ↦
      let (packs, texts) =
        unpack_sound packed (current ++ b ∷ []) args (sym (unpack_on b packed current e) ∙ h)
          (IsText-append current b t (ground arith)) in
      (packs ∙ append_assoc current (b ∷ []) packed, texts)
]

-- Where `yc_unpack_argv` accepts a text, the text is exactly the arguments that it gives, each ended
-- by a NUL and without one inside, so a text whose last argument is not ended is refused.
pub unpack_argv_sound :
    (memory : List Bytes → Bool) (packed : Bytes) (args : List Bytes)
    → unpack_argv memory packed ≡ some args
    → (packed ≡ pack args) × AreTexts args
unfolding unpack_argv
unpack_argv_sound memory packed args h = elim (Option-cases (unpack packed [])) [
  | inl failed ↦ ground arith
  | inr (found, run) ↦ elim (Bool-cases (memory found)) [
    | inr no_room ↦ ground arith
    | inl room ↦
        let same : found ≡ args = ground arith in
        let (packs, texts) = unpack_sound packed [] args (run ∙ ap some same) tt in
        (sym packs, texts)
  ]
]
