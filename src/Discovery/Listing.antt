-- ===== src/Discovery/Listing.antt =====
-- The text that the search returns, and the sort before it.
use mathlib.Core.List.{Perm, append-nil, append_assoc}
use mathlib.Core.List.Perm
use ycpl.Base.{
  ℕ, ◌+◌, ◌-◌, ◌%◌, ◌<◌, ◌≡◌, refl, ap, ◌∙◌, ◌≢◌, inl, inr, true, false, some, List, [], ◌∷◌, ◌++◌,
  ◌==◌, ltb, length, length-append, arith, Bool-cases,
}
use ycpl.Address.{word}
use ycpl.Text.{Bytes, newline, str_le}
use ycpl.Text.Bytes.{str_le_total, str_le_trans}
use ycpl.Discovery.{insert_path, sort_paths, total_size, lines}

abbrev pub AllAfter : Bytes → List Bytes → Type 0
AllAfter p [] = Unit
AllAfter p (q ∷ qs) = (str_le p q ≡ true) × AllAfter p qs

abbrev pub IsSorted : List Bytes → Type 0
IsSorted [] = Unit
IsSorted (p ∷ ps) = AllAfter p ps × IsSorted ps

AllAfter-trans : (p q : Bytes) (qs : List Bytes) → str_le p q ≡ true → AllAfter q qs → AllAfter p qs
AllAfter-trans p q [] h a = tt
AllAfter-trans p q (r ∷ qs) h a = (str_le_trans p q r h a.0, AllAfter-trans p q qs h a.1)

AllAfter-insert_path :
    (q p : Bytes) (ps : List Bytes)
    → str_le q p ≡ true
    → AllAfter q ps
    → AllAfter q (insert_path p ps)
unfolding insert_path
AllAfter-insert_path q p [] h a = (h, tt)
AllAfter-insert_path q p (r ∷ ps) h a = elim (Bool-cases (str_le p r)) [
  | inl e ↦ rw e (h, a)
  | inr e ↦ rw e (a.0, AllAfter-insert_path q p ps h a.1)
]

insert_path-IsSorted : (p : Bytes) (ps : List Bytes) → IsSorted ps → IsSorted (insert_path p ps)
unfolding insert_path
insert_path-IsSorted p [] s = (tt, tt)
insert_path-IsSorted p (q ∷ ps) s = elim (Bool-cases (str_le p q)) [
  | inl e ↦ rw e ((e, AllAfter-trans p q ps e s.0), s)
  | inr e ↦
      rw e (AllAfter-insert_path q p ps (str_le_total p q e) s.0, insert_path-IsSorted p ps s.1)
]

insert_path-perm : (p : Bytes) (ps : List Bytes) → Perm (insert_path p ps) (p ∷ ps)
unfolding insert_path
insert_path-perm p [] = Perm.refl (p ∷ [])
insert_path-perm p (q ∷ ps) = elim (Bool-cases (str_le p q)) [
  | inl e ↦ rw e (Perm.refl (p ∷ q ∷ ps))
  | inr e ↦ rw e (Perm.trans (Perm.cons q (insert_path-perm p ps)) (Perm.swap p q ps))
]

-- The sort puts the paths in the order of `strcmp`, and neither drops nor adds one.
pub sort_paths-IsSorted : (ps : List Bytes) → IsSorted (sort_paths ps) × Perm (sort_paths ps) ps
unfolding sort_paths
sort_paths-IsSorted [] = (tt, Perm.refl [])
sort_paths-IsSorted (p ∷ ps) =
    let (sorted, same) = sort_paths-IsSorted ps in
    (
      insert_path-IsSorted p (sort_paths ps) sorted,
      Perm.trans (insert_path-perm p (sort_paths ps)) (Perm.cons p same),
    )

-- The size that the first loop adds up is that of the text of the second, from any start.
total_size-length :
    (total : ℕ) (ps : List Bytes)
    → total + length (lines ps) < word
    → total_size total ps ≡ some (total + length (lines ps))
unfolding total_size lines
total_size-length total [] h = ap some (omega arith)
total_size-length total (p ∷ ps) h =
    let long = length-append p (newline ∷ lines ps) in
    let fits : ltb ((word - 1 + word - total + word - 1) % word) (length p) ≡ false =
      ground arith in
    let step : (total + (length p + 1)) % word ≡ total + (length p + 1) = omega arith in
    rw (fits, step)
      (total_size-length (total + (length p + 1)) ps (omega arith) ∙ ap some (omega arith))

-- Reads lines back.
unfoldable pub split_lines : Bytes → Bytes → List Bytes
split_lines [] line = []
split_lines (c ∷ text) line = elim (c == newline) [
  | true ↦ line ∷ split_lines text []
  | false ↦ split_lines text (line ++ c ∷ [])
]

-- No byte is a newline.
abbrev pub IsLine : Bytes → Type 0
IsLine [] = Unit
IsLine (c ∷ p) = (c ≢ newline) × IsLine p

abbrev pub AreLines : List Bytes → Type 0
AreLines [] = Unit
AreLines (p ∷ ps) = IsLine p × AreLines ps

split_line :
    (p rest line : Bytes)
    → IsLine p
    → split_lines (p ++ newline ∷ rest) line ≡ (line ++ p) ∷ split_lines rest []
unfolding split_lines
split_line [] rest line h = rw append-nil
split_line (c ∷ p) rest line (ne, h) =
    ground (arith, split_line p rest (line ++ c ∷ []), append_assoc line (c ∷ []) p)

read_back : (ps : List Bytes) → AreLines ps → split_lines (lines ps) [] ≡ ps
unfolding split_lines lines
read_back [] h = refl
read_back (p ∷ ps) (h, hs) = split_line p (lines ps) [] h ∙ ap (λ t. p ∷ t) (read_back ps hs)

-- The text of the search is as long as the block that is allocated for it, with its final NUL, and
-- reading it line by line gives the paths back, where none contains a newline and the text fits the
-- address space.
pub split_lines-lines :
    (ps : List Bytes)
    → AreLines ps
    → length (lines ps) + 1 < word
    → (split_lines (lines ps) [] ≡ ps) × (total_size 1 ps ≡ some (length (lines ps) + 1))
split_lines-lines ps h fits =
    (read_back ps h, total_size-length 1 ps (omega arith) ∙ ap some (omega arith))
