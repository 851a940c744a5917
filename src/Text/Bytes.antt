-- ===== src/Text/Bytes.antt =====
-- Laws of byte strings: comparison and suffixes.
use ycpl.Base.{
  ℕ, suc, ◌+◌, ◌≡◌, refl, ap, true, false, [], ◌∷◌, ◌++◌, length, drop, get_or, arith, ==_refl,
}
use ycpl.Text.{Bytes, str_eq, str_le}

pub str_eq_refl : (a : Bytes) → str_eq a a ≡ true
str_eq_refl [] = refl
str_eq_refl (c ∷ a) = rw (==_refl c, str_eq_refl a)

pub eq_of_str_eq : (a b : Bytes) → str_eq a b ≡ true → a ≡ b
eq_of_str_eq [] [] h = refl
eq_of_str_eq [] (d ∷ b) h = cc
eq_of_str_eq (c ∷ a) [] h = cc
eq_of_str_eq (c ∷ a) (d ∷ b) h = ground (arith, eq_of_str_eq a b)

pub str_le_total : (a b : Bytes) → str_le a b ≡ false → str_le b a ≡ true
str_le_total [] b h = cc
str_le_total (c ∷ a) [] h = refl
str_le_total (c ∷ a) (d ∷ b) h = ground (arith, str_le_total a b)

pub str_le_trans : (a b c : Bytes) → str_le a b ≡ true → str_le b c ≡ true → str_le a c ≡ true
str_le_trans [] b c h k = refl
str_le_trans (x ∷ a) [] c h k = cc
str_le_trans (x ∷ a) (y ∷ b) [] h k = cc
str_le_trans (x ∷ a) (y ∷ b) (z ∷ c) h k = ground (arith, str_le_trans a b c)

pub drop-append : (a b : Bytes) → drop (length a) (a ++ b) ≡ b
drop-append [] b = refl
drop-append (x ∷ a) b = drop-append a b

pub get_or-append : (a b : Bytes) (i : ℕ) → get_or (a ++ b) (length a + i) 0 ≡ get_or b i 0
get_or-append [] b i = ap (λ n. get_or b n 0) (omega arith)
get_or-append (x ∷ a) b i =
    let e : suc (length a) + i ≡ suc (length a + i) = omega arith in rw e (get_or-append a b i)
