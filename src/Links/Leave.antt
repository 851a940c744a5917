-- ===== src/Links/Leave.antt =====
-- Lists once a header is out of them: who is left, and how many.
use ycpl.Base.{
  ℕ, ◌⊎◌, ◌≤◌, ◌<◌, ◌≡◌, inl, inr, true, List, [], ◌∷◌, arith, ◌==◌, Bool-cases, length,
}
use ycpl.Address.{Ptr}
use ycpl.Links.Chain.{has, erase, has-erase}
use ycpl.Links.Family.{Family, joined, left_by}

length-erase_le : (h : Ptr) (xs : List Ptr) → length (erase h xs) ≤ length xs
length-erase_le h [] = omega arith
length-erase_le h (x ∷ xs) = elim (Bool-cases (h == x)) [
  | inl e ↦ rw e (omega arith)
  | inr e ↦ rw e (omega (arith, length-erase_le h xs))
]

length-erase_lt : (h : Ptr) (xs : List Ptr) → has h xs ≡ true → length (erase h xs) < length xs
length-erase_lt h [] inside = absurd (ground arith)
length-erase_lt h (x ∷ xs) inside = elim (Bool-cases (h == x)) [
  | inl e ↦ rw e (omega arith)
  | inr e ↦ rw e (omega (arith, length-erase_lt h xs (ground arith)))
]

pub length-left_by :
    (h k j : ℕ) (members : ℕ → List Ptr) → length (left_by h k members j) ≤ length (members j)
length-left_by h k j members = elim (Bool-cases (j == k)) [
  | inl e ↦ rw e (length-erase_le h (members j))
  | inr e ↦ rw e (omega arith)
]

-- The list that a member leaves is shorter.
pub left_by-less :
    (h k : ℕ) (members : ℕ → List Ptr)
    → has h (members k) ≡ true
    → length (left_by h k members k) < length (members k)
left_by-less h k members inside =
    let own : (k == k) ≡ true = ground arith in rw own (length-erase_lt h (members k) inside)

-- Who is there after a header joined is that header, or was there before.
pub joined-was :
    (h k j x : ℕ) (members : ℕ → List Ptr)
    → has x (joined h k members j) ≡ true
    → (x ≡ h) ⊎ (has x (members j) ≡ true)
joined-was h k j x members inside = elim (Bool-cases (j == k)) [
  | inr e ↦ inr (rw e at inside)
  | inl e ↦
      let in_list : has x (h ∷ members j) ≡ true = rw e at inside in
      elim (Bool-cases (x == h)) [ inl here ↦ inl (ground arith) | inr away ↦ inr (ground arith) ]
]

-- Who is left was there before.
pub left_by-was :
    (next prev : Ptr → Ptr) (heads : ℕ → Ptr) (kin : Ptr → ℕ) (members : ℕ → List Ptr)
    → Family next prev heads kin members
    → (h k j x : ℕ) → has x (left_by h k members j) ≡ true
    → has x (members j) ≡ true
left_by-was next prev heads kin members family h k j x inside = elim (Bool-cases (j == k)) [
  | inr e ↦ rw e at inside
  | inl e ↦
      let left : has x (erase h (members j)) ≡ true = rw e at inside in
      ground (arith, has-erase x h (members j) (family.0 j).1)
]
