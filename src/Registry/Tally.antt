-- ===== src/Registry/Tally.antt =====
-- Weighted counts over a list of slots, and how one write changes them.
use ycpl.Base.{
  ℕ, zero, suc, ◌+◌, ◌≤◌, ◌<◌, ◌≡◌, refl, inl, inr, Bool-cases, List, [], ◌∷◌, arith, ◌==◌, ltb,
  if◌then◌else◌, length, set, replicate,
}
use ycpl.Registry.{slot_at}

unfoldable pub tally : (ℕ → ℕ) → List ℕ → ℕ
tally f [] = 0
tally f (x ∷ xs) = f x + tally f xs

-- One for an empty slot's opposite, for a header, and for the header `x`.
abbrev pub is_filled : ℕ → ℕ
is_filled y = if y == 0 then 0 else 1

abbrev pub is_live : ℕ → ℕ
is_live y = if ltb 1 y then 1 else 0

abbrev pub is_it : ℕ → ℕ → ℕ
is_it x y = if x == y then 1 else 0

-- The slots in use, the headers, and how often `x` occurs.
abbrev pub filled : List ℕ → ℕ
filled = tally is_filled

abbrev pub live : List ℕ → ℕ
live = tally is_live

abbrev pub occurrences : ℕ → List ℕ → ℕ
occurrences x = tally (is_it x)

pub tally-set :
    (f : ℕ → ℕ) (xs : List ℕ) (i v : ℕ)
    → i < length xs
    → tally f (set xs i v) + f (slot_at xs i) ≡ tally f xs + f v
unfolding tally
tally-set f [] i v h = elim h [ ]
tally-set f (x ∷ xs) zero v h = omega arith
tally-set f (x ∷ xs) (suc i) v h = omega (arith, tally-set f xs i v (omega arith))

pub tally-replicate : (f : ℕ → ℕ) (n : ℕ) → f 0 ≡ 0 → tally f (replicate n 0) ≡ 0
unfolding tally
tally-replicate f zero h = refl
tally-replicate f (suc n) h = omega (arith, tally-replicate f n h)

pub live-le-filled : (xs : List ℕ) → live xs ≤ filled xs
unfolding tally
live-le-filled [] = omega arith
live-le-filled (x ∷ xs) = ground (arith, live-le-filled xs)

-- A table with fewer slots in use than slots has an empty one.
pub filled-lt :
    (xs : List ℕ) → filled xs < length xs → (i : ℕ) × (i < length xs) × (slot_at xs i ≡ 0)
unfolding tally
filled-lt [] h = elim h [ ]
filled-lt (zero ∷ xs) h = (0, omega arith, refl)
filled-lt (suc x ∷ xs) h =
    let (i, below, e) = filled-lt xs (ground arith) in (suc i, omega arith, e)

pub occurrences-pos : (xs : List ℕ) (i : ℕ) → i < length xs → 0 < occurrences (slot_at xs i) xs
unfolding tally
occurrences-pos [] i h = elim h [ ]
occurrences-pos (x ∷ xs) zero h = ground arith
occurrences-pos (x ∷ xs) (suc i) h = omega (arith, occurrences-pos xs i (omega arith))

pub live-pos : (xs : List ℕ) (i : ℕ) → i < length xs → 1 < slot_at xs i → 0 < live xs
unfolding tally
live-pos [] i h big = elim h [ ]
live-pos (x ∷ xs) zero h big = ground arith
live-pos (x ∷ xs) (suc i) h big = omega (arith, live-pos xs i (omega arith) big)

pub occurrences_at :
    (x : ℕ) (xs : List ℕ) → 0 < occurrences x xs → (i : ℕ) × (i < length xs) × (slot_at xs i ≡ x)
unfolding tally
occurrences_at x [] h = elim h [ ]
occurrences_at x (y ∷ xs) h = elim (Bool-cases (x == y)) [
  | inl e ↦ (0, omega arith, ground arith)
  | inr e ↦ let (i, below, at) = occurrences_at x xs (ground arith) in (suc i, omega arith, at)
]
