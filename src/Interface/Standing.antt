-- ===== src/Interface/Standing.antt =====
-- Headers in a frame, counted, and headers below their roots: why `yc_move_frame_to_parent` ends.
use mathlib.Core.Path.{subst}
use ycpl.Base.{
  ℕ, zero, suc, ◌+◌, ◌≤◌, ◌<◌, ◌≡◌, ap, ◌≢◌, ◌⊎◌, inl, inr, true, false, List, [], ◌∷◌, arith, ◌==◌,
  if◌then◌else◌, Bool-cases, ◌∙◌,
}
use ycpl.Address.{Ptr}
use ycpl.Links.Chain.{has}
use ycpl.Memory.{Memory}
use ycpl.Ownership.Roots.{IsAbove}
use ycpl.Ownership.Moves.{Under, here, down}
use ycpl.Allocation.Tracked.{IsTracked}

-- How many headers of a list stand in a frame.
pub standing : (Ptr → ℕ) → ℕ → List Ptr → ℕ
standing frame f [] = 0
standing frame f (x ∷ xs) = (if frame x == f then 1 else 0) + standing frame f xs

module _ (frame frame' : Ptr → ℕ) (f g : ℕ) (other : g ≢ f)
    (moves : (x : Ptr) → (frame' x ≡ frame x) ⊎ (frame' x ≡ g)) where
  one_le : (x : Ptr) → (if frame' x == f then 1 else 0) ≤ (if frame x == f then 1 else 0)
  one_le x = elim (moves x) [ inl e ↦ rw e (omega arith) | inr e ↦ ground (arith, e) ]

  standing-le : (xs : List Ptr) → standing frame' f xs ≤ standing frame f xs
  unfolding standing
  standing-le [] = omega arith
  standing-le (x ∷ xs) = omega (arith, one_le x, standing-le xs)

  -- Fewer stand there when one left.
  pub standing-lt :
      (h : Ptr) (xs : List Ptr)
      → has h xs ≡ true
      → frame h ≡ f
      → frame' h ≡ g
      → standing frame' f xs < standing frame f xs
  unfolding standing
  standing-lt h [] inside was is = absurd (ground arith)
  standing-lt h (x ∷ xs) inside was is = elim (Bool-cases (h == x)) [
    | inl e ↦
        let same : x ≡ h = ground arith in
        let before : (frame x == f) ≡ true =
          ap (λ (y : Ptr). frame y == f) same ∙ ground (arith, was) in
        let after : (frame' x == f) ≡ false =
          ap (λ (y : Ptr). frame' y == f) same ∙ ground (arith, is) in
        rw (before, after) (omega (arith, standing-le xs))
    | inr e ↦ omega (arith, one_le x, standing-lt h xs (ground arith) was is)
  ]

Under-down :
    (children : Ptr → List Ptr) (r p c : Ptr)
    → Under children r p
    → has c (children p) ≡ true
    → Under children r c
Under-down children r p c here inside = down inside here
Under-down children r p c (down {c = q} there under) inside =
    down there (Under-down children q p c under inside)

-- A header is below those of its owner chain.
pub IsAbove-Under :
    (m : Memory) (children : Ptr → List Ptr) (members : ℕ → List Ptr)
    → IsTracked m children members
    → (k : ℕ) (r h : Ptr) → IsAbove m.owner k r h
    → Under children r h
IsAbove-Under m children members t zero r h above = absurd above
IsAbove-Under m children members t (suc k) r h (real, inl e) =
    subst (λ x. Under children x h) e here
IsAbove-Under m children members t (suc zero) r h (real, inr above) = absurd above
IsAbove-Under m children members t (suc (suc k)) r h (real, inr above) =
    Under-down children r (m.owner h) h
      (IsAbove-Under m children members t (suc k) r (m.owner h) above) (t.owned.2 h above.0)
