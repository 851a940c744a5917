-- ===== src/Allocation/Heights.antt =====
-- Heights for the walks down the ownership, from the lengths of the owner chains, and the chains after
-- a release.
use ycpl.Base.{ℕ, zero, suc, ◌-◌, ◌≤◌, ◌≡◌, ◌≢◌, ◌⊎◌, inl, inr, List, arith}
use ycpl.Address.{Ptr, null}
use ycpl.Memory.{Memory}
use ycpl.Ownership.Roots.{IsRooted}
use ycpl.Ownership.Depth.{depth, depth-le, depth-owner}
use ycpl.Allocation.Release.{IsReady}
use ycpl.Allocation.Sound.{IsSound}

null-IsRooted : (owner : Ptr → Ptr) (n : ℕ) (x : Ptr) → x ≡ null → IsRooted owner n x
null-IsRooted owner zero x e = e
null-IsRooted owner (suc n) x e = inl e

-- Chains do not get longer when headers become roots.
pub IsRooted-shorter :
    (owner owner' : Ptr → Ptr) (n : ℕ) (x : Ptr)
    → ((y : Ptr) → (owner' y ≡ owner y) ⊎ (owner' y ≡ null))
    → IsRooted owner n x
    → IsRooted owner' n x
IsRooted-shorter owner owner' zero x trimmed r = r
IsRooted-shorter owner owner' (suc n) x trimmed (inl e) = inl e
IsRooted-shorter owner owner' (suc n) x trimmed (inr r) = elim (trimmed x) [
  | inl e ↦ inr (rw e (IsRooted-shorter owner owner' n (owner x) trimmed r))
  | inr e ↦ inr (null-IsRooted owner' n (owner' x) e)
]

module _ (m : Memory) (children : Ptr → List Ptr) (members : ℕ → List Ptr) (n width : ℕ)
    (s : IsSound m children members n width) where
  pub height : Ptr → ℕ
  height x = n - depth m.owner n x

  pub height-le : (x : Ptr) → height x ≤ n
  unfolding height
  height-le x = omega arith

  pub sound-IsReady : IsReady height width m children members
  unfolding height
  sound-IsReady = (
    s.tracked,
    λ x owned.
        let big = s.tracked.real x (s.tracked.owners_live x owned).0 in
        let real : x ≢ null = λ e. absurd (omega (arith, big, e)) in
        omega (
          arith,
          depth-owner m.owner n x (s.rooted x) real,
          depth-le m.owner n x,
          depth-le m.owner n (m.owner x),
        ),
    s.narrow,
  )
