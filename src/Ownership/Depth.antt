-- ===== src/Ownership/Depth.antt =====
-- The depth of a header below its root, which bounds the walks down the ownership.
use ycpl.Base.{
  ℕ, zero, suc, ◌≤◌, ◌≡◌, refl, sym, ◌≢◌, inl, inr, false, arith, ◌==◌, if◌then◌else◌, Bool-cases,
  eq_of_==, ◌∙◌, ap,
}
use ycpl.Address.{Ptr, null}
use ycpl.Ownership.Roots.{IsRooted}

unfoldable pub depth : (Ptr → Ptr) → ℕ → Ptr → ℕ
depth owner zero h = 0
depth owner (suc n) h = if h == null then 0 else suc (depth owner n (owner h))

depth_real :
    (owner : Ptr → Ptr) (n : ℕ) (h : Ptr)
    → h ≢ null
    → depth owner (suc n) h ≡ suc (depth owner n (owner h))
unfolding depth
depth_real owner n h real = let e : (h == null) ≡ false = ground arith in rw e refl

depth-null : (owner : Ptr → Ptr) (n : ℕ) → depth owner n null ≡ 0
unfolding depth
depth-null owner zero = refl
depth-null owner (suc n) = refl

pub depth-le : (owner : Ptr → Ptr) (n : ℕ) (h : Ptr) → depth owner n h ≤ n
depth-le owner zero h = unfold depth in omega arith
depth-le owner (suc n) h = elim (Bool-cases (h == null)) [
  | inl e ↦ rw (eq_of_== h null e, depth-null owner (suc n)) (omega arith)
  | inr e ↦ omega (arith, depth_real owner n h (ground arith), depth-le owner n (owner h))
]

-- More steps than the chain has count no more.
depth-stable :
    (owner : Ptr → Ptr) (n : ℕ) (h : Ptr)
    → IsRooted owner n h
    → depth owner (suc n) h ≡ depth owner n h
depth-stable owner zero h top = rw (top, depth-null owner 1, depth-null owner 0) refl
depth-stable owner (suc n) h rooted = elim (Bool-cases (h == null)) [
  | inl e ↦ rw (eq_of_== h null e, depth-null owner (suc (suc n)), depth-null owner (suc n)) refl
  | inr e ↦ elim rooted [
    | inl top ↦ absurd (ground arith)
    | inr r ↦
        depth_real owner (suc n) h (ground arith)
        ∙ ap suc (depth-stable owner n (owner h) r)
        ∙ sym (depth_real owner n h (ground arith))
  ]
]

-- A header is one deeper than its owner.
pub depth-owner :
    (owner : Ptr → Ptr) (n : ℕ) (h : Ptr)
    → IsRooted owner n h
    → h ≢ null
    → depth owner n h ≡ suc (depth owner n (owner h))
depth-owner owner n h rooted real = sym (depth-stable owner n h rooted) ∙ depth_real owner n h real
