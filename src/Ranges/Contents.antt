-- ===== src/Ranges/Contents.antt =====
-- What the treap holds after an insertion and a removal.
use ycpl.Base.{◌+◌, ◌<◌, ◌≡◌, refl, inl, inr, ◌==◌, if◌then◌else◌, Bool-cases, eq_of_==, arith}
use ycpl.Address.{Ptr}
use ycpl.Ranges.{Treap, leaf, node, merge, rotate_right, rotate_left, insert, remove}
use ycpl.Ranges.Order.{All, IsOrdered, occurrences}

occurrences-merge :
    (x : Ptr) (l r : Treap) → occurrences x (merge l r) ≡ occurrences x l + occurrences x r
unfolding merge occurrences
occurrences-merge x leaf r = omega arith
occurrences-merge x (node l a r) leaf = omega arith
occurrences-merge x (node l a r) (node l' b r') =
    ground (arith, occurrences-merge x r (node l' b r'), occurrences-merge x (node l a r) l')

occurrences-rotate_right :
    (x : Ptr) (l : Treap) (a : Ptr) (r : Treap)
    → occurrences x (rotate_right l a r) ≡ occurrences x (node l a r)
unfolding rotate_right occurrences
occurrences-rotate_right x leaf a r = refl
occurrences-rotate_right x (node l b m) a r = ground arith

occurrences-rotate_left :
    (x : Ptr) (l : Treap) (a : Ptr) (r : Treap)
    → occurrences x (rotate_left l a r) ≡ occurrences x (node l a r)
unfolding rotate_left occurrences
occurrences-rotate_left x l a leaf = refl
occurrences-rotate_left x l a (node m b r) = ground arith

-- `yc_range_insert` adds the header and nothing else.
pub occurrences-insert :
    (x : Ptr) (t : Treap) (h : Ptr)
    → occurrences x (insert t h) ≡ occurrences x t + (if x == h then 1 else 0)
unfolding insert occurrences
occurrences-insert x leaf h = omega arith
occurrences-insert x (node l a r) h = ground (
  arith,
  occurrences-rotate_right x (insert l h) a r,
  occurrences-rotate_left x l a (insert r h),
  occurrences-insert x l h,
  occurrences-insert x r h,
)

-- A bound that a header violates keeps it out of a tree.
pub occurrences-zero :
    (x : Ptr) (P : Ptr → Type 0) (t : Treap) → ¬ P x → All P t → occurrences x t ≡ 0
unfolding occurrences
occurrences-zero x P leaf no_x p = refl
occurrences-zero x P (node l a r) no_x (pl, pa, pr) = elim (Bool-cases (x == a)) [
  | inl e ↦ absurd (no_x (rw (eq_of_== x a e) pa))
  | inr e ↦ rw (occurrences-zero x P l no_x pl, occurrences-zero x P r no_x pr, e) refl
]

-- `yc_range_remove` takes out the header and nothing else.
pub occurrences-remove :
    (x : Ptr) (t : Treap) (h : Ptr)
    → IsOrdered t
    → occurrences x (remove t h) ≡ (if x == h then 0 else occurrences x t)
unfolding remove occurrences
occurrences-remove x leaf h o = ground arith
occurrences-remove x (node l a r) h (la, ar, sl, sr) = ground (
  arith,
  occurrences-merge x l r,
  occurrences-remove x l h sl,
  occurrences-remove x r h sr,
  occurrences-zero x (λ y. y < a) l,
  occurrences-zero x (λ y. a < y) r,
)
