-- ===== src/Ranges/Order.antt =====
-- The search order of the treap, by address.
use ycpl.Base.{ℕ, ◌+◌, ◌<◌, ◌≢◌, inl, inr, true, false, ltb, ◌==◌, if◌then◌else◌, Bool-cases, arith}
use ycpl.Address.{Ptr, ptr_hash}
use ycpl.Ranges.Steps.{
  merge-true, merge-false, insert-true, insert-false, remove_here, remove-true, remove-false,
}
use ycpl.Ranges.{Treap, leaf, node, merge, rotate_right, rotate_left, insert, remove}

-- Every header of the tree satisfies `P`.
abbrev pub All : (Ptr → Type 0) → Treap → Type 0
All P leaf = Unit
All P (node l a r) = All P l × P a × All P r

-- Addresses grow from left to right.
abbrev pub IsOrdered : Treap → Type 0
IsOrdered leaf = Unit
IsOrdered (node l a r) = All (λ x. x < a) l × All (λ x. a < x) r × IsOrdered l × IsOrdered r

-- How often a header occurs.
unfoldable pub occurrences : Ptr → Treap → ℕ
occurrences x leaf = 0
occurrences x (node l a r) = occurrences x l + (if x == a then 1 else 0) + occurrences x r

pub All-imp : {P Q : Ptr → Type 0} → ((x : Ptr) → P x → Q x) → (t : Treap) → All P t → All Q t
All-imp f leaf a = tt
All-imp f (node l x r) (pl, px, pr) = (All-imp f l pl, f x px, All-imp f r pr)

All-merge : (P : Ptr → Type 0) (l r : Treap) → All P l → All P r → All P (merge l r)
unfolding merge
All-merge P leaf r p q = q
All-merge P (node l a r) leaf p q = p
All-merge P (node l a r) (node l' b r') p q = elim (Bool-cases (ltb (ptr_hash a) (ptr_hash b))) [
  | inl e ↦ rw (merge-true l a r l' b r' e) (p.0, p.1, All-merge P r (node l' b r') p.2 q)
  | inr e ↦ rw (merge-false l a r l' b r' e) (All-merge P (node l a r) l' p q.0, q.1, q.2)
]

All-rotate_right :
    (P : Ptr → Type 0) (l : Treap) (a : Ptr) (r : Treap)
    → All P l
    → P a
    → All P r
    → All P (rotate_right l a r)
unfolding rotate_right
All-rotate_right P leaf a r p q s = (tt, q, s)
All-rotate_right P (node l b m) a r (pl, pb, pm) q s =
    elim (ltb (ptr_hash b) (ptr_hash a))
      as (λ t. All P (if t then node l b (node m a r) else node (node l b m) a r)) [
        | true ↦ (pl, pb, (pm, q, s))
        | false ↦ ((pl, pb, pm), q, s)
      ]

All-rotate_left :
    (P : Ptr → Type 0) (l : Treap) (a : Ptr) (r : Treap)
    → All P l
    → P a
    → All P r
    → All P (rotate_left l a r)
unfolding rotate_left
All-rotate_left P l a leaf p q s = (p, q, tt)
All-rotate_left P l a (node m b r) p q (pm, pb, pr) =
    elim (ltb (ptr_hash b) (ptr_hash a))
      as (λ t. All P (if t then node (node l a m) b r else node l a (node m b r))) [
        | true ↦ ((p, q, pm), pb, pr)
        | false ↦ (p, q, (pm, pb, pr))
      ]

All-insert : (P : Ptr → Type 0) (t : Treap) (h : Ptr) → P h → All P t → All P (insert t h)
unfolding insert
All-insert P leaf h p a = (tt, p, tt)
All-insert P (node l x r) h p (al, ax, ar) = elim (Bool-cases (ltb h x)) [
  | inl e ↦
      rw (insert-true l x r h e) (All-rotate_right P (insert l h) x r (All-insert P l h p al) ax ar)
  | inr e ↦
      rw (insert-false l x r h e) (All-rotate_left P l x (insert r h) al ax (All-insert P r h p ar))
]

All-remove : (P : Ptr → Type 0) (t : Treap) (h : Ptr) → All P t → All P (remove t h)
unfolding remove
All-remove P leaf h a = tt
All-remove P (node l x r) h (al, ax, ar) = elim (Bool-cases (x == h)) [
  | inl e ↦ rw (remove_here l x r h e) (All-merge P l r al ar)
  | inr ne ↦ elim (Bool-cases (ltb h x)) [
    | inl e ↦ rw (remove-true l x r h ne e) (All-remove P l h al, ax, ar)
    | inr e ↦ rw (remove-false l x r h ne e) (al, ax, All-remove P r h ar)
  ]
]

-- Merging two search trees, the one below the other.
merge-IsOrdered :
    (l r : Treap) (k : Ptr)
    → All (λ x. x < k) l
    → All (λ x. k < x) r
    → IsOrdered l
    → IsOrdered r
    → IsOrdered (merge l r)
unfolding merge
merge-IsOrdered leaf r k p q o o' = o'
merge-IsOrdered (node l a r) leaf k p q o o' = o
merge-IsOrdered (node l a r) (node l' b r') k p q o o' =
    elim (Bool-cases (ltb (ptr_hash a) (ptr_hash b))) [
      | inl e ↦
          let up : (x : Ptr) → k < x → a < x = λ x h. omega (arith, p.1) in
          rw (merge-true l a r l' b r' e) (
            o.0,
            All-merge (λ x. a < x) r (node l' b r') o.1 (All-imp up (node l' b r') q),
            o.2,
            merge-IsOrdered r (node l' b r') k p.2 q o.3 o',
          )
      | inr e ↦
          let down : (x : Ptr) → x < k → x < b = λ x h. omega (arith, q.1) in
          rw (merge-false l a r l' b r' e) (
            All-merge (λ x. x < b) (node l a r) l' (All-imp down (node l a r) p) o'.0,
            o'.1,
            merge-IsOrdered (node l a r) l' k p q.0 o o'.2,
            o'.3,
          )
    ]

rotate_right-IsOrdered :
    (l : Treap) (a : Ptr) (r : Treap) → IsOrdered (node l a r) → IsOrdered (rotate_right l a r)
unfolding rotate_right
rotate_right-IsOrdered leaf a r o = o
rotate_right-IsOrdered (node l b m) a r ((lb, ba, ma), ar, (ol, om, sl, sm), sr) =
    elim (ltb (ptr_hash b) (ptr_hash a))
      as (λ t. IsOrdered (if t then node l b (node m a r) else node (node l b m) a r)) [
        | true ↦ (ol, (om, ba, All-imp (λ x h. omega arith) r ar), sl, (ma, ar, sm, sr))
        | false ↦ ((lb, ba, ma), ar, (ol, om, sl, sm), sr)
      ]

rotate_left-IsOrdered :
    (l : Treap) (a : Ptr) (r : Treap) → IsOrdered (node l a r) → IsOrdered (rotate_left l a r)
unfolding rotate_left
rotate_left-IsOrdered l a leaf o = o
rotate_left-IsOrdered l a (node m b r) (la, (am, ab, ar), sl, (mb, br, sm, sr)) =
    elim (ltb (ptr_hash b) (ptr_hash a))
      as (λ t. IsOrdered (if t then node (node l a m) b r else node l a (node m b r))) [
        | true ↦ ((All-imp (λ x h. omega arith) l la, ab, mb), br, (la, am, sl, sm), sr)
        | false ↦ (la, (am, ab, ar), sl, (mb, br, sm, sr))
      ]

-- `yc_range_insert` of a header that is not in the tree keeps the order by address.
pub insert-IsOrdered :
    (t : Treap) (h : Ptr) → IsOrdered t → All (λ x. x ≢ h) t → IsOrdered (insert t h)
unfolding insert
insert-IsOrdered leaf h o new = (tt, tt, tt, tt)
insert-IsOrdered (node l a r) h (la, ar, sl, sr) (nl, na, nr) = elim (Bool-cases (ltb h a)) [
  | inl e ↦ rw (insert-true l a r h e) (
      rotate_right-IsOrdered (insert l h) a r
        (All-insert (λ x. x < a) l h (ground arith) la, ar, insert-IsOrdered l h sl nl, sr))
  | inr e ↦ rw (insert-false l a r h e) (
      rotate_left-IsOrdered l a (insert r h)
        (la, All-insert (λ x. a < x) r h (ground arith) ar, sl, insert-IsOrdered r h sr nr))
]

-- `yc_range_remove` keeps the order by address.
pub remove-IsOrdered : (t : Treap) (h : Ptr) → IsOrdered t → IsOrdered (remove t h)
unfolding remove
remove-IsOrdered leaf h o = tt
remove-IsOrdered (node l a r) h (la, ar, sl, sr) = elim (Bool-cases (a == h)) [
  | inl e ↦ rw (remove_here l a r h e) (merge-IsOrdered l r a la ar sl sr)
  | inr ne ↦ elim (Bool-cases (ltb h a)) [
    | inl e ↦
        rw (remove-true l a r h ne e)
          (All-remove (λ x. x < a) l h la, ar, remove-IsOrdered l h sl, sr)
    | inr e ↦
        rw (remove-false l a r h ne e)
          (la, All-remove (λ x. a < x) r h ar, sl, remove-IsOrdered r h sr)
  ]
]
