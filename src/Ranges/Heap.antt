-- ===== src/Ranges/Heap.antt =====
-- The heap order of the treap, by the hash of the address.
use ycpl.Base.{ℕ, ◌≤◌, inl, inr, ltb, ◌==◌, Bool-cases, arith}
use ycpl.Address.{Ptr, ptr_hash}
use ycpl.Ranges.{Treap, leaf, node, merge, rotate_right, rotate_left, insert, remove}
use ycpl.Ranges.Steps.{
  merge-true, merge-false, insert-true, insert-false, remove_here, remove-true, remove-false,
}

-- The root's hash is `k` or more.
abbrev pub AtLeast : ℕ → Treap → Type 0
AtLeast k leaf = Unit
AtLeast k (node l a r) = k ≤ ptr_hash a

abbrev pub IsHeap : Treap → Type 0
IsHeap leaf = Unit
IsHeap (node l a r) = AtLeast (ptr_hash a) l × AtLeast (ptr_hash a) r × IsHeap l × IsHeap r

-- The subtrees of the root start at `k` or more.
abbrev Shielded : ℕ → Treap → Type 0
Shielded k leaf = Unit
Shielded k (node l a r) = AtLeast k l × AtLeast k r

AtLeast-mono : (j k : ℕ) (t : Treap) → j ≤ k → AtLeast k t → AtLeast j t
AtLeast-mono j k leaf le h = tt
AtLeast-mono j k (node l a r) le h = omega arith

AtLeast-merge : (k : ℕ) (l r : Treap) → AtLeast k l → AtLeast k r → AtLeast k (merge l r)
unfolding merge
AtLeast-merge k leaf r p q = q
AtLeast-merge k (node l a r) leaf p q = p
AtLeast-merge k (node l a r) (node l' b r') p q =
    elim (Bool-cases (ltb (ptr_hash a) (ptr_hash b))) [
      | inl e ↦ rw (merge-true l a r l' b r' e) p
      | inr e ↦ rw (merge-false l a r l' b r' e) q
    ]

merge-IsHeap : (l r : Treap) → IsHeap l → IsHeap r → IsHeap (merge l r)
unfolding merge
merge-IsHeap leaf r p q = q
merge-IsHeap (node l a r) leaf p q = p
merge-IsHeap (node l a r) (node l' b r') p q = elim (Bool-cases (ltb (ptr_hash a) (ptr_hash b))) [
  | inl e ↦ rw (merge-true l a r l' b r' e) (
    p.0,
    AtLeast-merge (ptr_hash a) r (node l' b r') p.1 (ground arith),
    p.2,
    merge-IsHeap r (node l' b r') p.3 q,
  )
  | inr e ↦ rw (merge-false l a r l' b r' e) (
    AtLeast-merge (ptr_hash b) (node l a r) l' (ground arith) q.0,
    q.1,
    merge-IsHeap (node l a r) l' p q.2,
    q.3,
  )
]

-- A rotation after an insertion into a subtree of `node l a r` restores the heap.
rotate_right-IsHeap :
    (k : ℕ) (l : Treap) (a : Ptr) (r : Treap)
    → Shielded (ptr_hash a) l
    → IsHeap l
    → AtLeast (ptr_hash a) r
    → IsHeap r
    → k ≤ ptr_hash a
    → IsHeap (rotate_right l a r) × Shielded k (rotate_right l a r)
unfolding rotate_right
rotate_right-IsHeap k leaf a r s h q h' le =
    ((tt, q, tt, h'), (tt, AtLeast-mono k (ptr_hash a) r le q))
rotate_right-IsHeap k (node l b m) a r s h q h' le =
    elim (Bool-cases (ltb (ptr_hash b) (ptr_hash a))) [
      | inl e ↦
          rw e (
            (h.0, ground arith, h.2, (s.1, q, h.3, h')),
            (AtLeast-mono k (ptr_hash a) l le s.0, le),
          )
      | inr e ↦ rw e ((ground arith, q, h, h'), (ground arith, AtLeast-mono k (ptr_hash a) r le q))
    ]

rotate_left-IsHeap :
    (k : ℕ) (l : Treap) (a : Ptr) (r : Treap)
    → AtLeast (ptr_hash a) l
    → IsHeap l
    → Shielded (ptr_hash a) r
    → IsHeap r
    → k ≤ ptr_hash a
    → IsHeap (rotate_left l a r) × Shielded k (rotate_left l a r)
unfolding rotate_left
rotate_left-IsHeap k l a leaf q h s h' le =
    ((q, tt, h, tt), (AtLeast-mono k (ptr_hash a) l le q, tt))
rotate_left-IsHeap k l a (node m b r) q h s h' le =
    elim (Bool-cases (ltb (ptr_hash b) (ptr_hash a))) [
      | inl e ↦ rw e (
        (ground arith, h'.1, (q, s.0, h, h'.2), h'.3),
        (le, AtLeast-mono k (ptr_hash a) r le s.1),
      )
      | inr e ↦ rw e ((q, ground arith, h, h'), (AtLeast-mono k (ptr_hash a) l le q, ground arith))
    ]

insert-Shielded :
    (k : ℕ) (t : Treap) (h : Ptr)
    → IsHeap t
    → AtLeast k t
    → IsHeap (insert t h) × Shielded k (insert t h)
unfolding insert
insert-Shielded k leaf h p q = ((tt, tt, tt, tt), (tt, tt))
insert-Shielded k (node l a r) h (pl, pr, hl, hr) q = elim (Bool-cases (ltb h a)) [
  | inl e ↦
      let (heap, shield) = insert-Shielded (ptr_hash a) l h hl pl in
      rw (insert-true l a r h e) (rotate_right-IsHeap k (insert l h) a r shield heap pr hr q)
  | inr e ↦
      let (heap, shield) = insert-Shielded (ptr_hash a) r h hr pr in
      rw (insert-false l a r h e) (rotate_left-IsHeap k l a (insert r h) pl hl shield heap q)
]

AtLeast-zero : (t : Treap) → AtLeast 0 t
AtLeast-zero leaf = tt
AtLeast-zero (node l a r) = omega arith

-- `yc_range_insert` keeps the heap.
pub insert-IsHeap : (t : Treap) (h : Ptr) → IsHeap t → IsHeap (insert t h)
insert-IsHeap t h p = (insert-Shielded 0 t h p (AtLeast-zero t)).0

remove-AtLeast :
    (k : ℕ) (t : Treap) (h : Ptr)
    → IsHeap t
    → AtLeast k t
    → IsHeap (remove t h) × AtLeast k (remove t h)
unfolding remove
remove-AtLeast k leaf h p q = (tt, tt)
remove-AtLeast k (node l a r) h (pl, pr, hl, hr) q = elim (Bool-cases (a == h)) [
  | inl e ↦ rw (remove_here l a r h e) (
    merge-IsHeap l r hl hr,
    AtLeast-merge k l r (AtLeast-mono k (ptr_hash a) l q pl) (AtLeast-mono k (ptr_hash a) r q pr),
  )
  | inr ne ↦ elim (Bool-cases (ltb h a)) [
    | inl e ↦
        let (heap, above) = remove-AtLeast (ptr_hash a) l h hl pl in
        rw (remove-true l a r h ne e) ((above, pr, heap, hr), q)
    | inr e ↦
        let (heap, above) = remove-AtLeast (ptr_hash a) r h hr pr in
        rw (remove-false l a r h ne e) ((pl, above, hl, heap), q)
  ]
]

-- `yc_range_remove` keeps the heap.
pub remove-IsHeap : (t : Treap) (h : Ptr) → IsHeap t → IsHeap (remove t h)
remove-IsHeap t h p = (remove-AtLeast 0 t h p (AtLeast-zero t)).0
