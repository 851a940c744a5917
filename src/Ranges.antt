-- ===== src/Ranges.antt =====
-- The address-ordered treap of live allocations (bootstrap/cpp/runtime/yc_runtime.c). The fields
-- `range_left` and `range_right` make a tree whose nodes have one parent each, so it is a data type.
pub mod Steps
pub mod Order
pub mod Contents
pub mod Heap
pub mod Update
pub mod Find
use ycpl.Base.{ℕ, ◌-◌, ◌%◌, ◌+◌, Bool, true, false, not, ◌&&◌, ltb, ◌==◌, if◌then◌else◌}
use ycpl.Address.{Ptr, null, word, payload, ptr_hash}

-- A null pointer, or a header between its two subtrees.
pub data Treap : Type 0 where
  leaf : Treap
  node : (left : Treap) (header : Ptr) (right : Treap) → Treap

-- `yc_range_merge`
pub merge : Treap → Treap → Treap
merge leaf right = right
merge (node l a r) leaf = node l a r
merge (node l a r) (node l' b r') = elim (ltb (ptr_hash a) (ptr_hash b)) [
  | true ↦ node l a (merge r (node l' b r'))
  | false ↦ node (merge (node l a r) l') b r'
]

-- The rotations of `yc_range_insert`, after the insertion into the left or the right subtree.
-- What is inserted into is not null.
pub rotate_right : Treap → Ptr → Treap → Treap
rotate_right leaf a r = node leaf a r
rotate_right (node l b m) a r =
    if ltb (ptr_hash b) (ptr_hash a) then node l b (node m a r) else node (node l b m) a r

pub rotate_left : Treap → Ptr → Treap → Treap
rotate_left l a leaf = node l a leaf
rotate_left l a (node m b r) =
    if ltb (ptr_hash b) (ptr_hash a) then node (node l a m) b r else node l a (node m b r)

-- `yc_range_insert`
unfoldable pub insert : Treap → Ptr → Treap
unfolding rotate_right rotate_left
insert leaf h = node leaf h leaf
insert (node l a r) h = elim (ltb h a) [
  | true ↦ rotate_right (insert l h) a r
  | false ↦ rotate_left l a (insert r h)
]

-- `yc_range_remove`
unfoldable pub remove : Treap → Ptr → Treap
unfolding merge
remove leaf h = leaf
remove (node l a r) h =
    if a == h
    then merge l r
    else elim (ltb h a) [ true ↦ node (remove l h) a r | false ↦ node l a (remove r h) ]

-- The descent of `yc_range_find`, with the candidate met so far.
pub descend : Ptr → Treap → Ptr → Ptr
descend address leaf candidate = candidate
descend address (node l a r) candidate = elim (ltb address (payload a)) [
  | true ↦ descend address l candidate
  | false ↦ descend address r a
]

-- `yc_range_find`: the header of the allocation that `ptr` points into. `size` reads `header->size`.
unfoldable pub find : (Ptr → ℕ) → Ptr → Treap → Ptr
unfolding descend
find size ptr t =
    let candidate = descend ptr t null in
    if not (candidate == null) && ltb ((ptr + word - payload candidate) % word) (size candidate)
    then candidate
    else null
