-- ===== src/Ranges/Steps.antt =====
-- One step of each function of the treap, on each branch of its test.
use ycpl.Base.{◌≡◌, true, false, ltb, ◌==◌, arith}
use ycpl.Address.{Ptr, ptr_hash, payload}
use ycpl.Ranges.{Treap, node, merge, rotate_right, rotate_left, insert, remove, descend}

module _ (l : Treap) (a : Ptr) (r : Treap) where
  module _ (l' : Treap) (b : Ptr) (r' : Treap) where
    pub merge-true :
        ltb (ptr_hash a) (ptr_hash b) ≡ true
        → merge (node l a r) (node l' b r') ≡ node l a (merge r (node l' b r'))
    unfolding merge
    merge-true e = ground arith

    pub merge-false :
        ltb (ptr_hash a) (ptr_hash b) ≡ false
        → merge (node l a r) (node l' b r') ≡ node (merge (node l a r) l') b r'
    unfolding merge
    merge-false e = ground arith

  pub rotate_right-true :
      (l' : Treap) (b : Ptr) (m : Treap)
      → ltb (ptr_hash b) (ptr_hash a) ≡ true
      → rotate_right (node l' b m) a r ≡ node l' b (node m a r)
  unfolding rotate_right
  rotate_right-true l' b m e = ground arith

  module _ (h : Ptr) where
    pub insert-true : ltb h a ≡ true → insert (node l a r) h ≡ rotate_right (insert l h) a r
    unfolding insert
    insert-true e = ground arith

    pub insert-false : ltb h a ≡ false → insert (node l a r) h ≡ rotate_left l a (insert r h)
    unfolding insert
    insert-false e = ground arith

    pub remove_here : (a == h) ≡ true → remove (node l a r) h ≡ merge l r
    unfolding remove
    remove_here e = ground arith

    pub remove-true :
        (a == h) ≡ false → ltb h a ≡ true → remove (node l a r) h ≡ node (remove l h) a r
    unfolding remove
    remove-true e e' = ground arith

    pub remove-false :
        (a == h) ≡ false → ltb h a ≡ false → remove (node l a r) h ≡ node l a (remove r h)
    unfolding remove
    remove-false e e' = ground arith

    pub descend-true :
        (c : Ptr) → ltb h (payload a) ≡ true → descend h (node l a r) c ≡ descend h l c
    unfolding descend
    descend-true c e = ground arith

    pub descend-false :
        (c : Ptr) → ltb h (payload a) ≡ false → descend h (node l a r) c ≡ descend h r a
    unfolding descend
    descend-false c e = ground arith
