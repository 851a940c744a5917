-- ===== src/Ranges/Update.antt =====
-- The treap of live allocations through insertion and removal: order, heap and contents together.
use ycpl.Base.{◌+◌, ◌≡◌, ◌≢◌, ◌==◌, if◌then◌else◌, arith}
use ycpl.Address.{Ptr}
use ycpl.Ranges.{Treap, leaf, node, insert, remove}
use ycpl.Ranges.Order.{All, IsOrdered, occurrences, insert-IsOrdered, remove-IsOrdered}
use ycpl.Ranges.Heap.{IsHeap, insert-IsHeap, remove-IsHeap}
use ycpl.Ranges.Contents.{occurrences-insert, occurrences-remove}

-- A search tree by address and a heap by hash.
pub record IsTreap (t : Treap) : Type 0 where
  pub ordered : IsOrdered t
  pub heap : IsHeap t

absent-All : (t : Treap) (h : Ptr) → occurrences h t ≡ 0 → All (λ x. x ≢ h) t
unfolding occurrences
absent-All leaf h e = tt
absent-All (node l a r) h e =
    (absent-All l h (omega arith), λ same. absurd (ground arith), absent-All r h (omega arith))

-- `yc_range_insert` of a new header keeps the treap a search tree by address and a heap by hash, and
-- adds the header and nothing else.
pub insert-IsTreap :
    (t : Treap) (h : Ptr)
    → IsTreap t
    → occurrences h t ≡ 0
    → IsTreap (insert t h)
      × ((x : Ptr) → occurrences x (insert t h) ≡ occurrences x t + (if x == h then 1 else 0))
insert-IsTreap t h v new = (
  record {
    ordered = insert-IsOrdered t h v.ordered (absent-All t h new);
    heap = insert-IsHeap t h v.heap;
  },
  λ x. occurrences-insert x t h,
)

-- `yc_range_remove` keeps the treap a search tree by address and a heap by hash, and takes out the
-- header and nothing else.
pub remove-IsTreap :
    (t : Treap) (h : Ptr)
    → IsTreap t
    → IsTreap (remove t h)
      × ((x : Ptr) → occurrences x (remove t h) ≡ (if x == h then 0 else occurrences x t))
remove-IsTreap t h v = (
  record { ordered = remove-IsOrdered t h v.ordered; heap = remove-IsHeap t h v.heap },
  λ x. occurrences-remove x t h v.ordered,
)
