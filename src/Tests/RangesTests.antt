-- ===== src/Tests/RangesTests.antt =====
-- The treap of two allocations.
use ycpl.Base.{ℕ, ◌+◌, ◌≡◌, refl, arith, ◌==◌, if◌then◌else◌}
use ycpl.Address.{Ptr, payload, ptr_hash}
use ycpl.Ranges.{Treap, leaf, insert, remove, find}
use ycpl.Ranges.Order.{occurrences}
use ycpl.Ranges.Update.{IsTreap, insert-IsTreap, remove-IsTreap}
use ycpl.Ranges.Find.{AreApart, Finds, find-Finds}

leaf-IsTreap : IsTreap leaf
leaf-IsTreap = record { ordered = tt; heap = tt }

-- Two headers, inserted one after the other.
abbrev one : Treap
one = insert leaf 0x1000

abbrev two : Treap
two = insert one 0x2000

one-IsTreap : IsTreap one
unfolding occurrences
one-IsTreap = (insert-IsTreap leaf 0x1000 leaf-IsTreap refl).0

insert-IsTreap_example :
    IsTreap two
    × ((x : Ptr) → occurrences x two ≡ occurrences x one + (if x == 0x2000 then 1 else 0))
unfolding occurrences insert
insert-IsTreap_example = insert-IsTreap one 0x2000 one-IsTreap refl

remove-IsTreap_example :
    IsTreap (remove two 0x1000)
    × ((x : Ptr)
        → occurrences x (remove two 0x1000) ≡ (if x == 0x1000 then 0 else occurrences x two))
remove-IsTreap_example = remove-IsTreap two 0x1000 insert-IsTreap_example.0

abbrev sizes : Ptr → ℕ
sizes h = 64

two-AreApart : AreApart sizes two
unfolding occurrences insert payload ptr_hash
two-AreApart a b ha hb lt = ground arith

find-Finds_example : Finds sizes 0x1070 two (find sizes 0x1070 two)
unfolding occurrences insert ptr_hash
find-Finds_example =
    find-Finds sizes 0x1070 two insert-IsTreap_example.0.ordered two-AreApart (omega arith) refl

find_run : find sizes 0x1070 two ≡ 0x1000
unfolding insert find payload ptr_hash
find_run = refl
