-- ===== src/Interface/Reached.antt =====
-- What holds of every memory that calls of the runtime lead to.
use ycpl.Base.{inr, ℕ, ◌≡◌, refl, inl, inr, some, [], arith}
use ycpl.Address.{Ptr}
use ycpl.Registry.Tally
use ycpl.Ranges.Order
use ycpl.Memory.{Memory}
use ycpl.Allocation.{Library, alloc, release, frame_pop}
use ycpl.Allocation.Sound.{Sound}
use ycpl.Interface
use ycpl.Interface.{
  attach_child, attach_child_to_owner, replace_child, move_to_ancestor, move_to_root,
  move_frame_to_parent,
}
use ycpl.Interface.Keeps.{Keeps, release-Sound, frame_pop-Sound}
use ycpl.Interface.Attaching.{attach_child-Sound, replace_child-Sound}
use ycpl.Interface.Parent.{move_frame_to_parent-Keeps}
use ycpl.Interface.Rooted.{move_to_ancestor-Keeps, move_to_root-Keeps}
use ycpl.Interface.Owner.{IsServed, stored, alloc-Keeps, realloc-Keeps, attach_child_to_owner-Keeps}
use ycpl.Interface.Steps.{initial, Reachable, begins, runs, Step-Sound}

initial-Sound : Sound initial
unfolding Tally.tally Order.occurrences
initial-Sound = (
  (λ p. []),
  (λ f. []),
  1,
  0,
  record {
    tracked = record {
      owned = (
        ((λ p. (refl, tt)), λ p x inside. absurd (ground arith)),
        refl,
        λ x owned. absurd (owned refl),
      );
      owners_live = λ x owned. absurd (owned refl);
      placed = (
        ((λ f. (refl, tt)), λ f x inside. absurd (ground arith)),
        (λ x alive. absurd (ground arith)),
        λ f x inside. absurd (ground arith),
      );
      listed = ([], (refl, tt), λ x. refl);
      registry = inl refl;
      registered = λ x big dead. refl;
      ranges = record { ordered = tt; heap = tt };
      in_ranges = λ x. refl;
      real = λ x alive. absurd (ground arith);
    };
    rooted = λ x. inr refl;
    narrow = λ p. omega arith;
  },
)

-- Whatever a program calls, the memory stays sound, where the C library serves each allocation and
-- fewer than 2 ^ 32 frames are entered: the live headers are those of the list of all allocations and
-- of the treap, each is in the list of its frame, the owners make a forest of live headers, and the
-- registry knows live headers only.
pub Reachable-Sound : (m : Memory) → Reachable m → Sound m
Reachable-Sound m begins = initial-Sound
Reachable-Sound m' (runs {m} reached step) = Step-Sound m m' (Reachable-Sound m reached) step

-- In every memory that such calls lead to, a further call returns with enough fuel and leaves the
-- memory sound, whatever pointers it is given; the C library is to serve it too.
pub Reachable-Keeps :
    (m : Memory)
    → Reachable m
    → (lib : Library) (size : ℕ) → IsServed lib size m
    → (ptr parent child old : Ptr) (levels : ℕ)
    → ((p : Ptr) × (m' : Memory) × (alloc lib size m ≡ some (p, m')) × Sound m')
      × Keeps (λ fuel. stored (Interface.realloc lib fuel ptr size m))
      × Keeps (λ fuel. release fuel ptr m)
      × Keeps (λ fuel. attach_child lib fuel parent child m)
      × Keeps (λ fuel. attach_child_to_owner lib fuel parent child m)
      × Keeps (λ fuel. replace_child lib fuel parent old child m)
      × Keeps (λ fuel. move_to_ancestor lib fuel ptr levels m)
      × Keeps (λ fuel. move_to_root lib fuel ptr m)
      × Keeps (λ fuel. move_frame_to_parent lib fuel fuel m)
      × Keeps (λ fuel. frame_pop fuel fuel m)
Reachable-Keeps m reached lib size served ptr parent child old levels =
    let sound = Reachable-Sound m reached in
    let (children, members, n, width, s) = sound in
    (
      alloc-Keeps lib size m sound served,
      realloc-Keeps lib ptr size m sound served,
      release-Sound ptr m sound,
      attach_child-Sound lib parent child m sound,
      attach_child_to_owner-Keeps lib parent child m sound,
      replace_child-Sound lib parent old child m sound,
      move_to_ancestor-Keeps lib ptr m children members n width s levels,
      move_to_root-Keeps lib ptr m children members n width s,
      move_frame_to_parent-Keeps lib m sound,
      frame_pop-Sound m sound,
    )
