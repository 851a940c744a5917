-- ===== src/Interface/Steps.antt =====
-- The runtime as a state machine: every entry point as a step, and what holds of all that a program
-- can reach.
use mathlib.Core.Path.{subst}
use ycpl.Base.{
  inr, ℕ, suc, ◌+◌, ◌*◌, ◌<◌, ◌^◌, ◌≡◌, sym, ap, inl, inr, Bool, false, Option, none, some, [],
  arith, ◌∙◌,
}
use ycpl.Address.{Ptr, null}
use ycpl.Registry.{no_registry}
use ycpl.Ranges.{leaf}
use ycpl.Memory.{Memory}
use ycpl.Allocation.{Library, alloc, calloc, release, frame_push, frame_pop, runtime_init}
use ycpl.Allocation.New.{calloc-product}
use ycpl.Allocation.Sound.{Sound}
use ycpl.Interface
use ycpl.Interface.{
  attach_child, attach_child_to_owner, replace_child, move_to_ancestor, move_to_root,
  move_frame_to_parent,
}
use ycpl.Interface.Keeps.{Keeps, get_some, release-Sound, frame_pop-Sound, frame_push-Sound}
use ycpl.Interface.Attaching.{attach_child-Sound, replace_child-Sound}
use ycpl.Interface.Parent.{move_frame_to_parent-Keeps}
use ycpl.Interface.Rooted.{move_to_ancestor-Keeps, move_to_root-Keeps}
use ycpl.Interface.Owner.{IsServed, stored, alloc-Keeps, realloc-Keeps, attach_child_to_owner-Keeps}

-- With enough fuel the result is `m`.
abbrev pub Gives : (ℕ → Option Memory) → Memory → Type 0
Gives f m = (bound : ℕ) × ((fuel : ℕ) → bound < fuel → f fuel ≡ some m)

-- What one call of the runtime does. Each call has its own answers of the C library.
pub data Step : Memory → Memory → Type 0 where
  initializes : {m m' : Memory} → runtime_init m ≡ m' → Step m m'
  allocates :
      {m m' : Memory} (lib : Library) (size : ℕ) (p : Ptr)
      → IsServed lib size m
      → alloc lib size m ≡ some (p, m')
      → Step m m'
  callocates :
      {m m' : Memory} (lib : Library) (count size : ℕ) (p : Ptr)
      → IsServed lib (count * size) m
      → calloc lib count size m ≡ some (p, m')
      → Step m m'
  reallocates :
      {m m' : Memory} (lib : Library) (ptr : Ptr) (size : ℕ)
      → IsServed lib size m
      → Gives (λ fuel. stored (Interface.realloc lib fuel ptr size m)) m'
      → Step m m'
  releases : {m m' : Memory} (ptr : Ptr) → Gives (λ fuel. release fuel ptr m) m' → Step m m'
  attaches :
      {m m' : Memory} (lib : Library) (parent child : Ptr)
      → Gives (λ fuel. attach_child lib fuel parent child m) m'
      → Step m m'
  attaches_to_owner :
      {m m' : Memory} (lib : Library) (parent child : Ptr)
      → Gives (λ fuel. attach_child_to_owner lib fuel parent child m) m'
      → Step m m'
  replaces :
      {m m' : Memory} (lib : Library) (parent old new : Ptr)
      → Gives (λ fuel. replace_child lib fuel parent old new m) m'
      → Step m m'
  moves_to_ancestor :
      {m m' : Memory} (lib : Library) (ptr : Ptr) (levels : ℕ)
      → Gives (λ fuel. move_to_ancestor lib fuel ptr levels m) m'
      → Step m m'
  moves_to_root :
      {m m' : Memory} (lib : Library) (ptr : Ptr)
      → Gives (λ fuel. move_to_root lib fuel ptr m) m'
      → Step m m'
  moves_frame_to_parent :
      {m m' : Memory} (lib : Library)
      → Gives (λ fuel. move_frame_to_parent lib fuel fuel m) m'
      → Step m m'
  pushes :
      {m m' : Memory} (realloc : ℕ → Bool)
      → m.current_frame + 1 < 2 ^ 32
      → frame_push realloc m ≡ some m'
      → Step m m'
  pops : {m m' : Memory} → Gives (λ fuel. frame_pop fuel fuel m) m' → Step m m'

-- The memory in which a program begins.
abbrev pub initial : Memory
initial = record {
  magic = λ x. false;
  size = λ x. 0;
  frame = λ x. 0;
  prev = λ x. null;
  next = λ x. null;
  frame_prev = λ x. null;
  frame_next = λ x. null;
  owner = λ x. null;
  first_child = λ x. null;
  sibling_prev = λ x. null;
  sibling_next = λ x. null;
  head = null;
  current_frame = 0;
  frame_heads = [];
  registry = no_registry;
  ranges = leaf;
}

pub data Reachable : Memory → Type 0 where
  begins : Reachable initial
  runs : {m m' : Memory} → Reachable m → Step m m' → Reachable m'

-- What a sound operation gives is sound.
given-Sound : (f : ℕ → Option Memory) (m m' : Memory) → Keeps f → Gives f m' → Sound m'
given-Sound f m m' (bound, keeps) (bound', gives) =
    let fuel = suc (bound + bound') in
    let (m'', run, sound) = keeps fuel (omega arith) in
    let same : m'' ≡ m' = ap (get_some m) (sym run ∙ gives fuel (omega arith)) in
    subst Sound same sound

abbrev pub second : Memory → Option (Ptr × Memory) → Memory
second m none = m
second m (some (p, m')) = m'

alloc-given :
    (lib : Library) (size : ℕ) (p : Ptr) (m m' : Memory)
    → Sound m
    → IsServed lib size m
    → alloc lib size m ≡ some (p, m')
    → Sound m'
alloc-given lib size p m m' sound served e =
    let (q, m'', run, sound') = alloc-Keeps lib size m sound served in
    subst Sound (ap (second m) (sym run ∙ e)) sound'

-- The number of the current frame is no part of what is sound.
runtime_init-Sound : (m : Memory) → Sound m → Sound (runtime_init m)
unfolding runtime_init
runtime_init-Sound m (children, members, n, width, s) =
    let t = s.tracked in
    (
      children,
      members,
      n,
      width,
      record {
        tracked = record {
          owned = t.owned;
          owners_live = t.owners_live;
          placed = t.placed;
          listed = t.listed;
          registry = t.registry;
          registered = t.registered;
          ranges = t.ranges;
          in_ranges = t.in_ranges;
          real = t.real;
        };
        rooted = s.rooted;
        narrow = s.narrow;
      },
    )

-- Every call keeps the memory sound.
pub Step-Sound : (m m' : Memory) → Sound m → Step m m' → Sound m'
Step-Sound m m' sound (initializes e) = subst Sound e (runtime_init-Sound m sound)
Step-Sound m m' sound (allocates lib size p served e) = alloc-given lib size p m m' sound served e
Step-Sound m m' sound (callocates lib count size p served e) =
    elim (calloc-product lib count size m) [
      | inl (same, fits) ↦ alloc-given lib (count * size) p m m' sound served (sym same ∙ e)
      | inr (refused, wide) ↦ subst Sound (ap (second m) (sym refused ∙ e)) sound
    ]
Step-Sound m m' sound (reallocates lib ptr size served g) =
    given-Sound (λ fuel. stored (Interface.realloc lib fuel ptr size m)) m m'
      (realloc-Keeps lib ptr size m sound served) g
Step-Sound m m' sound (releases ptr g) =
    given-Sound (λ fuel. release fuel ptr m) m m' (release-Sound ptr m sound) g
Step-Sound m m' sound (attaches lib parent child g) =
    given-Sound (λ fuel. attach_child lib fuel parent child m) m m'
      (attach_child-Sound lib parent child m sound) g
Step-Sound m m' sound (attaches_to_owner lib parent child g) =
    given-Sound (λ fuel. attach_child_to_owner lib fuel parent child m) m m'
      (attach_child_to_owner-Keeps lib parent child m sound) g
Step-Sound m m' sound (replaces lib parent old new g) =
    given-Sound (λ fuel. replace_child lib fuel parent old new m) m m'
      (replace_child-Sound lib parent old new m sound) g
Step-Sound m m' (children, members, n, width, s) (moves_to_ancestor lib ptr levels g) =
    given-Sound (λ fuel. move_to_ancestor lib fuel ptr levels m) m m'
      (move_to_ancestor-Keeps lib ptr m children members n width s levels) g
Step-Sound m m' (children, members, n, width, s) (moves_to_root lib ptr g) =
    given-Sound (λ fuel. move_to_root lib fuel ptr m) m m'
      (move_to_root-Keeps lib ptr m children members n width s) g
Step-Sound m m' sound (moves_frame_to_parent lib g) =
    given-Sound (λ fuel. move_frame_to_parent lib fuel fuel m) m m'
      (move_frame_to_parent-Keeps lib m sound) g
Step-Sound m m' sound (pushes realloc small e) =
    let (m'', run, sound') = frame_push-Sound realloc m sound small in
    subst Sound (ap (get_some m) (sym run ∙ e)) sound'
Step-Sound m m' sound (pops g) =
    given-Sound (λ fuel. frame_pop fuel fuel m) m m' (frame_pop-Sound m sound) g
