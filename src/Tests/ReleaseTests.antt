-- ===== src/Tests/ReleaseTests.antt =====
-- Three allocations: 0x4000 owns 0x2000, both in frame 1, and 0x1000 is in the outermost frame. The
-- registry knows 0x4000.
use ycpl.Base.{
  ℕ, zero, suc, ◌≤◌, ◌<◌, ◌≡◌, refl, ◌⊎◌, inl, inr, Bool, ◌||◌, some, List, [], ◌∷◌, arith, ◌==◌,
  if◌then◌else◌, length, get_or, Bool-cases, eq_of_==, true, ◌≢◌,
}
use ycpl.Address.{Ptr, null, payload}
use ycpl.Links.Chain.{IsList, has}
use ycpl.Registry.Tally
use ycpl.Ranges.{Treap, leaf, insert}
use ycpl.Ranges.Order
use ycpl.Ranges.Update.{IsTreap, insert-IsTreap}
use ycpl.Memory.{Memory, all_list}
use ycpl.Allocation.{release, frame_pop}
use ycpl.Allocation.Tracked.{IsTracked}
use ycpl.Allocation.Released.{IsFreed, IsKept}
use ycpl.Allocation.Release.{IsReady, Releases}
use ycpl.Allocation.Twice.{release_twice}
use ycpl.Allocation.Popped.{InFrame}
use ycpl.Allocation.Pop.{frame_pop-Popped}
use ycpl.Tests.RegistryTests.{table, table-IsTable}

abbrev live : Ptr → Bool
live x = (x == 0x4000) || (x == 0x2000) || (x == 0x1000)

abbrev ranges : Treap
ranges = insert (insert (insert leaf 0x1000) 0x2000) 0x4000

abbrev memory : Memory
memory = record {
  magic = live;
  size = λ x. 16;
  frame = λ x. if x == 0x1000 then 0 else 1;
  prev = λ x. if x == 0x1000 then 0x2000 else if x == 0x2000 then 0x4000 else null;
  next = λ x. if x == 0x4000 then 0x2000 else if x == 0x2000 then 0x1000 else null;
  frame_prev = λ x. if x == 0x2000 then 0x4000 else null;
  frame_next = λ x. if x == 0x4000 then 0x2000 else null;
  owner = λ x. if x == 0x2000 then 0x4000 else null;
  first_child = λ x. if x == 0x4000 then 0x2000 else null;
  sibling_prev = λ x. null;
  sibling_next = λ x. null;
  head = 0x4000;
  current_frame = 1;
  frame_heads = 0x1000 ∷ 0x4000 ∷ [];
  registry = table;
  ranges = ranges;
}

abbrev members : ℕ → List Ptr
members zero = 0x1000 ∷ []
members (suc zero) = 0x4000 ∷ 0x2000 ∷ []
members (suc (suc f)) = []

abbrev children : Ptr → List Ptr
children p = if p == 0x4000 then 0x2000 ∷ [] else []

lists :
    (f : ℕ)
    → IsList
        (record {
          next = memory.frame_next;
          prev = memory.frame_prev;
          head = get_or memory.frame_heads f null;
        })
        (members f)
lists zero = ((refl, (λ e. omega (arith, e)), refl, refl), (refl, tt))
lists (suc zero) = (
  (refl, (λ e. omega (arith, e)), refl, (refl, (λ e. omega (arith, e)), refl, refl)),
  (refl, (refl, tt)),
)
lists (suc (suc f)) = (refl, tt)

numbers : (f : ℕ) (h : Ptr) → has h (members f) ≡ true → memory.frame h ≡ f
numbers zero h inside = ground arith
numbers (suc zero) h inside = ground arith
numbers (suc (suc f)) h inside = absurd (ground arith)

all_live : (f : ℕ) (h : Ptr) → has h (members f) ≡ true → live h ≡ true
all_live zero h inside = ground arith
all_live (suc zero) h inside = ground arith
all_live (suc (suc f)) h inside = absurd (ground arith)

all_placed : (x : Ptr) → live x ≡ true → has x (members (memory.frame x)) ≡ true
all_placed x alive = elim (Bool-cases (x == 0x1000)) [
  | inl e ↦ rw (eq_of_== x 0x1000 e) refl
  | inr e ↦ rw e (ground arith)
]

kids-IsList :
    (p : Ptr)
    → IsList
        (record {
          next = memory.sibling_next;
          prev = memory.sibling_prev;
          head = memory.first_child p;
        })
        (children p)
kids-IsList p = elim (Bool-cases (p == 0x4000)) [
  | inl e ↦ rw e ((refl, (λ z. omega (arith, z)), refl, refl), (refl, tt))
  | inr e ↦ rw e (refl, tt)
]

kids_owner : (p x : Ptr) → has x (children p) ≡ true → memory.owner x ≡ p
kids_owner p x inside = elim (Bool-cases (p == 0x4000)) [
  | inl e ↦ let it : has x (0x2000 ∷ []) ≡ true = rw e at inside in ground arith
  | inr e ↦ absurd (let none_there : has x [] ≡ true = rw e at inside in ground arith)
]

owner_kids : (x : Ptr) → memory.owner x ≢ null → has x (children (memory.owner x)) ≡ true
owner_kids x owned = elim (Bool-cases (x == 0x2000)) [
  | inl e ↦ rw (eq_of_== x 0x2000 e) refl
  | inr e ↦ absurd (owned (rw e refl))
]

all_listed : IsList (all_list memory) (0x4000 ∷ 0x2000 ∷ 0x1000 ∷ [])
all_listed = (
  (
    refl,
    (λ e. omega (arith, e)),
    refl,
    (refl, (λ e. omega (arith, e)), refl, (refl, (λ e. omega (arith, e)), refl, refl)),
  ),
  (refl, (refl, (refl, tt))),
)

ranges-IsTreap :
    IsTreap ranges × ((x : Ptr) → Order.occurrences x ranges ≡ (if live x then 1 else 0))
unfolding Order.occurrences
ranges-IsTreap =
    let empty : IsTreap leaf = record { ordered = tt; heap = tt } in
    let (one, in_one) = insert-IsTreap leaf 0x1000 empty refl in
    let (two, in_two) =
      insert-IsTreap (insert leaf 0x1000) 0x2000 one (ground (arith, in_one 0x2000)) in
    let (three, in_three) =
      insert-IsTreap (insert (insert leaf 0x1000) 0x2000) 0x4000 two
        (ground (arith, in_two 0x4000, in_one 0x4000)) in
    (three, λ x. ground (arith, in_three x, in_two x, in_one x))

tracked : IsTracked memory children members
unfolding Tally.tally
tracked = record {
  owned = ((kids-IsList, kids_owner), refl, owner_kids);
  owners_live = λ x owned. elim (Bool-cases (x == 0x2000)) [
    | inl e ↦ (ground arith, rw (eq_of_== x 0x2000 e) refl)
    | inr e ↦ absurd (owned (rw e refl))
  ];
  placed = ((lists, numbers), all_placed, all_live);
  listed = (0x4000 ∷ 0x2000 ∷ 0x1000 ∷ [], all_listed, λ x. ground arith);
  registry = inr table-IsTable;
  registered = λ x big unmarked. ground arith;
  ranges = ranges-IsTreap.0;
  in_ranges = ranges-IsTreap.1;
  real = λ x alive. ground arith;
}

abbrev height : Ptr → ℕ
height x = if x == 0x4000 then 1 else 0

low : (x : Ptr) → height x ≤ 1
low x = elim (Bool-cases (x == 0x4000)) [ inl e ↦ rw e (omega arith) | inr e ↦ rw e (omega arith) ]

falls : (x : Ptr) → memory.owner x ≢ null → height x < height (memory.owner x)
falls x owned = elim (Bool-cases (x == 0x2000)) [
  | inl e ↦ rw (eq_of_== x 0x2000 e) (omega arith)
  | inr e ↦ absurd (owned (rw e refl))
]

narrow : (p : Ptr) → length (children p) ≤ 1
narrow p = elim (Bool-cases (p == 0x4000)) [
  | inl e ↦ rw e (omega arith)
  | inr e ↦ rw e (omega arith)
]

release_twice_example :
    (m' : Memory) × (release 4 0x4068 memory ≡ some m')
    × (release 4 0x4068 m' ≡ some m')
    × (((m' ≡ memory)
          × ((h : Ptr)
              → 1 < h
              → payload h ≡ 0x4068
              → Tally.occurrences h memory.registry.slots ≡ 0))
        ⊎ ((h : Ptr) × (payload h ≡ 0x4068)
            × (Tally.occurrences h memory.registry.slots ≡ 1)
            × (memory.magic h ≡ true)
            × Releases height 1 h memory children members (some m')))
release_twice_example =
    release_twice height 1 1 low 4 0x4068 memory children members (tracked, falls, narrow)
      (omega arith)

frame_pop-Popped_example :
    ((memory.current_frame ≡ 0) × (frame_pop 3 4 memory ≡ some memory))
    ⊎ ((m' : Memory) × (kids : Ptr → List Ptr) × (left : ℕ → List Ptr) × (frame_pop 3 4 memory
          ≡ some m')
        × IsReady height 1 m' kids left
        × (left 1 ≡ [])
        × ((x : Ptr) → InFrame 1 memory x → IsFreed m' x)
        × ((x : Ptr) → IsKept memory m' x ⊎ InFrame 1 memory x)
        × (suc m'.current_frame ≡ memory.current_frame))
frame_pop-Popped_example =
    frame_pop-Popped height 1 1 low 3 4 memory children members (tracked, falls, narrow)
      (omega arith) (omega arith)
