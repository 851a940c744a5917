-- ===== src/Tests/OwnershipTests.antt =====
-- Two allocations: 0x1000 in the outermost frame and 0x2000 in the frame above, without owners.
use ycpl.Base.{
  ℕ, zero, suc, ◌≡◌, refl, inl, inr, Bool, ◌||◌, some, List, [], ◌∷◌, arith, ◌==◌, if◌then◌else◌,
  get_or, Bool-cases, eq_of_==, true, false,
}
use ycpl.Address.{Ptr, null}
use ycpl.Links.Chain.{IsList, has}
use ycpl.Registry.{no_registry}
use ycpl.Ranges.{leaf}
use ycpl.Memory.{Memory}
use ycpl.Memory.Frames.{IsFramed}
use ycpl.Memory.Owners.{IsOwned}
use ycpl.Ownership.{move_graph_to_frame}
use ycpl.Ownership.Moves.{Under, move_graph_to_frame-Moved}
use ycpl.Ownership.Moved.{Moved}
use ycpl.Ownership.Attach.{IsForest}

abbrev pub memory : Memory
memory = record {
  magic = λ x. true;
  size = λ x. 16;
  frame = λ x. if x == 0x2000 then 1 else 0;
  prev = λ x. if x == 0x1000 then 0x2000 else null;
  next = λ x. if x == 0x2000 then 0x1000 else null;
  frame_prev = λ x. null;
  frame_next = λ x. null;
  owner = λ x. null;
  first_child = λ x. null;
  sibling_prev = λ x. null;
  sibling_next = λ x. null;
  head = 0x2000;
  current_frame = 1;
  frame_heads = 0x1000 ∷ 0x2000 ∷ [];
  registry = no_registry;
  ranges = leaf;
}

abbrev pub members : ℕ → List Ptr
members zero = 0x1000 ∷ []
members (suc zero) = 0x2000 ∷ []
members (suc (suc f)) = []

abbrev pub children : Ptr → List Ptr
children p = []

abbrev pub live : Ptr → Bool
live x = (x == 0x1000) || (x == 0x2000)

lists :
    (f : ℕ)
    → IsList
        (record {
          next = memory.frame_next;
          prev = memory.frame_prev;
          head = get_or memory.frame_heads f null;
        })
        (members f)
lists zero = ((refl, (λ e. omega (arith, e)), refl, refl), (refl, tt))
lists (suc zero) = ((refl, (λ e. omega (arith, e)), refl, refl), (refl, tt))
lists (suc (suc f)) = (refl, tt)

numbers : (f : ℕ) (h : Ptr) → has h (members f) ≡ true → memory.frame h ≡ f
numbers zero h inside = ground arith
numbers (suc zero) h inside = ground arith
numbers (suc (suc f)) h inside = absurd (ground arith)

pub memory-IsFramed : IsFramed memory members
memory-IsFramed = (lists, numbers)

pub all_placed : (x : Ptr) → live x ≡ true → has x (members (memory.frame x)) ≡ true
all_placed x alive = elim (Bool-cases (x == 0x2000)) [
  | inl e ↦ rw (eq_of_== x 0x2000 e) refl
  | inr e ↦ rw e (ground arith)
]

pub all_live : (f : ℕ) (h : Ptr) → has h (members f) ≡ true → live h ≡ true
all_live zero h inside = ground arith
all_live (suc zero) h inside = ground arith
all_live (suc (suc f)) h inside = absurd (ground arith)

pub memory-IsOwned : IsOwned memory children
memory-IsOwned =
    (((λ p. (refl, tt)), λ p h inside. absurd (ground arith)), refl, λ h real. absurd (real refl))

abbrev pub forest : IsForest live memory children 1 0
forest = record {
  owned = memory-IsOwned;
  rooted = λ x. inr refl;
  placed = (members, (memory-IsFramed, all_placed, all_live));
  narrow = λ p. omega arith;
  owners_live = λ x real. absurd (real refl);
}

-- `realloc` that gives nothing: the frames here have lists.
abbrev pub no_memory : ℕ → Bool
no_memory n = false

move_graph_to_frame-Moved_example :
    (m' : Memory) × (move_graph_to_frame no_memory 2 0x2000 0 memory ≡ some m')
    × Moved live 0 (Under children 0x2000) memory m'
move_graph_to_frame-Moved_example =
    move_graph_to_frame-Moved live 0 children no_memory (λ x. 0) 0
      (λ p c inside. absurd (ground arith)) (λ p. omega arith) (λ p c inside. absurd (ground arith))
      2 0x2000 memory ((members, (memory-IsFramed, all_placed, all_live)), (λ p. refl), omega arith)
      refl (λ e. omega (arith, e)) (omega arith)
