-- ===== src/Allocation.antt =====
-- Allocation and release (bootstrap/cpp/runtime/yc_runtime.c): the functions that programs call, over
-- the lists, the ownership and the two indices. `malloc` answers an address or nothing. What the
-- allocated bytes hold is not modelled.
pub mod New
pub mod Fresh
pub mod Enter
pub mod Shutdown
pub mod Tracked
pub mod Sound
pub mod Grown
pub mod Allocates
pub mod Attaches
pub mod Heights
pub mod Detached
pub mod Below
pub mod Released
pub mod Release
pub mod Whole
pub mod Popped
pub mod Pop
pub mod Twice
use ycpl.Base.{
  ℕ, zero, suc, ◌+◌, ◌-◌, ◌*◌, ◌/◌, ◌%◌, ◌^◌, Bool, true, false, ◌&&◌, ◌||◌, not, Option, [], none,
  some, leb, ltb, ◌==◌, if◌then◌else◌, ◌>>=◌, length, get_or,
}
use ycpl.Address.{Ptr, null, word, header_size, payload}
use ycpl.Links.{update}
use ycpl.Registry.{Calloc, no_registry, header_from_ptr, no_registry}
use ycpl.Registry
use ycpl.Ranges
use ycpl.Ranges.{leaf, find, leaf}
use ycpl.Memory.{
  Memory, link, unlink_all, frame_heads_ensure, frame_link, frame_unlink, detach_owner,
}

-- `yc_header_from_ptr`, `yc_header_containing_ptr`
unfoldable pub header_of : Ptr → Memory → Option Ptr
unfolding header_from_ptr
header_of ptr m = header_from_ptr m.magic ptr m.registry

unfoldable pub header_containing_ptr : Ptr → Memory → Option Ptr
unfolding header_of find
header_containing_ptr ptr m =
    header_of ptr m >>= λ h. some (if h == null then find m.size ptr m.ranges else h)

-- What `yc_alloc` writes into a new header.
pub new_header : Ptr → ℕ → Memory → Memory
unfolding update
new_header h size m = record m {
  magic = update m.magic h true;
  size = update m.size h size;
  owner = update m.owner h null;
  first_child = update m.first_child h null;
  sibling_prev = update m.sibling_prev h null;
  sibling_next = update m.sibling_next h null;
}

-- What the runtime asks of the C library.
pub record Library : Type 0 where
  pub malloc : ℕ → Option Ptr
  pub calloc : Calloc
  pub realloc : ℕ → Bool

module _ (lib : Library) where
  pub enter_header : Ptr → ℕ → Memory → Option (Ptr × Memory)
  unfolding new_header link frame_link Registry.insert Ranges.insert
  enter_header h size m =
      let m' = link h (new_header h size m) in
      frame_link lib.realloc h m'.current_frame m' >>= λ m''.
      Registry.insert lib.calloc h m''.registry >>= λ r.
      some (payload h, record m'' { registry = r; ranges = Ranges.insert m''.ranges h })

  -- `yc_alloc`, with the address that it returns; first what it does with what `malloc` answers.
  pub allocated : ℕ → Memory → Option Ptr → Option (Ptr × Memory)
  unfolding enter_header
  allocated size m none = some (null, m)
  allocated size m (some h) = enter_header h size m

  unfoldable pub alloc : ℕ → Memory → Option (Ptr × Memory)
  unfolding allocated
  alloc size m =
      if ltb (word - 1 - header_size) size
      then some (null, m)
      else allocated size m (lib.malloc (header_size + size))

  -- `yc_calloc`, up to the zeros that it writes
  unfoldable pub calloc : ℕ → ℕ → Memory → Option (Ptr × Memory)
  unfolding alloc
  calloc count size m =
      if not (size == 0) && ltb ((word - 1) / size) count
      then some (null, m)
      else alloc (count * size % word) m

-- `while (header->first_child) yc_release_header(header->first_child)`
pub release_children : (Ptr → Memory → Option Memory) → ℕ → Ptr → Memory → Option Memory
release_children release zero h m = none
release_children release (suc fuel) h m =
    if m.first_child h == null
    then some m
    else (release (m.first_child h) m >>= λ m'. release_children release fuel h m')

-- What `yc_release_header` does once a header has no children.
pub forget_header : Ptr → Memory → Option Memory
unfolding frame_unlink unlink_all Registry.remove Ranges.remove update
forget_header h m =
    let m' = unlink_all h (frame_unlink h m) in
    Registry.remove h m'.registry >>= λ r. some (record m' {
      registry = r;
      ranges = Ranges.remove m'.ranges h;
      magic = update m'.magic h false;
    })

-- `yc_release_header`
unfoldable pub release_header : ℕ → Ptr → Memory → Option Memory
unfolding release_children detach_owner forget_header
release_header zero h m = none
release_header (suc fuel) h m =
    if h == null || not (m.magic h)
    then some m
    else (release_children (λ c k. release_header fuel c k) fuel h (detach_owner h m) >>= λ m'.
        forget_header h m')

-- `yc_release`
unfoldable pub release : ℕ → Ptr → Memory → Option Memory
unfolding header_of release_header
release fuel ptr m = header_of ptr m >>= λ h. if h == null then some m else release_header fuel h m

-- `yc_runtime_init`
unfoldable pub runtime_init : Memory → Memory
runtime_init m = record m { current_frame = 0 }

-- The loop of `yc_runtime_shutdown`
pub shutdown_loop : ℕ → Memory → Option Memory
unfolding update
shutdown_loop zero m = none
shutdown_loop (suc fuel) m =
    let rest =
      shutdown_loop fuel (record m { magic = update m.magic m.head false; head = m.next m.head }) in
    if m.head == null then some m else rest

-- `yc_runtime_shutdown`
unfoldable pub runtime_shutdown : ℕ → Memory → Option Memory
unfolding shutdown_loop
runtime_shutdown fuel m = shutdown_loop fuel (record m { ranges = leaf }) >>= λ m'.
    some (record m' { registry = no_registry; frame_heads = []; current_frame = 0 })

-- `yc_frame_push`
unfoldable pub frame_push : (ℕ → Bool) → Memory → Option Memory
unfolding frame_heads_ensure
frame_push realloc m =
    let m' = record m { current_frame = (m.current_frame + 1) % 2 ^ 32 } in
    frame_heads_ensure realloc m'.current_frame m' >>= λ (done, m''). some m''

-- The loop of `yc_frame_pop`
pub pop_loop : ℕ → ℕ → ℕ → Memory → Option Memory
unfolding release_header
pop_loop zero depth frame m = none
pop_loop (suc fuel) depth frame m =
    if get_or m.frame_heads frame null == null
    then some m
    else (release_header depth (get_or m.frame_heads frame null) m >>= λ m'.
        pop_loop fuel depth frame m')

-- `yc_frame_pop`
unfoldable pub frame_pop : ℕ → ℕ → Memory → Option Memory
unfolding pop_loop
frame_pop fuel depth m =
    if m.current_frame == 0
    then some m
    else (pop_loop fuel depth m.current_frame m >>= λ m'.
        some (record m' { current_frame = m'.current_frame - 1 }))

-- `yc_runtime_live_allocations`
abbrev pub live_allocations : Memory → ℕ
live_allocations m = m.registry.count
