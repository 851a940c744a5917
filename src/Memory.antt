-- ===== src/Memory.antt =====
-- The memory of the managed runtime (bootstrap/cpp/runtime/yc_runtime.c): the fields of the headers,
-- the lists that they are linked in, and the functions that link them. A header's `flags` are written
-- once and never read. The indices behind `yc_registry` and `yc_ranges` are modules of their own.
pub mod Frames
pub mod Linked
pub mod Owners
use ycpl.Base.{
  ℕ, zero, suc, ◌+◌, ◌*◌, ◌-◌, ◌%◌, ◌^◌, Bool, true, false, ◌&&◌, ◌||◌, not, Option, none, some,
  List, [], ◌++◌, leb, ltb, ◌==◌, if◌then◌else◌, ◌>>=◌, length, get_or, set, replicate,
}
use ycpl.Address.{Ptr, null, word}
use ycpl.Links.{Links, update, push_front, unlink}
use ycpl.Registry.{Registry}
use ycpl.Ranges.{Treap}

pub record Memory : Type 0 where
  pub magic : Ptr → Bool
  pub size : Ptr → ℕ
  pub frame : Ptr → ℕ
  pub prev : Ptr → Ptr
  pub next : Ptr → Ptr
  pub frame_prev : Ptr → Ptr
  pub frame_next : Ptr → Ptr
  pub owner : Ptr → Ptr
  pub first_child : Ptr → Ptr
  pub sibling_prev : Ptr → Ptr
  pub sibling_next : Ptr → Ptr
  pub head : Ptr
  pub current_frame : ℕ
  pub frame_heads : List Ptr
  pub registry : Registry
  pub ranges : Treap

-- The list of all allocations.
abbrev pub all_list : Memory → Links
all_list m = record { next = m.next; prev = m.prev; head = m.head }

abbrev pub with_all_list : Links → Memory → Memory
with_all_list l m = record m { next = l.next; prev = l.prev; head = l.head }

-- The list of one frame.
abbrev pub frame_list : ℕ → Memory → Links
frame_list f m = record {
  next = m.frame_next;
  prev = m.frame_prev;
  head = get_or m.frame_heads f null;
}

abbrev pub with_frame_list : ℕ → Links → Memory → Memory
with_frame_list f l m = record m {
  frame_next = l.next;
  frame_prev = l.prev;
  frame_heads = set m.frame_heads f l.head;
}

-- The children of one owner.
abbrev pub child_list : Ptr → Memory → Links
child_list p m = record { next = m.sibling_next; prev = m.sibling_prev; head = m.first_child p }

abbrev pub with_child_list : Ptr → Links → Memory → Memory
with_child_list p l m = record m {
  sibling_next = l.next;
  sibling_prev = l.prev;
  first_child = update m.first_child p l.head;
}

-- `yc_link`
unfoldable pub link : Ptr → Memory → Memory
unfolding update push_front
link h m =
    let m' = record m {
      frame_prev = update m.frame_prev h null;
      frame_next = update m.frame_next h null;
    } in
    with_all_list (push_front h (all_list m')) m'

-- `yc_unlink`
unfoldable pub unlink_all : Ptr → Memory → Memory
unfolding unlink
unlink_all h m = if h == null then m else with_all_list (unlink h (all_list m)) m

-- `while (next_cap < need) next_cap *= 2`
pub doubled : ℕ → ℕ → ℕ → Option ℕ
doubled zero need cap = none
doubled (suc fuel) need cap =
    let more = doubled fuel need (cap * 2 % word) in if ltb cap need then more else some cap

-- `yc_frame_heads_ensure`. `realloc` answers whether it has so many bytes; 64 doublings reach every
-- frame number.
unfoldable pub frame_heads_ensure : (ℕ → Bool) → ℕ → Memory → Option (Bool × Memory)
unfolding doubled
frame_heads_ensure realloc frame m =
    let cap = length m.frame_heads in
    if leb (frame + 1) cap
    then some (true, m)
    else (doubled 64 (frame + 1) (if cap == 0 then 64 else cap) >>= λ next_cap. some (
        if realloc (next_cap * 8 % word)
        then (true, record m { frame_heads = m.frame_heads ++ replicate (next_cap - cap) null })
        else (false, m)))

-- `yc_frame_link`, and what it does where the frame has a list.
pub linked_in : Ptr → ℕ → Memory → Memory
unfolding update push_front
linked_in h frame m =
    let m' = record m { frame = update m.frame h frame } in
    with_frame_list frame (push_front h (frame_list frame m')) m'

unfoldable pub frame_link : (ℕ → Bool) → Ptr → ℕ → Memory → Option Memory
unfolding frame_heads_ensure linked_in
frame_link realloc h frame m =
    if h == null
    then some m
    else (frame_heads_ensure realloc frame m >>= λ (done, m').
        some (if done then linked_in h frame m' else m'))

-- `yc_frame_unlink`
unfoldable pub frame_unlink : Ptr → Memory → Memory
unfolding unlink
frame_unlink h m =
    if h == null || leb (length m.frame_heads) (m.frame h)
    then m
    else with_frame_list (m.frame h) (unlink h (frame_list (m.frame h) m)) m

-- `yc_detach_owner`
unfoldable pub detach_owner : Ptr → Memory → Memory
unfolding unlink update
detach_owner h m =
    if h == null || m.owner h == null
    then m
    else let m' = with_child_list (m.owner h) (unlink h (child_list (m.owner h) m)) m in
      record m' { owner = update m'.owner h null }
