-- ===== src/Ownership.antt =====
-- The ownership of allocations (bootstrap/cpp/runtime/yc_runtime.c): a header and those it owns, its
-- children, are one graph, which moves between frames and is released as a whole. The walks run on
-- fuel, for how deep they go and for how many steps they take on one level.
pub mod Roots
pub mod Moved
pub mod Moves
pub mod Depth
pub mod Attach
use ycpl.Base.{
  ℕ, zero, suc, ◌-◌, Bool, true, false, ◌&&◌, ◌||◌, not, Option, none, some, leb, ltb, ◌==◌,
  if◌then◌else◌, ◌>>=◌, length, get_or,
}
use ycpl.Address.{Ptr, null, payload}
use ycpl.Links.{update, push_front}
use ycpl.Registry.{header_from_ptr}
use ycpl.Ranges.{find}
use ycpl.Memory.{Memory, child_list, with_child_list, frame_link, frame_unlink, detach_owner}

-- `while (header && header->owner) header = header->owner`
unfoldable pub owner_root : ℕ → (Ptr → Ptr) → Ptr → Option Ptr
owner_root zero owner h = none
owner_root (suc fuel) owner h =
    let above = owner_root fuel owner (owner h) in
    if h == null || owner h == null then some h else above

-- `yc_is_owner_ancestor`
unfoldable pub is_owner_ancestor : ℕ → (Ptr → Ptr) → Ptr → Ptr → Option Bool
is_owner_ancestor zero owner a h = none
is_owner_ancestor (suc fuel) owner a h =
    let above = is_owner_ancestor fuel owner a (owner h) in
    if h == null then some false else if h == a then some true else above

-- `for (child = …; child; child = child->sibling_next) visit(child)`
pub each_child : (Ptr → Memory → Option Memory) → ℕ → Ptr → Memory → Option Memory
each_child visit zero c m = none
each_child visit (suc fuel) c m =
    if c == null then some m else (visit c m >>= λ m'. each_child visit fuel (m'.sibling_next c) m')

-- `yc_link_owner`, up to the move of the graph.
unfoldable pub owned_by : Ptr → Ptr → Memory → Memory
unfolding detach_owner update push_front
owned_by owner child m =
    let m' = detach_owner child m in
    let m'' = record m' { owner = update m'.owner child owner } in
    with_child_list owner (push_front child (child_list owner m'')) m''

module _ (realloc : ℕ → Bool) where
  -- `yc_move_graph_to_frame`
  unfoldable pub move_graph_to_frame : ℕ → Ptr → ℕ → Memory → Option Memory
  unfolding each_child frame_link frame_unlink
  move_graph_to_frame zero h frame m = none
  move_graph_to_frame (suc fuel) h frame m =
      if h == null
      then some m
      else ((if m.frame h == frame then some m else frame_link realloc h frame (frame_unlink h m))
          >>= λ m'. each_child (λ c. move_graph_to_frame fuel c frame) fuel (m'.first_child h) m')

  unfoldable pub link_owner : ℕ → Ptr → Ptr → Memory → Option Memory
  unfolding owned_by move_graph_to_frame
  link_owner fuel owner child m =
      let m' = owned_by owner child m in move_graph_to_frame fuel child (m'.frame owner) m'

  -- `yc_attach_child`, from its guards on headers on.
  unfoldable pub attach_header : ℕ → Ptr → Ptr → Memory → Option Memory
  unfolding is_owner_ancestor link_owner
  attach_header fuel parent child m =
      if parent == null || child == null
      then some m
      else if m.owner child == parent
      then some m
      else is_owner_ancestor fuel m.owner child parent >>= λ cycle.
          if cycle then some m else link_owner fuel parent child m
