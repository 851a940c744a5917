-- ===== src/Interface.antt =====
-- The functions of bootstrap/cpp/runtime/yc_runtime.c that programs call with pointers to what they
-- allocated: reallocation, attaching and replacing children, and the moves between frames.
pub mod Keeps
pub mod Attaching
pub mod Moving
pub mod Rooted
pub mod Owner
pub mod Standing
pub mod Parent
pub mod Steps
pub mod Reached
use ycpl.Base.{
  ℕ, zero, suc, ◌-◌, ◌&&◌, ◌||◌, not, Option, none, some, leb, ltb, ◌==◌, if◌then◌else◌, ◌>>=◌,
  get_or,
}
use ycpl.Address.{Ptr, null, payload}
use ycpl.Memory.{Memory, detach_owner}
use ycpl.Ownership.{owner_root, move_graph_to_frame, attach_header}
use ycpl.Allocation.{Library, header_of, header_containing_ptr, alloc, release}

module _ (lib : Library) where
  -- `yc_realloc`, up to the bytes that it copies
  unfoldable pub realloc : ℕ → Ptr → ℕ → Memory → Option (Ptr × Memory)
  unfolding alloc header_of release
  realloc fuel ptr size m =
      if ptr == null
      then alloc lib size m
      else (header_of ptr m >>= λ h.
          if h == null
          then some (null, m)
          else (alloc lib size m >>= λ (next, m').
              if next == null
              then some (null, m')
              else (release fuel ptr m' >>= λ m''. some (next, m''))))

  -- `yc_attach_child`
  unfoldable pub attach_child : ℕ → Ptr → Ptr → Memory → Option Memory
  unfolding header_of attach_header
  attach_child fuel parent child m =
      if parent == null || child == null || parent == child
      then some m
      else (header_of parent m >>= λ p.
          header_of child m >>= λ c. attach_header lib.realloc fuel p c m)

  -- `yc_attach_child_to_owner`
  unfoldable pub attach_child_to_owner : ℕ → Ptr → Ptr → Memory → Option Memory
  unfolding header_of header_containing_ptr owner_root attach_child
  attach_child_to_owner fuel parent child m =
      if parent == null
      then some m
      else (header_of child m >>= λ c.
          if c == null
          then some m
          else (header_containing_ptr parent m >>= λ h. owner_root fuel m.owner h >>= λ root.
              if root == null then some m else attach_child fuel (payload root) child m))

  -- `yc_replace_child`
  unfoldable pub replace_child : ℕ → Ptr → Ptr → Ptr → Memory → Option Memory
  unfolding header_of detach_owner attach_child
  replace_child fuel parent old_child new_child m =
      if parent == null || new_child == null || parent == new_child
      then some m
      else (header_of parent m >>= λ p. header_of new_child m >>= λ n.
          if p == null || n == null
          then some m
          else (header_of old_child m >>= λ o.
              attach_child fuel parent new_child
                (if not (o == null) && m.owner o == p then detach_owner o m else m)))

  -- `yc_move_to_ancestor`; the pointer itself is returned.
  unfoldable pub move_to_ancestor : ℕ → Ptr → ℕ → Memory → Option Memory
  unfolding header_containing_ptr owner_root move_graph_to_frame
  move_to_ancestor fuel ptr levels m = header_containing_ptr ptr m >>= λ h.
      if h == null
      then some m
      else (owner_root fuel m.owner h >>= λ root.
          let target = if leb m.current_frame levels then 0 else m.current_frame - levels in
          if root == null || levels == 0 || m.current_frame == 0
          then some m
          else if ltb target (m.frame root)
          then move_graph_to_frame lib.realloc fuel root target m
          else some m)

  -- `yc_move_to_root`
  unfoldable pub move_to_root : ℕ → Ptr → Memory → Option Memory
  unfolding header_containing_ptr owner_root move_graph_to_frame
  move_to_root fuel ptr m = header_containing_ptr ptr m >>= λ h.
      owner_root fuel m.owner h >>= λ root.
      if root == null || leb (m.frame root) 1
      then some m
      else move_graph_to_frame lib.realloc fuel root 1 m

  -- `yc_move_frame_to_parent`
  unfoldable pub move_frame_to_parent : ℕ → ℕ → Memory → Option Memory
  unfolding owner_root move_graph_to_frame
  move_frame_to_parent zero depth m = none
  move_frame_to_parent (suc fuel) depth m =
      let first = get_or m.frame_heads m.current_frame null in
      if m.current_frame == 0 || first == null
      then some m
      else (owner_root depth m.owner first >>= λ root.
          move_graph_to_frame lib.realloc depth root (m.current_frame - 1) m >>= λ m'.
          move_frame_to_parent fuel depth m')
