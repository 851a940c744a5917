-- ===== src/Interface/Parent.antt =====
-- `yc_move_frame_to_parent` empties the current frame into the one before, and keeps the memory sound.
use ycpl.Base.{
  ℕ, zero, suc, ◌+◌, ◌-◌, ◌<◌, ◌≡◌, refl, sym, ap, ◌≢◌, inl, inr, Bool, true, false, some, List,
  arith, ◌==◌, ◌||◌, Bool-cases, ◌∙◌, get_or,
}
use ycpl.Address.{Ptr, null}
use ycpl.Links.Chain.{has}
use ycpl.Memory.{Memory}
use ycpl.Memory.Frames.{IsFramed-room}
use ycpl.Ownership.{owner_root, move_graph_to_frame}
use ycpl.Ownership.Roots.{owner_root-IsAbove}
use ycpl.Ownership.Moves.{Under}
use ycpl.Ownership.Moved.{Moved}
use ycpl.Allocation.{Library}
use ycpl.Allocation.Release.{first_in}
use ycpl.Allocation.Sound.{IsSound, Sound}
use ycpl.Interface.{move_frame_to_parent}
use ycpl.Interface.Standing.{standing, standing-lt, IsAbove-Under}
use ycpl.Interface.Keeps.{Keeps}
use ycpl.Interface.Moving.{moved-IsSound, graph-Moved, IsAbove-live}

-- What `yc_move_frame_to_parent` starts its round with.
abbrev first_of : Memory → Ptr
first_of m = get_or m.frame_heads m.current_frame null

module _ (lib : Library) (fuel depth : ℕ) (m : Memory) where
  parent_end :
      (m.current_frame == 0 || first_of m == null) ≡ true
      → move_frame_to_parent lib (suc fuel) depth m ≡ some m
  unfolding move_frame_to_parent
  parent_end e = rw e refl

  parent_next :
      (root : Ptr) (m' : Memory)
      → (m.current_frame == 0 || first_of m == null) ≡ false
      → owner_root depth m.owner (first_of m) ≡ some root
      → move_graph_to_frame lib.realloc depth root (m.current_frame - 1) m ≡ some m'
      → move_frame_to_parent lib (suc fuel) depth m ≡ move_frame_to_parent lib fuel depth m'
  unfolding move_frame_to_parent
  parent_next root m' e e' e'' = rw (e, e', e'') refl

-- One round moves the first header of the frame to the frame before, with all below its root.
module _ (lib : Library) (depth : ℕ) (m : Memory) (children : Ptr → List Ptr)
    (members : ℕ → List Ptr) (n width : ℕ) (s : IsSound m children members n width)
    (enough : n + width + 1 < depth)
    (going : (m.current_frame == 0 || first_of m == null) ≡ false) where
  first_member : has (first_of m) (members m.current_frame) ≡ true
  first_member =
      first_in m.frame_next m.frame_prev null (first_of m) (members m.current_frame)
        (s.tracked.placed.0.0 m.current_frame).0 (ground arith)

  first_live : m.magic (first_of m) ≡ true
  first_live = s.tracked.placed.2 m.current_frame (first_of m) first_member

  one_round :
      (root : Ptr) × (m' : Memory) × (owner_root depth m.owner (first_of m) ≡ some root)
      × (move_graph_to_frame lib.realloc depth root (m.current_frame - 1) m ≡ some m')
      × Moved m.magic (m.current_frame - 1) (Under children root) m m'
      × Under children root (first_of m)
  one_round =
      let (root, run, found) =
        owner_root-IsAbove m.owner n depth (first_of m) (s.rooted (first_of m)) (omega arith) in
      elim found [
        | inl (none_there, e) ↦ absurd (ground arith)
        | inr (top, above) ↦
            let alive =
              IsAbove-live m children members n width s n root (first_of m) first_live above in
            let room =
              IsFramed-room m members m.current_frame (first_of m) s.tracked.placed.0
                first_member in
            let (m', moved_run, moved) =
              graph-Moved m children members n width s lib.realloc (m.current_frame - 1) depth root
                alive (omega (arith, room)) enough in
            (
              root,
              m',
              run,
              moved_run,
              moved,
              IsAbove-Under m children members s.tracked n root (first_of m) above,
            )
      ]

  fewer :
      (root : Ptr) (m' : Memory) (xs : List Ptr)
      → Moved m.magic (m.current_frame - 1) (Under children root) m m'
      → Under children root (first_of m)
      → ((x : Ptr) → has x xs ≡ m.magic x)
      → standing m'.frame m.current_frame xs < standing m.frame m.current_frame xs
  fewer root m' xs moved under all =
      let cur : m.current_frame ≢ 0 = λ e. absurd (ground arith) in
      standing-lt m.frame m'.frame m.current_frame (m.current_frame - 1)
        (λ e. omega (arith, cur, e))
        (λ x. elim (moved.only x) [ inl e ↦ inl e | inr (e, _) ↦ inr e ]) (first_of m) xs
        (all (first_of m) ∙ first_live)
        (s.tracked.placed.0.1 m.current_frame (first_of m) first_member)
        (moved.all (first_of m) under)

move_frame_loop :
    (lib : Library) (fuel depth : ℕ) (m : Memory) (children : Ptr → List Ptr)
    (members : ℕ → List Ptr) (n width : ℕ) (xs : List Ptr)
    → IsSound m children members n width
    → ((x : Ptr) → has x xs ≡ m.magic x)
    → standing m.frame m.current_frame xs < fuel
    → n + width + 1 < depth
    → (m' : Memory) × (move_frame_to_parent lib fuel depth m ≡ some m') × Sound m'
move_frame_loop lib zero depth m children members n width xs s all few enough = absurd (omega arith)
move_frame_loop lib (suc fuel) depth m children members n width xs s all few enough =
    elim (Bool-cases (m.current_frame == 0 || first_of m == null)) [
      | inl e ↦ (m, parent_end lib fuel depth m e, (children, members, n, width, s))
      | inr e ↦
          let (root, m', run, moved_run, moved, under) =
            one_round lib depth m children members n width s enough e in
          let less =
            fewer lib depth m children members n width s enough e root m' xs moved under all in
          let (fr, fp, fn, heads, same, wide) = moved.reframed in
          let current : m'.current_frame ≡ m.current_frame =
            ap (λ (k : Memory). k.current_frame) same in
          let magic : m'.magic ≡ m.magic = ap (λ (k : Memory). k.magic) same in
          let few' : standing m'.frame m'.current_frame xs < fuel =
            rw current (omega (arith, less)) in
          let (m'', done, sound) =
            move_frame_loop lib fuel depth m' children moved.placed.0 n width xs
              (moved-IsSound m children members n width s (m.current_frame - 1)
                (Under children root) m' moved)
              (λ x. all x ∙ sym (ap (λ (g : Ptr → Bool). g x) magic)) few' enough in
          (m'', parent_next lib fuel depth m root m' e run moved_run ∙ done, sound)
    ]

-- `yc_move_frame_to_parent` keeps the memory sound.
pub move_frame_to_parent-Keeps :
    (lib : Library) (m : Memory) → Sound m → Keeps (λ fuel. move_frame_to_parent lib fuel fuel m)
move_frame_to_parent-Keeps lib m (children, members, n, width, s) =
    let (xs, list, all) = s.tracked.listed in
    (
      n + width + 1 + standing m.frame m.current_frame xs,
      λ fuel enough.
          move_frame_loop lib fuel fuel m children members n width xs s all (omega arith)
            (omega arith),
    )
