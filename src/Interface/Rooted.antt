-- ===== src/Interface/Rooted.antt =====
-- The entry points that work on the root above a pointer into an allocation keep the memory sound:
-- `yc_move_to_ancestor` and `yc_move_to_root`.
use ycpl.Base.{
  ℕ, ◌+◌, ◌-◌, ◌<◌, ◌≡◌, refl, ◌⊎◌, inl, inr, Bool, true, false, some, List, arith, ◌==◌, ◌||◌, leb,
  ltb, if◌then◌else◌, Bool-cases, ◌∙◌, length,
}
use ycpl.Address.{Ptr, null}
use ycpl.Ranges.{find}
use ycpl.Ranges.Order
use ycpl.Ranges.Find.{find-member}
use ycpl.Memory.{Memory}
use ycpl.Memory.Frames.{IsFramed-room}
use ycpl.Ownership.{owner_root, move_graph_to_frame}
use ycpl.Allocation.{Library, header_of, header_containing_ptr}
use ycpl.Allocation.Tracked.{IsTracked}
use ycpl.Allocation.Sound.{IsSound, Sound}
use ycpl.Interface.{move_to_ancestor, move_to_root}
use ycpl.Interface.Keeps.{Keeps}
use ycpl.Interface.Attaching.{header_of-live}
use ycpl.Interface.Moving.{move_graph_to_frame-Sound, owner_root-live}

-- Null or a live header.
abbrev pub IsLive : Memory → Ptr → Type 0
IsLive m h = (h ≡ null) ⊎ (m.magic h ≡ true)

header_containing_lem :
    (ptr h : Ptr) (m : Memory)
    → header_of ptr m ≡ some h
    → header_containing_ptr ptr m ≡ some (if h == null then find m.size ptr m.ranges else h)
unfolding header_containing_ptr
header_containing_lem ptr h m e = rw e refl

module _ (m : Memory) (children : Ptr → List Ptr) (members : ℕ → List Ptr)
    (t : IsTracked m children members) where
  find-IsLive : (ptr : Ptr) → IsLive m (find m.size ptr m.ranges)
  find-IsLive ptr = elim (find-member m.size ptr m.ranges t.ranges.ordered) [
    | inl e ↦ inl e
    | inr inside ↦
        let x = find m.size ptr m.ranges in
        elim (Bool-cases (m.magic x)) [
          | inl alive ↦ inr alive
          | inr dead ↦
              let out : Order.occurrences x m.ranges ≡ 0 = t.in_ranges x ∙ rw dead refl in
              absurd (omega (arith, inside, out))
        ]
  ]

  pub header_containing_ptr-IsLive :
      (ptr : Ptr) → (h : Ptr) × (header_containing_ptr ptr m ≡ some h) × IsLive m h
  header_containing_ptr-IsLive ptr =
      let (h, run, live) = header_of-live ptr m children members t in
      (
        _,
        header_containing_lem ptr h m run,
        elim (Bool-cases (h == null)) [ inl e ↦ rw e (find-IsLive ptr) | inr e ↦ rw e live ],
      )

  frame-room : (r f : ℕ) → m.magic r ≡ true → f < m.frame r → f < length m.frame_heads
  frame-room r f alive lower =
      omega (arith, IsFramed-room m members (m.frame r) r t.placed.0 (t.placed.1 r alive))

-- The frame that `yc_move_to_ancestor` moves to.
abbrev target : ℕ → Memory → ℕ
target levels m = if leb m.current_frame levels then 0 else m.current_frame - levels

abbrev is_idle : Ptr → ℕ → Memory → Bool
is_idle root levels m = root == null || levels == 0 || m.current_frame == 0

module _ (lib : Library) (fuel : ℕ) (ptr h : Ptr) (m : Memory)
    (found : header_containing_ptr ptr m ≡ some h) where
  ancestor_none :
      (levels : ℕ) → (h == null) ≡ true → move_to_ancestor lib fuel ptr levels m ≡ some m
  unfolding move_to_ancestor
  ancestor_none levels e = rw (found, e) refl

  ancestor_root :
      (levels : ℕ) (root : Ptr)
      → (h == null) ≡ false
      → owner_root fuel m.owner h ≡ some root
      → move_to_ancestor lib fuel ptr levels m ≡ (
          if is_idle root levels m
          then some m
          else if ltb (target levels m) (m.frame root)
          then move_graph_to_frame lib.realloc fuel root (target levels m) m
          else some m)
  unfolding move_to_ancestor
  ancestor_root levels root e e' = rw (found, e, e') refl

  root_lem :
      (root : Ptr)
      → owner_root fuel m.owner h ≡ some root
      → move_to_root lib fuel ptr m ≡ (
          if root == null || leb (m.frame root) 1
          then some m
          else move_graph_to_frame lib.realloc fuel root 1 m)
  unfolding move_to_root
  root_lem root e = rw (found, e) refl

module _ (lib : Library) (ptr : Ptr) (m : Memory) (children : Ptr → List Ptr)
    (members : ℕ → List Ptr) (n width : ℕ) (s : IsSound m children members n width) where
  abbrev sound : Sound m
  sound = (children, members, n, width, s)

  -- A move of the graph of a live root to a lower frame.
  move_down :
      (fuel root frame : ℕ)
      → IsLive m root
      → (root == null) ≡ false
      → frame < m.frame root
      → n + width + 1 < fuel
      → (m' : Memory) × (move_graph_to_frame lib.realloc fuel root frame m ≡ some m') × Sound m'
  move_down fuel root frame (inl e) real lower enough = absurd (ground arith)
  move_down fuel root frame (inr alive) real lower enough =
      move_graph_to_frame-Sound m children members n width s lib.realloc frame fuel root alive
        (frame-room m children members s.tracked root frame alive lower) enough

  -- `yc_move_to_root` keeps the memory sound.
  pub move_to_root-Keeps : Keeps (λ fuel. move_to_root lib fuel ptr m)
  move_to_root-Keeps = (
    n + width + 1,
    λ fuel enough.
        let (h, found, live) = header_containing_ptr-IsLive m children members s.tracked ptr in
        let (root, run, live') =
          owner_root-live m children members n width s fuel h live (omega arith) in
        let step = root_lem lib fuel ptr h m found root run in
        elim (Bool-cases (root == null || leb (m.frame root) 1)) [
          | inl e ↦ (m, step ∙ rw e refl, sound)
          | inr e ↦
              let (m', run', sound') =
                move_down fuel root 1 live' (ground arith) (ground arith) enough in
              (m', step ∙ rw e run', sound')
        ],
  )

  -- `yc_move_to_ancestor` keeps the memory sound.
  pub move_to_ancestor-Keeps : (levels : ℕ) → Keeps (λ fuel. move_to_ancestor lib fuel ptr levels m)
  move_to_ancestor-Keeps levels = (
    n + width + 1,
    λ fuel enough.
        let (h, found, live) = header_containing_ptr-IsLive m children members s.tracked ptr in
        elim (Bool-cases (h == null)) [
          | inl e ↦ (m, ancestor_none lib fuel ptr h m found levels e, sound)
          | inr e ↦
              let (root, run, live') =
                owner_root-live m children members n width s fuel h live (omega arith) in
              let step = ancestor_root lib fuel ptr h m found levels root e run in
              elim (Bool-cases (is_idle root levels m)) [
                | inl idle ↦ (m, step ∙ rw idle refl, sound)
                | inr going ↦ elim (Bool-cases (ltb (target levels m) (m.frame root))) [
                  | inr there ↦ (m, step ∙ rw (going, there) refl, sound)
                  | inl lower ↦
                      let (m', run', sound') =
                        move_down fuel root (target levels m) live' (ground arith) (ground arith)
                          enough in
                      (m', step ∙ rw (going, lower) run', sound')
                ]
              ]
        ],
  )
