-- ===== src/Ownership/Moves.antt =====
-- `yc_move_graph_to_frame`: a header, its children and what is below them.
use mathlib.Core.Path.{subst}
use ycpl.Base.{
  ℕ, zero, suc, ◌+◌, ◌≤◌, ◌<◌, ◌≡◌, refl, sym, ap, ◌>>=◌, ◌≢◌, ◌⊎◌, inl, inr, Bool, true, false,
  Option, some, List, [], ◌∷◌, arith, ◌==◌, if◌then◌else◌, Bool-cases, eq_of_==, ◌∙◌, length,
}
use ycpl.Address.{Ptr, null}
use ycpl.Links.Chain.{has, Chain}
use ycpl.Memory.{Memory, frame_link, frame_unlink}
use ycpl.Memory.Linked.{Reframed, Reframed-refl, Reframed-length}
use ycpl.Ownership.{each_child, move_graph_to_frame}
use ycpl.Ownership.Moved.{IsPlaced, Moved, Moved-then, Moved-set, step}

-- The headers below `h`, itself included.
pub data Under (children : Ptr → List Ptr) : Ptr → Ptr → Type 0 where
  here : {h : Ptr} → Under children h h
  down : {h c x : Ptr} → has c (children h) ≡ true → Under children c x → Under children h x

each_child_end :
    (visit : Ptr → Memory → Option Memory) (fuel : ℕ) (c : Ptr) (m : Memory)
    → (c == null) ≡ true
    → each_child visit (suc fuel) c m ≡ some m
unfolding each_child
each_child_end visit fuel c m e = rw e refl

each_child_next :
    (visit : Ptr → Memory → Option Memory) (fuel : ℕ) (c : Ptr) (m m' : Memory)
    → (c == null) ≡ false
    → visit c m ≡ some m'
    → each_child visit (suc fuel) c m ≡ each_child visit fuel (m'.sibling_next c) m'
unfolding each_child
each_child_next visit fuel c m m' e e' = rw (e, e') refl

module _ (realloc : ℕ → Bool) (frame fuel : ℕ) (h : Ptr) where
  abbrev own_move : Memory → Option Memory
  own_move m = if m.frame h == frame then some m else frame_link realloc h frame (frame_unlink h m)

  abbrev child_moves : Memory → Option Memory
  child_moves m' =
      each_child (λ c. move_graph_to_frame realloc fuel c frame) fuel (m'.first_child h) m'

  move_graph_real :
      (m : Memory)
      → (h == null) ≡ false
      → move_graph_to_frame realloc (suc fuel) h frame m ≡ (own_move m >>= child_moves)
  unfolding move_graph_to_frame
  move_graph_real m e = rw e refl

  move_graph_lem :
      (m m' : Memory)
      → h ≢ null
      → own_move m ≡ some m'
      → move_graph_to_frame realloc (suc fuel) h frame m ≡ child_moves m'
  move_graph_lem m m' real e = move_graph_real m (ground arith) ∙ ap (λ o. o >>= child_moves) e

-- What is below a header is the header, or below one of its children.
Under-cases :
    (children : Ptr → List Ptr) (h x : Ptr)
    → Under children h x
    → (x ≡ h) ⊎ ((c : Ptr) × (has c (children h) ≡ true) × Under children c x)
Under-cases children h x here = inl refl
Under-cases children h x (down {c} inside under) = inr (c, inside, under)

Reframed-siblings :
    (m m' : Memory)
    → Reframed m m'
    → (b p : Ptr) (xs : List Ptr) → Chain m.sibling_next m.sibling_prev b (m.sibling_next p) xs
    → Chain m'.sibling_next m'.sibling_prev b (m'.sibling_next p) xs
Reframed-siblings m m' (fr, fp, fn, heads, e, wide) b p xs chain =
    subst (λ n. Chain n.sibling_next n.sibling_prev b (n.sibling_next p) xs) (sym e) chain

module _ (live : Ptr → Bool) (frame : ℕ) (children : Ptr → List Ptr) where
  -- The memory that a move starts from.
  abbrev pub IsReady : Memory → Type 0
  IsReady m =
      ((members : ℕ → List Ptr) × IsPlaced live m members)
      × ((p : Ptr) → Chain m.sibling_next m.sibling_prev null (m.first_child p) (children p))
      × (frame < length m.frame_heads)

  Moved-IsReady :
      (S : Ptr → Type 0) (m m' : Memory) → IsReady m → Moved live frame S m m' → IsReady m'
  Moved-IsReady S m m' (placed, kids, room) moved =
      let (fr, fp, fn, heads, e, wide) = moved.reframed in
      (
        moved.placed,
        λ p.
            subst (λ n. Chain n.sibling_next n.sibling_prev null (n.first_child p) (children p))
              (sym e) (kids p),
        rw (Reframed-length m m' moved.reframed) room,
      )

  abbrev Below : List Ptr → Ptr → Type 0
  Below cs x = (c : Ptr) × (has c cs ≡ true) × Under children c x

  each-Moved :
      (visit : Ptr → Memory → Option Memory) (fuel : ℕ) (b c : Ptr) (cs : List Ptr) (m : Memory)
      → ((k : Ptr) (m : Memory)
          → has k cs ≡ true
          → IsReady m
          → (m' : Memory) × (visit k m ≡ some m') × Moved live frame (Under children k) m m')
      → IsReady m
      → Chain m.sibling_next m.sibling_prev b c cs
      → length cs < fuel
      → (m' : Memory) × (each_child visit fuel c m ≡ some m') × Moved live frame (Below cs) m m'
  each-Moved visit zero b c cs m visits ready chain enough = absurd (omega arith)
  each-Moved visit (suc fuel) b c [] m visits ready chain enough = (
    m,
    each_child_end visit fuel c m (ground arith),
    record {
      reframed = Reframed-refl m;
      only = λ x. inl refl;
      all = λ x below. absurd (ground (arith, below.1));
      placed = ready.0;
    },
  )
  each-Moved visit (suc fuel) b c (k ∷ cs) m visits ready (e, real, back, rest) enough =
      let first = visits c m (ground arith) ready in
      let m' = first.0 in
      let ready' = Moved-IsReady (Under children c) m m' ready first.2 in
      let chain' : Chain m'.sibling_next m'.sibling_prev k (m'.sibling_next c) cs =
        rw e (Reframed-siblings m m' first.2.reframed k k cs rest) in
      let others =
        each-Moved visit fuel k (m'.sibling_next c) cs m' (λ j n inside. visits j n (ground arith))
          ready' chain' (omega arith) in
      (
        others.0,
        each_child_next visit fuel c m m' (ground arith) first.1 ∙ others.1,
        Moved-set live frame (λ x. Under children c x ⊎ Below cs x) (Below (k ∷ cs)) m others.0
            (λ x below. elim below [
              | inl own ↦ (c, ground arith, own)
              | inr (j, inside, under) ↦ (j, ground arith, under)
            ])
            (λ x (j, inside, under). elim (Bool-cases (j == k)) [
              | inl own ↦ inl (subst (λ y. Under children y x) (eq_of_== j k own ∙ sym e) under)
              | inr other_one ↦ inr (j, ground arith, under)
            ])
            (Moved-then live frame (Under children c) (Below cs) m m' others.0 first.2 others.2),
      )

  -- Owners stand higher than their children, who are no more than `width` and live.
  module _ (realloc : ℕ → Bool) (height : Ptr → ℕ) (width : ℕ)
      (falls : (p c : Ptr) → has c (children p) ≡ true → height c < height p)
      (narrow : (p : Ptr) → length (children p) ≤ width)
      (alive : (p c : Ptr) → has c (children p) ≡ true → (live c ≡ true) × (c ≢ null)) where
    -- Where the target frame has its list, each live header is in the list of its frame, and the
    -- children of each owner are linked, `yc_move_graph_to_frame` of a live header ends, when the fuel is more than the header's height and
    -- the number of children that one header has, and one. The header and all below it are then in the frame, and nothing
    -- else differs; every live header is in the list of its frame as before.
    pub move_graph_to_frame-Moved :
        (fuel : ℕ) (h : Ptr) (m : Memory)
        → IsReady m
        → live h ≡ true
        → h ≢ null
        → height h + width + 1 < fuel
        → (m' : Memory) × (move_graph_to_frame realloc fuel h frame m ≡ some m')
          × Moved live frame (Under children h) m m'
    move_graph_to_frame-Moved zero h m ready live_h real enough = absurd (omega arith)
    move_graph_to_frame-Moved (suc fuel) h m ready live_h real enough =
        let own = step live frame realloc h m ready.0.0 ready.0.1 live_h real ready.2 in
        let m' = own.0 in
        let ready' = Moved-IsReady (λ x. x ≡ h) m m' ready own.2 in
        let below =
          each-Moved (λ c. move_graph_to_frame realloc fuel c frame) fuel null (m'.first_child h)
            (children h) m'
            (λ k n inside ready_n.
              move_graph_to_frame-Moved fuel k n ready_n (alive h k inside).0 (alive h k inside).1
                (omega (arith, falls h k inside)))
            ready' (ready'.1 h) (omega (arith, narrow h)) in
        (
          below.0,
          move_graph_lem realloc frame fuel h m m' real own.1 ∙ below.1,
          Moved-set live frame (λ x. (x ≡ h) ⊎ Below (children h) x) (Under children h) m below.0
              (λ x s. elim s [
                | inl same ↦ subst (Under children h) (sym same) here
                | inr (c, inside, under) ↦ down inside under
              ])
              (λ x under. Under-cases children h x under)
              (Moved-then live frame (λ x. x ≡ h) (Below (children h)) m m' below.0 own.2 below.2),
        )
