-- ===== src/Allocation/Pop.antt =====
-- `yc_frame_pop` over the tracked headers: what stands in the frame leaves, with all below it.
use mathlib.Core.Path.{ap, subst}
use ycpl.Allocation.{frame_pop, release_header, pop_loop}
use mathlib.Core.Bool.{true≢false}
use ycpl.Base.{
  ℕ, zero, suc, ◌+◌, ◌-◌, ◌>>=◌, ◌≤◌, ◌<◌, ◌≡◌, refl, sym, ◌⊎◌, inl, inr, true, false, Option, some,
  List, [], ◌∷◌, arith, ◌==◌, Bool-cases, ◌∙◌, length, get_or,
}
use ycpl.Address.{Ptr, null}
use ycpl.Links.Chain.{has, Chain}
use ycpl.Memory.{Memory}
use ycpl.Allocation.Released.{IsFreed, IsKept}
use ycpl.Allocation.Release.{IsReady, first_in}
use ycpl.Allocation.Popped.{InFrame, Popped, then_Popped}
use ycpl.Allocation.Whole.{release_header-Released}

pop_loop_end :
    (fuel depth frame : ℕ) (m : Memory)
    → (get_or m.frame_heads frame null == null) ≡ true
    → pop_loop (suc fuel) depth frame m ≡ some m
unfolding pop_loop
pop_loop_end fuel depth frame m e = rw e refl

pop_loop_next :
    (fuel depth frame : ℕ) (m m' : Memory)
    → (get_or m.frame_heads frame null == null) ≡ false
    → release_header depth (get_or m.frame_heads frame null) m ≡ some m'
    → pop_loop (suc fuel) depth frame m ≡ pop_loop fuel depth frame m'
unfolding pop_loop
pop_loop_next fuel depth frame m m' e e' = rw (e, e') refl

-- The members of a list with a null head.
no_head :
    (next prev : Ptr → Ptr) (b p : Ptr) (xs : List Ptr)
    → Chain next prev b p xs
    → (p == null) ≡ true
    → xs ≡ []
no_head next prev b p [] c e = refl
no_head next prev b p (x ∷ xs) c e = absurd (ground (arith, c.0, c.1))

module _ (height : Ptr → ℕ) (width top : ℕ) (low : (x : Ptr) → height x ≤ top) where
  -- The number of the current frame is no part of the invariant.
  current-IsReady :
      (f : ℕ) (m : Memory) (children : Ptr → List Ptr) (members : ℕ → List Ptr)
      → IsReady height width m children members
      → IsReady height width (record m { current_frame = f }) children members
  current-IsReady f m children members (t, falls, narrow) = (
    record {
      owned = t.owned;
      owners_live = t.owners_live;
      placed = t.placed;
      listed = t.listed;
      registry = t.registry;
      registered = t.registered;
      ranges = t.ranges;
      in_ranges = t.in_ranges;
      real = t.real;
    },
    falls,
    narrow,
  )

  abbrev Pops : ℕ → Memory → Option Memory → Type 0
  Pops frame m r =
      (m' : Memory) × (kids : Ptr → List Ptr) × (members : ℕ → List Ptr) × (r ≡ some m')
      × IsReady height width m' kids members
      × (members frame ≡ [])
      × Popped frame m m'

  pop_loop-Popped :
      (fuel depth frame : ℕ) (m : Memory) (children : Ptr → List Ptr) (members : ℕ → List Ptr)
      → IsReady height width m children members
      → length (members frame) < fuel
      → top + width + 1 < depth
      → Pops frame m (pop_loop fuel depth frame m)
  pop_loop-Popped zero depth frame m children members ready enough deep = absurd (omega arith)
  pop_loop-Popped (suc fuel) depth frame m children members ready enough deep =
      let h = get_or m.frame_heads frame null in
      let list = (ready.0.placed.0.0 frame).0 in
      elim (Bool-cases (h == null)) [
        | inl e ↦
            let empty = no_head m.frame_next m.frame_prev null h (members frame) list e in
            (
              m,
              children,
              members,
              pop_loop_end fuel depth frame m e,
              ready,
              empty,
              record {
                gone = λ x (top, live_top, in_frame, below).
                    let inside : has top (members frame) ≡ true =
                      subst (λ f. has top (members f) ≡ true) in_frame
                        (ready.0.placed.1 top live_top) in
                    let out : has top (members frame) ≡ false = rw empty refl in
                    absurd (true≢false (sym inside ∙ out));
                kept = λ x. inl (refl, refl);
                frames = λ x. refl;
                current = refl;
              },
            )
        | inr e ↦
            let inside = first_in m.frame_next m.frame_prev null h (members frame) list e in
            let alive = ready.0.placed.2 frame h inside in
            let mine = ready.0.placed.0.1 frame h inside in
            let (m', kids', members', run, ready', first) =
              release_header-Released height width depth h m children members ready alive
                (omega (arith, low h)) in
            let less : length (members' frame) < length (members frame) =
              subst (λ f. length (members' f) < length (members f)) mine first.unframed in
            let (m'', kids'', members'', run', ready'', empty, rest) =
              pop_loop-Popped fuel depth frame m' kids' members' ready' (omega arith) deep in
            (
              m'',
              kids'',
              members'',
              pop_loop_next fuel depth frame m m' e run ∙ run',
              ready'',
              empty,
              then_Popped frame h m m' m'' children kids' members members' alive mine first rest,
            )
      ]

  abbrev leave_frame : Memory → Option Memory
  leave_frame m = some (record m { current_frame = m.current_frame - 1 })

  frame_pop_live :
      (fuel depth : ℕ) (m : Memory)
      → (m.current_frame == 0) ≡ false
      → frame_pop fuel depth m ≡ (pop_loop fuel depth m.current_frame m >>= leave_frame)
  unfolding frame_pop
  frame_pop_live fuel depth m e = rw e refl

  frame_pop_lem :
      (fuel depth : ℕ) (m m' : Memory)
      → (m.current_frame == 0) ≡ false
      → pop_loop fuel depth m.current_frame m ≡ some m'
      → frame_pop fuel depth m ≡ leave_frame m'
  frame_pop_lem fuel depth m m' e e' =
      frame_pop_live fuel depth m e ∙ ap (λ o. o >>= leave_frame) e'

  -- `yc_frame_pop` ends, and leaves the outermost frame as it is. It frees the headers of the current
  -- frame with all that is below them, whatever frame that is in, and nothing else. The list of the
  -- frame is empty then, and the frame before it is current.
  pub frame_pop-Popped :
      (fuel depth : ℕ) (m : Memory) (children : Ptr → List Ptr) (members : ℕ → List Ptr)
      → IsReady height width m children members
      → length (members m.current_frame) < fuel
      → top + width + 1 < depth
      → ((m.current_frame ≡ 0) × (frame_pop fuel depth m ≡ some m))
        ⊎ ((m' : Memory) × (kids : Ptr → List Ptr) × (left : ℕ → List Ptr) × (frame_pop fuel depth m
              ≡ some m')
            × IsReady height width m' kids left
            × (left m.current_frame ≡ [])
            × ((x : Ptr) → InFrame m.current_frame m x → IsFreed m' x)
            × ((x : Ptr) → IsKept m m' x ⊎ InFrame m.current_frame m x)
            × (suc m'.current_frame ≡ m.current_frame))
  frame_pop-Popped fuel depth m children members ready enough deep =
      elim (Bool-cases (m.current_frame == 0)) [
        | inl e ↦ inl (ground arith, unfold frame_pop in rw e refl)
        | inr e ↦
            let (m', kids, left, run, ready', empty, popped) =
              pop_loop-Popped fuel depth m.current_frame m children members ready enough deep in
            inr (
              record m' { current_frame = m'.current_frame - 1 },
              kids,
              left,
              frame_pop_lem fuel depth m m' e run,
              current-IsReady (m'.current_frame - 1) m' kids left ready',
              empty,
              popped.gone,
              popped.kept,
              ground (arith, popped.current),
            )
      ]
