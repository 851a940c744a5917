-- ===== src/Interface/Moving.antt =====
-- The moves of graphs between frames keep the memory sound: `yc_move_to_ancestor` and
-- `yc_move_to_root`.
use mathlib.Core.Path.{subst}
use mathlib.Core.Bool.{true≢false}
use ycpl.Base.{
  ℕ, zero, suc, ◌+◌, ◌<◌, ◌≡◌, refl, sym, ◌≢◌, ◌⊎◌, inl, inr, Bool, true, false, some, List, arith,
  ◌∙◌, length,
}
use ycpl.Address.{Ptr, null}
use ycpl.Links.Chain.{has}
use ycpl.Memory.{Memory}
use ycpl.Memory.Owners.{IsOwned}
use ycpl.Ownership.{owner_root, move_graph_to_frame}
use ycpl.Ownership.Roots.{IsRooted, IsAbove, owner_root-IsAbove}
use ycpl.Ownership.Moves.{Under, move_graph_to_frame-Moved}
use ycpl.Ownership.Moved.{Moved}
use ycpl.Ownership.Attach.{IsForest}
use ycpl.Allocation.Attaches.{rearranged, Rearranged-IsTracked}
use ycpl.Allocation.Sound.{IsSound, Sound}
use ycpl.Allocation.Heights.{height, height-le, sound-IsReady}

IsAbove-null : (owner : Ptr → Ptr) (k : ℕ) (r h : Ptr) → h ≡ null → ¬ (IsAbove owner k r h)
IsAbove-null owner zero r h e above = above
IsAbove-null owner (suc k) r h e (real, above) = real e

module _ (m : Memory) (children : Ptr → List Ptr) (members : ℕ → List Ptr) (n width : ℕ)
    (s : IsSound m children members n width) where
  child_owner : (p c : Ptr) → has c (children p) ≡ true → (m.owner c ≡ p) × (m.owner c ≢ null)
  child_owner p c inside =
      let mine = s.tracked.owned.0.1 p c inside in
      (
        mine,
        λ none_there.
            let out : has c (children null) ≡ false =
              subst (λ xs. has c xs ≡ false) (sym s.tracked.owned.1) refl in
            let there : has c (children null) ≡ true =
              subst (λ q. has c (children q) ≡ true) (sym mine ∙ none_there) inside in
            true≢false (sym there ∙ out),
      )

  child_alive : (p c : Ptr) → has c (children p) ≡ true → (m.magic c ≡ true) × (c ≢ null)
  child_alive p c inside =
      let alive = (s.tracked.owners_live c (child_owner p c inside).1).0 in
      (alive, λ e. absurd (omega (arith, s.tracked.real c alive, e)))

  child_lower :
      (p c : Ptr)
      → has c (children p) ≡ true
      → height m children members n width s c < height m children members n width s p
  child_lower p c inside =
      let (mine, owned) = child_owner p c inside in
      subst (λ q. height m children members n width s c < height m children members n width s q)
        mine ((sound-IsReady m children members n width s).1 c owned)

  pub moved-IsSound :
      (frame : ℕ) (S : Ptr → Type 0) (m' : Memory) (moved : Moved m.magic frame S m m')
      → IsSound m' children moved.placed.0 n width
  moved-IsSound frame S m' moved =
      let (fr, fp, fn, heads, e, wide) = moved.reframed in
      let t = s.tracked in
      let forest : IsForest m.magic m' children n width = record {
        owned = subst (λ k. IsOwned k children) (sym e) t.owned;
        rooted = λ x. subst (λ k. IsRooted k.owner n x) (sym e) (s.rooted x);
        placed = moved.placed;
        narrow = s.narrow;
        owners_live = λ x.
            subst (λ k. k.owner x ≢ null → m.magic x ≡ true) (sym e)
              λ owned. (t.owners_live x owned).0;
      } in
      let same =
        rearranged m m m' (m.first_child, m.sibling_prev, m.sibling_next, m.owner, refl)
          moved.reframed in
      record {
        tracked = Rearranged-IsTracked m m' children children members n width forest t same λ x.
            subst (λ k. k.owner x ≢ null → m.magic (k.owner x) ≡ true) (sym e)
              λ owned. (t.owners_live x owned).1;
        rooted = forest.rooted;
        narrow = s.narrow;
      }

  -- `yc_move_graph_to_frame` on sound memory, which it keeps so.
  pub graph-Moved :
      (realloc : ℕ → Bool) (frame fuel : ℕ) (h : Ptr)
      → m.magic h ≡ true
      → frame < length m.frame_heads
      → n + width + 1 < fuel
      → (m' : Memory) × (move_graph_to_frame realloc fuel h frame m ≡ some m')
        × Moved m.magic frame (Under children h) m m'
  graph-Moved realloc frame fuel h alive room enough =
      let t = s.tracked in
      move_graph_to_frame-Moved m.magic frame children realloc (height m children members n width s)
        width child_lower s.narrow child_alive fuel h m
        ((members, t.placed), (λ p. (t.owned.0.0 p).0), room) alive
        (λ e. absurd (omega (arith, t.real h alive, e)))
        (omega (arith, height-le m children members n width s h))

  pub move_graph_to_frame-Sound :
      (realloc : ℕ → Bool) (frame fuel : ℕ) (h : Ptr)
      → m.magic h ≡ true
      → frame < length m.frame_heads
      → n + width + 1 < fuel
      → (m' : Memory) × (move_graph_to_frame realloc fuel h frame m ≡ some m') × Sound m'
  move_graph_to_frame-Sound realloc frame fuel h alive room enough =
      let (m', run, moved) = graph-Moved realloc frame fuel h alive room enough in
      (
        m',
        run,
        (children, moved.placed.0, n, width, moved-IsSound frame (Under children h) m' moved),
      )

  -- The headers above a live header are live.
  pub IsAbove-live :
      (k : ℕ) (r h : Ptr) → m.magic h ≡ true → IsAbove m.owner k r h → m.magic r ≡ true
  IsAbove-live zero r h alive above = absurd above
  IsAbove-live (suc k) r h alive (real, inl e) = subst (λ x. m.magic x ≡ true) e alive
  IsAbove-live (suc zero) r h alive (real, inr above) = absurd above
  IsAbove-live (suc (suc k)) r h alive (real, inr above) =
      IsAbove-live (suc k) r (m.owner h) (s.tracked.owners_live h above.0).1 above

  -- The root of a live header is live, and the root of null is null.
  pub owner_root-live :
      (fuel : ℕ) (h : Ptr)
      → (h ≡ null) ⊎ (m.magic h ≡ true)
      → n < fuel
      → (r : Ptr) × (owner_root fuel m.owner h ≡ some r) × ((r ≡ null) ⊎ (m.magic r ≡ true))
  owner_root-live fuel h live enough =
      let (r, run, found) = owner_root-IsAbove m.owner n fuel h (s.rooted h) enough in
      (
        r,
        run,
        elim found [
          | inl (none_there, e) ↦ inl e
          | inr (top, above) ↦ elim live [
            | inl e ↦ absurd (IsAbove-null m.owner n r h e above)
            | inr alive ↦ inr (IsAbove-live n r h alive above)
          ]
        ],
      )
