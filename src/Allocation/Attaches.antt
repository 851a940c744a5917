-- ===== src/Allocation/Attaches.antt =====
-- `yc_attach_child` on headers keeps the memory sound.
use mathlib.Core.Path.{subst}
use ycpl.Base.{
  ℕ, suc, ◌+◌, ◌<◌, ◌≡◌, refl, sym, ap, ◌≢◌, inl, inr, true, false, some, List, arith, ◌==◌, Bool,
  Bool-cases, eq_of_==, ◌∙◌,
}
use ycpl.Address.{Ptr, null}
use ycpl.Links.Chain.{update_here, update_away}
use ycpl.Memory.{Memory}
use ycpl.Memory.Linked.{Reframed}
use ycpl.Ownership.{owned_by, attach_header}
use ycpl.Ownership.Attach.{IsForest, attached, attach_header-Attached}
use ycpl.Allocation.Tracked.{IsTracked}
use ycpl.Allocation.Detached.{Reowned, detach_owner-Reowned}
use ycpl.Allocation.Sound.{IsSound, Sound, IsSound-IsForest}

owned_by-Reowned : (owner child : Ptr) (m : Memory) → Reowned m (owned_by owner child m)
unfolding owned_by
owned_by-Reowned owner child m =
    let (first, sp, sn, o, e) = detach_owner-Reowned child m in
    let k = owned_by owner child m in
    (
      k.first_child,
      k.sibling_prev,
      k.sibling_next,
      k.owner,
      ap
          (λ (d : Memory). record d {
            first_child = k.first_child;
            sibling_prev = k.sibling_prev;
            sibling_next = k.sibling_next;
            owner = k.owner;
          })
          e,
    )

-- Owners, children and frames may differ, and nothing else.
abbrev Rearranged : Memory → Memory → Type 0
Rearranged m m' = m' ≡ record m {
  frame = m'.frame;
  frame_prev = m'.frame_prev;
  frame_next = m'.frame_next;
  frame_heads = m'.frame_heads;
  owner = m'.owner;
  first_child = m'.first_child;
  sibling_prev = m'.sibling_prev;
  sibling_next = m'.sibling_next;
}

pub rearranged : (m m' m'' : Memory) → Reowned m m' → Reframed m' m'' → Rearranged m m''
rearranged m m' m'' (first, sp, sn, o, e) (fr, fp, fn, heads, e', wide) =
    let k = record m { first_child = first; sibling_prev = sp; sibling_next = sn; owner = o } in
    let whole : m''
        ≡ record k { frame = fr; frame_prev = fp; frame_next = fn; frame_heads = heads } =
      e'
      ∙ ap
          (λ (d : Memory). record d {
            frame = fr;
            frame_prev = fp;
            frame_next = fn;
            frame_heads = heads;
          })
          e in
    subst (Rearranged m) (sym whole) refl

pub Rearranged-IsTracked :
    (m m' : Memory) (children kids : Ptr → List Ptr) (members : ℕ → List Ptr) (n width : ℕ)
    (forest : IsForest m.magic m' kids n width)
    → IsTracked m children members
    → Rearranged m m'
    → ((x : Ptr) → m'.owner x ≢ null → m.magic (m'.owner x) ≡ true)
    → IsTracked m' kids forest.placed.0
Rearranged-IsTracked m m' children kids members n width forest t same over =
    let k = record m {
      frame = m'.frame;
      frame_prev = m'.frame_prev;
      frame_next = m'.frame_next;
      frame_heads = m'.frame_heads;
      owner = m'.owner;
      first_child = m'.first_child;
      sibling_prev = m'.sibling_prev;
      sibling_next = m'.sibling_next;
    } in
    let tracked : IsTracked k kids forest.placed.0 = record {
      owned = forest.owned;
      owners_live = λ x owned. (forest.owners_live x owned, over x owned);
      placed = forest.placed.1;
      listed = t.listed;
      registry = t.registry;
      registered = t.registered;
      ranges = t.ranges;
      in_ranges = t.in_ranges;
      real = t.real;
    } in
    subst (λ d. IsTracked d kids forest.placed.0) (sym same) tracked

-- `yc_attach_child` on two live headers ends, when the fuel is enough for the owner chains and the
-- children, and keeps the memory sound.
pub attach_header-Sound :
    (realloc : ℕ → Bool) (fuel : ℕ) (parent child : Ptr) (m : Memory) (children : Ptr → List Ptr)
    (members : ℕ → List Ptr) (n width : ℕ)
    → IsSound m children members n width
    → m.magic parent ≡ true
    → m.magic child ≡ true
    → suc (n + n) + suc width + 1 < fuel
    → (m' : Memory) × (attach_header realloc fuel parent child m ≡ some m') × Sound m'
attach_header-Sound realloc fuel parent child m children members n width s live live' enough =
    let t = s.tracked in
    let null_dead : m.magic null ≡ false = elim (Bool-cases (m.magic null)) [
      | inr e ↦ e
      | inl e ↦ absurd (omega (arith, t.real null e))
    ] in
    elim (attach_header-Attached m.magic parent child m children n width realloc fuel
      (IsSound-IsForest m children members n width s) null_dead live live' enough) [
        | inl (run, reason) ↦ (m, run, (children, members, n, width, s))
        | inr (m', run, other, not_above, done) ↦
            let same =
              rearranged m (owned_by parent child m) m' (owned_by-Reowned parent child m)
                done.reframed in
            let over : (x : Ptr) → m'.owner x ≢ null → m.magic (m'.owner x) ≡ true = λ x owned.
              elim (Bool-cases (x == child)) [
                | inl e ↦
                    rw (done.owners x, eq_of_== x child e, update_here m.owner child parent) live
                | inr e ↦
                    let kept = done.owners x ∙ update_away m.owner child parent x e in
                    rw kept (t.owners_live x λ none_there. owned (kept ∙ none_there)).1
              ] in
            let kids = attached parent child m children in
            (
              m',
              run,
              (
                kids,
                done.forest.placed.0,
                suc (n + n),
                suc width,
                record {
                  tracked =
                      Rearranged-IsTracked m m' children kids members (suc (n + n)) (suc width)
                        done.forest t same over;
                  rooted = done.forest.rooted;
                  narrow = done.forest.narrow;
                },
              ),
            )
      ]
