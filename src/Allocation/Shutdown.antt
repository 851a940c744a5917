-- ===== src/Allocation/Shutdown.antt =====
-- `yc_runtime_shutdown` over the list of all allocations.
use ycpl.Base.{
  ℕ, zero, suc, ◌<◌, ◌≡◌, refl, inl, inr, Bool, false, not, ◌&&◌, ◌||◌, some, List, [], ◌∷◌, arith,
  ◌==◌, Bool-cases, ◌∙◌, length,
}
use mathlib.Core.Path.{subst}
use ycpl.Address.{Ptr, null}
use ycpl.Links.{update}
use ycpl.Links.Chain.{has, Chain, IsList}
use ycpl.Registry.{no_registry}
use ycpl.Ranges.{leaf}
use ycpl.Memory.{Memory}
use ycpl.Allocation.{shutdown_loop, runtime_shutdown}

-- The list is empty, and its headers have lost their magic number.
abbrev pub IsCleared : Memory → List Ptr → Memory → Type 0
IsCleared m xs m' = (m'.head ≡ null) × ((x : Ptr) → m'.magic x ≡ (m.magic x && not (has x xs)))

unmarked :
    (f : Ptr → Bool) (h x : Ptr) (xs : List Ptr)
    → (update f h false x && not (has x xs)) ≡ (f x && not ((x == h) || has x xs))
unfolding update
unmarked f h x xs = elim (Bool-cases (x == h)) [ inl e ↦ rw e (ground arith) | inr e ↦ rw e refl ]

shutdown_loop-IsCleared :
    (fuel : ℕ) (b : Ptr) (xs : List Ptr) (m : Memory)
    → Chain m.next m.prev b m.head xs
    → length xs < fuel
    → (m' : Memory) × (shutdown_loop fuel m ≡ some m') × IsCleared m xs m' × (m'.ranges ≡ m.ranges)
unfolding shutdown_loop
shutdown_loop-IsCleared zero b xs m chain lt = absurd (omega arith)
shutdown_loop-IsCleared (suc fuel) b [] m chain lt =
    (m, rw chain refl, (chain, λ x. ground arith), refl)
shutdown_loop-IsCleared (suc fuel) b (y ∷ xs) m (e, real, back, rest) lt =
    let freed = record m { magic = update m.magic m.head false; head = m.next m.head } in
    let going : (m.head == null) ≡ false = ground arith in
    let (m', run, (ended, marks), same) =
      shutdown_loop-IsCleared fuel y xs freed (rw e rest) (omega arith) in
    (
      m',
      rw going run,
      (
        ended,
        λ x.
            marks x
            ∙ subst
                (λ z.
                  (update m.magic m.head false x && not (has x xs))
                  ≡ (m.magic x && not ((x == z) || has x xs)))
                e (unmarked m.magic m.head x xs),
      ),
      same,
    )

-- `yc_runtime_shutdown` ends, when the fuel is more than the allocations. It takes the magic number
-- from all of them, and from no other header, and leaves no list, registry, treap or frame.
pub runtime_shutdown-IsCleared :
    (fuel : ℕ) (m : Memory) (xs : List Ptr)
    → IsList (record { next = m.next; prev = m.prev; head = m.head }) xs
    → length xs < fuel
    → (m' : Memory) × (runtime_shutdown fuel m ≡ some m')
      × IsCleared m xs m'
      × (m'.registry ≡ no_registry)
      × (m'.ranges ≡ leaf)
      × (m'.frame_heads ≡ [])
      × (m'.current_frame ≡ 0)
unfolding runtime_shutdown
runtime_shutdown-IsCleared fuel m xs (chain, d) lt =
    let (m', run, cleared, same) =
      shutdown_loop-IsCleared fuel null xs (record m { ranges = leaf }) chain lt in
    (
      record m' { registry = no_registry; frame_heads = []; current_frame = 0 },
      rw run refl,
      cleared,
      refl,
      same,
      refl,
      refl,
    )
