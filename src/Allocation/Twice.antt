-- ===== src/Allocation/Twice.antt =====
-- `yc_release` on pointers: what it finds and frees, and what it does to a pointer released before.
use ycpl.Base.{
  ℕ, ◌+◌, if◌then◌else◌, ◌≤◌, ◌<◌, ◌≡◌, refl, sym, ap, ◌⊎◌, inl, inr, true, false, some, List,
  arith, ◌==◌, ◌>>=◌, Bool-cases, ◌∙◌,
}
use ycpl.Address.{Ptr, null, payload, payload-injective}
use ycpl.Registry.Tally.{occurrences}
use ycpl.Registry.Lookup.{Marked, Names, header_from_ptr-Names}
use ycpl.Memory.{Memory}
use ycpl.Allocation.{header_of, release_header, release}
use ycpl.Allocation.Tracked.{IsTracked}
use ycpl.Allocation.Below.{same}
use ycpl.Allocation.Release.{IsReady, Releases}
use ycpl.Allocation.Whole.{release_header-Released}

-- The registry holds live headers only.
pub tracked-Marked :
    (m : Memory) (children : Ptr → List Ptr) (members : ℕ → List Ptr)
    → IsTracked m children members
    → Marked m.magic m.registry
tracked-Marked m children members t x big some_there = elim (Bool-cases (m.magic x)) [
  | inl e ↦ e
  | inr e ↦ absurd (omega (arith, t.registered x big e))
]

release_lem :
    (fuel : ℕ) (ptr h : Ptr) (m : Memory)
    → header_of ptr m ≡ some h
    → release fuel ptr m ≡ (if h == null then some m else release_header fuel h m)
unfolding release
release_lem fuel ptr h m e =
    ap (λ o. o >>= λ h. if h == null then some m else release_header fuel h m) e

-- The header of a pointer is live, or the pointer has none.
pub header_of-Names :
    (ptr : Ptr) (m : Memory) (children : Ptr → List Ptr) (members : ℕ → List Ptr)
    → IsTracked m children members
    → (x : Ptr) × (header_of ptr m ≡ some x) × Names m.registry ptr x
unfolding header_of
header_of-Names ptr m children members t =
    header_from_ptr-Names m.magic m.registry ptr t.registry (tracked-Marked m children members t)

-- A pointer to no registered header is left alone.
release_other :
    (fuel : ℕ) (ptr : Ptr) (m : Memory) (children : Ptr → List Ptr) (members : ℕ → List Ptr)
    → IsTracked m children members
    → ((h : Ptr) → 1 < h → payload h ≡ ptr → occurrences h m.registry.slots ≡ 0)
    → release fuel ptr m ≡ some m
release_other fuel ptr m children members t none_there =
    let (x, run, names) = header_of-Names ptr m children members t in
    elim names [
      | inl (e, _) ↦
          release_lem fuel ptr x m run ∙ (let z : (x == null) ≡ true = ground arith in rw z refl)
      | inr (big, at, once) ↦ absurd (omega (arith, none_there x big at))
    ]

module _ (height : Ptr → ℕ) (width top : ℕ) (low : (x : Ptr) → height x ≤ top) where
  -- `yc_release` ends for every pointer. If a registered header's memory starts there, it frees this
  -- header with all below it and nothing else; if not, it changes nothing. When the pointer is
  -- released again, nothing changes any more.
  pub release_twice :
      (fuel : ℕ) (ptr : Ptr) (m : Memory) (children : Ptr → List Ptr) (members : ℕ → List Ptr)
      → IsReady height width m children members
      → top + width + 1 < fuel
      → (m' : Memory) × (release fuel ptr m ≡ some m')
        × (release fuel ptr m' ≡ some m')
        × (((m' ≡ m) × ((h : Ptr) → 1 < h → payload h ≡ ptr → occurrences h m.registry.slots ≡ 0))
            ⊎ ((h : Ptr) × (payload h ≡ ptr)
                × (occurrences h m.registry.slots ≡ 1)
                × (m.magic h ≡ true)
                × Releases height width h m children members (some m')))
  release_twice fuel ptr m children members ready enough =
      let (x, run, names) = header_of-Names ptr m children members ready.0 in
      elim names [
        | inl (e, none_there) ↦
            let unchanged = release_other fuel ptr m children members ready.0 none_there in
            (m, unchanged, unchanged, inl (refl, none_there))
        | inr (big, at, once) ↦
            let alive = tracked-Marked m children members ready.0 x big (omega (arith, once)) in
            let (m', kids, left, run', ready', done) =
              release_header-Released height width fuel x m children members ready alive
                (omega (arith, low x)) in
            let real : (x == null) ≡ false = ground arith in
            let dead = (done.gone x same).0 in
            let none_left : (h : Ptr)
                → 1 < h
                → payload h ≡ ptr
                → occurrences h m'.registry.slots ≡ 0 =
              λ h big_h at_h.
                let e : h ≡ x = payload-injective h x (at_h ∙ sym at) in
                ready'.0.registered h big_h (ap m'.magic e ∙ dead) in
            (
              m',
              release_lem fuel ptr x m run ∙ (rw real run'),
              release_other fuel ptr m' kids left ready'.0 none_left,
              inr (x, at, once, alive, (m', kids, left, refl, ready', done)),
            )
      ]
