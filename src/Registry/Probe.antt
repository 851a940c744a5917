-- ===== src/Registry/Probe.antt =====
-- Linear probing as a walk round the table, and where the loops of the registry stop.
use Prim.Native.Nat.{bit_and}
use mathlib.Core.Bool.{false≢true}
use native.Mathlib.Nat.{mod-eq_of_lt, mod-add-mod, mod-lt}
use ycpl.Base.{
  ℕ, zero, suc, ◌+◌, ◌-◌, ◌%◌, ◌^◌, ◌≤◌, ◌<◌, ◌≡◌, refl, ap, sym, ◌∙◌, ◌≢◌, ◌⊎◌, inl, inr, Bool,
  true, false, some, List, arith, ◌==◌, Bool-cases, ◌&&◌, not, if◌then◌else◌, eq_of_==,
}
use ycpl.Base.Bits.{pow-pos, bit_and-mask}
use ycpl.Address.{Ptr, null, tombstone, word, payload, ptr_hash}
use ycpl.Registry.{slot_at, home, next_slot, no_slot, probe, Found, present, vacant, insert_loop}

-- The capacity is a power of two, small enough for the arithmetic on it not to wrap.
pub record IsCapacity (cap : ℕ) : Type 0 where
  pub exponent : ℕ
  pub power : cap ≡ 2 ^ exponent
  pub small : cap < 2 ^ 61

-- The slot after `n` steps from `start`.
unfoldable pub walk : ℕ → ℕ → ℕ → ℕ
walk cap start n = (start + n) % cap

module _ {cap : ℕ} (c : IsCapacity cap) where
  pub cap-pos : 0 < cap
  cap-pos = omega (arith, c.power, pow-pos c.exponent)

  mask_lem : (x : ℕ) → next_slot (cap - 1) x ≡ (x + 1) % word % cap
  mask_lem x = rw c.power (bit_and-mask c.exponent ((x + 1) % word))

  pub masked-lt : (x : ℕ) → bit_and x (cap - 1) < cap
  masked-lt x =
      let e : bit_and x (cap - 1) ≡ x % cap = rw c.power (bit_and-mask c.exponent x) in
      rw e (mod-lt x cap-pos)

  pub home-lt : (header : Ptr) → home header (cap - 1) < cap
  home-lt header = masked-lt (ptr_hash (payload header))

  pub walk-lt : (start n : ℕ) → walk cap start n < cap
  unfolding walk
  walk-lt start n = mod-lt (start + n) cap-pos

  pub walk-zero : (start : ℕ) → start < cap → walk cap start 0 ≡ start
  unfolding walk
  walk-zero start h = let e : start + 0 ≡ start = omega arith in rw e (mod-eq_of_lt h)

  pub next_slot-walk :
      (start n : ℕ) → next_slot (cap - 1) (walk cap start n) ≡ walk cap start (suc n)
  next_slot-walk start n =
      let w = walk cap start n in
      let small : (w + 1) % word ≡ w + 1 = mod-eq_of_lt (omega (arith, walk-lt start n, c.small)) in
      let e : start + n + 1 ≡ start + suc n = omega arith in
      mask_lem w
      ∙ ap (λ t. t % cap) small
      ∙ unfold walk in (mod-add-mod (start + n) cap 1 ∙ ap (λ t. t % cap) e)

  -- The walk passes every slot within one round.
  pub walk_onto :
      (start i : ℕ) → start < cap → i < cap → (n : ℕ) × (n < cap) × (walk cap start n ≡ i)
  unfolding walk
  walk_onto start i hs hi = ((i + cap - start) % cap, mod-lt _ cap-pos, grind arith)

module _ {cap : ℕ} (c : IsCapacity cap) (slots : List Ptr) (start : ℕ) where
  -- The slot's content after `n` steps.
  abbrev pub seen : ℕ → Ptr
  seen n = slot_at slots (walk cap start n)

  -- Where some slot ahead stops the probe, it stops at the first such slot.
  pub probe_lem :
      (stop : Ptr → Bool) (fuel n m : ℕ)
      → n ≤ m
      → m < n + fuel
      → stop (seen m) ≡ true
      → (j : ℕ) × (probe stop fuel slots (cap - 1) (walk cap start n) ≡ some (walk cap start j))
        × (n ≤ j)
        × (j ≤ m)
        × (stop (seen j) ≡ true)
        × ((i : ℕ) → n ≤ i → i < j → stop (seen i) ≡ false)
  unfolding probe
  probe_lem stop zero n m le lt h = absurd (omega arith)
  probe_lem stop (suc fuel) n m le lt h = elim (Bool-cases (stop (seen n))) [
    | inl here ↦ (n, rw here, omega arith, le, here, λ i a b. absurd (omega arith))
    | inr on ↦
        let ne : n ≢ m = λ e. false≢true (sym on ∙ rw e h) in
        let (j, run, from, to, at, before) =
          probe_lem stop fuel (suc n) m (omega arith) (omega arith) h in
        (
          j,
          rw (on, next_slot-walk c start n) run,
          omega arith,
          to,
          at,
          λ i a b. elim (Bool-cases (i == n)) [
            | inl e ↦ rw (eq_of_== i n e) on
            | inr e ↦ before i (ground arith) b
          ],
        )
  ]

  -- What `first_tombstone` holds after `n` steps.
  abbrev pub Noted : ℕ → ℕ → Type 0
  Noted n t = (t ≡ no_slot) ⊎ ((i : ℕ) × (i < n) × (t ≡ walk cap start i) × (seen i ≡ tombstone))

  -- How the loop of `yc_registry_insert` ends.
  abbrev pub Ends : Ptr → ℕ → Found → Type 0
  Ends header n present = (i : ℕ) × (seen i ≡ header)
  Ends header n (vacant slot t) =
      (j : ℕ) × (slot ≡ walk cap start j)
      × (seen j ≡ null)
      × Noted j t
      × ((i : ℕ) → n ≤ i → i < j → (seen i ≢ null) × (seen i ≢ header))

  Noted-widen : (n t : ℕ) → Noted n t → Noted (suc n) t
  Noted-widen n t (inl e) = inl e
  Noted-widen n t (inr (i, lt, e, at)) = inr (i, omega arith, e, at)

  Noted-step :
      (n t : ℕ)
      → Noted n t
      → Noted (suc n) (if seen n == tombstone && t == no_slot then walk cap start n else t)
  Noted-step n t k = elim (Bool-cases (seen n == tombstone && t == no_slot)) [
    | inl both ↦ rw both (inr (n, omega arith, refl, ground arith))
    | inr other ↦ rw other (Noted-widen n t k)
  ]

  -- A step over a slot that is neither empty nor the header's.
  Ends-step :
      (header : Ptr) (n : ℕ) (found : Found)
      → seen n ≢ null
      → seen n ≢ header
      → Ends header (suc n) found
      → Ends header n found
  Ends-step header n present a b h = h
  Ends-step header n (vacant slot t) a b (j, e, at, noted, before) = (
    j,
    e,
    at,
    noted,
    λ i le lt. elim (Bool-cases (i == n)) [
      | inl same ↦ rw (eq_of_== i n same) (a, b)
      | inr more ↦ before i (ground arith) lt
    ],
  )

  -- A slot that is neither empty nor the header's sends the loop on.
  insert_loop_on :
      (header : Ptr) (fuel n t : ℕ)
      → (seen n == null) ≡ false
      → (not (seen n == tombstone) && seen n == header) ≡ false
      → insert_loop (suc fuel) slots (cap - 1) header (walk cap start n) t
        ≡ insert_loop fuel slots
            (cap - 1)
            header
            (walk cap start (suc n))
            (if seen n == tombstone && t == no_slot then walk cap start n else t)
  unfolding insert_loop
  insert_loop_on header fuel n t full other = rw (full, next_slot-walk c start n) (ground arith)

  -- With an empty slot ahead the loop ends: at the header, or at the first empty slot with the
  -- first tombstone on the way.
  pub insert_loop_lem :
      (header : Ptr) (fuel n m t : ℕ)
      → 1 < header
      → n ≤ m
      → m < n + fuel
      → seen m ≡ null
      → Noted n t
      → (found : Found) × (insert_loop fuel slots (cap - 1) header (walk cap start n) t
          ≡ some found)
        × Ends header n found
  unfolding insert_loop
  insert_loop_lem header zero n m t big le lt h k = absurd (omega arith)
  insert_loop_lem header (suc fuel) n m t big le lt h k = elim (Bool-cases (seen n == null)) [
    | inl empty ↦ (
      vacant (walk cap start n) t,
      rw empty,
      (n, refl, eq_of_== _ _ empty, k, λ i a b. absurd (omega arith)),
    )
    | inr full ↦ elim (Bool-cases (not (seen n == tombstone) && seen n == header)) [
      | inl it ↦ (present, ground arith, (n, ground arith))
      | inr other ↦
          let ne : n ≢ m = λ e. false≢true (sym full ∙ rw (e, h) refl) in
          let (found, run, ends) =
            insert_loop_lem header fuel (suc n) m _ big (omega arith) (omega arith) h
              (Noted-step n t k) in
          (
            found,
            insert_loop_on header fuel n t full other ∙ run,
            Ends-step header n found (ground arith) (ground arith) ends,
          )
    ]
  ]
