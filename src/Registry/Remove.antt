-- ===== src/Registry/Remove.antt =====
-- `yc_registry_remove` over the invariant.
use ycpl.Base.{
  ℕ, ◌+◌, ◌-◌, ◌<◌, ◌≡◌, refl, inl, inr, true, false, ◌||◌, some, arith, ◌==◌, length, set,
  if◌then◌else◌, ◌>>=◌,
}
use ycpl.Address.{Ptr, null, tombstone}
use ycpl.Registry.{Registry, no_registry, slot_at, remove}
use ycpl.Registry.Probe.{cap-pos}
use ycpl.Registry.Tally.{live, tally, occurrences, is_it, tally-set, live-pos}
use ycpl.Registry.Table.{IsTable, IsRegistry, null_or, null_or_cases, probe-EndsAt, set-IsTable}

-- The occurrences of the headers are those before, without `header`.
abbrev pub Without : Ptr → Registry → Registry → Type 0
Without header r r' =
    (x : Ptr) → 1 < x → occurrences x r'.slots ≡ (if x == header then 0 else occurrences x r.slots)

abbrev pub Removed : Ptr → Registry → Registry → Type 0
Removed header r r' =
    IsRegistry r'
    × Without header r r'
    × (r'.count + occurrences header r.slots ≡ r.count)
    × (r'.used ≡ r.used)
    × (r'.cap ≡ r.cap)

module _ (r : Registry) (t : IsTable r) (header : Ptr) (big : 1 < header) where
  vacated-Removed :
      (j : ℕ)
      → j < r.cap
      → slot_at r.slots j ≡ header
      → occurrences header r.slots ≡ 1
      → Removed header r (record r { slots = set r.slots j tombstone; count = r.count - 1 })
  vacated-Removed j lt it one =
      let inside : j < length r.slots = omega (arith, t.width) in
      let some_live : 0 < live r.slots = live-pos r.slots j inside (rw it big) in
      (
        inr (
            set-IsTable r t j tombstone (r.count - 1) r.used lt (ground (arith, t.headers))
              (ground arith) t.room (omega arith) (λ h. absurd (omega arith))),
        λ x bx. ground (arith, tally-set (is_it x) r.slots j tombstone inside),
        omega (arith, t.headers),
        refl,
        refl,
      )

  -- `yc_registry_remove` on a table ends, and takes out the header and nothing else.
  pub remove_table : (r' : Registry) × (remove header r ≡ some r') × Removed header r r'
  unfolding remove
  remove_table =
      let (j, run, (lt, ends)) =
        probe-EndsAt r t header big (null_or header) refl (ground arith)
          (λ i. null_or_cases header (slot_at r.slots i)) in
      let in_table : (length r.slots == 0 || header == null) ≡ false =
        ground (arith, t.width, cap-pos t.capacity) in
      elim ends [
        | inl (it, one) ↦
            let hit : (slot_at r.slots j == header) ≡ true = ground arith in
            (_, rw (in_table, run, ◌>>=◌, hit) refl, vacated-Removed j lt it one)
        | inr (empty, none_there) ↦
            let miss : (slot_at r.slots j == header) ≡ false = ground arith in
            (
              r,
              rw (in_table, run, ◌>>=◌, miss) refl,
              (inr t, λ x bx. ground arith, omega arith, refl, refl),
            )
      ]

-- `yc_registry_remove` ends on every registry, and takes out the header and nothing else.
pub remove-Removed :
    (r : Registry) (header : Ptr)
    → IsRegistry r
    → 1 < header
    → (r' : Registry) × (remove header r ≡ some r') × Removed header r r'
unfolding remove tally
remove-Removed r header (inr t) big = remove_table r t header big
remove-Removed r header (inl e) big =
    rw e (no_registry, refl, (inl refl, λ x b. ground arith, refl, refl, refl))
