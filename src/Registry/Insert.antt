-- ===== src/Registry/Insert.antt =====
-- `yc_registry_insert` over the invariant, where the table has room.
use ycpl.Base.{
  ℕ, ◌+◌, ◌*◌, ◌≤◌, ◌<◌, ◌≡◌, refl, ◌≢◌, inl, inr, false, some, arith, ◌==◌, set, if◌then◌else◌,
  ◌>>=◌,
}
use ycpl.Address.{Ptr, null}
use ycpl.Registry.{Registry, slot_at, no_slot, Found, present, vacant, place, insert_into}
use ycpl.Registry.Probe.{walk, home-lt, walk-lt, walk-zero, Ends, insert_loop_lem}
use ycpl.Registry.Tally.{occurrences, is_it, is_live, is_filled, occurrences-pos, tally-set}
use ycpl.Registry.Table.{
  IsTable, Reached, empty_ahead, absent, null_or, null_or_cases, set-IsTable, origin,
}

-- The headers are those before, with `header`, and the counter says so.
abbrev pub Inserted : Ptr → Registry → Registry → Type 0
Inserted header r r' =
    IsTable r'
    × ((x : Ptr)
        → 1 < x
        → occurrences x r'.slots ≡ (if x == header then 1 else occurrences x r.slots))
    × (r'.count + occurrences header r.slots ≡ r.count + 1)

module _ (r : Registry) (t : IsTable r) (room : (r.used + 1) * 3 < r.cap * 2) (header : Ptr)
    (big : 1 < header) where
  -- A write of the header into an empty slot or over a tombstone on its way.
  written :
      (j used : ℕ)
      → j < r.cap
      → slot_at r.slots j < 2
      → used + is_filled (slot_at r.slots j) ≡ r.used + 1
      → Reached r.cap r.slots header j
      → occurrences header r.slots ≡ 0
      → Inserted header r
          (record r { slots = set r.slots j header; count = r.count + 1; used = used })
  written j used lt free counted way new =
      let old = slot_at r.slots j in
      let not_live : is_live old ≡ 0 = ground arith in
      let roomy : used ≤ r.used + 1 = omega arith in
      let tallied = λ (x : Ptr). tally-set (is_it x) r.slots j header (omega (arith, t.width)) in
      (
        set-IsTable r t j header (r.count + 1) used lt (ground arith) (ground arith) (omega arith)
            (omega arith) (λ _. (way, new)),
        λ x bx. ground (arith, tallied x),
        omega arith,
      )

  -- The loop has met neither the header nor an empty slot before the empty slot `j`.
  unmet :
      (j : ℕ)
      → slot_at r.slots (walk r.cap (origin r header) j) ≡ null
      → ((i : ℕ)
          → 0 ≤ i
          → i < j
          → (slot_at r.slots (walk r.cap (origin r header) i) ≢ null)
            × (slot_at r.slots (walk r.cap (origin r header) i) ≢ header))
      → occurrences header r.slots ≡ 0
  unmet j empty before =
      let gone =
        absent r t header big (null_or header) refl (ground arith)
          (λ i. null_or_cases header (slot_at r.slots i)) j empty
          (λ i a b. ground (arith, before i a b)) in
      omega arith

  place-Inserted :
      (found : Found)
      → Ends t.capacity r.slots (origin r header) header 0 found
      → Inserted header r (place header r found)
  unfolding place
  place-Inserted present (i, it) =
      let inside = walk-lt t.capacity (origin r header) i in
      let there : 0 < occurrences header r.slots =
        rw it at
          (occurrences-pos r.slots (walk r.cap (origin r header) i) (omega (arith, t.width))) in
      (t, λ x bx. ground (arith, t.placed.once header big), omega (arith, t.placed.once header big))
  place-Inserted (vacant slot first) (j, e, empty, inl none_met, before) =
      rw (none_met, e)
        (written (walk r.cap (origin r header) j) (r.used + 1)
          (walk-lt t.capacity (origin r header) j) (ground arith) (ground arith)
          (j, refl, λ m h. (before m (omega arith) h).0) (unmet j empty before))
  place-Inserted (vacant slot first) (j, e, empty, inr (i, lt, e', at), before) =
      let small : (walk r.cap (origin r header) i == no_slot) ≡ false =
        ground (arith, walk-lt t.capacity (origin r header) i, t.capacity.small) in
      rw (e', small)
        (written (walk r.cap (origin r header) i) r.used (walk-lt t.capacity (origin r header) i)
          (ground arith) (ground arith) (i, refl, λ m h. (before m (omega arith) (omega arith)).0)
          (unmet j empty before))

-- With room for one more, the probe of `yc_registry_insert` ends and enters the header.
pub insert_into-Inserted :
    (r : Registry) (header : Ptr)
    → IsTable r
    → (r.used + 1) * 3 < r.cap * 2
    → 1 < header
    → (r' : Registry) × (insert_into header r ≡ some r') × Inserted header r r'
unfolding insert_into
insert_into-Inserted r header t room big =
    let c = t.capacity in
    let start = origin r header in
    let (m, within, e) = empty_ahead r t start (home-lt c header) in
    let (found, run, ends) =
      insert_loop_lem c r.slots start header r.cap 0 m no_slot big (omega arith) (omega arith) e
        (inl refl) in
    let run' = rw (walk-zero c start (home-lt c header)) at run in
    (place header r found, rw (run', ◌>>=◌), place-Inserted r t room header big found ends)
