-- ===== src/Registry/Resize.antt =====
-- `yc_registry_resize`, `yc_registry_ensure` and the whole of `yc_registry_insert` over the invariant.
use native.Mathlib.Nat.{pow-suc}
use ycpl.Base.{
  ℕ, suc, ◌+◌, ◌*◌, ◌^◌, ◌%◌, ◌≤◌, ◌<◌, ◌≡◌, refl, sym, ap, ◌∙◌, ◌⊎◌, inl, inr, true, false, ◌||◌,
  some, List, [], ◌∷◌, arith, ◌==◌, leb, Bool-cases, replicate, if◌then◌else◌, eq_of_==,
  length-replicate, get_or-replicate, ◌>>=◌,
}
use ycpl.Address.{Ptr, null, tombstone, word}
use ycpl.Registry.{
  Registry, no_registry, slot_at, is_null, rehash_slot, rehash, Calloc, resize, ensure, insert,
}
use ycpl.Registry.Probe.{IsCapacity, walk, cap-pos, home-lt, walk-lt, walk-zero, probe_lem}
use ycpl.Registry.Tally.{
  tally, live, occurrences, is_it, is_live, is_filled, tally-set, tally-replicate, live-le-filled,
}
use ycpl.Registry.Table.{IsTable, IsRegistry, empty_ahead, set-IsTable, origin}
use ycpl.Registry.Insert.{Inserted, insert_into-Inserted}

-- The table `r` with the headers of `old` entered.
abbrev Joined : List Ptr → Registry → Registry → Type 0
Joined old r r' =
    IsTable r'
    × (r'.cap ≡ r.cap)
    × (r'.used ≡ r.used + live old)
    × (r'.count ≡ r.count + live old)
    × ((x : Ptr) → 1 < x → occurrences x r'.slots ≡ occurrences x old + occurrences x r.slots)

-- An old slot is skipped, or its header is put in the first empty slot from its home.
rehash_slot-Joined :
    (r : Registry) (header : Ptr)
    → IsTable r
    → (r.used + is_live header) * 3 < r.cap * 2
    → ((x : Ptr) → 1 < x → is_it x header + occurrences x r.slots ≤ 1)
    → (r' : Registry) × (rehash_slot header r ≡ some r') × Joined (header ∷ []) r r'
unfolding rehash_slot tally
rehash_slot-Joined r header t room new = elim (Bool-cases (header == null || header == tombstone)) [
  | inl skip ↦ (r, rw skip, (t, refl, ground arith, ground arith, λ x big. ground arith))
  | inr take ↦
      let big : 1 < header = ground arith in
      let c = t.capacity in
      let (m, within, e) = empty_ahead r t (origin r header) (home-lt c header) in
      let (j, run, _, le, here, before) =
        probe_lem c r.slots (origin r header) is_null r.cap 0 m (omega arith) (omega arith)
          (rw e refl) in
      let run' = rw (walk-zero c (origin r header) (home-lt c header)) at run in
      let slot = walk r.cap (origin r header) j in
      let empty : slot_at r.slots slot ≡ null = eq_of_== _ null here in
      let inside = walk-lt c (origin r header) j in
      let tallied = λ (x : Ptr). tally-set (is_it x) r.slots slot header (omega (arith, t.width)) in
      (
        _,
        rw (take, run', ◌>>=◌) refl,
        (
          set-IsTable r t slot header (r.count + 1) (r.used + 1) inside (ground arith)
              (ground arith) (ground arith) (omega arith)
              (λ _. (
                (j, refl, λ i lt. ground (arith, before i (omega arith) lt)),
                ground (arith, new header),
              )),
          refl,
          ground arith,
          ground arith,
          λ x bx. ground (arith, tallied x),
        ),
      )
]

rehash-Joined :
    (old : List Ptr) (r : Registry)
    → IsTable r
    → (r.used + live old) * 3 < r.cap * 2
    → ((x : Ptr) → 1 < x → occurrences x old + occurrences x r.slots ≤ 1)
    → (r' : Registry) × (rehash old r ≡ some r') × Joined old r r'
unfolding rehash tally
rehash-Joined [] r t room new = (r, refl, (t, refl, omega arith, omega arith, λ x big. omega arith))
rehash-Joined (header ∷ old) r t room new =
    let (r₁, run₁, (t₁, cap₁, used₁, count₁, occ₁)) =
      rehash_slot-Joined r header t (omega arith) (λ x big. omega (arith, new x big)) in
    let (r₂, run₂, (t₂, cap₂, used₂, count₂, occ₂)) =
      rehash-Joined old r₁ t₁ (rw (used₁, cap₁) (omega arith))
        (λ x big. omega (arith, new x big, occ₁ x big)) in
    (
      r₂,
      rw (run₁, ◌>>=◌) run₂,
      (t₂, cap₂ ∙ cap₁, omega arith, omega arith, λ x big. omega (arith, occ₁ x big, occ₂ x big)),
    )

-- `calloc` gives no block whose size is past the address space.
abbrev pub Honest : Calloc → Type 0
Honest calloc = (count size : ℕ) → calloc count size ≡ true → count * size < word

fresh-IsTable :
    (n : ℕ)
    → IsCapacity n
    → IsTable (record { slots = replicate n null; cap = n; count = 0; used = 0 })
fresh-IsTable n c = record {
  capacity = c;
  width = length-replicate n null;
  headers = sym (tally-replicate is_live n refl);
  in_use = sym (tally-replicate is_filled n refl);
  room = omega (arith, cap-pos c);
  placed = record {
    reached = λ i lt big. absurd (omega (arith, get_or-replicate n i null));
    once = λ x big. omega (arith, tally-replicate (is_it x) n (ground arith));
  };
}

-- The same headers in a larger table without tombstones.
abbrev pub Grown : ℕ → Registry → Registry → Type 0
Grown n r r' =
    IsTable r'
    × (r'.cap ≡ n)
    × (r'.used ≡ live r.slots)
    × (r'.count ≡ live r.slots)
    × ((x : Ptr) → 1 < x → occurrences x r'.slots ≡ occurrences x r.slots)

-- `yc_registry_resize` with memory for the new table ends, and keeps every header.
pub resize-Grown :
    (calloc : Calloc) (n : ℕ) (r : Registry)
    → IsCapacity n
    → calloc n 8 ≡ true
    → live r.slots * 3 < n * 2
    → ((x : Ptr) → 1 < x → occurrences x r.slots ≤ 1)
    → (r' : Registry) × (resize calloc n r ≡ some (true, r')) × Grown n r r'
unfolding resize
resize-Grown calloc n r c memory room once =
    let none_yet = λ (x : Ptr) (b : 1 < x). tally-replicate (is_it x) n (ground arith) in
    let (r', run, (t, cap, used, count, occ)) =
      rehash-Joined r.slots _ (fresh-IsTable n c) (omega arith)
        (λ x b. omega (arith, once x b, none_yet x b)) in
    (
      r',
      rw (memory, run, ◌>>=◌) refl,
      (t, cap, omega arith, omega arith, λ x b. omega (arith, occ x b, none_yet x b)),
    )

-- The capacity that `yc_registry_ensure` asks memory for, if it does.
abbrev pub wanted : Registry → ℕ
wanted r = if r.cap == 0 then 1024 else r.cap * 2 % word

-- A table with room for one more header, and the same headers as before.
abbrev pub Roomy : Registry → Registry → Type 0
Roomy r r' =
    IsTable r'
    × ((r'.used + 1) * 3 < r'.cap * 2)
    × (r'.count ≡ r.count)
    × ((x : Ptr) → 1 < x → occurrences x r'.slots ≡ occurrences x r.slots)

resize_cases :
    (calloc : Calloc) (r : Registry) (n k : ℕ)
    → Honest calloc
    → n ≡ 2 ^ k
    → live r.slots * 3 < n * 2
    → ((x : Ptr) → 1 < x → occurrences x r.slots ≤ 1)
    → ((r' : Registry) × (resize calloc n r ≡ some (true, r')) × Grown n r r')
      ⊎ ((resize calloc n r ≡ some (false, r)) × (calloc n 8 ≡ false))
resize_cases calloc r n k honest e room once = elim (Bool-cases (calloc n 8)) [
  | inl memory ↦
      let c : IsCapacity n = record {
        exponent = k;
        power = e;
        small = omega (arith, honest n 8 memory);
      } in
      inl (resize-Grown calloc n r c memory room once)
  | inr failed ↦ inr (unfold resize in rw failed, failed)
]

-- A table that grows to twice its capacity, or is left alone where it has room.
ensure_table :
    (calloc : Calloc) (r : Registry)
    → IsTable r
    → Honest calloc
    → ((r' : Registry) × (ensure calloc r ≡ some (true, r')) × Roomy r r')
      ⊎ ((ensure calloc r ≡ some (false, r)) × (calloc (wanted r) 8 ≡ false))
unfolding ensure
ensure_table calloc r t honest =
    let c = t.capacity in
    let in_use : (r.cap == 0) ≡ false = ground (arith, cap-pos c) in
    let double : r.cap * 2 % word ≡ r.cap * 2 = omega (arith, c.small) in
    let triple : (r.used + 1) * 3 % word ≡ (r.used + 1) * 3 = omega (arith, c.small, t.room) in
    elim (Bool-cases (leb (r.cap * 2) ((r.used + 1) * 3))) [
      | inl full ↦
          elim (resize_cases calloc r (r.cap * 2) (suc c.exponent) honest
            (rw pow-suc (ap (λ x. x * 2) c.power))
            (omega (arith, t.in_use, t.room, live-le-filled r.slots, cap-pos c)) t.placed.once) [
              | inl (r', run, (t', cap, used, count, occ)) ↦ inl (
                r',
                rw (in_use, double, triple, full) run,
                (
                  t',
                  rw (used, cap)
                      (omega (arith, t.in_use, t.room, live-le-filled r.slots, cap-pos c)),
                  count ∙ sym t.headers,
                  occ,
                ),
              )
              | inr (run, failed) ↦
                  inr (rw (in_use, double, triple, full) run, rw (in_use, double) failed)
            ]
      | inr roomy ↦
          inl (r, rw (in_use, double, triple, roomy) refl, (t, ground arith, refl, λ x b. refl))
    ]

-- `yc_registry_ensure` makes room for one more header, or reports that there is no memory.
pub ensure-Roomy :
    (calloc : Calloc) (r : Registry)
    → IsRegistry r
    → Honest calloc
    → ((r' : Registry) × (ensure calloc r ≡ some (true, r')) × Roomy r r')
      ⊎ ((ensure calloc r ≡ some (false, r)) × (calloc (wanted r) 8 ≡ false))
unfolding ensure tally
ensure-Roomy calloc r (inr t) honest = ensure_table calloc r t honest
ensure-Roomy calloc r (inl e) honest =
    rw e
      (elim (resize_cases calloc no_registry 1024 10 honest refl (omega arith)
        (λ x b. omega arith)) [
          | inl (r', run, (t', cap, used, count, occ)) ↦
              inl (r', run, (t', rw (used, cap) (omega arith), count, occ))
          | inr (run, failed) ↦ inr (run, failed)
        ])

-- `yc_registry_insert` ends on every registry: it enters the header and nothing else, or, where
-- there is no memory for a larger table, leaves the registry as it is.
pub insert-Inserted :
    (calloc : Calloc) (r : Registry) (header : Ptr)
    → IsRegistry r
    → Honest calloc
    → 1 < header
    → ((r' : Registry) × (insert calloc header r ≡ some r') × Inserted header r r')
      ⊎ ((insert calloc header r ≡ some r) × (calloc (wanted r) 8 ≡ false))
unfolding insert
insert-Inserted calloc r header is honest big = elim (ensure-Roomy calloc r is honest) [
  | inr (run, failed) ↦ inr (rw (run, ◌>>=◌) refl, failed)
  | inl (r₁, run₁, (t₁, room, count, occ)) ↦
      let (r₂, run₂, (t₂, occ₂, count₂)) = insert_into-Inserted r₁ header t₁ room big in
      inl (
        r₂,
        rw (run₁, ◌>>=◌) run₂,
        (
          t₂,
          λ x b. occ₂ x b ∙ ap (λ n. if x == header then 1 else n) (occ x b),
          omega (arith, occ header big),
        ),
      )
]
