-- ===== src/Registry/Table.antt =====
-- The invariant of the registry, what one write keeps of it, and where a probe for a header ends.
use mathlib.Core.Bool.{false≢true}
use ycpl.Base.{
  ◌||◌, ℕ, ◌+◌, ◌-◌, ◌*◌, ◌≤◌, ◌<◌, ◌≡◌, sym, ◌∙◌, ◌≢◌, ◌⊎◌, inl, inr, Bool, true, false, some,
  List, arith, ◌==◌, Bool-cases, length, set, eq_of_==, get_or-set_self, get_or-set_ne, ltb,
  length-set,
}
use ycpl.Address.{Ptr, null}
use ycpl.Registry.{Registry, no_registry, slot_at, home, probe}
use ycpl.Registry.Probe.{IsCapacity, walk, home-lt, walk-lt, walk-zero, walk_onto, probe_lem}
use ycpl.Registry.Tally.{
  filled, live, occurrences, is_filled, is_live, is_it, tally-set, filled-lt, occurrences-pos,
  occurrences_at,
}

-- `header` is met before an empty slot when the table is probed from its home, at slot `i`.
abbrev pub Reached : ℕ → List Ptr → Ptr → ℕ → Type 0
Reached cap slots header i =
    (n : ℕ) × (walk cap (home header (cap - 1)) n ≡ i)
    × ((m : ℕ) → m < n → slot_at slots (walk cap (home header (cap - 1)) m) ≢ null)

-- Every header can be reached, and stands in one slot.
pub record IsPlaced (cap : ℕ) (slots : List Ptr) : Type 0 where
  pub reached : (i : ℕ) → i < cap → 1 < slot_at slots i → Reached cap slots (slot_at slots i) i
  pub once : (x : Ptr) → 1 < x → occurrences x slots ≤ 1

-- A table in use, with its two counters.
pub record IsTable (r : Registry) : Type 0 where
  pub capacity : IsCapacity r.cap
  pub width : length r.slots ≡ r.cap
  pub headers : r.count ≡ live r.slots
  pub in_use : r.used ≡ filled r.slots
  pub room : r.used * 3 < r.cap * 2
  pub placed : IsPlaced r.cap r.slots

-- The registry before its first use, or a table.
abbrev pub IsRegistry : Registry → Type 0
IsRegistry r = (r ≡ no_registry) ⊎ IsTable r

module _ {cap : ℕ} (slots : List Ptr) (width : length slots ≡ cap) (p v : ℕ)
    (inside : p < cap) where
  -- A write of something other than null leaves every occupied slot occupied.
  set-ne_null : v ≢ null → (i : ℕ) → slot_at slots i ≢ null → slot_at (set slots p v) i ≢ null
  set-ne_null nv i h = elim (Bool-cases (p == i)) [
    | inl e ↦ rw (← eq_of_== p i e) (rw (get_or-set_self slots p v null (omega arith)) nv)
    | inr e ↦ rw (get_or-set_ne slots p i v null (ground arith)) h
  ]

  set-Reached :
      v ≢ null
      → (header : Ptr) (i : ℕ) → Reached cap slots header i
      → Reached cap (set slots p v) header i
  set-Reached nv header i (n, e, before) =
      (n, e, λ m h. set-ne_null nv (walk cap (home header (cap - 1)) m) (before m h))

  occurrences-set :
      (x : Ptr)
      → occurrences x (set slots p v) + is_it x (slot_at slots p) ≡ occurrences x slots + is_it x v
  occurrences-set x = tally-set (is_it x) slots p v (omega arith)

  -- A write into an empty slot or over a tombstone, of a header that is new and can be reached there,
  -- or of a tombstone.
  pub set-IsPlaced :
      IsPlaced cap slots
      → v ≢ null
      → (1 < v → Reached cap slots v p × (occurrences v slots ≡ 0))
      → IsPlaced cap (set slots p v)
  set-IsPlaced placed nv new = record {
    reached = λ i lt big. elim (Bool-cases (p == i)) [
      | inl e ↦
          let here : slot_at (set slots p v) i ≡ v =
            rw (← eq_of_== p i e) (get_or-set_self slots p v null (omega arith)) in
          rw here (set-Reached nv v i (rw (eq_of_== p i e) at (new (rw here at big)).0))
      | inr e ↦
          let there : slot_at (set slots p v) i ≡ slot_at slots i =
            get_or-set_ne slots p i v null (ground arith) in
          rw there (set-Reached nv (slot_at slots i) i (placed.reached i lt (rw there at big)))
    ];
    once = λ x big. elim (Bool-cases (x == v)) [
      | inl e ↦
          let same : x ≡ v = eq_of_== x v e in
          let fresh : occurrences x slots ≡ 0 = rw same (new (rw same at big)).1 in
          ground (arith, occurrences-set x)
      | inr e ↦ ground (arith, occurrences-set x, placed.once x)
    ];
  }

-- A write with the counters adjusted by what it puts in place of what.
pub set-IsTable :
    (r : Registry)
    → IsTable r
    → (j v count used : ℕ) → j < r.cap
    → count + is_live (slot_at r.slots j) ≡ r.count + is_live v
    → used + is_filled (slot_at r.slots j) ≡ r.used + is_filled v
    → used * 3 < r.cap * 2
    → v ≢ null
    → (1 < v → Reached r.cap r.slots v j × (occurrences v r.slots ≡ 0))
    → IsTable (record r { slots = set r.slots j v; count = count; used = used })
set-IsTable r t j v count used lt headers in_use room nv new =
    let inside : j < length r.slots = omega (arith, t.width) in
    record {
      capacity = t.capacity;
      width = length-set r.slots j v ∙ t.width;
      headers = omega (arith, t.headers, tally-set is_live r.slots j v inside);
      in_use = omega (arith, t.in_use, tally-set is_filled r.slots j v inside);
      room = room;
      placed = set-IsPlaced r.slots t.width j v lt t.placed nv new;
    }

-- A table has an empty slot, so a probe from the home of any header finds one within a round.
pub empty_ahead :
    (r : Registry)
    → IsTable r
    → (start : ℕ) → start < r.cap
    → (n : ℕ) × (n < r.cap) × (slot_at r.slots (walk r.cap start n) ≡ null)
empty_ahead r t start lt =
    let (i, below, e) = filled-lt r.slots (omega (arith, t.in_use, t.width, t.room)) in
    let (n, within, onto) = walk_onto t.capacity start i lt (omega (arith, t.width)) in
    (n, within, rw onto e)

abbrev pub null_or : Ptr → Ptr → Bool
null_or header p = p == null || p == header

pub null_or_cases : (header p : Ptr) → null_or header p ≡ true → (p ≡ null) ⊎ (p ≡ header)
null_or_cases header p h = elim (Bool-cases (p == null)) [
  | inl e ↦ inl (eq_of_== p null e)
  | inr e ↦ inr (ground arith)
]

-- Where a probe for `header` ends: at its slot, or, if it is not in the table, at an empty slot.
abbrev pub EndsAt : Registry → Ptr → ℕ → Type 0
EndsAt r header j =
    (j < r.cap)
    × (((slot_at r.slots j ≡ header) × (occurrences header r.slots ≡ 1))
        ⊎ ((slot_at r.slots j ≡ null) × (occurrences header r.slots ≡ 0)))

-- Where the probes for a header start.
abbrev pub origin : Registry → Ptr → ℕ
origin r header = home header (r.cap - 1)

module _ (r : Registry) (t : IsTable r) (header : Ptr) (big : 1 < header) (stop : Ptr → Bool)
    (stops_null : stop null ≡ true) (stops_header : stop header ≡ true)
    (stops : (i : ℕ)
      → stop (slot_at r.slots i) ≡ true
      → (slot_at r.slots i ≡ null) ⊎ (slot_at r.slots i ≡ header)) where
  -- A probe that has stopped at null has not passed the header, so the header is not there.
  pub absent :
      (j : ℕ)
      → slot_at r.slots (walk r.cap (origin r header) j) ≡ null
      → ((i : ℕ) → 0 ≤ i → i < j → stop (slot_at r.slots (walk r.cap (origin r header) i)) ≡ false)
      → ¬ (0 < occurrences header r.slots)
  absent j empty before h =
      let (i, below, it) = occurrences_at header r.slots h in
      let (n, onto, full) = rw it at (t.placed.reached i (omega (arith, t.width)) (rw it big)) in
      let there : slot_at r.slots (walk r.cap (origin r header) n) ≡ header = rw onto it in
      elim (Bool-cases (ltb n j)) [
        | inl past ↦
            false≢true (sym (before n (omega arith) (ground arith)) ∙ rw there stops_header)
        | inr ahead ↦ elim (Bool-cases (n == j)) [
          | inl same ↦
              let e : n ≡ j = eq_of_== n j same in
              let null_header : null ≡ header = sym empty ∙ rw (← e) there in absurd (omega arith)
          | inr other ↦ full j (ground arith) empty
        ]
      ]

  -- A probe that stops at the header and at null, and at nothing else in the table.
  pub probe-EndsAt :
      (j : ℕ) × (probe stop r.cap r.slots (r.cap - 1) (home header (r.cap - 1)) ≡ some j)
      × EndsAt r header j
  probe-EndsAt =
      let c = t.capacity in
      let (m, within, e) = empty_ahead r t (origin r header) (home-lt c header) in
      let (j, run, _, le, here, before) =
        probe_lem c r.slots (origin r header) stop r.cap 0 m (omega arith) (omega arith)
          (rw e stops_null) in
      let slot = walk r.cap (origin r header) j in
      let inside : slot < r.cap = walk-lt c (origin r header) j in
      (
        slot,
        rw (walk-zero c (origin r header) (home-lt c header)) at run,
        (
          inside,
          elim (stops slot here) [
            | inl empty ↦ inr (empty, omega (arith, absent j empty before))
            | inr it ↦
                let some_there : 0 < occurrences header r.slots =
                  rw it at (occurrences-pos r.slots slot (omega (arith, t.width))) in
                inl (it, omega (arith, t.placed.once header big))
          ],
        ),
      )
