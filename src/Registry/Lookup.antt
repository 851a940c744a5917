-- ===== src/Registry/Lookup.antt =====
-- `yc_header_from_ptr` over the invariant.
use Prim.Native.Nat.{bit_and}
use ycpl.Base.{
  ℕ, ◌-◌, ◌<◌, ◌≡◌, refl, ap, ◌≢◌, ◌⊎◌, inl, inr, Bool, true, false, ◌||◌, ◌&&◌, some, arith, ◌==◌,
  ltb, Bool-cases, length, eq_of_==, ◌>>=◌,
}
use ycpl.Address.{Ptr, null, header_size, payload, payload-injective, ptr_hash}
use ycpl.Registry.{Registry, slot_at, is_header_of, header_from_ptr}
use ycpl.Registry.Probe.{cap-pos, masked-lt, walk, walk-lt, walk-zero, probe_lem}
use ycpl.Registry.Tally.{tally, occurrences, occurrences-pos}
use ycpl.Registry.Table.{IsTable, IsRegistry, empty_ahead, probe-EndsAt}

-- The headers of the registry are marked by `YC_ALLOC_MAGIC`.
abbrev pub Marked : (Ptr → Bool) → Registry → Type 0
Marked has_magic r = (x : Ptr) → 1 < x → 0 < occurrences x r.slots → has_magic x ≡ true

-- `x` is the one header whose memory starts at `ptr`, or null if there is none.
abbrev pub Names : Registry → Ptr → Ptr → Type 0
Names r ptr x =
    ((x ≡ null) × ((h : Ptr) → 1 < h → payload h ≡ ptr → occurrences h r.slots ≡ 0))
    ⊎ ((1 < x) × (payload x ≡ ptr) × (occurrences x r.slots ≡ 1))

module _ (has_magic : Ptr → Bool) (r : Registry) (t : IsTable r) (marked : Marked has_magic r) where
  in_table : (ptr : Ptr) → ptr ≢ null → (ptr == null || length r.slots == 0) ≡ false
  in_table ptr h = ground (arith, t.width, cap-pos t.capacity)

  abbrev stop : Ptr → Ptr → Bool
  stop ptr p = p == null || is_header_of has_magic ptr p

  stop_cases : (h p : Ptr) → stop (payload h) p ≡ true → (p ≡ null) ⊎ (p ≡ h)
  stop_cases h p s = elim (Bool-cases (p == null)) [
    | inl e ↦ inl (eq_of_== p null e)
    | inr e ↦ inr (payload-injective p h (ground arith))
  ]

  stopped :
      (ptr : Ptr) (i : ℕ)
      → i < r.cap
      → ((h : Ptr) → 1 < h → payload h ≡ ptr → occurrences h r.slots ≡ 0)
      → stop ptr (slot_at r.slots i) ≡ true
      → slot_at r.slots i ≡ null
  stopped ptr i lt none_there s = elim (Bool-cases (slot_at r.slots i == null)) [
    | inl e ↦ eq_of_== _ null e
    | inr e ↦
        let gone = none_there (slot_at r.slots i) (ground arith) (ground arith) in
        absurd (omega (arith, occurrences-pos r.slots i (omega (arith, t.width))))
  ]

  -- A registered header is recognised by its memory's address.
  lookup_registered :
      (h : Ptr)
      → 1 < h
      → occurrences h r.slots ≡ 1
      → header_from_ptr has_magic (payload h) r ≡ some h
  unfolding header_from_ptr
  lookup_registered h big one =
      let magic : has_magic h ≡ true = marked h big (omega arith) in
      let (j, run, (lt, ends)) =
        probe-EndsAt r t h big (stop (payload h)) refl (ground arith)
          (λ i. stop_cases h (slot_at r.slots i)) in
      let not_null : payload h ≢ null = unfold payload in omega arith in
      elim ends [
        | inl (it, _) ↦ rw (in_table (payload h) not_null, run, ◌>>=◌) (ap some it)
        | inr (_, gone) ↦ absurd (omega arith)
      ]

  -- A pointer that is the memory of no registered header.
  lookup_other :
      (ptr : Ptr)
      → ptr ≢ null
      → ((h : Ptr) → 1 < h → payload h ≡ ptr → occurrences h r.slots ≡ 0)
      → header_from_ptr has_magic ptr r ≡ some null
  unfolding header_from_ptr
  lookup_other ptr ne none_there =
      let c = t.capacity in
      let start = bit_and (ptr_hash ptr) (r.cap - 1) in
      let (m, within, e) = empty_ahead r t start (masked-lt c (ptr_hash ptr)) in
      let (j, run, _, le, here, before) =
        probe_lem c r.slots start (stop ptr) r.cap 0 m (omega arith) (omega arith) (rw e refl) in
      let found : slot_at r.slots (walk r.cap start j) ≡ null =
        stopped ptr (walk r.cap start j) (walk-lt c start j) none_there here in
      rw (in_table ptr ne, rw (walk-zero c start (masked-lt c (ptr_hash ptr))) at run, ◌>>=◌)
        (ap some found)

  unregistered :
      (ptr x : Ptr)
      → 1 < x
      → payload x ≡ ptr
      → (ltb 1 (ptr - header_size)
          && payload (ptr - header_size) == ptr
          && occurrences (ptr - header_size) r.slots == 1)
        ≡ false
      → occurrences x r.slots ≡ 0
  unfolding payload
  unregistered ptr x big e miss =
      let same : ptr - header_size ≡ x = omega arith in
      let miss' : (ltb 1 x && payload x == ptr && occurrences x r.slots == 1) ≡ false =
        rw same at miss in
      ground (arith, t.placed.once x)

  Names-table : (ptr : Ptr) → (x : Ptr) × (header_from_ptr has_magic ptr r ≡ some x) × Names r ptr x
  Names-table ptr =
      let h = ptr - header_size in
      elim (Bool-cases (ltb 1 h && payload h == ptr && occurrences h r.slots == 1)) [
        | inl hit ↦
            let e : payload h ≡ ptr = ground arith in
            (
              h,
              rw e at (lookup_registered h (ground arith) (ground arith)),
              inr (ground arith, e, ground arith),
            )
        | inr miss ↦
            let none_there : (x : Ptr) → 1 < x → payload x ≡ ptr → occurrences x r.slots ≡ 0 =
              λ x big at. unregistered ptr x big at miss in
            elim (Bool-cases (ptr == null)) [
              | inl e ↦ (null, unfold header_from_ptr in rw e, inl (refl, none_there))
              | inr ne ↦ (null, lookup_other ptr (ground arith) none_there, inl (refl, none_there))
            ]
      ]

-- `yc_header_from_ptr` ends for every pointer, and finds the header of the memory that starts there
-- exactly when it is registered.
pub header_from_ptr-Names :
    (has_magic : Ptr → Bool) (r : Registry) (ptr : Ptr)
    → IsRegistry r
    → Marked has_magic r
    → (x : Ptr) × (header_from_ptr has_magic ptr r ≡ some x) × Names r ptr x
unfolding header_from_ptr tally
header_from_ptr-Names has_magic r ptr (inl e) marked =
    (null, rw e (ground arith), inl (refl, λ h a b. rw e refl))
header_from_ptr-Names has_magic r ptr (inr t) marked = Names-table has_magic r t marked ptr
