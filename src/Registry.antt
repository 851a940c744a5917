-- ===== src/Registry.antt =====
-- The registry of live allocations (bootstrap/cpp/runtime/yc_runtime.c): an open-addressing table of
-- headers with tombstones and linear probing. Every probe runs on fuel, the table's capacity.
pub mod Probe
pub mod Tally
pub mod Table
pub mod Remove
pub mod Lookup
pub mod Insert
pub mod Resize
use Prim.Native.Nat.{bit_and}
use ycpl.Base.{
  ℕ, zero, suc, ◌+◌, ◌-◌, ◌*◌, ◌%◌, Bool, true, false, not, ◌||◌, ◌&&◌, Option, none, some, List,
  [], ◌∷◌, leb, ◌==◌, if◌then◌else◌, ◌>>=◌, length, get_or, set, replicate,
}
use ycpl.Address.{Ptr, null, tombstone, word, payload, ptr_hash}

-- `yc_registry`, `yc_registry_cap`, `yc_registry_count` and `yc_registry_used`.
-- The null array is the empty list.
pub record Registry : Type 0 where
  pub slots : List Ptr
  pub cap : ℕ
  pub count : ℕ
  pub used : ℕ

abbrev pub no_registry : Registry
no_registry = record { slots = []; cap = 0; count = 0; used = 0 }

abbrev pub slot_at : List Ptr → ℕ → Ptr
slot_at slots i = get_or slots i null

-- `(size_t)-1`, the value of `first_tombstone` before a tombstone is met.
abbrev pub no_slot : ℕ
no_slot = word - 1

abbrev pub home : Ptr → ℕ → ℕ
home header mask = bit_and (ptr_hash (payload header)) mask

abbrev pub next_slot : ℕ → ℕ → ℕ
next_slot mask slot = bit_and ((slot + 1) % word) mask

-- `while (slots[slot] && !stop) slot = (slot + 1) & mask`, with the slot where it stops.
pub probe : (Ptr → Bool) → ℕ → List Ptr → ℕ → ℕ → Option ℕ
probe stop zero slots mask slot = none
probe stop (suc fuel) slots mask slot =
    let rest = probe stop fuel slots mask (next_slot mask slot) in
    if stop (slot_at slots slot) then some slot else rest

-- The loop of `yc_registry_resize` over the old array.
abbrev pub is_null : Ptr → Bool
is_null p = p == null

pub rehash_slot : Ptr → Registry → Option Registry
unfolding probe
rehash_slot header r =
    if header == null || header == tombstone
    then some r
    else (probe is_null r.cap r.slots (r.cap - 1) (home header (r.cap - 1)) >>= λ slot.
        some (record r { slots = set r.slots slot header; count = r.count + 1; used = r.used + 1 }))

pub rehash : List Ptr → Registry → Option Registry
unfolding rehash_slot
rehash [] r = some r
rehash (header ∷ old) r = rehash_slot header r >>= rehash old

-- Whether `calloc(count, size)` returns memory.
abbrev pub Calloc : Type 0
Calloc = ℕ → ℕ → Bool

pub resize : Calloc → ℕ → Registry → Option (Bool × Registry)
unfolding rehash
resize calloc next_cap r =
    if calloc next_cap 8
    then (rehash r.slots
          (record { slots = replicate next_cap null; cap = next_cap; count = 0; used = 0 })
        >>= λ r'. some (true, r'))
    else some (false, r)

pub ensure : Calloc → Registry → Option (Bool × Registry)
unfolding resize
ensure calloc r =
    if r.cap == 0
    then resize calloc 1024 r
    else if leb (r.cap * 2 % word) ((r.used + 1) * 3 % word)
    then resize calloc (r.cap * 2 % word) r
    else some (true, r)

-- How the loop of `yc_registry_insert` ends.
pub data Found : Type 0 where
  present : Found
  vacant : (slot first_tombstone : ℕ) → Found

pub insert_loop : ℕ → List Ptr → ℕ → Ptr → ℕ → ℕ → Option Found
insert_loop zero slots mask header slot first_tombstone = none
insert_loop (suc fuel) slots mask header slot first_tombstone =
    let here = slot_at slots slot in
    let first' =
      if here == tombstone && first_tombstone == no_slot then slot else first_tombstone in
    let rest = insert_loop fuel slots mask header (next_slot mask slot) first' in
    if here == null
    then some (vacant slot first_tombstone)
    else if here == tombstone
    then rest
    else if here == header
    then some present
    else rest

pub place : Ptr → Registry → Found → Registry
place header r present = r
place header r (vacant slot first_tombstone) =
    if first_tombstone == no_slot
    then record r { slots = set r.slots slot header; count = r.count + 1; used = r.used + 1 }
    else record r { slots = set r.slots first_tombstone header; count = r.count + 1 }

pub insert_into : Ptr → Registry → Option Registry
unfolding insert_loop place
insert_into header r =
    insert_loop r.cap r.slots (r.cap - 1) header (home header (r.cap - 1)) no_slot >>= λ found.
    some (place header r found)

-- `yc_registry_insert`: without memory for a larger table the header is not entered.
unfoldable pub insert : Calloc → Ptr → Registry → Option Registry
unfolding ensure insert_into
insert calloc header r =
    ensure calloc r >>= λ (done, r'). if done then insert_into header r' else some r'

-- `yc_registry_remove`: the header's slot becomes a tombstone.
unfoldable pub remove : Ptr → Registry → Option Registry
unfolding probe
remove header r =
    if length r.slots == 0 || header == null
    then some r
    else (probe (λ p. p == null || p == header) r.cap r.slots (r.cap - 1) (home header (r.cap - 1))
        >>= λ slot. some (
            if slot_at r.slots slot == header
            then record r { slots = set r.slots slot tombstone; count = r.count - 1 }
            else r))

-- The loop of `yc_header_from_ptr`: a slot that holds the header of `ptr`, with its magic number.
abbrev pub is_header_of : (Ptr → Bool) → Ptr → Ptr → Bool
is_header_of has_magic ptr p = not (p == tombstone) && payload p == ptr && has_magic p

unfoldable pub header_from_ptr : (Ptr → Bool) → Ptr → Registry → Option Ptr
unfolding probe
header_from_ptr has_magic ptr r =
    if ptr == null || length r.slots == 0
    then some null
    else (probe (λ p. p == null || is_header_of has_magic ptr p) r.cap r.slots (r.cap - 1)
          (bit_and (ptr_hash ptr) (r.cap - 1))
        >>= λ slot. some (slot_at r.slots slot))
