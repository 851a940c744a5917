-- ===== src/Tests/RegistryTests.antt =====
-- The registry at a table of four slots, with a tombstone in front of its one header.
use ycpl.Base.{
  ℕ, zero, suc, ◌*◌, ◌<◌, ◌≡◌, refl, ◌≢◌, ◌⊎◌, inr, true, false, some, List, [], ◌∷◌, arith, ltb,
}
use ycpl.Address.{Ptr, null, tombstone, word, payload, ptr_hash}
use ycpl.Registry.{Registry, slot_at, home, Calloc, insert, remove, header_from_ptr, ensure}
use ycpl.Registry.Probe.{walk}
use ycpl.Registry.Tally.{tally}
use ycpl.Registry.Table.{IsTable, Reached}
use ycpl.Registry.Remove.{Removed, remove-Removed}
use ycpl.Registry.Lookup.{Marked, Names, header_from_ptr-Names}
use ycpl.Registry.Insert.{Inserted}
use ycpl.Registry.Resize.{Honest, wanted, Roomy, ensure-Roomy, insert-Inserted}

-- `calloc` that gives every block that fits the address space.
abbrev plenty : Calloc
plenty count size = ltb (count * size) word

plenty-Honest : Honest plenty
plenty-Honest count size h = ground arith

-- Its home in four slots is slot 0.
abbrev header : Ptr
header = 0x4000

abbrev slots : List Ptr
slots = tombstone ∷ header ∷ null ∷ null ∷ []

abbrev pub table : Registry
table = record { slots = slots; cap = 4; count = 1; used = 2 }

header-Reached : Reached 4 slots header 1
unfolding walk payload ptr_hash
header-Reached = (1, refl, occupied)
  where
    occupied : (m : ℕ) → m < 1 → slot_at slots (walk 4 (home header 3) m) ≢ null
    occupied zero h = omega arith
    occupied (suc m) h = absurd (omega arith)

slots-Reached : (i : ℕ) → i < 4 → 1 < slot_at slots i → Reached 4 slots (slot_at slots i) i
slots-Reached zero lt big = absurd (omega arith)
slots-Reached (suc zero) lt big = header-Reached
slots-Reached (suc (suc zero)) lt big = absurd (omega arith)
slots-Reached (suc (suc (suc zero))) lt big = absurd (omega arith)
slots-Reached (suc (suc (suc (suc i)))) lt big = absurd (omega arith)

pub table-IsTable : IsTable table
unfolding tally
table-IsTable = record {
  capacity = record { exponent = 2; power = refl; small = omega arith };
  width = refl;
  headers = refl;
  in_use = refl;
  room = omega arith;
  placed = record { reached = slots-Reached; once = λ x big. ground arith };
}

all-Marked : Marked (λ _. true) table
all-Marked x big h = refl

insert-Inserted_example :
    ((r' : Registry) × (insert plenty 0x5000 table ≡ some r') × Inserted 0x5000 table r')
    ⊎ ((insert plenty 0x5000 table ≡ some table) × (plenty (wanted table) 8 ≡ false))
insert-Inserted_example =
    insert-Inserted plenty table 0x5000 (inr table-IsTable) plenty-Honest (omega arith)

ensure-Roomy_example :
    ((r' : Registry) × (ensure plenty table ≡ some (true, r')) × Roomy table r')
    ⊎ ((ensure plenty table ≡ some (false, table)) × (plenty (wanted table) 8 ≡ false))
ensure-Roomy_example = ensure-Roomy plenty table (inr table-IsTable) plenty-Honest

remove-Removed_example : (r' : Registry) × (remove header table ≡ some r') × Removed header table r'
remove-Removed_example = remove-Removed table header (inr table-IsTable) (omega arith)

header_from_ptr-Names_example :
    (x : Ptr) × (header_from_ptr (λ _. true) 0x4068 table ≡ some x) × Names table 0x4068 x
header_from_ptr-Names_example =
    header_from_ptr-Names (λ _. true) table 0x4068 (inr table-IsTable) all-Marked

-- The runs themselves.
runs : Unit {0}
unfolding payload ptr_hash insert remove header_from_ptr
runs = tt

lookup_run : header_from_ptr (λ _. true) 0x4068 table ≡ some header
unfolding runs
lookup_run = refl

remove_run :
    remove header table
    ≡ some
        (record { slots = tombstone ∷ tombstone ∷ null ∷ null ∷ []; cap = 4; count = 0; used = 2 })
unfolding runs
remove_run = refl
