-- ===== src/Tests/AllocationTests.antt =====
-- One more allocation in the memory of two, at the address 0x3000.
use ycpl.Base.{[], ◌∷◌, ◌*◌, ◌≤◌, ◌<◌, ◌≡◌, refl, ◌⊎◌, some, arith, ltb}
use ycpl.Address.{null, word}
use ycpl.Links.Chain.{IsList}
use ycpl.Registry.{Calloc, no_registry}
use ycpl.Memory.{Memory}
use ycpl.Allocation.{Library, alloc, calloc, runtime_shutdown}
use ycpl.Allocation.Shutdown.{IsCleared, runtime_shutdown-IsCleared}
use ycpl.Ranges.{leaf}
use ycpl.Allocation.New.{calloc-product}
use ycpl.Tests.OwnershipTests.{memory, no_memory}

abbrev plenty : Calloc
plenty count size = ltb (count * size) word

abbrev library : Library
library = record { malloc = λ n. some 0x3000; calloc = plenty; realloc = no_memory }

calloc-product_example :
    ((calloc library 0x100000000 0x100000000 memory
        ≡ alloc library (0x100000000 * 0x100000000) memory)
      × (0x100000000 * 0x100000000 < word))
    ⊎ ((calloc library 0x100000000 0x100000000 memory ≡ some (null, memory))
        × (word ≤ 0x100000000 * 0x100000000))
calloc-product_example = calloc-product library 0x100000000 0x100000000 memory

memory-IsList :
    IsList
      (record { next = memory.next; prev = memory.prev; head = memory.head })
      (0x2000 ∷ 0x1000 ∷ [])
memory-IsList = (
  (refl, (λ e. omega (arith, e)), refl, (refl, (λ e. omega (arith, e)), refl, refl)),
  (refl, (refl, tt)),
)

runtime_shutdown-IsCleared_example :
    (m' : Memory) × (runtime_shutdown 3 memory ≡ some m')
    × IsCleared memory (0x2000 ∷ 0x1000 ∷ []) m'
    × (m'.registry ≡ no_registry)
    × (m'.ranges ≡ leaf)
    × (m'.frame_heads ≡ [])
    × (m'.current_frame ≡ 0)
runtime_shutdown-IsCleared_example =
    runtime_shutdown-IsCleared 3 memory (0x2000 ∷ 0x1000 ∷ []) memory-IsList (omega arith)
