-- ===== src/Allocation/Enter.antt =====
-- `yc_alloc` from end to end: what it enters into the forest of headers, the registry and the treap.
use ycpl.Base.{
  ℕ, suc, ◌+◌, ◌-◌, ◌<◌, ◌≡◌, refl, ap, ◌⊎◌, inl, inr, Bool, ◌||◌, true, false, none, some, List,
  [], ltb, ◌==◌, Bool-cases,
}
use ycpl.Address.{Ptr, null, word, header_size, payload}
use ycpl.Links.Chain.{has}
use ycpl.Registry
use ycpl.Registry.Insert.{Inserted}
use ycpl.Registry.Resize.{wanted}
use ycpl.Ranges
use ycpl.Memory.{Memory, link, frame_link}
use ycpl.Ownership.Attach.{IsForest}
use ycpl.Allocation.{Library, new_header, enter_header, allocated, alloc}
use ycpl.Memory.Frames.{IsFramed, Refused}
use ycpl.Allocation.Fresh.{IsHeader}

-- What the C library promises of a block: no header at its address is in use.
pub record IsFresh (live : Ptr → Bool) (m : Memory) (children : Ptr → List Ptr) (n width : ℕ)
    (forest : IsForest live m children n width) (h : Ptr) : Type 0 where
  pub new : live h ≡ false
  pub real : 1 < h
  pub childless : children h ≡ []
  pub frameless : (f : ℕ) → has h (forest.placed.0 f) ≡ false

-- Where the header `h` is once it is allocated: in the list of the current frame, as a root of the
-- forest; or, where the current frame has no list and `realloc` no memory for one, in no frame, whose
-- lists are those that were there.
abbrev pub Entered :
    Library
    → (Ptr → Bool)
    → Ptr
    → Memory
    → Memory
    → (Ptr → List Ptr)
    → ℕ
    → ℕ
    → (ℕ → List Ptr)
    → Type 0
Entered lib live h m m' children n width members =
    (IsForest (λ x. (x == h) || live x) m' children (suc n) width × (m'.frame h ≡ m.current_frame))
    ⊎ (IsFramed m' members
        × ((f : ℕ) → has h (members f) ≡ false)
        × Refused lib.realloc m.current_frame m)

-- What an allocation of `size` bytes behind the header `h` enters.
pub record Allocated (lib : Library) (live : Ptr → Bool) (h : Ptr) (size : ℕ) (m m' : Memory)
    (children : Ptr → List Ptr) (n width : ℕ) (members : ℕ → List Ptr) : Type 0 where
  pub forest : Entered lib live h m m' children n width members
  pub registry :
      Inserted h m.registry m'.registry
      ⊎ ((m'.registry ≡ m.registry) × (lib.calloc (wanted m.registry) 8 ≡ false))
  pub ranges : m'.ranges ≡ Ranges.insert m.ranges h
  pub header : IsHeader h size m'

module _ (lib : Library) (live : Ptr → Bool) (m : Memory) (children : Ptr → List Ptr) (n width : ℕ)
    (forest : IsForest live m children n width) where
  pub alloc_lem :
      (size : ℕ) (h : Ptr)
      → ltb (word - 1 - header_size) size ≡ false
      → lib.malloc (header_size + size) ≡ some h
      → alloc lib size m ≡ enter_header lib h size m
  unfolding alloc allocated
  alloc_lem size h e e' = rw e (ap (allocated lib size m) e')

  pub alloc_refused :
      (size : ℕ)
      → (ltb (word - 1 - header_size) size ≡ true) ⊎ (lib.malloc (header_size + size) ≡ none)
      → alloc lib size m ≡ some (null, m)
  unfolding alloc allocated
  alloc_refused size (inl e) = rw e refl
  alloc_refused size (inr e) = elim (Bool-cases (ltb (word - 1 - header_size) size)) [
    | inl z ↦ rw z refl
    | inr z ↦ rw z (ap (allocated lib size m) e)
  ]

  pub enter_lem :
      (size : ℕ) (h : Ptr) (m' : Memory) (r : Registry.Registry)
      → frame_link lib.realloc h
          (link h (new_header h size m)).current_frame
          (link h (new_header h size m))
        ≡ some m'
      → Registry.insert lib.calloc h m'.registry ≡ some r
      → enter_header lib h size m
        ≡ some (payload h, record m' { registry = r; ranges = Ranges.insert m'.ranges h })
  unfolding enter_header
  enter_lem size h m' r e e' = rw (e, e') refl
