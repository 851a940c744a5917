-- ===== src/Memory/Frames.antt =====
-- The lists of the frames: `yc_frame_heads_ensure`, `yc_frame_link` and `yc_frame_unlink`.
use native.Mathlib.Nat.{pow-suc, mul_assoc, mul_comm}
use ycpl.Base.{
  ℕ, zero, suc, ◌+◌, ◌-◌, ◌*◌, ◌%◌, ◌^◌, ◌≤◌, ◌<◌, ◌≡◌, refl, sym, ◌≢◌, ◌⊎◌, inl, inr, Bool, true,
  false, some, List, [], ◌∷◌, ◌++◌, arith, ◌==◌, leb, ltb, if◌then◌else◌, Bool-cases, length,
  get_or, set, replicate, length-append, length-replicate, get_or-replicate, get_or-set_self,
  get_or-set_ne,
}
use ycpl.Address.{Ptr, null, word}
use ycpl.Links.{update, push_front, unlink}
use ycpl.Links.Chain.{has, Chain, update_here, update_away}
use ycpl.Links.Family.{Family, joined, left_by, push_front-Family, unlink-Family}
use ycpl.Memory.{Memory, frame_list, doubled, frame_heads_ensure, linked_in, frame_unlink}

-- Each frame has a list, and who is in it has its number.
abbrev pub IsFramed : Memory → (ℕ → List Ptr) → Type 0
IsFramed m members =
    Family m.frame_next m.frame_prev (λ f. get_or m.frame_heads f null) m.frame members

doubled-reaches :
    (fuel need cap : ℕ)
    → need ≤ cap * 2 ^ fuel
    → need ≤ 2 ^ 62
    → (c : ℕ) × (doubled (suc fuel) need cap ≡ some c) × (need ≤ c) × (cap ≤ c)
unfolding doubled
doubled-reaches zero need cap reach small =
    let enough : ltb cap need ≡ false = ground arith in
    (cap, rw enough refl, ground arith, ground arith)
doubled-reaches (suc fuel) need cap reach small = elim (Bool-cases (ltb cap need)) [
  | inr e ↦ (cap, rw e refl, ground arith, ground arith)
  | inl e ↦
      let exact : cap * 2 % word ≡ cap * 2 = ground arith in
      let rest =
        doubled-reaches fuel need (cap * 2 % word)
          (rw (exact, mul_assoc, mul_comm 2 (2 ^ fuel)) (rw (pow-suc 2 fuel) at reach)) small in
      (rest.0, rw e rest.1, rest.2, omega (arith, rest.3))
]

get_or-append_null :
    (xs : List Ptr) (n i : ℕ) → get_or (xs ++ replicate n null) i null ≡ get_or xs i null
get_or-append_null [] n i = get_or-replicate n i null
get_or-append_null (x ∷ xs) n zero = refl
get_or-append_null (x ∷ xs) n (suc i) = get_or-append_null xs n i

-- The frame's list exists, and nothing else of the memory changes.
abbrev pub Ensured : ℕ → Memory → Memory → Type 0
Ensured frame m m' =
    (heads : List Ptr) × (m' ≡ record m { frame_heads = heads })
    × (frame < length heads)
    × ((i : ℕ) → get_or heads i null ≡ get_or m.frame_heads i null)

-- The frame has no list, and `realloc` has no memory for lists up to it.
abbrev pub Refused : (ℕ → Bool) → ℕ → Memory → Type 0
Refused realloc frame m =
    (length m.frame_heads ≤ frame)
    × ((cap : ℕ) × (frame < cap) × (realloc (cap * 8 % word) ≡ false))

pub frame_heads_ensure-Ensured :
    (realloc : ℕ → Bool) (frame : ℕ) (m : Memory)
    → frame < 2 ^ 32
    → ((m' : Memory) × (frame_heads_ensure realloc frame m ≡ some (true, m')) × Ensured frame m m')
      ⊎ ((frame_heads_ensure realloc frame m ≡ some (false, m)) × Refused realloc frame m)
unfolding frame_heads_ensure
frame_heads_ensure-Ensured realloc frame m small =
    elim (Bool-cases (leb (frame + 1) (length m.frame_heads))) [
      | inl e ↦ rw e (inl (m, refl, (m.frame_heads, refl, ground arith, λ i. refl)))
      | inr e ↦
          let start = if length m.frame_heads == 0 then 64 else length m.frame_heads in
          let some_start : (0 < start) × (length m.frame_heads ≤ start) =
            elim (Bool-cases (length m.frame_heads == 0)) [
              | inl z ↦ rw z (omega arith, ground arith)
              | inr z ↦ rw z (ground arith, omega arith)
            ] in
          let c =
            doubled-reaches 63 (frame + 1) start (omega (arith, some_start.0)) (omega arith) in
          elim (Bool-cases (realloc (c.0 * 8 % word))) [
            | inr r ↦ rw (e, c.1, r) (inr (refl, (ground arith, (c.0, omega (arith, c.2), r))))
            | inl r ↦
                let heads = m.frame_heads ++ replicate (c.0 - length m.frame_heads) null in
                let room : frame < length heads = omega (
                  arith,
                  length-append m.frame_heads (replicate (c.0 - length m.frame_heads) null),
                  length-replicate (c.0 - length m.frame_heads) null,
                  c.2,
                  c.3,
                  some_start.1,
                ) in
                rw (e, c.1, r)
                  (inl (
                    record m { frame_heads = heads },
                    refl,
                    (
                      heads,
                      refl,
                      room,
                      get_or-append_null m.frame_heads (c.0 - length m.frame_heads),
                    ),
                  ))
          ]
    ]

get_or-beyond : (xs : List Ptr) (i : ℕ) → length xs ≤ i → get_or xs i null ≡ null
get_or-beyond [] i le = refl
get_or-beyond (x ∷ xs) zero le = absurd (omega arith)
get_or-beyond (x ∷ xs) (suc i) le = get_or-beyond xs i (omega arith)

-- A list with a null head has no members.
no_members :
    {A : Type 0} (next prev : Ptr → Ptr) (b h : Ptr) (xs : List Ptr)
    → Chain next prev b null xs
    → has h xs ≡ true
    → A
no_members next prev b h [] c inside = absurd (ground arith)
no_members next prev b h (x ∷ xs) (e, real, back, rest) inside = absurd (real (sym e))

pub linked_in-IsFramed :
    (h : Ptr) (frame : ℕ) (m : Memory) (members : ℕ → List Ptr)
    → IsFramed m members
    → h ≢ null
    → ((f : ℕ) → has h (members f) ≡ false)
    → frame < length m.frame_heads
    → IsFramed (linked_in h frame m) (joined h frame members)
unfolding linked_in push_front
linked_in-IsFramed h frame m members family real out lt =
    push_front-Family m.frame_next m.frame_prev (λ f. get_or m.frame_heads f null) m.frame members
      family h frame (λ f. get_or (set m.frame_heads frame h) f null) (update m.frame h frame)
      (λ f e. get_or-set_ne m.frame_heads frame f h null (ground arith))
      (λ x e. update_away m.frame h frame x e) real out
      (get_or-set_self m.frame_heads frame h null lt) (update_here m.frame h frame)

-- `yc_frame_unlink` takes a header out of the list of its frame, and out of no other.
pub frame_unlink-IsFramed :
    (h : Ptr) (m : Memory) (members : ℕ → List Ptr)
    → IsFramed m members
    → h ≢ null
    → has h (members (m.frame h)) ≡ true
    → IsFramed (frame_unlink h m) (left_by h (m.frame h) members)
unfolding frame_unlink
frame_unlink-IsFramed h m members family real inside =
    let list_there : leb (length m.frame_heads) (m.frame h) ≡ false =
      elim (Bool-cases (leb (length m.frame_heads) (m.frame h))) [
        | inr e ↦ e
        | inl e ↦
            let none_there = get_or-beyond m.frame_heads (m.frame h) (ground arith) in
            no_members m.frame_next m.frame_prev null h (members (m.frame h))
              (rw none_there at (family.0 (m.frame h)).0) inside
      ] in
    let real' : (h == null) ≡ false = ground arith in
    rw (real', list_there)
      (unlink-Family m.frame_next m.frame_prev (λ f. get_or m.frame_heads f null) m.frame members
        family h (m.frame h)
        (λ f.
          get_or (set m.frame_heads (m.frame h) (unlink h (frame_list (m.frame h) m)).head) f null)
        m.frame
        (λ f e.
          get_or-set_ne m.frame_heads (m.frame h) f (unlink h (frame_list (m.frame h) m)).head null
            (ground arith))
        (λ x e. refl) inside
        (get_or-set_self m.frame_heads (m.frame h) (unlink h (frame_list (m.frame h) m)).head null
          (ground arith)))

-- A frame with members has a list.
pub IsFramed-room :
    (m : Memory) (members : ℕ → List Ptr) (f : ℕ) (h : Ptr)
    → IsFramed m members
    → has h (members f) ≡ true
    → f < length m.frame_heads
IsFramed-room m members f h family inside = elim (Bool-cases (ltb f (length m.frame_heads))) [
  | inl e ↦ ground arith
  | inr e ↦
      let none_there = get_or-beyond m.frame_heads f (ground arith) in
      no_members m.frame_next m.frame_prev null h (members f) (rw none_there at (family.0 f).0)
        inside
]
