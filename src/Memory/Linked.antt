-- ===== src/Memory/Linked.antt =====
-- What links and unlinks of frames leave alone, and `yc_frame_link` from end to end.
use mathlib.Core.Path.{subst}
use mathlib.Core.Bool.{true≢false}
use ycpl.Base.{
  Option, none, Option-cases, ap, if◌then◌else◌, ◌*◌, ◌%◌, ℕ, ◌+◌, ◌^◌, ◌<◌, ◌≡◌, refl, sym, ◌∙◌,
  ◌||◌, ◌≢◌, ◌⊎◌, inl, inr, Bool, true, false, some, List, arith, ◌==◌, leb, Bool-cases, length,
  set, length-set,
}
use ycpl.Address.{Ptr, null, word}
use ycpl.Links.{unlink}
use ycpl.Links.Chain.{has, update_here, update_away}
use ycpl.Links.Family.{joined}
use ycpl.Memory.{
  Memory, frame_list, frame_heads_ensure, doubled, linked_in, frame_link, frame_unlink,
}
use ycpl.Memory.Frames.{IsFramed, Ensured, Refused, frame_heads_ensure-Ensured, linked_in-IsFramed}

-- Only the links of frames, and the numbers of frames, may differ.
abbrev pub Reframed : Memory → Memory → Type 0
Reframed m m' =
    (fr : Ptr → ℕ) × (fp : Ptr → Ptr) × (fn : Ptr → Ptr) × (heads : List Ptr) × (m'
      ≡ record m { frame = fr; frame_prev = fp; frame_next = fn; frame_heads = heads })
    × (length heads ≡ length m.frame_heads)

pub Reframed-refl : (m : Memory) → Reframed m m
Reframed-refl m = (m.frame, m.frame_prev, m.frame_next, m.frame_heads, refl, refl)

pub Reframed-length : (m m' : Memory) → Reframed m m' → length m'.frame_heads ≡ length m.frame_heads
Reframed-length m m' (fr, fp, fn, heads, e, wide) =
    subst (λ n. length n.frame_heads ≡ length m.frame_heads) (sym e) wide

pub Reframed-trans : (m m' m'' : Memory) → Reframed m m' → Reframed m' m'' → Reframed m m''
Reframed-trans m m' m'' (fr, fp, fn, heads, e, wide) (fr', fp', fn', heads', e', wide') =
    (fr', fp', fn', heads', rw e at e', wide' ∙ Reframed-length m m' (fr, fp, fn, heads, e, wide))

pub linked_in-Reframed :
    (h : Ptr) (frame : ℕ) (m : Memory)
    → Reframed m (linked_in h frame m)
      × ((linked_in h frame m).frame h ≡ frame)
      × ((x : Ptr) → (x == h) ≡ false → (linked_in h frame m).frame x ≡ m.frame x)
unfolding linked_in
linked_in-Reframed h frame m =
    let m' = linked_in h frame m in
    (
      (
        m'.frame,
        m'.frame_prev,
        m'.frame_next,
        m'.frame_heads,
        refl,
        length-set m.frame_heads frame h,
      ),
      update_here m.frame h frame,
      λ x e. update_away m.frame h frame x e,
    )

pub frame_unlink-Reframed :
    (h : Ptr) (m : Memory)
    → Reframed m (frame_unlink h m) × ((x : Ptr) → (frame_unlink h m).frame x ≡ m.frame x)
unfolding frame_unlink
frame_unlink-Reframed h m =
    elim (Bool-cases (h == null || leb (length m.frame_heads) (m.frame h))) [
      | inl e ↦ rw e (Reframed-refl m, λ x. refl)
      | inr e ↦
          let l = unlink h (frame_list (m.frame h) m) in
          rw e (
            (
              m.frame,
              l.prev,
              l.next,
              set m.frame_heads (m.frame h) l.head,
              refl,
              length-set m.frame_heads (m.frame h) l.head,
            ),
            λ x. refl,
          )
    ]

-- `yc_frame_link` where the frame has a list.
pub frame_link_lem :
    (realloc : ℕ → Bool) (h : Ptr) (frame : ℕ) (m : Memory)
    → h ≢ null
    → frame < length m.frame_heads
    → frame_link realloc h frame m ≡ some (linked_in h frame m)
unfolding frame_link frame_heads_ensure
frame_link_lem realloc h frame m real room =
    let real' : (h == null) ≡ false = ground arith in
    let enough : leb (frame + 1) (length m.frame_heads) ≡ true = ground arith in
    rw (real', enough) refl

-- The memory once `h` is in the list of a frame.
pub record Linked (h : Ptr) (frame : ℕ) (m m' : Memory) (members : ℕ → List Ptr) : Type 0 where
  pub framed : IsFramed m' (joined h frame members)
  pub own : m'.frame h ≡ frame
  pub elsewhere : (x : Ptr) → (x == h) ≡ false → m'.frame x ≡ m.frame x
  pub rest :
      (fr : Ptr → ℕ) × (fp : Ptr → Ptr) × (fn : Ptr → Ptr) × (heads : List Ptr) × (m'
        ≡ record m { frame = fr; frame_prev = fp; frame_next = fn; frame_heads = heads })

abbrev told : Option (Bool × Memory) → Bool
told none = true
told (some (done, m)) = done

-- `yc_frame_heads_ensure` does not fail where there is memory.
told-frame_heads_ensure :
    (realloc : ℕ → Bool) (frame : ℕ) (m : Memory)
    → ((n : ℕ) → realloc n ≡ true)
    → told (frame_heads_ensure realloc frame m) ≡ true
unfolding frame_heads_ensure
told-frame_heads_ensure realloc frame m granted =
    let cap = length m.frame_heads in
    elim (Bool-cases (leb (frame + 1) cap)) [
      | inl there ↦ rw there refl
      | inr away ↦ elim (Option-cases (doubled 64 (frame + 1) (if cap == 0 then 64 else cap))) [
        | inl nothing ↦ rw (away, nothing) refl
        | inr (more, found) ↦ rw (away, found, granted (more * 8 % word)) refl
      ]
    ]

-- Where the list of the frame is there in the end.
frame_link-Ensured :
    (realloc : ℕ → Bool) (h : Ptr) (frame : ℕ) (m : Memory) (members : ℕ → List Ptr)
    → IsFramed m members
    → h ≢ null
    → ((f : ℕ) → has h (members f) ≡ false)
    → ((m' : Memory) × (frame_heads_ensure realloc frame m ≡ some (true, m')) × Ensured frame m m')
    → (m' : Memory) × (frame_link realloc h frame m ≡ some m') × Linked h frame m m' members
unfolding frame_link
frame_link-Ensured realloc h frame m members family real out (m', e, (heads, same, room, agree)) =
    let real' : (h == null) ≡ false = ground arith in
    let wider = record m { frame_heads = heads } in
    let family' : IsFramed wider members = (λ k. rw (agree k) (family.0 k), family.1) in
    let (reframed, own, elsewhere) = linked_in-Reframed h frame wider in
    let (fr, fp, fn, heads', e', wide) = reframed in
    rw (real', e)
      (
        linked_in h frame m',
        refl,
        rw same record {
          framed = linked_in-IsFramed h frame wider members family' real out room;
          own = own;
          elsewhere = elsewhere;
          rest = (fr, fp, fn, heads', e');
        },
      )

-- `yc_frame_link` enters a header that is in no frame at the front of its frame's list, in whose
-- number it then is, and changes nothing but links and numbers of frames. Where the frame has no
-- list, and no memory for one, nothing changes.
pub frame_link-Linked :
    (realloc : ℕ → Bool) (h : Ptr) (frame : ℕ) (m : Memory) (members : ℕ → List Ptr)
    → IsFramed m members
    → h ≢ null
    → ((f : ℕ) → has h (members f) ≡ false)
    → frame < 2 ^ 32
    → ((m' : Memory) × (frame_link realloc h frame m ≡ some m') × Linked h frame m m' members)
      ⊎ ((frame_link realloc h frame m ≡ some m) × Refused realloc frame m)
unfolding frame_link
frame_link-Linked realloc h frame m members family real out small =
    let real' : (h == null) ≡ false = ground arith in
    elim (frame_heads_ensure-Ensured realloc frame m small) [
      | inr (e, beyond) ↦ rw (real', e) (inr (refl, beyond))
      | inl ensured ↦ inl (frame_link-Ensured realloc h frame m members family real out ensured)
    ]

-- Where there is memory for the list, the header is entered.
pub frame_link-granted :
    (realloc : ℕ → Bool) (h : Ptr) (frame : ℕ) (m : Memory) (members : ℕ → List Ptr)
    → IsFramed m members
    → h ≢ null
    → ((f : ℕ) → has h (members f) ≡ false)
    → frame < 2 ^ 32
    → ((n : ℕ) → realloc n ≡ true)
    → (m' : Memory) × (frame_link realloc h frame m ≡ some m') × Linked h frame m m' members
frame_link-granted realloc h frame m members family real out small granted =
    elim (frame_heads_ensure-Ensured realloc frame m small) [
      | inr (e, beyond) ↦
          absurd (true≢false (sym (told-frame_heads_ensure realloc frame m granted) ∙ ap told e))
      | inl ensured ↦ frame_link-Ensured realloc h frame m members family real out ensured
    ]
