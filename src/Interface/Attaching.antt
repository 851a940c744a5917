-- ===== src/Interface/Attaching.antt =====
-- The entry points that give a header a new owner keep the memory sound: `yc_attach_child` and
-- `yc_replace_child`.
use ycpl.Base.{
  eq_of_==, ℕ, suc, ◌+◌, ◌<◌, ◌≡◌, refl, ap, ◌⊎◌, inl, inr, Bool, true, false, not, ◌||◌, ◌&&◌,
  some, List, arith, ◌==◌, if◌then◌else◌, Bool-cases, ◌∙◌, ◌≢◌,
}
use ycpl.Address.{Ptr, null}
use ycpl.Links.Family.{left_by}
use ycpl.Links.Leave.{length-left_by}
use ycpl.Memory.{Memory, detach_owner}
use ycpl.Ownership.{attach_header}
use ycpl.Allocation.{Library, header_of}
use ycpl.Allocation.Tracked.{IsTracked}
use ycpl.Allocation.Detached.{detach_owner-Detached}
use ycpl.Allocation.Twice.{tracked-Marked, header_of-Names}
use ycpl.Allocation.Attaches.{attach_header-Sound}
use ycpl.Allocation.Sound.{IsSound, Sound}
use ycpl.Allocation.Heights.{IsRooted-shorter}
use ycpl.Interface.{attach_child, replace_child}
use ycpl.Interface.Keeps.{Keeps}

-- Every pointer has a live header, or none.
pub header_of-live :
    (ptr : Ptr) (m : Memory) (children : Ptr → List Ptr) (members : ℕ → List Ptr)
    → IsTracked m children members
    → (h : Ptr) × (header_of ptr m ≡ some h) × ((h ≡ null) ⊎ (m.magic h ≡ true))
header_of-live ptr m children members t =
    let (h, run, names) = header_of-Names ptr m children members t in
    (
      h,
      run,
      elim names [
        | inl (e, none_there) ↦ inl e
        | inr (big, at, once) ↦
            inr (tracked-Marked m children members t h big (omega (arith, once)))
      ],
    )

attach_header_none :
    (realloc : ℕ → Bool) (fuel : ℕ) (p c : Ptr) (m : Memory)
    → (p == null || c == null) ≡ true
    → attach_header realloc fuel p c m ≡ some m
unfolding attach_header
attach_header_none realloc fuel p c m e = rw e refl

-- A header or null as parent, and a header or null as child.
attach_any-Sound :
    (realloc : ℕ → Bool) (fuel : ℕ) (p c : Ptr) (m : Memory) (children : Ptr → List Ptr)
    (members : ℕ → List Ptr) (n width : ℕ)
    → IsSound m children members n width
    → (p ≡ null) ⊎ (m.magic p ≡ true)
    → (c ≡ null) ⊎ (m.magic c ≡ true)
    → suc (n + n) + suc width + 1 < fuel
    → (m' : Memory) × (attach_header realloc fuel p c m ≡ some m') × Sound m'
attach_any-Sound realloc fuel p c m children members n width s (inl e) live' enough =
    (m, attach_header_none realloc fuel p c m (ground arith), (children, members, n, width, s))
attach_any-Sound realloc fuel p c m children members n width s (inr live) (inl e) enough =
    (m, attach_header_none realloc fuel p c m (ground arith), (children, members, n, width, s))
attach_any-Sound realloc fuel p c m children members n width s (inr live) (inr live') enough =
    attach_header-Sound realloc fuel p c m children members n width s live live' enough

attach_child_same :
    (lib : Library) (fuel : ℕ) (parent child : Ptr) (m : Memory)
    → (parent == null || child == null || parent == child) ≡ true
    → attach_child lib fuel parent child m ≡ some m
unfolding attach_child
attach_child_same lib fuel parent child m e = rw e refl

attach_child_found :
    (lib : Library) (fuel : ℕ) (parent child p c : Ptr) (m : Memory)
    → (parent == null || child == null || parent == child) ≡ false
    → header_of parent m ≡ some p
    → header_of child m ≡ some c
    → attach_child lib fuel parent child m ≡ attach_header lib.realloc fuel p c m
unfolding attach_child
attach_child_found lib fuel parent child p c m e e' e'' = rw (e, e', e'') refl

pub attach_child_enough :
    (lib : Library) (parent child : Ptr) (m : Memory) (children : Ptr → List Ptr)
    (members : ℕ → List Ptr) (n width : ℕ)
    → IsSound m children members n width
    → (fuel : ℕ) → suc (n + n) + suc width + 1 < fuel
    → (m' : Memory) × (attach_child lib fuel parent child m ≡ some m') × Sound m'
attach_child_enough lib parent child m children members n width s fuel enough =
    elim (Bool-cases (parent == null || child == null || parent == child)) [
      | inl e ↦ (m, attach_child_same lib fuel parent child m e, (children, members, n, width, s))
      | inr e ↦
          let (p, p_run, p_live) = header_of-live parent m children members s.tracked in
          let (c, c_run, c_live) = header_of-live child m children members s.tracked in
          let (m', run, sound) =
            attach_any-Sound lib.realloc fuel p c m children members n width s p_live c_live
              enough in
          (m', attach_child_found lib fuel parent child p c m e p_run c_run ∙ run, sound)
    ]

-- `yc_attach_child` keeps the memory sound.
pub attach_child-Sound :
    (lib : Library) (parent child : Ptr) (m : Memory)
    → Sound m
    → Keeps (λ fuel. attach_child lib fuel parent child m)
attach_child-Sound lib parent child m (children, members, n, width, s) = (
  suc (n + n) + suc width + 1,
  λ fuel enough. attach_child_enough lib parent child m children members n width s fuel enough,
)

detach_owner-Sound : (h : Ptr) (m : Memory) → h ≢ null → Sound m → Sound (detach_owner h m)
detach_owner-Sound h m real (children, members, n, width, s) =
    let d = detach_owner-Detached h m children members s.tracked real in
    let m' = detach_owner h m in
    let trimmed : (x : Ptr) → (m'.owner x ≡ m.owner x) ⊎ (m'.owner x ≡ null) = λ x.
      elim (Bool-cases (x == h)) [
        | inl e ↦ inr (ap m'.owner (eq_of_== x h e) ∙ d.root)
        | inr e ↦ inl (d.others x e)
      ] in
    (
      left_by h (m.owner h) children,
      members,
      n,
      width,
      record {
        tracked = d.tracked;
        rooted = λ x. IsRooted-shorter m.owner m'.owner n x trimmed (s.rooted x);
        narrow = λ p. omega (arith, length-left_by h (m.owner h) p children, s.narrow p);
      },
    )

-- What `yc_replace_child` hands to `yc_attach_child`.
abbrev replaced : Ptr → Ptr → Memory → Memory
replaced p o m = if not (o == null) && m.owner o == p then detach_owner o m else m

replaced-Sound : (p o : Ptr) (m : Memory) → Sound m → Sound (replaced p o m)
replaced-Sound p o m sound = elim (Bool-cases (not (o == null) && m.owner o == p)) [
  | inl e ↦ rw e (detach_owner-Sound o m (ground arith) sound)
  | inr e ↦ rw e sound
]

replace_child_same :
    (lib : Library) (fuel : ℕ) (parent old new : Ptr) (m : Memory)
    → (parent == null || new == null || parent == new) ≡ true
    → replace_child lib fuel parent old new m ≡ some m
unfolding replace_child
replace_child_same lib fuel parent old new m e = rw e refl

replace_child_found :
    (lib : Library) (fuel : ℕ) (parent old new p o k : Ptr) (m : Memory)
    → (parent == null || new == null || parent == new) ≡ false
    → header_of parent m ≡ some p
    → header_of new m ≡ some k
    → header_of old m ≡ some o
    → replace_child lib fuel parent old new m ≡ (
        if p == null || k == null
        then some m
        else attach_child lib fuel parent new (replaced p o m))
unfolding replace_child
replace_child_found lib fuel parent old new p o k m e e' e'' e₃ = rw (e, e', e'', e₃) refl

-- `yc_replace_child` keeps the memory sound.
pub replace_child-Sound :
    (lib : Library) (parent old new : Ptr) (m : Memory)
    → Sound m
    → Keeps (λ fuel. replace_child lib fuel parent old new m)
replace_child-Sound lib parent old new m (children, members, n, width, s) =
    let sound : Sound m = (children, members, n, width, s) in
    let (p, p_run, p_live) = header_of-live parent m children members s.tracked in
    let (k, k_run, k_live) = header_of-live new m children members s.tracked in
    let (o, o_run, o_live) = header_of-live old m children members s.tracked in
    let (bound, keeps) =
      attach_child-Sound lib parent new (replaced p o m) (replaced-Sound p o m sound) in
    (
      bound,
      λ fuel enough. elim (Bool-cases (parent == null || new == null || parent == new)) [
        | inl e ↦ (m, replace_child_same lib fuel parent old new m e, sound)
        | inr e ↦
            let found = replace_child_found lib fuel parent old new p o k m e p_run k_run o_run in
            elim (Bool-cases (p == null || k == null)) [
              | inl e' ↦ (m, found ∙ (rw e' refl), sound)
              | inr e' ↦
                  let (m', run, sound') = keeps fuel enough in (m', found ∙ (rw e' run), sound')
            ]
      ],
    )
