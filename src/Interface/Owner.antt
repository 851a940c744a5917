-- ===== src/Interface/Owner.antt =====
-- `yc_attach_child_to_owner` and `yc_realloc` keep the memory sound.
use ycpl.Base.{
  ◌<◌, ◌^◌, ℕ, suc, ◌+◌, ◌≡◌, refl, inl, inr, true, false, some, arith, ◌==◌, if◌then◌else◌,
  Bool-cases, ◌∙◌, ap, ◌>>=◌, Option, none, Bool,
}
use ycpl.Registry.Resize.{Honest}
use ycpl.Interface
use ycpl.Allocation.Allocates.{alloc-Sound}
use ycpl.Address.{header_size, Ptr, null, payload}
use ycpl.Memory.{Memory}
use ycpl.Ownership.{owner_root}
use ycpl.Allocation.{Library, header_of, header_containing_ptr, alloc, release}
use ycpl.Allocation.Sound.{Sound}
use ycpl.Interface.{attach_child, attach_child_to_owner}
use ycpl.Interface.Keeps.{Keeps, release-Sound}
use ycpl.Interface.Attaching.{header_of-live, attach_child_enough}
use ycpl.Interface.Moving.{owner_root-live}
use ycpl.Interface.Rooted.{header_containing_ptr-IsLive}

module _ (lib : Library) (fuel : ℕ) (parent child : Ptr) (m : Memory) where
  owner_no_parent : (parent == null) ≡ true → attach_child_to_owner lib fuel parent child m ≡ some m
  unfolding attach_child_to_owner
  owner_no_parent e = rw e refl

  owner_no_child :
      (c : Ptr)
      → (parent == null) ≡ false
      → header_of child m ≡ some c
      → (c == null) ≡ true
      → attach_child_to_owner lib fuel parent child m ≡ some m
  unfolding attach_child_to_owner
  owner_no_child c e e' e'' = rw (e, e', e'') refl

  -- The rest of the function from each header that it looks up on.
  abbrev with_root : Ptr → Option Memory
  with_root root = if root == null then some m else attach_child lib fuel (payload root) child m

  abbrev with_parent : Ptr → Option Memory
  with_parent h = owner_root fuel m.owner h >>= with_root

  abbrev with_child : Ptr → Option Memory
  with_child c = if c == null then some m else (header_containing_ptr parent m >>= with_parent)

  owner_body :
      attach_child_to_owner lib fuel parent child m
      ≡ (if parent == null then some m else (header_of child m >>= with_child))
  unfolding attach_child_to_owner
  owner_body = refl

  owner_start :
      (parent == null) ≡ false
      → attach_child_to_owner lib fuel parent child m ≡ (header_of child m >>= with_child)
  owner_start e =
      owner_body ∙ ap (λ (b : Bool). if b then some m else (header_of child m >>= with_child)) e

  with_child_lem :
      (c : Ptr)
      → (c == null) ≡ false
      → with_child c ≡ (header_containing_ptr parent m >>= with_parent)
  with_child_lem c e = rw e refl

  owner_found :
      (c h root : Ptr)
      → (parent == null) ≡ false
      → header_of child m ≡ some c
      → (c == null) ≡ false
      → header_containing_ptr parent m ≡ some h
      → owner_root fuel m.owner h ≡ some root
      → attach_child_to_owner lib fuel parent child m ≡ with_root root
  owner_found c h root e e' e'' e₃ e₄ =
      owner_start e
      ∙ ap (λ (o : Option Ptr). o >>= with_child) e'
      ∙ with_child_lem c e''
      ∙ ap (λ (o : Option Ptr). o >>= with_parent) e₃
      ∙ ap (λ (o : Option Ptr). o >>= with_root) e₄

-- `yc_attach_child_to_owner` keeps the memory sound.
pub attach_child_to_owner-Keeps :
    (lib : Library) (parent child : Ptr) (m : Memory)
    → Sound m
    → Keeps (λ fuel. attach_child_to_owner lib fuel parent child m)
attach_child_to_owner-Keeps lib parent child m (children, members, n, width, s) =
    let sound : Sound m = (children, members, n, width, s) in
    let (c, c_run, c_live) = header_of-live child m children members s.tracked in
    let (h, h_run, h_live) = header_containing_ptr-IsLive m children members s.tracked parent in
    let bound = suc (n + n) + suc width + 1 in
    (
      bound + n,
      λ fuel enough. elim (Bool-cases (parent == null)) [
        | inl e ↦ (m, owner_no_parent lib fuel parent child m e, sound)
        | inr e ↦ elim (Bool-cases (c == null)) [
          | inl e' ↦ (m, owner_no_child lib fuel parent child m c e c_run e', sound)
          | inr e' ↦
              let (root', run', live') =
                owner_root-live m children members n width s fuel h h_live (omega arith) in
              let found = owner_found lib fuel parent child m c h root' e c_run e' h_run run' in
              elim (Bool-cases (root' == null)) [
                | inl none_there ↦ (m, found ∙ rw none_there refl, sound)
                | inr there ↦
                    let (m', done, sound') =
                      attach_child_enough lib (payload root') child m children members n width s
                        fuel (omega arith) in
                    (m', found ∙ rw there done, sound')
              ]
        ]
      ],
    )

-- The rest of `yc_realloc` once it has the new block.
abbrev released : ℕ → Ptr → Ptr × Memory → Option (Ptr × Memory)
released fuel ptr (next, m) =
    if next == null then some (null, m) else (release fuel ptr m >>= λ m'. some (next, m'))

abbrev renewed : Library → ℕ → Ptr → ℕ → Memory → Ptr → Option (Ptr × Memory)
renewed lib fuel ptr size m h =
    if h == null then some (null, m) else (alloc lib size m >>= released fuel ptr)

realloc_body :
    (lib : Library) (fuel : ℕ) (ptr : Ptr) (size : ℕ) (m : Memory)
    → Interface.realloc lib fuel ptr size m ≡ (
        if ptr == null then alloc lib size m else (header_of ptr m >>= renewed lib fuel ptr size m))
unfolding Interface.realloc
realloc_body lib fuel ptr size m = refl

realloc_lem :
    (lib : Library) (fuel : ℕ) (ptr : Ptr) (size : ℕ) (m : Memory) (h : Ptr)
    → (ptr == null) ≡ false
    → header_of ptr m ≡ some h
    → Interface.realloc lib fuel ptr size m ≡ renewed lib fuel ptr size m h
realloc_lem lib fuel ptr size m h e e' =
    realloc_body lib fuel ptr size m
    ∙ ap
        (λ (b : Bool).
          if b then alloc lib size m else (header_of ptr m >>= renewed lib fuel ptr size m))
        e
    ∙ ap (λ (o : Option Ptr). o >>= renewed lib fuel ptr size m) e'

realloc-null :
    (lib : Library) (fuel : ℕ) (ptr : Ptr) (size : ℕ) (m : Memory)
    → (ptr == null) ≡ true
    → Interface.realloc lib fuel ptr size m ≡ alloc lib size m
unfolding Interface.realloc
realloc-null lib fuel ptr size m e = rw e refl

-- What an allocation asks of the C library: memory for the frames, blocks in order for the registry,
-- and blocks that are not in use.
pub record IsServed (lib : Library) (size : ℕ) (m : Memory) : Type 0 where
  pub granted : (k : ℕ) → lib.realloc k ≡ true
  pub honest : Honest lib.calloc
  pub small : m.current_frame < 2 ^ 32
  pub fresh : (h : Ptr) → lib.malloc (header_size + size) ≡ some h → (m.magic h ≡ false) × (1 < h)

pub alloc-Keeps :
    (lib : Library) (size : ℕ) (m : Memory)
    → Sound m
    → IsServed lib size m
    → (p : Ptr) × (m' : Memory) × (alloc lib size m ≡ some (p, m')) × Sound m'
alloc-Keeps lib size m (children, members, n, width, s) served =
    alloc-Sound lib size m children members n width s served.granted served.honest served.small
      served.fresh

-- The memory that comes with an address.
abbrev pub stored : Option (Ptr × Memory) → Option Memory
stored none = none
stored (some (p, m)) = some m

-- `yc_realloc` keeps the memory sound.
pub realloc-Keeps :
    (lib : Library) (ptr : Ptr) (size : ℕ) (m : Memory)
    → Sound m
    → IsServed lib size m
    → Keeps (λ fuel. stored (Interface.realloc lib fuel ptr size m))
realloc-Keeps lib ptr size m sound served =
    let (children, members, n, width, s) = sound in
    let (h, found, live) = header_of-live ptr m children members s.tracked in
    let (next, m', run, sound') = alloc-Keeps lib size m sound served in
    let (bound, keeps) = release-Sound ptr m' sound' in
    (
      bound,
      λ fuel enough. elim (Bool-cases (ptr == null)) [
        | inl e ↦ (m', ap stored (realloc-null lib fuel ptr size m e ∙ run), sound')
        | inr e ↦
            let start = realloc_lem lib fuel ptr size m h e found in
            elim (Bool-cases (h == null)) [
              | inl none_there ↦ (m, ap stored start ∙ rw none_there refl, sound)
              | inr there ↦ elim (Bool-cases (next == null)) [
                | inl refused ↦ (m', ap stored start ∙ rw (there, run, refused) refl, sound')
                | inr given ↦
                    let (m'', done, sound'') = keeps fuel enough in
                    (m'', ap stored start ∙ rw (there, run, given, done) refl, sound'')
              ]
            ]
      ],
    )
