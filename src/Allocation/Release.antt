-- ===== src/Allocation/Release.antt =====
-- `yc_release_header` over the tracked headers: what is below the header leaves with it.
use mathlib.Core.Path.{subst}
use ycpl.Base.{
  ℕ, zero, suc, ◌<◌, ◌≡◌, refl, sym, ap, ◌≢◌, inl, inr, true, false, Option, some, List, [], ◌∷◌,
  arith, ◌==◌, Bool-cases, ◌∙◌, length,
}
use ycpl.Address.{Ptr, null}
use ycpl.Links.Chain.{has, Chain}
use ycpl.Memory.{Memory}
use ycpl.Memory.Owners.{IsOwned}
use ycpl.Allocation.{release_children}
use ycpl.Allocation.Tracked.{IsTracked}
use ycpl.Allocation.Below.{Below, same, up, Below-trans, Below-root, Cut, Below-Cut, Cut-Below}
use ycpl.Allocation.Released.{
  IsKept, Released, Emptied, Shrunk-trans, Shrunk-refl, Released-Cut, release_children_end,
  release_children_next, Falls, Narrow,
}

pub first_in :
    (next prev : Ptr → Ptr) (b p : Ptr) (xs : List Ptr)
    → Chain next prev b p xs
    → (p == null) ≡ false
    → has p xs ≡ true
first_in next prev b p [] c e = absurd (ground arith)
first_in next prev b p (x ∷ xs) c e = ground (arith, c.0)

none_in :
    (next prev : Ptr → Ptr) (b p x : Ptr) (xs : List Ptr)
    → Chain next prev b p xs
    → (p == null) ≡ true
    → has x xs ≡ false
none_in next prev b p x [] c e = refl
none_in next prev b p x (y ∷ ys) (here, real, back, c) e = absurd (ground arith)

-- The first child of a header with children.
first_child_owned :
    (h : Ptr) (m : Memory) (children : Ptr → List Ptr)
    → IsOwned m children
    → (m.first_child h == null) ≡ false
    → m.owner (m.first_child h) ≡ h
first_child_owned h m children (family, roots, complete) more =
    family.1 h (m.first_child h) (
      first_in m.sibling_next m.sibling_prev null (m.first_child h) (children h) (family.0 h).0
        more)

-- A header without first child has no children below it.
pub childless :
    (h : Ptr) (m : Memory) (children : Ptr → List Ptr)
    → IsOwned m children
    → (m.first_child h == null) ≡ true
    → (x : Ptr) → Below m.owner h x
    → x ≡ h
childless h m children owned e x same = refl
childless h m children owned e x (up has_owner below) =
    let above : m.owner x ≡ h = childless h m children owned e (m.owner x) below in
    let inside : has x (children h) ≡ true =
      subst (λ p. has x (children p) ≡ true) above (owned.2 x has_owner) in
    absurd (
      ground (
        arith,
        none_in m.sibling_next m.sibling_prev null (m.first_child h) x (children h) (owned.0.0 h).0
            e,
      ))

module _ (height : Ptr → ℕ) (width : ℕ) where
  -- What holds where a release starts.
  abbrev pub IsReady : Memory → (Ptr → List Ptr) → (ℕ → List Ptr) → Type 0
  IsReady m children members =
      IsTracked m children members × Falls height m.owner × Narrow width children

  -- A release of `h` ends well.
  abbrev pub Releases : Ptr → Memory → (Ptr → List Ptr) → (ℕ → List Ptr) → Option Memory → Type 0
  Releases h m children members r =
      (m' : Memory) × (children' : Ptr → List Ptr) × (members' : ℕ → List Ptr) × (r ≡ some m')
      × IsReady m' children' members'
      × Released h m m' children children' members members'

  abbrev Empties : Ptr → Memory → (Ptr → List Ptr) → (ℕ → List Ptr) → Option Memory → Type 0
  Empties h m children members r =
      (m' : Memory) × (children' : Ptr → List Ptr) × (members' : ℕ → List Ptr) × (r ≡ some m')
      × IsReady m' children' members'
      × Emptied h m m' children children' members members'

  -- A child that leaves a root, and then the others.
  module _ (h c : Ptr) (m m' m'' : Memory) (kids kids' kids'' : Ptr → List Ptr)
      (members members' members'' : ℕ → List Ptr) (real : h ≢ null) (root : m.owner h ≡ null)
      (mine : m.owner c ≡ h) (first : Released c m m' kids kids' members members') where
    cut : Cut m.owner c m'.owner
    cut = Released-Cut c m m' kids kids' members members' first

    owner-IsKept : IsKept m m' h
    owner-IsKept = elim (first.kept h) [
      | inl kept ↦ kept
      | inr below ↦
          let own : m.owner h ≡ h = ap m.owner (Below-root m.owner c h root below) ∙ mine in
          absurd (real (sym own ∙ root))
    ]

    child-Below : Below m.owner h c
    child-Below =
        up (λ none_there. real (sym mine ∙ none_there)) (subst (Below m.owner h) (sym mine) same)

    then_Emptied :
        Emptied h m' m'' kids' kids'' members' members''
        → Emptied h m m'' kids kids'' members members''
    then_Emptied rest = record {
      gone = λ x below. elim (Below-Cut m.owner m'.owner c h x cut below) [
        | inr still ↦ rest.gone x still
        | inl part ↦ elim (rest.kept x) [
          | inr still ↦ rest.gone x still
          | inl (marked, owner) ↦
              let (dead, alone) = first.gone x part in inr (marked ∙ dead, owner ∙ alone)
        ]
      ];
      kept = λ x. elim (rest.kept x) [
        | inr still ↦ inr (Cut-Below m.owner m'.owner c h x cut still)
        | inl (marked, owner) ↦ elim (first.kept x) [
          | inl (marked', owner') ↦ inl (marked ∙ marked', owner ∙ owner')
          | inr part ↦ inr (Below-trans m.owner h c x child-Below part)
        ]
      ];
      own = (rest.own.0 ∙ owner-IsKept.0, rest.own.1 ∙ owner-IsKept.1);
      bare = rest.bare;
      shrunk = Shrunk-trans first.shrunk rest.shrunk;
    }

  pub release_children-Emptied :
      (release : Ptr → Memory → Option Memory) (fuel : ℕ) (h : Ptr) (m : Memory)
      (children : Ptr → List Ptr) (members : ℕ → List Ptr)
      → ((c : Ptr) (k : Memory) (kids : Ptr → List Ptr) (framed : ℕ → List Ptr)
          → IsReady k kids framed
          → k.magic c ≡ true
          → height c < height h
          → Releases c k kids framed (release c k))
      → IsReady m children members
      → h ≢ null
      → m.owner h ≡ null
      → length (children h) < fuel
      → Empties h m children members (release_children release fuel h m)
  release_children-Emptied release zero h m children members visits ready real root enough =
      absurd (omega arith)
  release_children-Emptied release (suc fuel) h m children members visits ready real root enough =
      elim (Bool-cases (m.first_child h == null)) [
        | inl e ↦ (
          m,
          children,
          members,
          release_children_end release fuel h m e,
          ready,
          record {
            gone = λ x below. inl (childless h m children ready.0.owned e x below);
            kept = λ x. inl (refl, refl);
            own = (refl, refl);
            bare = e;
            shrunk = Shrunk-refl;
          },
        )
        | inr e ↦
            let c = m.first_child h in
            let mine = first_child_owned h m children ready.0.owned e in
            let owned : m.owner c ≢ null = λ none_there. real (sym mine ∙ none_there) in
            let (m', kids', members', run, ready', first) =
              visits c m children members ready (ready.0.owners_live c owned).0
                (subst (λ p. height c < height p) mine (ready.1 c owned)) in
            let kept =
              owner-IsKept h c m m' m' children kids' kids' members members' members' real root mine
                first in
            let less : length (kids' h) < length (children h) =
              subst (λ p. length (kids' p) < length (children p)) mine (first.disowned owned) in
            let (m'', kids'', members'', run', ready'', rest) =
              release_children-Emptied release fuel h m' kids' members' visits ready' real
                (kept.1 ∙ root) (omega arith) in
            (
              m'',
              kids'',
              members'',
              release_children_next release fuel h m m' e run ∙ run',
              ready'',
              then_Emptied h c m m' m'' children kids' kids'' members members' members'' real root
                  mine first rest,
            )
      ]
