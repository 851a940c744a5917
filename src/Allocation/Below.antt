-- ===== src/Allocation/Below.antt =====
-- The headers below a header along the owners, through a release of a part of them.
use mathlib.Core.Path.{subst}
use ycpl.Base.{sym, ◌∙◌, ◌==◌, Bool-cases, eq_of_==, ◌≡◌, refl, ◌≢◌, ◌⊎◌, inl, inr, false}
use ycpl.Address.{Ptr, null}

-- `h` itself, and whose owner is below `h`.
pub data Below (owner : Ptr → Ptr) (h : Ptr) : Ptr → Type 0 where
  same : Below owner h h
  up : {x : Ptr} → owner x ≢ null → Below owner h (owner x) → Below owner h x

pub Below-cases :
    (owner : Ptr → Ptr) (h x : Ptr)
    → Below owner h x
    → (x ≡ h) ⊎ ((owner x ≢ null) × Below owner h (owner x))
Below-cases owner h x same = inl refl
Below-cases owner h x (up owned below) = inr (owned, below)

pub Below-trans :
    (owner : Ptr → Ptr) (h c x : Ptr) → Below owner h c → Below owner c x → Below owner h x
Below-trans owner h c x above same = above
Below-trans owner h c x above (up owned below) =
    up owned (Below-trans owner h c (owner x) above below)

-- A root is below itself only.
pub Below-root : (owner : Ptr → Ptr) (c h : Ptr) → owner h ≡ null → Below owner c h → h ≡ c
Below-root owner c h root below = elim (Below-cases owner c h below) [
  | inl e ↦ e
  | inr (owned, b) ↦ absurd (owned root)
]

-- A release of `c` leaves the owners, but of what is below `c`, which has none after it.
abbrev pub Cut : (Ptr → Ptr) → Ptr → (Ptr → Ptr) → Type 0
Cut owner c owner' = (x : Ptr) → (owner' x ≡ owner x) ⊎ (Below owner c x × (owner' x ≡ null))

-- What is below `h` is below `c`, or still below `h`.
pub Below-Cut :
    (owner owner' : Ptr → Ptr) (c h x : Ptr)
    → Cut owner c owner'
    → Below owner h x
    → Below owner c x ⊎ Below owner' h x
Below-Cut owner owner' c h x cut same = inr same
Below-Cut owner owner' c h x cut (up owned below) =
    elim (Below-Cut owner owner' c h (owner x) cut below) [
      | inl part ↦ inl (up owned part)
      | inr still ↦ elim (cut x) [
        | inr (part, e) ↦ inl part
        | inl e ↦
            inr
              (up (λ none_there. owned (sym e ∙ none_there)) (subst (Below owner' h) (sym e) still))
      ]
    ]

-- What is below `h` after it was so before.
pub Cut-Below :
    (owner owner' : Ptr → Ptr) (c h x : Ptr)
    → Cut owner c owner'
    → Below owner' h x
    → Below owner h x
Cut-Below owner owner' c h x cut same = same
Cut-Below owner owner' c h x cut (up owned below) = elim (cut x) [
  | inr (part, e) ↦ absurd (owned e)
  | inl e ↦
      let before = Cut-Below owner owner' c h (owner' x) cut below in
      up (λ none_there. owned (e ∙ none_there)) (subst (Below owner h) e before)
]

-- A header that becomes a root keeps what is below it.
pub root-Below :
    (owner owner' : Ptr → Ptr) (h x : Ptr)
    → ((x : Ptr) → (x == h) ≡ false → owner' x ≡ owner x)
    → Below owner h x
    → Below owner' h x
root-Below owner owner' h x others same = same
root-Below owner owner' h x others (up owned below) = elim (Bool-cases (x == h)) [
  | inl e ↦ subst (Below owner' h) (sym (eq_of_== x h e)) same
  | inr e ↦
      let kept = others x e in
      up (λ none_there. owned (sym kept ∙ none_there))
        (subst (Below owner' h) (sym kept) (root-Below owner owner' h (owner x) others below))
]
