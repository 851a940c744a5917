-- ===== src/Memory/Owners.antt =====
-- The lists of children: `yc_detach_owner` and `yc_link_owner` before its move.
use mathlib.Core.Path.{subst}
use ycpl.Base.{
  ◌≡◌, refl, sym, ◌≢◌, inl, inr, true, false, List, [], arith, ◌==◌, Bool-cases, eq_of_==, ==_refl,
  ◌∙◌,
}
use ycpl.Address.{Ptr, null}
use ycpl.Links.{update, push_front, unlink}
use ycpl.Links.Chain.{has, update_here, update_away}
use ycpl.Links.Family.{
  Family, joined, left_by, push_front-Family, unlink-Family, left_by-out, left_by-stays,
  joined-stays,
}
use ycpl.Memory.{Memory, child_list, detach_owner}
use ycpl.Ownership.{owned_by}

-- Each owner has a list of its children, and who has an owner is in its list.
abbrev pub IsOwned : Memory → (Ptr → List Ptr) → Type 0
IsOwned m children =
    Family m.sibling_next m.sibling_prev m.first_child m.owner children
    × (children null ≡ [])
    × ((h : Ptr) → m.owner h ≢ null → has h (children (m.owner h)) ≡ true)

-- A header without owner leaves no list.
left_by-root :
    (h : Ptr) (o : Ptr) (children : Ptr → List Ptr)
    → (o == null) ≡ true
    → children null ≡ []
    → (k : Ptr) → left_by h o children k ≡ children k
left_by-root h o children e roots k = elim (Bool-cases (k == o)) [
  | inl e' ↦
      let same : k ≡ null = ground arith in
      let none_there : children k ≡ [] = rw same roots in rw (e', none_there) refl
  | inr e' ↦ rw e' refl
]

-- `yc_detach_owner` takes a header out of its owner's list and leaves the other children alone.
pub detach_owner-IsOwned :
    (h : Ptr) (m : Memory) (children : Ptr → List Ptr)
    → IsOwned m children
    → h ≢ null
    → IsOwned (detach_owner h m) (left_by h (m.owner h) children)
      × ((x : Ptr) → (detach_owner h m).owner x ≡ update m.owner h null x)
unfolding detach_owner
detach_owner-IsOwned h m children (family, roots, complete) real =
    let real' : (h == null) ≡ false = ground arith in
    let no_owner_kept : (x : Ptr)
        → (m.owner h == null) ≡ true
        → m.owner x ≡ update m.owner h null x =
      λ x e'. elim (Bool-cases (x == h)) [
        | inl here ↦
            rw (eq_of_== x h here) (eq_of_== (m.owner h) null e' ∙ sym (update_here m.owner h null))
        | inr away ↦ sym (update_away m.owner h null x away)
      ] in
    elim (Bool-cases (m.owner h == null)) [
      | inl e ↦
          let left = left_by-root h (m.owner h) children e roots in
          rw (real', e)
            ((
              (
                (λ k. rw (left k) (family.0 k), λ k x i. family.1 k x (rw (left k) at i)),
                rw (left null) roots,
                λ x owned. rw (left (m.owner x)) (complete x owned),
              ),
              λ x. no_owner_kept x e,
            ))
      | inr e ↦
          rw (real', e)
            ((
              (
                unlink-Family m.sibling_next m.sibling_prev m.first_child m.owner children family h
                    (m.owner h)
                    (update m.first_child (m.owner h) (unlink h (child_list (m.owner h) m)).head)
                    (update m.owner h null)
                    (λ j e'.
                      update_away m.first_child (m.owner h)
                        (unlink h (child_list (m.owner h) m)).head j e')
                    (λ x e'. update_away m.owner h null x e') (complete h (ground arith))
                    (update_here m.first_child (m.owner h)
                      (unlink h (child_list (m.owner h) m)).head),
                (let away : (null == m.owner h) ≡ false = ground arith in rw away roots),
                λ x owned. elim (Bool-cases (x == h)) [
                  | inl here ↦ absurd (
                      owned (
                        subst (λ y. update m.owner h null y ≡ null) (sym (eq_of_== x h here))
                          (update_here m.owner h null)))
                  | inr away ↦ rw (update_away m.owner h null x away) (
                      left_by-stays m.sibling_next m.sibling_prev m.first_child m.owner children
                        family h (m.owner x) x away
                        (complete x
                          λ none_there. owned (update_away m.owner h null x away ∙ none_there)))
                ],
              ),
              λ x. refl,
            ))
    ]

-- `yc_link_owner`, up to the move of the graph, makes the header the first child of its new owner
-- and takes it from the one before; no other header changes its owner.
pub owned_by-IsOwned :
    (owner child : Ptr) (m : Memory) (children : Ptr → List Ptr)
    → IsOwned m children
    → owner ≢ null
    → child ≢ null
    → IsOwned (owned_by owner child m) (joined child owner (left_by child (m.owner child) children))
      × ((x : Ptr) → (owned_by owner child m).owner x ≡ update m.owner child owner x)
unfolding owned_by push_front
owned_by-IsOwned owner child m children owned real real' =
    let detached = detach_owner-IsOwned child m children owned real' in
    let m' = detach_owner child m in
    let left = left_by child (m.owner child) children in
    let out =
      left_by-out m.sibling_next m.sibling_prev m.first_child m.owner children owned.0 child in
    (
      (
        push_front-Family m'.sibling_next m'.sibling_prev m'.first_child m'.owner left detached.0.0
            child owner (update m'.first_child owner child) (update m'.owner child owner)
            (λ j e. update_away m'.first_child owner child j e)
            (λ x e. update_away m'.owner child owner x e) real' out
            (update_here m'.first_child owner child) (update_here m'.owner child owner),
        (let away : (null == owner) ≡ false = ground arith in rw away detached.0.1),
        λ x has_owner. elim (Bool-cases (x == child)) [
          | inl e ↦
              rw (eq_of_== x child e, update_here m'.owner child owner)
                (rw (==_refl owner, ==_refl child) refl)
          | inr e ↦ rw (update_away m'.owner child owner x e) (
              joined-stays child owner left (m'.owner x) x (
                detached.0.2 x
                  λ none_there. has_owner (update_away m'.owner child owner x e ∙ none_there)))
        ],
      ),
      λ x. elim (Bool-cases (x == child)) [
        | inl e ↦
            rw (eq_of_== x child e)
              (update_here m'.owner child owner ∙ sym (update_here m.owner child owner))
        | inr e ↦
            update_away m'.owner child owner x e
            ∙ detached.1 x
            ∙ update_away m.owner child null x e
            ∙ sym (update_away m.owner child owner x e)
      ],
    )
