-- ===== src/Allocation/Fresh.antt =====
-- What `yc_alloc` writes into the fields of a new header, over the forest of headers.
use mathlib.Core.Path.{subst}
use mathlib.Core.Bool.{true≢false}
use ycpl.Base.{
  ℕ, suc, ◌<◌, ◌^◌, ◌≡◌, refl, sym, ◌≢◌, ◌⊎◌, inl, inr, Bool, true, false, ◌||◌, some, List, [],
  arith, ◌==◌, Bool-cases, eq_of_==, ◌∙◌, get_or,
}
use ycpl.Address.{Ptr, null}
use ycpl.Links.{update}
use ycpl.Links.Chain.{has, Chain, Chain-same, update_here, update_away, apart_from}
use ycpl.Links.Family.{Family, joined, joined-stays, joined-has}
use ycpl.Links.Leave.{joined-was}
use ycpl.Memory.{Memory, link, frame_link}
use ycpl.Memory.Frames.{IsFramed, Refused}
use ycpl.Memory.Linked.{frame_link-Linked}
use ycpl.Memory.Owners.{IsOwned}
use ycpl.Ownership.Roots.{IsRooted, update-IsRooted}
use ycpl.Ownership.Attach.{IsForest}
use ycpl.Allocation.{new_header}

-- A live header of `size` bytes with neither owner nor child, at the head of all allocations.
abbrev pub IsHeader : Ptr → ℕ → Memory → Type 0
IsHeader h size m =
    (m.size h ≡ size)
    × (m.magic h ≡ true)
    × (m.owner h ≡ null)
    × (m.first_child h ≡ null)
    × (m.head ≡ h)

-- A family of lists does not notice what is written into a header of no list.
Family-write :
    (next prev : Ptr → Ptr) (heads : ℕ → Ptr) (kin : Ptr → ℕ) (members : ℕ → List Ptr) (h : Ptr)
    (heads' : ℕ → Ptr) (v w : Ptr) (kin' : Ptr → ℕ)
    → Family next prev heads kin members
    → ((k : ℕ) → has h (members k) ≡ false)
    → ((k : ℕ) → heads' k ≡ heads k)
    → ((x : Ptr) → (x == h) ≡ false → kin' x ≡ kin x)
    → Family (update next h v) (update prev h w) heads' kin' members
Family-write next prev heads kin members h heads' v w kin' family out same_heads same_kin =
    let away = λ (k : ℕ) (x : Ptr) (i : has x (members k) ≡ true).
      let e = apart_from h x (members k) (out k) i in
      let turned : (x == h) ≡ false = ground arith in turned in
    (
      λ k. (
        rw (same_heads k) (
            Chain-same null (heads k) (members k)
              (λ x i. (update_away next h v x (away k x i), update_away prev h w x (away k x i)))
              (family.0 k).0),
        (family.0 k).1,
      ),
      λ k x i. same_kin x (away k x i) ∙ family.1 k x i,
    )

module _ (live : Ptr → Bool) (m : Memory) (children : Ptr → List Ptr) (n width : ℕ)
    (forest : IsForest live m children n width) (h : Ptr) (size : ℕ) (new : live h ≡ false)
    (real : h ≢ null) (childless : children h ≡ []) where
  abbrev pub entered : Memory
  entered = link h (new_header h size m)

  -- A header that does not live is nobody's child.
  not_child : (p : Ptr) → has h (children p) ≡ false
  not_child p = elim (Bool-cases (has h (children p))) [
    | inr out ↦ out
    | inl inside ↦
        let key = forest.owned.0.1 p h inside in
        let alive = forest.owners_live h λ e.
          let none_there : has h (children null) ≡ false =
            subst (λ xs. has h xs ≡ false) (sym forest.owned.1) refl in
          let some_there : has h (children null) ≡ true =
            subst (λ q. has h (children q) ≡ true) (sym key ∙ e) inside in
          absurd (true≢false (sym some_there ∙ none_there)) in
        absurd (true≢false (sym alive ∙ new))
  ]

  first_child_kept : (p : Ptr) → update m.first_child h null p ≡ m.first_child p
  first_child_kept p = elim (Bool-cases (p == h)) [
    | inr e ↦ update_away m.first_child h null p e
    | inl e ↦
        let empty : m.first_child h ≡ null =
          subst (λ xs. Chain m.sibling_next m.sibling_prev null (m.first_child h) xs) childless
            (forest.owned.0.0 h).0 in
        rw (eq_of_== p h e) (update_here m.first_child h null ∙ sym empty)
  ]

  pub entered-IsOwned : IsOwned entered children
  unfolding link new_header
  entered-IsOwned = (
    Family-write m.sibling_next m.sibling_prev m.first_child m.owner children h
        (update m.first_child h null) null null (update m.owner h null) forest.owned.0 not_child
        first_child_kept (λ x e. update_away m.owner h null x e),
    forest.owned.1,
    λ x owned. elim (Bool-cases (x == h)) [
      | inl e ↦ absurd (owned (rw (eq_of_== x h e) (update_here m.owner h null)))
      | inr e ↦
          rw (update_away m.owner h null x e)
            (forest.owned.2 x λ none_there. owned (update_away m.owner h null x e ∙ none_there))
    ],
  )

  pub entered-IsFramed :
      (members : ℕ → List Ptr)
      → IsFramed m members
      → ((f : ℕ) → has h (members f) ≡ false)
      → IsFramed entered members
  unfolding link new_header
  entered-IsFramed members framed out =
      Family-write m.frame_next m.frame_prev (λ f. get_or m.frame_heads f null) m.frame members h
        (λ f. get_or m.frame_heads f null) null null m.frame framed out (λ k. refl) (λ x e. refl)

  pub entered-IsRooted : (x : Ptr) → IsRooted entered.owner (suc n) x
  unfolding link new_header
  entered-IsRooted x =
      update-IsRooted m.owner n 0 (suc n) h null x refl (λ above. above) (forest.rooted x)
        (omega arith)

  pub entered-owners : (x : Ptr) → entered.owner x ≢ null → live x ≡ true
  unfolding link new_header
  entered-owners x owned = elim (Bool-cases (x == h)) [
    | inl e ↦ absurd (owned (rw (eq_of_== x h e) (update_here m.owner h null)))
    | inr e ↦ forest.owners_live x λ none_there. owned (update_away m.owner h null x e ∙ none_there)
  ]

  pub entered_frame : (x : Ptr) → entered.frame x ≡ m.frame x
  unfolding link new_header
  entered_frame x = refl

  pub entered_heads :
      (entered.frame_heads ≡ m.frame_heads) × (entered.current_frame ≡ m.current_frame)
  unfolding link new_header
  entered_heads = (refl, refl)

  entered-Refused :
      (realloc : ℕ → Bool)
      → Refused realloc entered.current_frame entered
      → Refused realloc m.current_frame m
  unfolding link new_header
  entered-Refused realloc refused = refused

  -- What the frames do not concern.
  abbrev pub IsKept : Memory → Type 0
  IsKept m' = (m'.registry ≡ m.registry) × (m'.ranges ≡ m.ranges) × IsHeader h size m'

  entered-IsKept : IsKept entered
  unfolding link new_header
  entered-IsKept = (
    refl,
    refl,
    (
      update_here m.size h size,
      update_here m.magic h true,
      update_here m.owner h null,
      update_here m.first_child h null,
      refl,
    ),
  )

  -- The headers that live once `h` does.
  abbrev pub with_new : Ptr → Bool
  with_new x = (x == h) || live x

  -- The forest after the header entered the list of its frame.
  pub frame_link-IsForest :
      (realloc : ℕ → Bool)
      → ((f : ℕ) → has h (forest.placed.0 f) ≡ false)
      → m.current_frame < 2 ^ 32
      → ((m' : Memory) × (frame_link realloc h entered.current_frame entered ≡ some m')
          × IsForest with_new m' children (suc n) width
          × (m'.frame h ≡ m.current_frame)
          × IsKept m')
        ⊎ ((frame_link realloc h entered.current_frame entered ≡ some entered)
            × IsKept entered
            × IsFramed entered forest.placed.0
            × Refused realloc m.current_frame m)
  frame_link-IsForest realloc out small =
      let members = forest.placed.0 in
      let placed = forest.placed.1 in
      let small' : entered.current_frame < 2 ^ 32 = rw entered_heads.1 small in
      elim (frame_link-Linked realloc h entered.current_frame entered members
        (entered-IsFramed members placed.0 out) real out small') [
          | inr (e, beyond) ↦ inr (
            e,
            entered-IsKept,
            entered-IsFramed members placed.0 out,
            entered-Refused realloc beyond,
          )
          | inl (m', e, linked) ↦
              let (fr, fp, fn, heads, same) = linked.rest in
              inl (
                m',
                e,
                record {
                  owned = subst (λ k. IsOwned k children) (sym same) entered-IsOwned;
                  rooted =
                      λ x. subst (λ k. IsRooted k.owner (suc n) x) (sym same) (entered-IsRooted x);
                  placed = (
                    joined h entered.current_frame members,
                    (
                      linked.framed,
                      λ x alive. elim (Bool-cases (x == h)) [
                        | inl here ↦
                            rw (eq_of_== x h here, linked.own)
                              (joined-has h entered.current_frame members)
                        | inr away ↦
                            rw (linked.elsewhere x away, entered_frame x)
                              (joined-stays h entered.current_frame members (m.frame x) x
                                (placed.1 x (ground arith)))
                      ],
                      λ f x there. elim (joined-was h entered.current_frame f x members there) [
                        | inl here ↦ rw here (ground arith)
                        | inr stays ↦ ground (arith, placed.2 f x stays)
                      ],
                    ),
                  );
                  narrow = forest.narrow;
                  owners_live = λ x.
                      subst (λ k. k.owner x ≢ null → with_new x ≡ true) (sym same)
                        (λ owned. ground (arith, entered-owners x owned));
                },
                linked.own ∙ entered_heads.1,
                subst IsKept (sym same) entered-IsKept,
              )
        ]
