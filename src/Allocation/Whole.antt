-- ===== src/Allocation/Whole.antt =====
-- `yc_release_header` and `yc_release` from end to end over the tracked headers.
use mathlib.Core.Path.{subst}
use ycpl.Base.{
  ℕ, zero, suc, ◌+◌, ◌<◌, ◌≡◌, sym, ap, ◌≢◌, ◌⊎◌, inl, inr, true, false, List, arith, ◌==◌,
  Bool-cases, eq_of_==, ◌∙◌, length,
}
use ycpl.Address.{Ptr, null}
use ycpl.Links.Family.{left_by}
use ycpl.Links.Leave.{length-left_by, left_by-less}
use ycpl.Memory.{Memory, detach_owner}
use ycpl.Allocation.{release_header}
use ycpl.Allocation.Tracked.{IsTracked, Forgotten, forget_header-Forgotten}
use ycpl.Allocation.Detached.{Detached, detach_owner-Detached}
use ycpl.Allocation.Below.{Below, same, up, root-Below}
use ycpl.Allocation.Released.{
  IsFreed, IsKept, Released, Emptied, Released-Cut, release_header_lem, Cut-Falls,
}
use ycpl.Allocation.Release.{IsReady, Releases, childless, release_children-Emptied}

module _ (h : Ptr) (m₀ m m' m'' : Memory) (kids kids' : Ptr → List Ptr)
    (members members' members'' : ℕ → List Ptr) (real : h ≢ null)
    (tracked : IsTracked m₀ kids members) (detached : Detached h m₀ m kids members)
    (emptied : Emptied h m m' (left_by h (m₀.owner h) kids) kids' members members')
    (forgotten : Forgotten h m' m'' members' members'') where
  -- Who is below the header was so while it still had its owner.
  was-Below : (x : Ptr) → Below m.owner h x → Below m₀.owner h x
  was-Below x below = root-Below m.owner m₀.owner h x (λ y away. sym (detached.others y away)) below

  all-IsFreed : (x : Ptr) → Below m₀.owner h x → IsFreed m'' x
  all-IsFreed x below =
      elim (emptied.gone x (root-Below m₀.owner m.owner h x detached.others below)) [
        | inr (dead, alone) ↦
            (forgotten.magic x ∙ ground (arith, dead), ap (λ f. f x) forgotten.owner ∙ alone)
        | inl own ↦
            let here : (x == h) ≡ true = ground arith in
            (
              forgotten.magic x ∙ ground arith,
              ap (λ f. f x) forgotten.owner ∙ ap m'.owner own ∙ emptied.own.1 ∙ detached.root,
            )
      ]

  all-IsKept : (x : Ptr) → IsKept m₀ m'' x ⊎ Below m₀.owner h x
  all-IsKept x = elim (Bool-cases (x == h)) [
    | inl e ↦ inr (subst (Below m₀.owner h) (sym (eq_of_== x h e)) same)
    | inr e ↦ elim (emptied.kept x) [
      | inr below ↦ inr (was-Below x below)
      | inl (marked, owner) ↦
          let unmoved : m''.magic x ≡ m'.magic x = forgotten.magic x ∙ ground arith in
          inl (
            unmoved ∙ marked ∙ ap (λ f. f x) detached.magic,
            ap (λ f. f x) forgotten.owner ∙ owner ∙ detached.others x e,
          )
    ]
  ]

  all_Released : Released h m₀ m'' kids kids' members members''
  all_Released = record {
    gone = all-IsFreed;
    kept = all-IsKept;
    shrunk = record {
      frame = λ x. forgotten.frame x ∙ emptied.shrunk.frame x ∙ ap (λ f. f x) detached.frame;
      current = forgotten.current ∙ emptied.shrunk.current ∙ detached.current;
      fewer_children =
          λ p. omega (arith, emptied.shrunk.fewer_children p, length-left_by h (m₀.owner h) p kids);
      fewer_members = λ f. omega (arith, forgotten.fewer f, emptied.shrunk.fewer_members f);
    };
    disowned = λ owned. omega (
      arith,
      emptied.shrunk.fewer_children (m₀.owner h),
      left_by-less h (m₀.owner h) kids (tracked.owned.2 h owned),
    );
    unframed =
        let own : m'.frame h ≡ m₀.frame h = emptied.shrunk.frame h ∙ ap (λ f. f h) detached.frame in
        let less : length (members'' (m₀.frame h)) < length (members' (m₀.frame h)) =
          subst (λ f. length (members'' f) < length (members' f)) own forgotten.shorter in
        omega (arith, emptied.shrunk.fewer_members (m₀.frame h));
  }

module _ (height : Ptr → ℕ) (width : ℕ) where
  Detached-IsReady :
      (h : Ptr) (m m' : Memory) (children : Ptr → List Ptr) (members : ℕ → List Ptr)
      → IsReady height width m children members
      → Detached h m m' children members
      → IsReady height width m' (left_by h (m.owner h) children) members
  Detached-IsReady h m m' children members (t, falls, narrow) d = (
    d.tracked,
    λ x owned.
        let away : (x == h) ≡ false = elim (Bool-cases (x == h)) [
          | inr e ↦ e
          | inl e ↦ absurd (owned (ap m'.owner (eq_of_== x h e) ∙ d.root))
        ] in
        rw (d.others x away) (falls x λ none_there. owned (d.others x away ∙ none_there)),
    λ p. omega (arith, length-left_by h (m.owner h) p children, narrow p),
  )

  -- `yc_release_header` ends, when the fuel is more than the header's height and the number of
  -- children that one header has. It frees the header and all below it, and nothing else: what it
  -- frees is in no list and no index any more, and the other headers stay as they are.
  pub release_header-Released :
      (fuel : ℕ) (h : Ptr) (m : Memory) (children : Ptr → List Ptr) (members : ℕ → List Ptr)
      → IsReady height width m children members
      → m.magic h ≡ true
      → height h + width + 1 < fuel
      → Releases height width h m children members (release_header fuel h m)
  release_header-Released zero h m children members ready alive enough = absurd (omega arith)
  release_header-Released (suc fuel) h m children members ready alive enough =
      let real : h ≢ null = λ e. absurd (omega (arith, ready.0.real h alive, e)) in
      let d = detach_owner-Detached h m children members ready.0 real in
      let m₁ = detach_owner h m in
      let left = left_by h (m.owner h) children in
      let ready₁ = Detached-IsReady h m m₁ children members ready d in
      let (m₂, kids, members₂, run, ready₂, emptied) =
        release_children-Emptied height width (λ c k. release_header fuel c k) fuel h m₁ left
          members
          (λ c k kids framed ready_k marked lower.
            release_header-Released fuel c k kids framed ready_k marked (omega arith))
          ready₁ real d.root (omega (arith, ready₁.2 h)) in
      let alive₂ : m₂.magic h ≡ true = emptied.own.0 ∙ ap (λ f. f h) d.magic ∙ alive in
      let root₂ : m₂.owner h ≡ null = emptied.own.1 ∙ d.root in
      let lone : (x : Ptr) → m₂.owner x ≢ h = λ x e.
        let owned : m₂.owner x ≢ null = λ none_there. real (sym e ∙ none_there) in
        let own =
          childless h m₂ kids ready₂.0.owned emptied.bare x
            (up owned (subst (Below m₂.owner h) (sym e) same)) in
        real (sym e ∙ ap m₂.owner own ∙ root₂) in
      let (m₃, members₃, run₃, tracked₃, forgotten) =
        forget_header-Forgotten h m₂ kids members₂ ready₂.0 alive₂ root₂ lone in
      let done =
        all_Released h m m₁ m₂ m₃ children kids members members₂ members₃ real ready.0 d emptied
          forgotten in
      (
        m₃,
        kids,
        members₃,
        release_header_lem fuel h m m₂ real alive run ∙ run₃,
        (
          tracked₃,
          Cut-Falls height m.owner m₃.owner h
              (Released-Cut h m m₃ children kids members members₃ done) ready.1,
          λ p. omega (arith, done.shrunk.fewer_children p, ready.2 p),
        ),
        done,
      )
