-- ===== src/Allocation/Allocates.antt =====
-- `yc_alloc` keeps the memory sound.
use mathlib.Core.Path.{subst}
use ycpl.Base.{
  ℕ, suc, ◌+◌, ◌-◌, ◌<◌, ◌^◌, ◌≡◌, ap, inl, inr, true, false, some, List, ltb, Bool-cases,
  Option-cases, ◌∙◌,
}
use ycpl.Address.{Ptr, null, word, header_size, payload}
use ycpl.Links.Family.{joined}
use ycpl.Registry.Resize.{Honest}
use ycpl.Ranges
use ycpl.Memory.{Memory}
use ycpl.Memory.Frames.{IsFramed}
use ycpl.Memory.Linked.{frame_link-granted}
use ycpl.Allocation.{Library, alloc}
use ycpl.Allocation.Fresh.{entered-IsFramed, entered-IsRooted, entered_frame, entered_heads}
use ycpl.Allocation.Enter.{alloc_lem, alloc_refused, enter_lem}
use ycpl.Allocation.Sound.{IsSound, IsSound-IsForest, Sound, dead-frameless}
use ycpl.Allocation.Grown.{
  grown, not_null, forest, bare, start, start_indices, registry-Entered, grown-IsTracked,
}

module _ (lib : Library) (size : ℕ) (m : Memory) (children : Ptr → List Ptr)
    (members : ℕ → List Ptr) (n width : ℕ) (s : IsSound m children members n width)
    (granted : (k : ℕ) → lib.realloc k ≡ true) (honest : Honest lib.calloc)
    (small : m.current_frame < 2 ^ 32) where
  alloc_new :
      (h : Ptr)
      → ltb (word - 1 - header_size) size ≡ false
      → lib.malloc (header_size + size) ≡ some h
      → m.magic h ≡ false
      → 1 < h
      → (p : Ptr) × (m' : Memory) × (alloc lib size m ≡ some (p, m')) × Sound m'
  alloc_new h fits given new big =
      let real = not_null h size m children members n width s new big in
      let f = forest h size m children members n width s new big in
      let b = bare h size m children members n width s new big in
      let m₀ = start h size m children members n width s new big in
      let indices = start_indices h size m children members n width s new big in
      let out = dead-frameless h m children members s.tracked new in
      let heads_same = entered_heads m.magic m children n width f h size new real b in
      let small' : m₀.current_frame < 2 ^ 32 = rw heads_same.1 small in
      let (m₁, run, linked) =
        frame_link-granted lib.realloc h m₀.current_frame m₀ members
          (entered-IsFramed m.magic m children n width f h size new real b members
            s.tracked.placed.0 out)
          real out small' granted in
      let (fr, fp, fn, heads, same) = linked.rest in
      let (r, insert_run, entry) =
        registry-Entered h size m children members n width s new big lib honest in
      let frame_same = entered_frame m.magic m children n width f h size new real b in
      let tracked =
        grown-IsTracked h size m children members n width s new big fr fp fn heads r
          (subst (λ k. IsFramed k (joined h m₀.current_frame members)) same linked.framed)
          (subst (λ k. k.frame h ≡ m₀.current_frame) same linked.own)
          (λ x away.
            subst (λ k. k.frame x ≡ m₀.frame x) same (linked.elsewhere x away) ∙ frame_same x)
          entry in
      let registry_same : m₁.registry ≡ m.registry =
        ap (λ (k : Memory). k.registry) same ∙ indices.0 in
      let ranges_same : m₁.ranges ≡ m.ranges = ap (λ (k : Memory). k.ranges) same ∙ indices.1 in
      let m' = record m₁ { registry = r; ranges = Ranges.insert m₁.ranges h } in
      let m'' = grown m₀ fr fp fn heads r (Ranges.insert m.ranges h) in
      let whole : m' ≡ m'' =
        ap (λ (t : Ranges.Treap). record m₁ { registry = r; ranges = Ranges.insert t h })
          ranges_same
        ∙ ap (λ (k : Memory). record k { registry = r; ranges = Ranges.insert m.ranges h }) same in
      (
        payload h,
        m'',
        alloc_lem lib m.magic m children n width f size h fits given
            ∙ enter_lem lib m.magic m children n width f size h m₁ r run
                (rw registry_same insert_run)
            ∙ ap (λ (k : Memory). some (payload h, k)) whole,
        (
          children,
          joined h m₀.current_frame members,
          suc n,
          width,
          record {
            tracked = tracked;
            rooted = entered-IsRooted m.magic m children n width f h size new real b;
            narrow = s.narrow;
          },
        ),
      )

  pub alloc-Sound :
      ((h : Ptr) → lib.malloc (header_size + size) ≡ some h → (m.magic h ≡ false) × (1 < h))
      → (p : Ptr) × (m' : Memory) × (alloc lib size m ≡ some (p, m')) × Sound m'
  alloc-Sound fresh =
      let refused =
        alloc_refused lib m.magic m children n width (IsSound-IsForest m children members n width s)
          size in
      elim (Bool-cases (ltb (word - 1 - header_size) size)) [
        | inl e ↦ (null, m, refused (inl e), (children, members, n, width, s))
        | inr e ↦ elim (Option-cases (lib.malloc (header_size + size))) [
          | inl nothing ↦ (null, m, refused (inr nothing), (children, members, n, width, s))
          | inr (h, given) ↦ alloc_new h e given (fresh h given).0 (fresh h given).1
        ]
      ]
