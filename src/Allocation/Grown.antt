-- ===== src/Allocation/Grown.antt =====
-- `yc_alloc` over the sound memory: the new header is tracked like the others.
use ycpl.Base.{
  ℕ, ◌<◌, ◌≡◌, refl, sym, inl, inr, ◌||◌, true, false, some, List, [], ◌∷◌, arith, ◌==◌, Bool-cases,
  eq_of_==, ◌∙◌, ◌≢◌,
}
use ycpl.Address.{Ptr, null}
use ycpl.Links.{update, push_front}
use ycpl.Links.Chain.{has, IsList, update_here, update_away}
use ycpl.Links.Push.{push_front-IsList}
use ycpl.Links.Family.{joined, joined-stays, joined-has}
use ycpl.Links.Leave.{joined-was}
use ycpl.Registry
use ycpl.Registry.Table.{IsRegistry}
use ycpl.Registry.Tally
use ycpl.Registry.Resize.{Honest, insert-Inserted}
use ycpl.Ranges
use ycpl.Ranges.Order
use ycpl.Ranges.Update.{insert-IsTreap}
use ycpl.Memory.{Memory, all_list, link}
use ycpl.Memory.Frames.{IsFramed}
use ycpl.Ownership.Attach.{IsForest}
use ycpl.Allocation.{Library, new_header}
use ycpl.Allocation.Fresh.{entered, entered-IsOwned}
use ycpl.Allocation.Tracked.{IsTracked}
use ycpl.Allocation.Sound.{IsSound, IsSound-IsForest, dead-childless}

-- The memory once the new header is in the list of its frame and in the indices.
abbrev pub grown :
    Memory
    → (Ptr → ℕ)
    → (Ptr → Ptr)
    → (Ptr → Ptr)
    → List Ptr
    → Registry.Registry
    → Ranges.Treap
    → Memory
grown m fr fp fn heads r t = record m {
  frame = fr;
  frame_prev = fp;
  frame_next = fn;
  frame_heads = heads;
  registry = r;
  ranges = t;
}

-- The headers that live once `h` does.
marked : (h x : Ptr) (m : Memory) → update m.magic h true x ≡ ((x == h) || m.magic x)
unfolding update
marked h x m = elim (Bool-cases (x == h)) [ inl e ↦ rw e refl | inr e ↦ rw e refl ]

module _ (h : Ptr) (size : ℕ) (m : Memory) (children : Ptr → List Ptr) (members : ℕ → List Ptr)
    (n width : ℕ) (s : IsSound m children members n width) (new : m.magic h ≡ false)
    (big : 1 < h) where
  pub not_null : h ≢ null
  not_null e = absurd (omega arith)

  abbrev pub forest : IsForest m.magic m children n width
  forest = IsSound-IsForest m children members n width s

  abbrev pub bare : children h ≡ []
  bare = dead-childless h m children members s.tracked new not_null

  abbrev pub start : Memory
  start = entered m.magic m children n width forest h size new not_null bare

  abbrev pub now : ℕ
  now = start.current_frame

  start_magic : (x : Ptr) → start.magic x ≡ ((x == h) || m.magic x)
  unfolding link new_header
  start_magic x = marked h x m

  pub start_indices : (start.registry ≡ m.registry) × (start.ranges ≡ m.ranges)
  unfolding link new_header
  start_indices = (refl, refl)

  start_owner : (x : Ptr) → start.owner x ≡ update m.owner h null x
  unfolding link new_header
  start_owner x = refl

  start-IsList :
      (xs : List Ptr) → IsList (all_list m) xs → has h xs ≡ false → IsList (all_list start) (h ∷ xs)
  unfolding link new_header push_front
  start-IsList xs list out = push_front-IsList h (all_list m) xs list not_null out

  start-owners_live :
      (x : Ptr)
      → start.owner x ≢ null
      → (start.magic x ≡ true) × (start.magic (start.owner x) ≡ true)
  start-owners_live x owned = elim (Bool-cases (x == h)) [
    | inl e ↦ absurd (owned (start_owner x ∙ rw (eq_of_== x h e) (update_here m.owner h null)))
    | inr e ↦
        let same = start_owner x ∙ update_away m.owner h null x e in
        let (own, over) = s.tracked.owners_live x λ none_there. owned (same ∙ none_there) in
        (
          start_magic x ∙ ground (arith, own),
          rw same (start_magic (m.owner x) ∙ ground (arith, over)),
        )
  ]

  -- What the insertion into the registry gives, whether it grew or not.
  abbrev pub Entered : Registry.Registry → Type 0
  Entered r =
      IsRegistry r
      × ((x : Ptr)
          → 1 < x
          → (x == h) ≡ false
          → Tally.occurrences x r.slots ≡ Tally.occurrences x m.registry.slots)

  pub registry-Entered :
      (lib : Library)
      → Honest lib.calloc
      → (r : Registry.Registry) × (Registry.insert lib.calloc h m.registry ≡ some r) × Entered r
  registry-Entered lib honest =
      elim (insert-Inserted lib.calloc m.registry h s.tracked.registry honest big) [
        | inl (r, run, (table, seen, count)) ↦
            (r, run, (inr table, λ x big' away. seen x big' ∙ rw away refl))
        | inr (run, refused) ↦ (m.registry, run, (s.tracked.registry, λ x big' away. refl))
      ]

  pub grown-IsTracked :
      (fr : Ptr → ℕ) (fp fn : Ptr → Ptr) (heads : List Ptr) (r : Registry.Registry)
      → IsFramed
          (record start { frame = fr; frame_prev = fp; frame_next = fn; frame_heads = heads })
          (joined h now members)
      → (fr h ≡ now)
      → ((x : Ptr) → (x == h) ≡ false → fr x ≡ m.frame x)
      → Entered r
      → IsTracked
          (grown start fr fp fn heads r (Ranges.insert m.ranges h))
          children
          (joined h now members)
  grown-IsTracked fr fp fn heads r framed own elsewhere (is, seen) =
      let t = s.tracked in
      let absent : Order.occurrences h m.ranges ≡ 0 = t.in_ranges h ∙ rw new refl in
      let (treap, held) = insert-IsTreap m.ranges h t.ranges absent in
      record {
        owned = entered-IsOwned m.magic m children n width forest h size new not_null bare;
        owners_live = start-owners_live;
        placed = (
          framed,
          λ x alive. elim (Bool-cases (x == h)) [
            | inl e ↦ rw (eq_of_== x h e, own) (joined-has h now members)
            | inr e ↦ rw (elsewhere x e) (
                joined-stays h now members (m.frame x) x
                  (t.placed.1 x (ground (arith, start_magic x))))
          ],
          λ f x there. elim (joined-was h now f x members there) [
            | inl e ↦ start_magic x ∙ ground arith
            | inr stays ↦ start_magic x ∙ ground (arith, t.placed.2 f x stays)
          ],
        );
        listed =
            let (xs, list, all) = t.listed in
            (h ∷ xs, start-IsList xs list (all h ∙ new), λ x. rw (all x) (sym (start_magic x)));
        registry = is;
        registered = λ x big' unmarked.
            let away : (x == h) ≡ false = ground (arith, start_magic x) in
            seen x big' away ∙ t.registered x big' (ground (arith, start_magic x));
        ranges = treap;
        in_ranges = λ x. held x ∙ elim (Bool-cases (x == h)) [
          | inl e ↦ rw (start_magic x, e, eq_of_== x h e, absent) refl
          | inr e ↦ rw (start_magic x, e, t.in_ranges x) (ground arith)
        ];
        real = λ x alive. elim (Bool-cases (x == h)) [
          | inl e ↦ ground arith
          | inr e ↦ t.real x (ground (arith, start_magic x))
        ];
      }
