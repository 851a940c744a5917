-- ===== src/Allocation/Tracked.antt =====
-- The headers that the runtime tracks, as one invariant over its lists and indices, and what a header
-- that leaves them all does to it (bootstrap/cpp/runtime/yc_runtime.c, the end of `yc_release_header`).
use mathlib.Core.Path.{subst}
use ycpl.Base.{
  ℕ, ◌<◌, ◌≡◌, refl, sym, ◌≢◌, inl, inr, true, false, not, ◌&&◌, some, List, arith, ◌==◌,
  if◌then◌else◌, Bool-cases, eq_of_==, ◌∙◌, length, ◌≤◌, get_or, ap, Option, ◌>>=◌,
}
use ycpl.Address.{Ptr, null}
use ycpl.Links.{update, unlink}
use ycpl.Links.Chain.{has, erase, IsList, has-erase, apart_from}
use ycpl.Links.Family.{left_by, left_by-out, left_by-stays}
use ycpl.Links.Leave.{length-left_by, left_by-less, left_by-was}
use ycpl.Links.Unlink.{unlink-IsList}
use ycpl.Registry
use ycpl.Registry.Table.{IsRegistry}
use ycpl.Registry.Tally
use ycpl.Registry.Remove.{Removed, remove-Removed}
use ycpl.Ranges
use ycpl.Ranges.Order
use ycpl.Ranges.Update.{IsTreap, remove-IsTreap}
use ycpl.Memory.{Memory, all_list, frame_unlink, unlink_all}
use ycpl.Memory.Frames.{IsFramed, frame_unlink-IsFramed}
use ycpl.Memory.Linked.{frame_unlink-Reframed}
use ycpl.Memory.Owners.{IsOwned}
use ycpl.Ownership.Moved.{IsPlaced}
use ycpl.Allocation.{forget_header}

-- The live headers are those of the list of all allocations and of the treap, each is in the list of
-- its frame, and only they have owners or own, are in the registry, and are in lists of frames.
pub record IsTracked (m : Memory) (children : Ptr → List Ptr) (members : ℕ → List Ptr)
    : Type 0 where
  pub owned : IsOwned m children
  pub owners_live : (x : Ptr) → m.owner x ≢ null → (m.magic x ≡ true) × (m.magic (m.owner x) ≡ true)
  pub placed : IsPlaced m.magic m members
  pub listed : (xs : List Ptr) × IsList (all_list m) xs × ((x : Ptr) → has x xs ≡ m.magic x)
  pub registry : IsRegistry m.registry
  pub registered : (x : Ptr) → 1 < x → m.magic x ≡ false → Tally.occurrences x m.registry.slots ≡ 0
  pub ranges : IsTreap m.ranges
  pub in_ranges : (x : Ptr) → Order.occurrences x m.ranges ≡ (if m.magic x then 1 else 0)
  pub real : (x : Ptr) → m.magic x ≡ true → 1 < x

-- The memory once a header left the list of its frame, the list of all allocations, and the indices.
abbrev forgotten :
    Ptr → Memory → (Ptr → ℕ) → (Ptr → Ptr) → (Ptr → Ptr) → List Ptr → Registry.Registry → Memory
forgotten h m fr fp fn heads r = record m {
  frame = fr;
  frame_prev = fp;
  frame_next = fn;
  frame_heads = heads;
  next = (unlink h (all_list m)).next;
  prev = (unlink h (all_list m)).prev;
  head = (unlink h (all_list m)).head;
  registry = r;
  ranges = Ranges.remove m.ranges h;
  magic = update m.magic h false;
}

-- What is left to do once the header is out of its frame.
abbrev forget_rest : Ptr → Memory → Option Memory
forget_rest h m =
    let m' = unlink_all h m in
    Registry.remove h m'.registry >>= λ r. some (record m' {
      registry = r;
      ranges = Ranges.remove m'.ranges h;
      magic = update m'.magic h false;
    })

forget_header_lem : (h : Ptr) (m : Memory) → forget_header h m ≡ forget_rest h (frame_unlink h m)
unfolding forget_header
forget_header_lem h m = refl

forget_rest_lem :
    (h : Ptr) (m : Memory) (fr : Ptr → ℕ) (fp fn : Ptr → Ptr) (heads : List Ptr)
    (r : Registry.Registry)
    → h ≢ null
    → Registry.remove h m.registry ≡ some r
    → forget_rest h (record m { frame = fr; frame_prev = fp; frame_next = fn; frame_heads = heads })
      ≡ some (forgotten h m fr fp fn heads r)
unfolding unlink_all
forget_rest_lem h m fr fp fn heads r real e =
    let real' : (h == null) ≡ false = ground arith in rw (real', e) refl

forget_lem :
    (h : Ptr) (m : Memory) (fr : Ptr → ℕ) (fp fn : Ptr → Ptr) (heads : List Ptr)
    (r : Registry.Registry)
    → h ≢ null
    → frame_unlink h m
      ≡ record m { frame = fr; frame_prev = fp; frame_next = fn; frame_heads = heads }
    → Registry.remove h m.registry ≡ some r
    → forget_header h m ≡ some (forgotten h m fr fp fn heads r)
forget_lem h m fr fp fn heads r real e e' =
    forget_header_lem h m ∙ ap (forget_rest h) e ∙ forget_rest_lem h m fr fp fn heads r real e'

-- The mark of a header that is not live any more.
cleared : (h x : Ptr) (m : Memory) → update m.magic h false x ≡ (not (x == h) && m.magic x)
unfolding update
cleared h x m = elim (Bool-cases (x == h)) [ inl e ↦ rw e refl | inr e ↦ rw e refl ]

-- What it means for a header to leave, to the headers, the lists of the frames and the lists of
-- children.
pub record Forgotten (h : Ptr) (m m' : Memory) (members members' : ℕ → List Ptr) : Type 0 where
  pub magic : (x : Ptr) → m'.magic x ≡ (not (x == h) && m.magic x)
  pub owner : m'.owner ≡ m.owner
  pub first_child : m'.first_child ≡ m.first_child
  pub frame : (x : Ptr) → m'.frame x ≡ m.frame x
  pub current : m'.current_frame ≡ m.current_frame
  pub fewer : (f : ℕ) → length (members' f) ≤ length (members f)
  pub shorter : length (members' (m.frame h)) < length (members (m.frame h))

module _ (h : Ptr) (m : Memory) (children : Ptr → List Ptr) (members : ℕ → List Ptr)
    (t : IsTracked m children members) (alive : m.magic h ≡ true) (root : m.owner h ≡ null)
    (lone : (x : Ptr) → m.owner x ≢ h) where
  not_null : h ≢ null
  not_null e = absurd (omega (arith, t.real h alive))

  abbrev left : ℕ → List Ptr
  left = left_by h (m.frame h) members

  -- The invariant after a header without owner left.
  forgotten-IsTracked :
      (fr : Ptr → ℕ) (fp fn : Ptr → Ptr) (heads : List Ptr) (r : Registry.Registry)
      → IsFramed
          (record m { frame = fr; frame_prev = fp; frame_next = fn; frame_heads = heads })
          left
      → ((x : Ptr) → fr x ≡ m.frame x)
      → Removed h m.registry r
      → IsTracked (forgotten h m fr fp fn heads r) children left
  forgotten-IsTracked fr fp fn heads r framed same removed = record {
    owned = t.owned;
    owners_live = λ x owned.
        let away : (x == h) ≡ false = elim (Bool-cases (x == h)) [
          | inr e ↦ e
          | inl e ↦ absurd (owned (rw (eq_of_== x h e) root))
        ] in
        let (own, over) = t.owners_live x owned in
        (
          cleared h x m ∙ ground (arith, own),
          cleared h (m.owner x) m ∙ ground (arith, over, lone x),
        );
    placed = (
      framed,
      λ x marked.
          let still : (not (x == h) && m.magic x) ≡ true = sym (cleared h x m) ∙ marked in
          rw (same x) (
            left_by-stays m.frame_next m.frame_prev (λ f. get_or m.frame_heads f null) m.frame
              members t.placed.0 h (m.frame x) x (ground arith) (t.placed.1 x (ground arith))),
      λ f x inside.
          let was =
            left_by-was m.frame_next m.frame_prev (λ f. get_or m.frame_heads f null) m.frame members
              t.placed.0 h (m.frame h) f x inside in
          let out =
            left_by-out m.frame_next m.frame_prev (λ f. get_or m.frame_heads f null) m.frame members
              t.placed.0 h f in
          cleared h x m ∙ ground (arith, t.placed.2 f x was, apart_from h x (left f) out inside),
    );
    listed =
        let (xs, list, all) = t.listed in
        (
          erase h xs,
          unlink-IsList h (all_list m) xs list (all h ∙ alive),
          λ x. has-erase x h xs list.1 ∙ rw (all x) (sym (cleared h x m)),
        );
    registry = removed.0;
    registered =
        λ x big unmarked. removed.1 x big ∙ ground (arith, t.registered x big, cleared h x m);
    ranges = (remove-IsTreap m.ranges h t.ranges).0;
    in_ranges = λ x.
        (remove-IsTreap m.ranges h t.ranges).1 x ∙ rw (t.in_ranges x, cleared h x m) (ground arith);
    real = λ x marked. t.real x (ground (arith, cleared h x m));
  }

  -- The end of `yc_release_header` takes a header without owner and children out of the list of all allocations,
  -- of the list of its frame, of the registry and of the treap, and nothing else out of anything.
  pub forget_header-Forgotten :
      (m' : Memory) × (members' : ℕ → List Ptr) × (forget_header h m ≡ some m')
      × IsTracked m' children members'
      × Forgotten h m m' members members'
  forget_header-Forgotten =
      let (r, run, removed) = remove-Removed m.registry h t.registry (t.real h alive) in
      let ((fr, fp, fn, heads, e, wide), same) = frame_unlink-Reframed h m in
      let inside = t.placed.1 h alive in
      let framed : IsFramed
          (record m { frame = fr; frame_prev = fp; frame_next = fn; frame_heads = heads }) left =
        subst (λ k. IsFramed k left) e
          (frame_unlink-IsFramed h m members t.placed.0 not_null inside) in
      let frames : (x : Ptr) → fr x ≡ m.frame x =
        λ x. subst (λ k. k.frame x ≡ m.frame x) e (same x) in
      (
        forgotten h m fr fp fn heads r,
        left,
        forget_lem h m fr fp fn heads r not_null e run,
        forgotten-IsTracked fr fp fn heads r framed frames removed,
        record {
          magic = λ x. cleared h x m;
          owner = refl;
          first_child = refl;
          frame = frames;
          current = refl;
          fewer = λ f. length-left_by h (m.frame h) f members;
          shorter = left_by-less h (m.frame h) members inside;
        },
      )
