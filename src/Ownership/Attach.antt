-- ===== src/Ownership/Attach.antt =====
-- `yc_attach_child` on headers, over the forest of owners and the lists of frames.
use mathlib.Core.Path.{subst}
use mathlib.Core.Bool.{true≢false}
use ycpl.Base.{
  ℕ, suc, ◌+◌, ◌-◌, ◌≤◌, ◌<◌, ◌≡◌, refl, sym, ap, ◌≢◌, ◌⊎◌, inl, inr, Bool, true, false, some, List,
  arith, ◌==◌, ◌||◌, if◌then◌else◌, Bool-cases, eq_of_==, ◌∙◌, length,
}
use ycpl.Address.{Ptr, null}
use ycpl.Links.{update}
use ycpl.Links.Chain.{has, update_away}
use ycpl.Links.Family.{joined, left_by, length-joined-left_by}
use ycpl.Memory.{Memory, detach_owner}
use ycpl.Memory.Frames.{IsFramed-room}
use ycpl.Memory.Linked.{Reframed}
use ycpl.Memory.Owners.{IsOwned, owned_by-IsOwned}
use ycpl.Ownership.{owned_by, link_owner, attach_header, move_graph_to_frame, is_owner_ancestor}
use ycpl.Ownership.Roots.{
  IsRooted, IsAbove, is_owner_ancestor-IsAbove, update-IsRooted, IsRooted-same,
}
use ycpl.Ownership.Depth.{depth, depth-le, depth-owner}
use ycpl.Ownership.Moves.{Under, move_graph_to_frame-Moved}
use ycpl.Ownership.Moved.{IsPlaced, Moved}

-- `yc_link_owner` writes no field of frames before it moves the graph.
abbrev Relinked : Memory → Memory → Type 0
Relinked m m' =
    (owner : Ptr → Ptr) × (first : Ptr → Ptr) × (sp : Ptr → Ptr) × (sn : Ptr → Ptr) × (m'
      ≡ record m { owner = owner; first_child = first; sibling_prev = sp; sibling_next = sn })

owned_by-Relinked : (owner child : Ptr) (m : Memory) → Relinked m (owned_by owner child m)
unfolding owned_by detach_owner
owned_by-Relinked owner child m =
    let m' = owned_by owner child m in
    elim (Bool-cases (child == null || m.owner child == null)) [
      | inl e ↦ (m'.owner, m'.first_child, m'.sibling_prev, m'.sibling_next, rw e refl)
      | inr e ↦ (m'.owner, m'.first_child, m'.sibling_prev, m'.sibling_next, rw e refl)
    ]

-- The children once `child` is with `parent`.
abbrev pub attached : Ptr → Ptr → Memory → (Ptr → List Ptr) → Ptr → List Ptr
attached parent child m children = joined child parent (left_by child (m.owner child) children)

-- A well-formed memory of headers: lists of children, finite owner chains, headers in frames.
pub record IsForest (live : Ptr → Bool) (m : Memory) (children : Ptr → List Ptr) (n width : ℕ)
    : Type 0 where
  pub owned : IsOwned m children
  pub rooted : (x : Ptr) → IsRooted m.owner n x
  pub placed : (members : ℕ → List Ptr) × IsPlaced live m members
  pub narrow : (p : Ptr) → length (children p) ≤ width
  pub owners_live : (x : Ptr) → m.owner x ≢ null → live x ≡ true

link_owner_lem :
    (realloc : ℕ → Bool) (fuel : ℕ) (owner child : Ptr) (m : Memory)
    → link_owner realloc fuel owner child m
      ≡ move_graph_to_frame realloc fuel child
          ((owned_by owner child m).frame owner)
          (owned_by owner child m)
unfolding link_owner
link_owner_lem realloc fuel owner child m = refl

-- What `yc_attach_child` does with headers that it does not turn down.
pub record Attached (live : Ptr → Bool) (parent child : Ptr) (m m' : Memory)
    (children : Ptr → List Ptr) (n width : ℕ) : Type 0 where
  pub forest : IsForest live m' (attached parent child m children) (suc (n + n)) (suc width)
  pub owners : (x : Ptr) → m'.owner x ≡ update m.owner child parent x
  pub reframed : Reframed (owned_by parent child m) m'
  pub frames :
      (x : Ptr) → Under (attached parent child m children) child x → m'.frame x ≡ m.frame parent
  pub others :
      (x : Ptr) → ¬ (Under (attached parent child m children) child x) → m'.frame x ≡ m.frame x

module _ (live : Ptr → Bool) (parent child : Ptr) (m : Memory) (children : Ptr → List Ptr)
    (n width : ℕ) (forest : IsForest live m children n width) (null_dead : live null ≡ false)
    (live_parent : live parent ≡ true) (live_child : live child ≡ true) where
  abbrev linked : Memory
  linked = owned_by parent child m

  abbrev children' : Ptr → List Ptr
  children' = attached parent child m children

  not_null : (x : Ptr) → live x ≡ true → x ≢ null
  not_null x l e = let dead : live x ≡ false = rw e null_dead in absurd (ground arith)

  linked-IsOwned :
      IsOwned linked children' × ((x : Ptr) → linked.owner x ≡ update m.owner child parent x)
  linked-IsOwned =
      owned_by-IsOwned parent child m children forest.owned (not_null parent live_parent)
        (not_null child live_child)

  linked-IsPlaced : (members : ℕ → List Ptr) × IsPlaced live linked members
  linked-IsPlaced =
      let (owner, first, sp, sn, e) = owned_by-Relinked parent child m in
      (forest.placed.0, subst (λ l. IsPlaced live l forest.placed.0) (sym e) forest.placed.1)

  linked_frame : (x : Ptr) → linked.frame x ≡ m.frame x
  linked_frame x =
      let (owner, first, sp, sn, e) = owned_by-Relinked parent child m in ap (λ l. l.frame x) e

  linked_live : (x : Ptr) → linked.owner x ≢ null → live x ≡ true
  linked_live x owned = elim (Bool-cases (x == child)) [
    | inl e ↦ rw (eq_of_== x child e) live_child
    | inr e ↦
        let kept = linked-IsOwned.1 x ∙ update_away m.owner child parent x e in
        forest.owners_live x λ none_there. owned (kept ∙ none_there)
  ]

  linked-IsRooted :
      ¬ (IsAbove m.owner n child parent) → (x : Ptr) → IsRooted linked.owner (suc (n + n)) x
  linked-IsRooted out x =
      IsRooted-same (update m.owner child parent) linked.owner (suc (n + n)) x linked-IsOwned.1 (
        update-IsRooted m.owner n n (suc (n + n)) child parent x (forest.rooted parent) out
          (forest.rooted x) (omega arith))

  module _ (realloc : ℕ → Bool) (fuel : ℕ) (enough : suc (n + n) + suc width + 1 < fuel)
      (out : ¬ (IsAbove m.owner n child parent)) where
    bound : ℕ
    bound = suc (n + n)

    height : Ptr → ℕ
    height x = suc (n + n) - depth linked.owner (suc (n + n)) x

    child_of : (p c : Ptr) → has c (children' p) ≡ true → (linked.owner c ≡ p) × (p ≢ null)
    child_of p c inside = (
      linked-IsOwned.0.0.1 p c inside,
      λ e.
          let none_there : has c (children' null) ≡ false =
            subst (λ xs. has c xs ≡ false) (sym linked-IsOwned.0.1) refl in
          let some_there : has c (children' null) ≡ true =
            subst (λ q. has c (children' q) ≡ true) e inside in
          absurd (true≢false (sym some_there ∙ none_there)),
    )

    alive : (p c : Ptr) → has c (children' p) ≡ true → (live c ≡ true) × (c ≢ null)
    alive p c inside =
        let (is_owner, real) = child_of p c inside in
        let live_c = linked_live c (λ e. real (sym is_owner ∙ e)) in (live_c, not_null c live_c)

    falls : (p c : Ptr) → has c (children' p) ≡ true → height c < height p
    unfolding height
    falls p c inside =
        let (is_owner, real) = child_of p c inside in
        let up =
          depth-owner linked.owner (suc (n + n)) c (linked-IsRooted out c) (alive p c inside).1 in
        let up' : depth linked.owner (suc (n + n)) c ≡ suc (depth linked.owner (suc (n + n)) p) =
          subst (λ q. depth linked.owner (suc (n + n)) c ≡ suc (depth linked.owner (suc (n + n)) q))
            is_owner up in
        omega (arith, up', depth-le linked.owner (suc (n + n)) c)

    narrow' : (p : Ptr) → length (children' p) ≤ suc width
    narrow' p =
        omega
          (arith, length-joined-left_by child parent (m.owner child) p children, forest.narrow p)

    height_fits : height child + suc width + 1 < fuel
    unfolding height
    height_fits = omega arith

    moved :
        (m' : Memory) × (link_owner realloc fuel parent child m ≡ some m')
        × Moved live (m.frame parent) (Under children' child) linked m'
    moved =
        let placed = linked-IsPlaced.1 in
        let in_frame : has parent (linked-IsPlaced.0 (m.frame parent)) ≡ true =
          subst (λ f. has parent (linked-IsPlaced.0 f) ≡ true) (linked_frame parent)
            (placed.1 parent live_parent) in
        rw (link_owner_lem realloc fuel parent child m, linked_frame parent)
          (move_graph_to_frame-Moved live (m.frame parent) children' realloc height (suc width)
            falls narrow' alive fuel child linked
            (
              linked-IsPlaced,
              λ p. (linked-IsOwned.0.0.0 p).0,
              IsFramed-room linked linked-IsPlaced.0 (m.frame parent) parent placed.0 in_frame,
            )
            live_child (not_null child live_child) height_fits)

    link_owner-Attached :
        (m' : Memory) × (link_owner realloc fuel parent child m ≡ some m')
        × Attached live parent child m m' children n width
    link_owner-Attached =
        let (fr, fp, fn, heads, same, wide) = moved.2.reframed in
        (
          moved.0,
          moved.1,
          record {
            forest = record {
              owned = subst (λ k. IsOwned k children') (sym same) linked-IsOwned.0;
              rooted = λ x.
                  subst (λ k. IsRooted k.owner (suc (n + n)) x) (sym same) (linked-IsRooted out x);
              placed = moved.2.placed;
              narrow = narrow';
              owners_live =
                  λ x. subst (λ k. k.owner x ≢ null → live x ≡ true) (sym same) (linked_live x);
            };
            owners = λ x.
                subst (λ k. k.owner x ≡ update m.owner child parent x) (sym same)
                  (linked-IsOwned.1 x);
            reframed = moved.2.reframed;
            frames = moved.2.all;
            others = λ x away. elim (moved.2.only x) [
              | inl kept ↦ kept ∙ linked_frame x
              | inr (e, under) ↦ absurd (away under)
            ];
          },
        )

attach_header_same :
    (realloc : ℕ → Bool) (fuel : ℕ) (parent child : Ptr) (m : Memory)
    → (m.owner child == parent) ≡ true
    → attach_header realloc fuel parent child m ≡ some m
unfolding attach_header
attach_header_same realloc fuel parent child m e =
    elim (Bool-cases (parent == null || child == null)) [
      | inl z ↦ rw z refl
      | inr z ↦ rw (z, e) refl
    ]

attach_header_new :
    (realloc : ℕ → Bool) (fuel : ℕ) (parent child : Ptr) (m : Memory) (cycle : Bool)
    → (parent == null || child == null) ≡ false
    → (m.owner child == parent) ≡ false
    → is_owner_ancestor fuel m.owner child parent ≡ some cycle
    → attach_header realloc fuel parent child m
      ≡ (if cycle then some m else link_owner realloc fuel parent child m)
unfolding attach_header
attach_header_new realloc fuel parent child m cycle z e a = rw (z, e, a) refl

pub attach_header-Attached :
    (live : Ptr → Bool) (parent child : Ptr) (m : Memory) (children : Ptr → List Ptr) (n width : ℕ)
    (realloc : ℕ → Bool) (fuel : ℕ)
    → IsForest live m children n width
    → live null ≡ false
    → live parent ≡ true
    → live child ≡ true
    → suc (n + n) + suc width + 1 < fuel
    → ((attach_header realloc fuel parent child m ≡ some m)
        × ((m.owner child ≡ parent) ⊎ IsAbove m.owner n child parent))
      ⊎ ((m' : Memory) × (attach_header realloc fuel parent child m ≡ some m')
          × (m.owner child ≢ parent)
          × (¬ (IsAbove m.owner n child parent))
          × Attached live parent child m m' children n width)
attach_header-Attached live parent child m children n width realloc fuel forest null_dead
      live_parent live_child enough =
    elim (Bool-cases (m.owner child == parent)) [
      | inl e ↦ inl (
        attach_header_same realloc fuel parent child m e,
        inl (eq_of_== (m.owner child) parent e),
      )
      | inr e ↦
          let real =
            not_null live parent child m children n width forest null_dead live_parent live_child in
          let guard : (parent == null || child == null) ≡ false =
            ground (arith, real parent live_parent, real child live_child) in
          elim (is_owner_ancestor-IsAbove m.owner n fuel child parent (forest.rooted parent)
            (omega arith)) [
              | inl (told, above) ↦
                  inl (attach_header_new realloc fuel parent child m true guard e told, inr above)
              | inr (told, out) ↦
                  let link =
                    link_owner-Attached live parent child m children n width forest null_dead
                      live_parent live_child realloc fuel enough out in
                  inr (
                    link.0,
                    attach_header_new realloc fuel parent child m false guard e told ∙ link.1,
                    (λ same. absurd (ground (arith, same))),
                    out,
                    link.2,
                  )
            ]
    ]
