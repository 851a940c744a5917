-- ===== src/Allocation/Detached.antt =====
-- `yc_detach_owner` over the whole invariant of the tracked headers.
use ycpl.Memory.{with_child_list, Memory, detach_owner, child_list}
use ycpl.Base.{ℕ, List, refl, sym, ◌∙◌, ◌==◌, ◌||◌, Bool-cases, eq_of_==, inl, inr, false, ◌≡◌, ◌≢◌}
use ycpl.Memory.Owners.{IsOwned, detach_owner-IsOwned}
use mathlib.Core.Path.{subst}
use ycpl.Address.{Ptr, null}
use ycpl.Links.{update, unlink}
use ycpl.Links.Chain.{update_here, update_away}
use ycpl.Links.Family.{left_by}
use ycpl.Allocation.Tracked.{IsTracked}

-- Only the owners and the links of children may differ.
abbrev pub Reowned : Memory → Memory → Type 0
Reowned m m' =
    (first : Ptr → Ptr) × (sp : Ptr → Ptr) × (sn : Ptr → Ptr) × (owner : Ptr → Ptr) × (m'
      ≡ record m { first_child = first; sibling_prev = sp; sibling_next = sn; owner = owner })

pub detach_owner-Reowned : (h : Ptr) (m : Memory) → Reowned m (detach_owner h m)
unfolding detach_owner
detach_owner-Reowned h m = elim (Bool-cases (h == null || m.owner h == null)) [
  | inl e ↦ rw e (m.first_child, m.sibling_prev, m.sibling_next, m.owner, refl)
  | inr e ↦
      let m' = with_child_list (m.owner h) (unlink h (child_list (m.owner h) m)) m in
      rw e (m'.first_child, m'.sibling_prev, m'.sibling_next, update m'.owner h null, refl)
]

-- What `yc_detach_owner` does to a tracked header.
pub record Detached (h : Ptr) (m m' : Memory) (children : Ptr → List Ptr) (members : ℕ → List Ptr)
    : Type 0 where
  pub tracked : IsTracked m' (left_by h (m.owner h) children) members
  pub root : m'.owner h ≡ null
  pub others : (x : Ptr) → (x == h) ≡ false → m'.owner x ≡ m.owner x
  pub magic : m'.magic ≡ m.magic
  pub frame : m'.frame ≡ m.frame
  pub current : m'.current_frame ≡ m.current_frame

detached_owner :
    (h : Ptr) (m m' : Memory)
    → ((x : Ptr) → m'.owner x ≡ update m.owner h null x)
    → (x : Ptr) → m'.owner x ≢ null
    → (m.owner x ≢ null) × (m'.owner x ≡ m.owner x)
detached_owner h m m' owners x owned = elim (Bool-cases (x == h)) [
  | inl e ↦ absurd (owned (owners x ∙ rw (eq_of_== x h e) (update_here m.owner h null)))
  | inr e ↦
      let same = owners x ∙ update_away m.owner h null x e in
      ((λ none_there. owned (same ∙ none_there)), same)
]

Reowned-Detached :
    (h : Ptr) (m m' : Memory) (children : Ptr → List Ptr) (members : ℕ → List Ptr)
    → IsTracked m children members
    → Reowned m m'
    → IsOwned m' (left_by h (m.owner h) children)
    → ((x : Ptr) → m'.owner x ≡ update m.owner h null x)
    → Detached h m m' children members
Reowned-Detached h m m' children members t (first, sp, sn, owner, e) owned owners =
    let n = record m { first_child = first; sibling_prev = sp; sibling_next = sn; owner = owner } in
    let owners' : (x : Ptr) → owner x ≡ update m.owner h null x =
      subst (λ k. (x : Ptr) → k.owner x ≡ update m.owner h null x) e owners in
    let owned' : IsOwned n (left_by h (m.owner h) children) =
      subst (λ k. IsOwned k (left_by h (m.owner h) children)) e owned in
    subst (λ k. Detached h m k children members) (sym e)
      (record {
        tracked = record {
          owned = owned';
          owners_live = λ x has_owner.
              let (before, e) = detached_owner h m n owners' x has_owner in
              let (own, over) = t.owners_live x before in (own, rw e over);
          placed = t.placed;
          listed = t.listed;
          registry = t.registry;
          registered = t.registered;
          ranges = t.ranges;
          in_ranges = t.in_ranges;
          real = t.real;
        };
        root = owners' h ∙ update_here m.owner h null;
        others = λ x away. owners' x ∙ update_away m.owner h null x away;
        magic = refl;
        frame = refl;
        current = refl;
      })

-- `yc_detach_owner` makes a header a root and leaves all else as it is.
pub detach_owner-Detached :
    (h : Ptr) (m : Memory) (children : Ptr → List Ptr) (members : ℕ → List Ptr)
    → IsTracked m children members
    → h ≢ null
    → Detached h m (detach_owner h m) children members
detach_owner-Detached h m children members t real =
    let (owned, owners) = detach_owner-IsOwned h m children t.owned real in
    Reowned-Detached h m (detach_owner h m) children members t (detach_owner-Reowned h m) owned
      owners
