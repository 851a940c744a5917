-- ===== src/Allocation/Released.antt =====
-- What a release does to the tracked headers, and the steps of `yc_release_header`.
use ycpl.Base.{
  ℕ, suc, ◌≤◌, ◌<◌, ◌≡◌, refl, ap, ◌≢◌, ◌⊎◌, inl, inr, true, false, Option, some, List, arith, ◌==◌,
  ◌>>=◌, ◌∙◌, length,
}
use ycpl.Address.{Ptr, null}
use ycpl.Memory.{Memory, detach_owner}
use ycpl.Allocation.{release_children, forget_header, release_header}
use ycpl.Allocation.Below.{Below, Cut}

-- A header that was freed: it has lost its magic number, and its owner before.
abbrev pub IsFreed : Memory → Ptr → Type 0
IsFreed m x = (m.magic x ≡ false) × (m.owner x ≡ null)

abbrev pub IsKept : Memory → Memory → Ptr → Type 0
IsKept m m' x = (m'.magic x ≡ m.magic x) × (m'.owner x ≡ m.owner x)

-- No list of frames or children is longer, and no header is in another frame.
pub record Shrunk (m m' : Memory) (children children' : Ptr → List Ptr)
    (members members' : ℕ → List Ptr) : Type 0 where
  pub frame : (x : Ptr) → m'.frame x ≡ m.frame x
  pub current : m'.current_frame ≡ m.current_frame
  pub fewer_children : (p : Ptr) → length (children' p) ≤ length (children p)
  pub fewer_members : (f : ℕ) → length (members' f) ≤ length (members f)

-- Exactly what is below `h` is freed; the other headers stay live with their owners.
pub record Released (h : Ptr) (m m' : Memory) (children children' : Ptr → List Ptr)
    (members members' : ℕ → List Ptr) : Type 0 where
  pub gone : (x : Ptr) → Below m.owner h x → IsFreed m' x
  pub kept : (x : Ptr) → IsKept m m' x ⊎ Below m.owner h x
  pub shrunk : Shrunk m m' children children' members members'
  pub disowned : m.owner h ≢ null → length (children' (m.owner h)) < length (children (m.owner h))
  pub unframed : length (members' (m.frame h)) < length (members (m.frame h))

-- The children of `h` are freed with what is below them, and `h` waits for its turn.
pub record Emptied (h : Ptr) (m m' : Memory) (children children' : Ptr → List Ptr)
    (members members' : ℕ → List Ptr) : Type 0 where
  pub gone : (x : Ptr) → Below m.owner h x → (x ≡ h) ⊎ IsFreed m' x
  pub kept : (x : Ptr) → IsKept m m' x ⊎ Below m.owner h x
  pub own : IsKept m m' h
  pub bare : (m'.first_child h == null) ≡ true
  pub shrunk : Shrunk m m' children children' members members'

pub Shrunk-trans :
    {m m' m'' : Memory} {c c' c'' : Ptr → List Ptr} {f f' f'' : ℕ → List Ptr}
    → Shrunk m m' c c' f f'
    → Shrunk m' m'' c' c'' f' f''
    → Shrunk m m'' c c'' f f''
Shrunk-trans first second = record {
  frame = λ x. second.frame x ∙ first.frame x;
  current = second.current ∙ first.current;
  fewer_children = λ p. omega (arith, first.fewer_children p, second.fewer_children p);
  fewer_members = λ f. omega (arith, first.fewer_members f, second.fewer_members f);
}

pub Shrunk-refl : {m : Memory} {c : Ptr → List Ptr} {f : ℕ → List Ptr} → Shrunk m m c c f f
Shrunk-refl = record {
  frame = λ x. refl;
  current = refl;
  fewer_children = λ p. omega arith;
  fewer_members = λ f. omega arith;
}

pub Released-Cut :
    (h : Ptr) (m m' : Memory) (c c' : Ptr → List Ptr) (f f' : ℕ → List Ptr)
    → Released h m m' c c' f f'
    → Cut m.owner h m'.owner
Released-Cut h m m' c c' f f' done x = elim (done.kept x) [
  | inl (marked, owner) ↦ inl owner
  | inr below ↦ inr (below, (done.gone x below).1)
]

pub release_children_end :
    (release : Ptr → Memory → Option Memory) (fuel : ℕ) (h : Ptr) (m : Memory)
    → (m.first_child h == null) ≡ true
    → release_children release (suc fuel) h m ≡ some m
unfolding release_children
release_children_end release fuel h m e = rw e refl

pub release_children_next :
    (release : Ptr → Memory → Option Memory) (fuel : ℕ) (h : Ptr) (m m' : Memory)
    → (m.first_child h == null) ≡ false
    → release (m.first_child h) m ≡ some m'
    → release_children release (suc fuel) h m ≡ release_children release fuel h m'
unfolding release_children
release_children_next release fuel h m m' e e' = rw (e, e') refl

release_header_live :
    (fuel : ℕ) (h : Ptr) (m : Memory)
    → h ≢ null
    → m.magic h ≡ true
    → release_header (suc fuel) h m ≡ (
        release_children (λ c k. release_header fuel c k) fuel h (detach_owner h m) >>= λ k.
        forget_header h k)
unfolding release_header
release_header_live fuel h m real alive =
    let real' : (h == null) ≡ false = ground arith in rw (real', alive) refl

pub release_header_lem :
    (fuel : ℕ) (h : Ptr) (m m' : Memory)
    → h ≢ null
    → m.magic h ≡ true
    → release_children (λ c k. release_header fuel c k) fuel h (detach_owner h m) ≡ some m'
    → release_header (suc fuel) h m ≡ forget_header h m'
release_header_lem fuel h m m' real alive e =
    release_header_live fuel h m real alive ∙ ap (λ o. o >>= λ k. forget_header h k) e

-- An owner stands higher than what it owns, and has at most `width` children.
abbrev pub Falls : (Ptr → ℕ) → (Ptr → Ptr) → Type 0
Falls height owner = (x : Ptr) → owner x ≢ null → height x < height (owner x)

abbrev pub Narrow : ℕ → (Ptr → List Ptr) → Type 0
Narrow width children = (p : Ptr) → length (children p) ≤ width

pub Cut-Falls :
    (height : Ptr → ℕ) (owner owner' : Ptr → Ptr) (h : Ptr)
    → Cut owner h owner'
    → Falls height owner
    → Falls height owner'
Cut-Falls height owner owner' h cut falls x owned = elim (cut x) [
  | inl e ↦ rw e (falls x λ none_there. owned (e ∙ none_there))
  | inr (below, e) ↦ absurd (owned e)
]
