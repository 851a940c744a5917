-- ===== src/Allocation/Popped.antt =====
-- What `yc_frame_pop` does to the tracked headers, and how the releases of its loop add up.
use mathlib.Core.Bool.{true≢false}
use ycpl.Base.{ℕ, ◌≡◌, sym, ◌⊎◌, inl, inr, true, List, ◌∙◌}
use ycpl.Address.{Ptr}
use ycpl.Memory.{Memory}
use ycpl.Allocation.Below.{Below, Cut, Below-trans, Below-Cut, Cut-Below}
use ycpl.Allocation.Released.{IsFreed, IsKept, Released, Released-Cut}

-- The header stands in the frame or is below one that does.
abbrev pub InFrame : ℕ → Memory → Ptr → Type 0
InFrame frame m x = (h : Ptr) × (m.magic h ≡ true) × (m.frame h ≡ frame) × Below m.owner h x

-- Exactly the headers of the frame, and those below them, are freed.
pub record Popped (frame : ℕ) (m m' : Memory) : Type 0 where
  pub gone : (x : Ptr) → InFrame frame m x → IsFreed m' x
  pub kept : (x : Ptr) → IsKept m m' x ⊎ InFrame frame m x
  pub frames : (x : Ptr) → m'.frame x ≡ m.frame x
  pub current : m'.current_frame ≡ m.current_frame

module _ (frame h : ℕ) (m m' m'' : Memory) (kids kids' : Ptr → List Ptr)
    (members members' : ℕ → List Ptr) (alive : m.magic h ≡ true) (mine : m.frame h ≡ frame)
    (first : Released h m m' kids kids' members members') (rest : Popped frame m' m'') where
  cut : Cut m.owner h m'.owner
  cut = Released-Cut h m m' kids kids' members members' first

  -- What one release freed stays so.
  stays-IsFreed : (x : Ptr) → Below m.owner h x → IsFreed m'' x
  stays-IsFreed x below = elim (rest.kept x) [
    | inr later ↦ rest.gone x later
    | inl (marked, owner) ↦ let (dead, alone) = first.gone x below in (marked ∙ dead, owner ∙ alone)
  ]

  gone_all : (x : Ptr) → InFrame frame m x → IsFreed m'' x
  gone_all x (top, live_top, in_frame, below) = elim (first.kept top) [
    | inr under ↦ stays-IsFreed x (Below-trans m.owner h top x under below)
    | inl (marked, owner) ↦ elim (Below-Cut m.owner m'.owner h top x cut below) [
      | inl part ↦ stays-IsFreed x part
      | inr still ↦ rest.gone x (top, marked ∙ live_top, first.shrunk.frame top ∙ in_frame, still)
    ]
  ]

  IsKept-all : (x : Ptr) → IsKept m m'' x ⊎ InFrame frame m x
  IsKept-all x = elim (rest.kept x) [
    | inl (marked, owner) ↦ elim (first.kept x) [
      | inl (marked', owner') ↦ inl (marked ∙ marked', owner ∙ owner')
      | inr below ↦ inr (h, alive, mine, below)
    ]
    | inr (top, live_top, in_frame, below) ↦ elim (first.kept top) [
      | inl (marked, owner) ↦ inr (
        top,
        sym marked ∙ live_top,
        sym (first.shrunk.frame top) ∙ in_frame,
        Cut-Below m.owner m'.owner h top x cut below,
      )
      | inr under ↦ absurd (true≢false (sym live_top ∙ (first.gone top under).0))
    ]
  ]

  pub then_Popped : Popped frame m m''
  then_Popped = record {
    gone = gone_all;
    kept = IsKept-all;
    frames = λ x. rest.frames x ∙ first.shrunk.frame x;
    current = rest.current ∙ first.shrunk.current;
  }
