-- ===== src/Allocation/Sound.antt =====
-- The memory of the runtime as its operations keep it.
use mathlib.Core.Bool.{true≢false}
use ycpl.Base.{
  ◌∙◌, ap, inl, inr, false, Bool-cases, ℕ, ◌≤◌, ◌≡◌, ◌≢◌, refl, List, [], ◌∷◌, ==_refl, true,
  length, sym,
}
use ycpl.Address.{Ptr, null}
use ycpl.Links.Chain.{has}
use ycpl.Memory.{Memory}
use ycpl.Ownership.Roots.{IsRooted}
use ycpl.Ownership.Attach.{IsForest}
use ycpl.Allocation.Tracked.{IsTracked}

-- All headers are tracked, the owner chains have at most `n` headers, and no header has more than
-- `width` children.
pub record IsSound (m : Memory) (children : Ptr → List Ptr) (members : ℕ → List Ptr) (n width : ℕ)
    : Type 0 where
  pub tracked : IsTracked m children members
  pub rooted : (x : Ptr) → IsRooted m.owner n x
  pub narrow : (p : Ptr) → length (children p) ≤ width

abbrev pub Sound : Memory → Type 0
Sound m =
    (children : Ptr → List Ptr) × (members : ℕ → List Ptr) × (n : ℕ) × (width : ℕ) × IsSound m
      children members n width

pub IsSound-IsForest :
    (m : Memory) (children : Ptr → List Ptr) (members : ℕ → List Ptr) (n width : ℕ)
    → IsSound m children members n width
    → IsForest m.magic m children n width
IsSound-IsForest m children members n width s = record {
  owned = s.tracked.owned;
  rooted = s.rooted;
  placed = (members, s.tracked.placed);
  narrow = s.narrow;
  owners_live = λ x owned. (s.tracked.owners_live x owned).0;
}

no_member : (xs : List Ptr) → ((c : Ptr) → has c xs ≡ false) → xs ≡ []
no_member [] out = refl
no_member (c ∷ cs) out =
    let there : has c (c ∷ cs) ≡ true = rw (==_refl c) refl in
    absurd (true≢false (sym there ∙ out c))

module _ (h : Ptr) (m : Memory) (children : Ptr → List Ptr) (members : ℕ → List Ptr)
    (t : IsTracked m children members) (dead : m.magic h ≡ false) where
  -- A header that is not live has no children, and is in no frame.
  pub dead-childless : h ≢ null → children h ≡ []
  dead-childless real = no_member (children h) λ c. elim (Bool-cases (has c (children h))) [
    | inr out ↦ out
    | inl inside ↦
        let mine = t.owned.0.1 h c inside in
        let over = (t.owners_live c λ none_there. real (sym mine ∙ none_there)).1 in
        absurd (true≢false (sym over ∙ ap m.magic mine ∙ dead))
  ]

  pub dead-frameless : (f : ℕ) → has h (members f) ≡ false
  dead-frameless f = elim (Bool-cases (has h (members f))) [
    | inr out ↦ out
    | inl inside ↦ absurd (true≢false (sym (t.placed.2 f h inside) ∙ dead))
  ]
