-- ===== src/Ranges/Find.antt =====
-- `yc_range_find` over the order of the treap.
use mathlib.Core.Path.{subst}
use ycpl.Base.{
  ℕ, ◌+◌, ◌-◌, ◌%◌, ◌≤◌, ◌<◌, ◌≡◌, refl, sym, ◌⊎◌, inl, inr, Bool, false, not, ◌&&◌, ltb, ◌==◌,
  if◌then◌else◌, Bool-cases, arith, eq_of_==,
}
use ycpl.Address.{Ptr, null, word, payload}
use ycpl.Ranges.{Treap, leaf, node, descend, find}
use ycpl.Ranges.Steps.{descend-true, descend-false}
use ycpl.Ranges.Order.{All, All-imp, IsOrdered, occurrences}

All-occurs : (P : Ptr → Type 0) (t : Treap) (x : Ptr) → All P t → 0 < occurrences x t → P x
unfolding occurrences
All-occurs P leaf x a h = elim h [ ]
All-occurs P (node l a r) x (pl, pa, pr) h = elim (Bool-cases (x == a)) [
  | inl e ↦ rw (eq_of_== x a e) pa
  | inr e ↦ elim (Bool-cases (ltb 0 (occurrences x l))) [
    | inl left ↦ All-occurs P l x pl (ground arith)
    | inr right ↦ All-occurs P r x pr (ground arith)
  ]
]

-- The descent ends at the last header whose memory starts at or before the address.
abbrev Lands : Ptr → Treap → Ptr → Ptr → Type 0
Lands p t c d =
    ((d ≡ c) × All (λ x. p < payload x) t)
    ⊎ ((0 < occurrences d t) × (payload d ≤ p) × All (λ x. (x ≤ d) ⊎ (p < payload x)) t)

-- Beyond a header that starts after the address, all do.
Starts_after :
    (p a : Ptr) (t : Treap) → p < payload a → All (λ x. a < x) t → All (λ x. p < payload x) t
unfolding payload
Starts_after p a leaf h q = tt
Starts_after p a (node l b r) h (ql, qb, qr) =
    (Starts_after p a l h ql, omega arith, Starts_after p a r h qr)

module _ (p : Ptr) (l : Treap) (a : Ptr) (r : Treap) (c d : Ptr) (ar : All (λ x. a < x) r) where
  -- The tests of one step of the descent.
  Lands-left : p < payload a → Lands p l c d → Lands p (node l a r) c d
  unfolding occurrences
  Lands-left here (inl (same, none_left)) =
      inl (same, (none_left, here, Starts_after p a r here ar))
  Lands-left here (inr (in_left, starts, best)) =
      inr (
        omega arith,
        starts,
        (best, inr here, All-imp (λ x h. inr h) r (Starts_after p a r here ar)),
      )

  Lands-right : payload a ≤ p → All (λ x. x < a) l → Lands p r a d → Lands p (node l a r) c d
  unfolding occurrences
  Lands-right here la (inl (same, none_right)) = inr (
    ground arith,
    rw same here,
    (
      All-imp (λ x h. inl (omega arith)) l la,
      inl (omega arith),
      All-imp (λ x h. inr h) r none_right,
    ),
  )
  Lands-right here la (inr (in_right, starts, best)) =
      let past = All-occurs (λ x. a < x) r d ar in_right in
      inr (omega arith, starts, (All-imp (λ x h. inl (omega arith)) l la, inl (omega arith), best))

descend-Lands : (p : Ptr) (t : Treap) (c : Ptr) → IsOrdered t → Lands p t c (descend p t c)
unfolding descend
descend-Lands p leaf c o = inl (refl, tt)
descend-Lands p (node l a r) c (la, ar, sl, sr) = elim (Bool-cases (ltb p (payload a))) [
  | inl e ↦
      subst (Lands p (node l a r) c) (sym (descend-true l a r p c e))
        (Lands-left p l a r c (descend p l c) ar (ground arith) (descend-Lands p l c sl))
  | inr e ↦
      subst (Lands p (node l a r) c) (sym (descend-false l a r p c e))
        (Lands-right p l a r c (descend p r a) ar (ground arith) la (descend-Lands p r a sr))
]

-- `yc_range_find` answers a header of the treap or null, wherever the allocations lie.
pub find-member :
    (size : Ptr → ℕ) (ptr : Ptr) (t : Treap)
    → IsOrdered t
    → (find size ptr t ≡ null) ⊎ (0 < occurrences (find size ptr t) t)
unfolding find
find-member size ptr t o =
    let d = descend ptr t null in
    elim (Bool-cases (not (d == null) && ltb ((ptr + word - payload d) % word) (size d))) [
      | inr e ↦ rw e (inl refl)
      | inl e ↦ rw e (elim (descend-Lands ptr t null o) [
        | inl (none_there, _) ↦ inl none_there
        | inr (in_treap, _, _) ↦ inr in_treap
      ])
    ]

-- `ptr` lies in the memory of `h`.
abbrev pub Within : (Ptr → ℕ) → Ptr → Ptr → Type 0
Within size ptr h = (payload h ≤ ptr) × (ptr < payload h + size h)

-- The memory of an allocation ends before the header of the next.
abbrev pub AreApart : (Ptr → ℕ) → Treap → Type 0
AreApart size t =
    (a b : Ptr) → 0 < occurrences a t → 0 < occurrences b t → a < b → payload a + size a ≤ b

-- What `yc_range_find` answers: the allocation that `ptr` points into, or null if there is none.
abbrev pub Finds : (Ptr → ℕ) → Ptr → Treap → Ptr → Type 0
Finds size ptr t x =
    ((x ≡ null) × ((h : Ptr) → 0 < occurrences h t → ¬ (Within size ptr h)))
    ⊎ ((0 < occurrences x t) × Within size ptr x)

module _ (size : Ptr → ℕ) (ptr : Ptr) (t : Treap) (o : IsOrdered t) (apart : AreApart size t)
    (fits : ptr < word) (no_null : occurrences null t ≡ 0) where
  -- Of the allocations that start at or before `ptr`, only the last can reach it.
  only_last :
      (d h : Ptr)
      → 0 < occurrences d t
      → payload d ≤ ptr
      → All (λ x. (x ≤ d) ⊎ (ptr < payload x)) t
      → 0 < occurrences h t
      → Within size ptr h
      → h ≡ d
  only_last d h in_t starts best h_in within =
      elim (All-occurs (λ x. (x ≤ d) ⊎ (ptr < payload x)) t h best h_in) [
        | inr late ↦ absurd (omega arith)
        | inl le ↦ elim (Bool-cases (ltb h d)) [
          | inr e ↦ ground arith
          | inl e ↦ absurd (unfold payload in omega (arith, apart h d h_in in_t (ground arith)))
        ]
      ]

  not_null : (d : Ptr) → 0 < occurrences d t → (d == null) ≡ false
  not_null d in_t = elim (Bool-cases (d == null)) [
    | inr e ↦ e
    | inl e ↦
        let zero_in : 0 < occurrences null t = rw (eq_of_== d null e) at in_t in
        absurd (omega arith)
  ]

  -- The last test of `yc_range_find`, at the header where the descent ends.
  test : Ptr → Bool
  test d = not (d == null) && ltb ((ptr + word - payload d) % word) (size d)

  tested : (d : Ptr) → Lands ptr t null d → Finds size ptr t (if test d then d else null)
  unfolding test
  tested d (inl (same, none_starts)) =
      let no : test d ≡ false = rw same refl in
      rw no (
        inl (
          refl,
          λ h h_in within.
              absurd (omega (arith, All-occurs (λ x. ptr < payload x) t h none_starts h_in)),
        ))
  tested d (inr (in_t, starts, best)) =
      let real : (d == null) ≡ false = not_null d in_t in
      let offset : (ptr + word - payload d) % word ≡ ptr - payload d = omega arith in
      elim (Bool-cases (ltb (ptr - payload d) (size d))) [
        | inl e ↦ rw (real, offset, e) (inr (in_t, (starts, ground arith)))
        | inr e ↦
            rw (real, offset, e)
              (inl (
                refl,
                λ h h_in within.
                    let own : Within size ptr d =
                      subst (Within size ptr) (only_last d h in_t starts best h_in within) within in
                    absurd (ground arith),
              ))
      ]

  -- Where the treap is ordered by address and its allocations are apart, `yc_range_find` answers
  -- the header of the allocation that the pointer lies in, and null exactly when it lies in none;
  -- the pointer is a word and null is no header.
  pub find-Finds : Finds size ptr t (find size ptr t)
  unfolding find test
  find-Finds = tested (descend ptr t null) (descend-Lands ptr t null o)
