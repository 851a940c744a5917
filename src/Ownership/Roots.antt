-- ===== src/Ownership/Roots.antt =====
-- Owner chains: the walks up to the root, and what a new owner makes of a chain.
use ycpl.Base.{
  ℕ, zero, suc, ◌+◌, ◌≤◌, ◌<◌, ◌≡◌, refl, ◌≢◌, ◌⊎◌, inl, inr, true, false, some, arith, ◌==◌,
  Bool-cases, eq_of_==, ◌∙◌,
}
use ycpl.Address.{Ptr, null}
use ycpl.Links.{update}
use ycpl.Links.Chain.{update_here, update_away}
use ycpl.Ownership.{owner_root, is_owner_ancestor}

-- At most `n` headers stand on the owner chain of `h`.
abbrev pub IsRooted : (Ptr → Ptr) → ℕ → Ptr → Type 0
IsRooted owner zero h = h ≡ null
IsRooted owner (suc n) h = (h ≡ null) ⊎ IsRooted owner n (owner h)

-- `a` is one of the first `n` headers of the owner chain of `h`.
abbrev pub IsAbove : (Ptr → Ptr) → ℕ → Ptr → Ptr → Type 0
IsAbove owner zero a h = ⊥
IsAbove owner (suc n) a h = (h ≢ null) × ((h ≡ a) ⊎ IsAbove owner n a (owner h))

pub IsRooted-mono :
    (owner : Ptr → Ptr) (n k : ℕ) (h : Ptr) → IsRooted owner n h → n ≤ k → IsRooted owner k h
IsRooted-mono owner zero zero h r le = r
IsRooted-mono owner zero (suc k) h r le = inl r
IsRooted-mono owner (suc n) zero h r le = absurd (omega arith)
IsRooted-mono owner (suc n) (suc k) h (inl top) le = inl top
IsRooted-mono owner (suc n) (suc k) h (inr r) le =
    inr (IsRooted-mono owner n k (owner h) r (omega arith))

owner_root_up :
    (owner : Ptr → Ptr) (fuel : ℕ) (h : Ptr)
    → (h == null) ≡ false
    → (owner h == null) ≡ false
    → owner_root (suc fuel) owner h ≡ owner_root fuel owner (owner h)
unfolding owner_root
owner_root_up owner fuel h e e' = rw (e, e') refl

is_owner_ancestor_up :
    (owner : Ptr → Ptr) (fuel : ℕ) (a h : Ptr)
    → (h == null) ≡ false
    → (h == a) ≡ false
    → is_owner_ancestor (suc fuel) owner a h ≡ is_owner_ancestor fuel owner a (owner h)
unfolding is_owner_ancestor
is_owner_ancestor_up owner fuel a h e e' = rw (e, e') refl

-- `yc_owner_root` ends, when the fuel is more than the owner chain. What it returns for a header is
-- the header without owner on its chain, and null for null.
pub owner_root-IsAbove :
    (owner : Ptr → Ptr) (n fuel : ℕ) (h : Ptr)
    → IsRooted owner n h
    → n < fuel
    → (r : Ptr) × (owner_root fuel owner h ≡ some r)
      × (((h ≡ null) × (r ≡ null)) ⊎ ((owner r ≡ null) × IsAbove owner n r h))
unfolding owner_root
owner_root-IsAbove owner n zero h rooted lt = absurd (omega arith)
owner_root-IsAbove owner zero (suc f) h top lt = (null, rw top refl, inl (top, refl))
owner_root-IsAbove owner (suc n) (suc f) h rooted lt = elim (Bool-cases (h == null)) [
  | inl e ↦ (h, rw e refl, inl (ground arith, ground arith))
  | inr e ↦ elim (Bool-cases (owner h == null)) [
    | inl e' ↦ (h, rw (e, e') refl, inr (ground arith, (ground arith, inl refl)))
    | inr e' ↦ elim rooted [
      | inl top ↦ absurd (ground arith)
      | inr r ↦
          let rest = owner_root-IsAbove owner n f (owner h) r (omega arith) in
          (
            rest.0,
            owner_root_up owner f h e e' ∙ rest.1,
            elim rest.2 [
              | inl both ↦ absurd (ground arith)
              | inr (top, above) ↦ inr (top, (ground arith, inr above))
            ],
          )
    ]
  ]
]

-- `yc_is_owner_ancestor` ends, when the fuel is more than the owner chain, and tells whether the
-- header is on it.
pub is_owner_ancestor-IsAbove :
    (owner : Ptr → Ptr) (n fuel : ℕ) (a h : Ptr)
    → IsRooted owner n h
    → n < fuel
    → ((is_owner_ancestor fuel owner a h ≡ some true) × IsAbove owner n a h)
      ⊎ ((is_owner_ancestor fuel owner a h ≡ some false) × ¬ (IsAbove owner n a h))
unfolding is_owner_ancestor
is_owner_ancestor-IsAbove owner n zero a h rooted lt = absurd (omega arith)
is_owner_ancestor-IsAbove owner zero (suc f) a h top lt = inr (rw top refl, λ above. above)
is_owner_ancestor-IsAbove owner (suc n) (suc f) a h rooted lt = elim (Bool-cases (h == null)) [
  | inl e ↦ inr (rw e refl, λ above. above.0 (ground arith))
  | inr e ↦ elim (Bool-cases (h == a)) [
    | inl e' ↦ inl (rw (e, e') refl, (ground arith, inl (ground arith)))
    | inr e' ↦ elim rooted [
      | inl top ↦ absurd (ground arith)
      | inr r ↦ elim (is_owner_ancestor-IsAbove owner n f a (owner h) r (omega arith)) [
        | inl (up, above) ↦
            inl (is_owner_ancestor_up owner f a h e e' ∙ up, (ground arith, inr above))
        | inr (up, out) ↦ inr (
          is_owner_ancestor_up owner f a h e e' ∙ up,
          λ above. elim above.1 [ inl here ↦ absurd (ground arith) | inr there ↦ out there ],
        )
      ]
    ]
  ]
]

-- A chain that a header is not on does not notice its new owner.
kept_chain :
    (owner : Ptr → Ptr) (n : ℕ) (c p h : Ptr)
    → IsRooted owner n h
    → ¬ (IsAbove owner n c h)
    → IsRooted (update owner c p) n h
kept_chain owner zero c p h r out = r
kept_chain owner (suc n) c p h (inl top) out = inl top
kept_chain owner (suc n) c p h (inr r) out = elim (Bool-cases (h == null)) [
  | inl e ↦ inl (ground arith)
  | inr e ↦ elim (Bool-cases (h == c)) [
    | inl e' ↦ absurd (out (ground arith, inl (ground arith)))
    | inr e' ↦ inr (
        rw (update_away owner c p h e')
          (kept_chain owner n c p (owner h) r λ above. out (ground arith, inr above)))
  ]
]

-- A new owner that the header is not above of leaves all owner chains finite.
pub update-IsRooted :
    (owner : Ptr → Ptr) (k n m : ℕ) (c p h : Ptr)
    → IsRooted owner n p
    → ¬ (IsAbove owner n c p)
    → IsRooted owner k h
    → k + n < m
    → IsRooted (update owner c p) m h
update-IsRooted owner k n zero c p h rp out r lt = absurd (omega arith)
update-IsRooted owner zero n (suc m) c p h rp out r lt = inl r
update-IsRooted owner (suc k) n (suc m) c p h rp out (inl top) lt = inl top
update-IsRooted owner (suc k) n (suc m) c p h rp out (inr r) lt = elim (Bool-cases (h == c)) [
  | inl e ↦ inr (
      rw (eq_of_== h c e, update_here owner c p)
        (IsRooted-mono (update owner c p) n m p (kept_chain owner n c p p rp out) (omega arith)))
  | inr e ↦ inr (
      rw (update_away owner c p h e)
        (update-IsRooted owner k n m c p (owner h) rp out r (omega arith)))
]

pub IsRooted-same :
    (owner owner' : Ptr → Ptr) (n : ℕ) (h : Ptr)
    → ((x : Ptr) → owner' x ≡ owner x)
    → IsRooted owner n h
    → IsRooted owner' n h
IsRooted-same owner owner' zero h same top = top
IsRooted-same owner owner' (suc n) h same (inl top) = inl top
IsRooted-same owner owner' (suc n) h same (inr r) =
    inr (rw (same h) (IsRooted-same owner owner' n (owner h) same r))
