-- ===== src/Links/Family.antt =====
-- Lists that share the links of the headers: a header is in at most one of them, the one that its
-- key tells. The lists of the frames and the children of the owners are such families.
use mathlib.Core.Path.{subst}
use ycpl.Base.{
  ℕ, ◌≡◌, refl, [], ◌∷◌, length, ◌+◌, ◌≤◌, sym, ◌≢◌, inl, inr, true, false, List, ◌∷◌, arith, ◌==◌,
  if◌then◌else◌, Bool-cases, eq_of_==, ==_refl, ◌∙◌,
}
use ycpl.Address.{Ptr, null}
use ycpl.Links.{Links, push_front, unlink}
use ycpl.Links.Chain.{has, erase, Chain-same, Chain-real, IsList, apart_from, has-erase}
use ycpl.Links.Push.{push_front-IsList, push_front-elsewhere}
use ycpl.Links.Unlink.{unlink-IsList, unlink-elsewhere}

abbrev pub Family : (Ptr → Ptr) → (Ptr → Ptr) → (ℕ → Ptr) → (Ptr → ℕ) → (ℕ → List Ptr) → Type 0
Family next prev heads kin members =
    ((k : ℕ) → IsList (record { next = next; prev = prev; head = heads k }) (members k))
    × ((k : ℕ) (h : Ptr) → has h (members k) ≡ true → kin h ≡ k)

-- The members once a header is in front of list `k`, and once it is out of it.
abbrev pub joined : Ptr → ℕ → (ℕ → List Ptr) → ℕ → List Ptr
joined h k members j = if j == k then h ∷ members j else members j

abbrev pub left_by : Ptr → ℕ → (ℕ → List Ptr) → ℕ → List Ptr
left_by h k members j = if j == k then erase h (members j) else members j

module _ (next prev : Ptr → Ptr) (heads : ℕ → Ptr) (kin : Ptr → ℕ) (members : ℕ → List Ptr)
    (family : Family next prev heads kin members) (h : Ptr) (k : ℕ) (heads' : ℕ → Ptr)
    (kin' : Ptr → ℕ) (others : (j : ℕ) → (j == k) ≡ false → heads' j ≡ heads j)
    (same_kin : (x : Ptr) → (x == h) ≡ false → kin' x ≡ kin x) where
  abbrev list_of : ℕ → Links
  list_of j = record { next = next; prev = prev; head = heads j }

  -- The lists of two keys have no common header.
  other_list :
      (j : ℕ) (x : Ptr) → (j == k) ≡ false → has x (members j) ≡ true → has x (members k) ≡ false
  other_list j x e inside = elim (Bool-cases (has x (members k))) [
    | inr out ↦ out
    | inl both ↦ absurd (ground (arith, family.1 j x inside, family.1 k x both))
  ]

  not_null : (j : ℕ) (x : Ptr) → has x (members j) ≡ true → x ≢ null
  not_null j x inside e =
      let null_in : has null (members j) ≡ true = subst (λ z. has z (members j) ≡ true) e inside in
      absurd (ground (arith, Chain-real next prev null (heads j) (members j) (family.0 j).0))

  -- A list of another key, where the links of its members stay.
  kept-IsList :
      (next' prev' : Ptr → Ptr) (j : ℕ)
      → (j == k) ≡ false
      → ((x : Ptr) → has x (members j) ≡ true → (next' x ≡ next x) × (prev' x ≡ prev x))
      → IsList (record { next = next'; prev = prev'; head = heads' j }) (members j)
  kept-IsList next' prev' j e same =
      rw (others j e) (Chain-same null (heads j) (members j) same (family.0 j).0, (family.0 j).1)

  in_front :
      h ≢ null
      → has h (members k) ≡ false
      → IsList
          (record {
            next = (push_front h (list_of k)).next;
            prev = (push_front h (list_of k)).prev;
            head = h;
          })
          (h ∷ members k)
  unfolding push_front
  in_front real out = push_front-IsList h (list_of k) (members k) (family.0 k) real out

  pub push_front-Family :
      h ≢ null
      → ((j : ℕ) → has h (members j) ≡ false)
      → heads' k ≡ h
      → kin' h ≡ k
      → Family
          (push_front h (list_of k)).next
          (push_front h (list_of k)).prev
          heads'
          kin'
          (joined h k members)
  push_front-Family real out first mine = (lists, keys)
    where
      lists :
          (j : ℕ)
          → IsList
              (record {
                next = (push_front h (list_of k)).next;
                prev = (push_front h (list_of k)).prev;
                head = heads' j;
              })
              (joined h k members j)
      lists j = elim (Bool-cases (j == k)) [
        | inl e ↦
            subst
              (λ j.
                IsList
                  (record {
                    next = (push_front h (list_of k)).next;
                    prev = (push_front h (list_of k)).prev;
                    head = heads' j;
                  })
                  (joined h k members j))
              (sym (eq_of_== j k e)) (rw (==_refl k, first) (in_front real (out k)))
        | inr e ↦ rw e (
            kept-IsList (push_front h (list_of k)).next (push_front h (list_of k)).prev j e
              λ x inside.
                push_front-elsewhere h (list_of k) (members k) x (family.0 k)
                  (ground (arith, apart_from h x (members j) (out j) inside))
                  (other_list j x e inside))
      ]

      keys : (j : ℕ) (x : Ptr) → has x (joined h k members j) ≡ true → kin' x ≡ j
      keys j x inside = elim (Bool-cases (x == h)) [
        | inl e ↦ elim (Bool-cases (j == k)) [
          | inl e' ↦ rw (eq_of_== x h e, eq_of_== j k e') mine
          | inr e' ↦
              let old : has x (members j) ≡ true = rw e' at inside in
              absurd (ground (arith, apart_from h x (members j) (out j) old))
        ]
        | inr e ↦ elim (Bool-cases (j == k)) [
          | inl e' ↦
              let new : has x (h ∷ members j) ≡ true = rw e' at inside in
              same_kin x e ∙ family.1 j x (ground arith)
          | inr e' ↦ same_kin x e ∙ family.1 j x (rw e' at inside)
        ]
      ]

  pub unlink-Family :
      has h (members k) ≡ true
      → heads' k ≡ (unlink h (list_of k)).head
      → Family
          (unlink h (list_of k)).next
          (unlink h (list_of k)).prev
          heads'
          kin'
          (left_by h k members)
  unlink-Family inside first = (lists, keys)
    where
      lists :
          (j : ℕ)
          → IsList
              (record {
                next = (unlink h (list_of k)).next;
                prev = (unlink h (list_of k)).prev;
                head = heads' j;
              })
              (left_by h k members j)
      lists j = elim (Bool-cases (j == k)) [
        | inl e ↦
            subst
              (λ j.
                IsList
                  (record {
                    next = (unlink h (list_of k)).next;
                    prev = (unlink h (list_of k)).prev;
                    head = heads' j;
                  })
                  (left_by h k members j))
              (sym (eq_of_== j k e))
              (rw (==_refl k, first) (unlink-IsList h (list_of k) (members k) (family.0 k) inside))
        | inr e ↦ rw e (
            kept-IsList (unlink h (list_of k)).next (unlink h (list_of k)).prev j e λ x inside'.
              unlink-elsewhere h (list_of k) (members k) x (not_null j x inside') (family.0 k)
                inside (other_list j x e inside'))
      ]

      h_only : (j : ℕ) → (j == k) ≡ false → has h (members j) ≡ false
      h_only j e = elim (Bool-cases (has h (members j))) [
        | inr away ↦ away
        | inl both ↦ absurd (ground (arith, other_list j h e both))
      ]

      keys : (j : ℕ) (x : Ptr) → has x (left_by h k members j) ≡ true → kin' x ≡ j
      keys j x inside' = elim (Bool-cases (j == k)) [
        | inl e ↦
            let stays : has x (erase h (members j)) ≡ true = rw e at inside' in
            let gone = has-erase x h (members j) (family.0 j).1 in
            same_kin x (ground arith) ∙ family.1 j x (ground arith)
        | inr e ↦
            let stays : has x (members j) ≡ true = rw e at inside' in
            let away = apart_from h x (members j) (h_only j e) stays in
            same_kin x (ground arith) ∙ family.1 j x stays
      ]

module _ (next prev : Ptr → Ptr) (heads : ℕ → Ptr) (kin : Ptr → ℕ) (members : ℕ → List Ptr)
    (family : Family next prev heads kin members) (h : Ptr) where
  -- Once a header left the list of its key, it is in no list, and the others are where they were.
  pub left_by-out : (j : ℕ) → has h (left_by h (kin h) members j) ≡ false
  left_by-out j = elim (Bool-cases (j == kin h)) [
    | inl e ↦ rw (e, has-erase h h (members j) (family.0 j).1, ==_refl h) refl
    | inr e ↦ elim (Bool-cases (has h (members j))) [
      | inr out ↦ rw e out
      | inl inside ↦ absurd (ground (arith, family.1 j h inside))
    ]
  ]

  pub left_by-stays :
      (j : ℕ) (x : Ptr)
      → (x == h) ≡ false
      → has x (members j) ≡ true
      → has x (left_by h (kin h) members j) ≡ true
  left_by-stays j x away inside = elim (Bool-cases (j == kin h)) [
    | inl e ↦ rw (e, has-erase x h (members j) (family.0 j).1, away) inside
    | inr e ↦ rw e inside
  ]

pub joined-stays :
    (h k : Ptr) (members : Ptr → List Ptr) (j x : Ptr)
    → has x (members j) ≡ true
    → has x (joined h k members j) ≡ true
joined-stays h k members j x inside = elim (Bool-cases (j == k)) [
  | inl e ↦ rw e (ground arith)
  | inr e ↦ rw e inside
]

pub joined-has : (h k : Ptr) (members : Ptr → List Ptr) → has h (joined h k members k) ≡ true
joined-has h k members = rw (==_refl k, ==_refl h) refl

length-erase : (h : Ptr) (xs : List Ptr) → length (erase h xs) ≤ length xs
length-erase h [] = omega arith
length-erase h (x ∷ xs) = elim (Bool-cases (h == x)) [
  | inl e ↦ rw e (omega arith)
  | inr e ↦ rw e (omega (arith, length-erase h xs))
]

-- A list grows by at most one header when a header changes lists.
pub length-joined-left_by :
    (h k j i : ℕ) (members : ℕ → List Ptr)
    → length (joined h k (left_by h j members) i) ≤ length (members i) + 1
length-joined-left_by h k j i members = elim (Bool-cases (i == k)) [
  | inl e ↦ elim (Bool-cases (i == j)) [
    | inl e' ↦ rw (e, e') (omega (arith, length-erase h (members i)))
    | inr e' ↦ rw (e, e') (omega arith)
  ]
  | inr e ↦ elim (Bool-cases (i == j)) [
    | inl e' ↦ rw (e, e') (omega (arith, length-erase h (members i)))
    | inr e' ↦ rw (e, e') (omega arith)
  ]
]
