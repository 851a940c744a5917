-- ===== src/Links/Chain.antt =====
-- Doubly linked lists as lists of addresses.
use mathlib.Core.Path.{subst}
use ycpl.Base.{
  ◌≡◌, refl, sym, ◌≢◌, ◌⊎◌, inl, inr, Bool, true, false, not, ◌||◌, ◌&&◌, List, [], ◌∷◌, arith,
  ◌==◌, if◌then◌else◌, Bool-cases, eq_of_==, ==_refl, ◌∙◌,
}
use ycpl.Address.{Ptr, null}
use ycpl.Links.{update, Links}

abbrev pub has : Ptr → List Ptr → Bool
has h [] = false
has h (x ∷ xs) = (h == x) || has h xs

abbrev pub erase : Ptr → List Ptr → List Ptr
erase h [] = []
erase h (x ∷ xs) = if h == x then xs else x ∷ erase h xs

-- From `p`, after `b`, the links lead through `xs` and end in null, and lead back.
abbrev pub Chain : (Ptr → Ptr) → (Ptr → Ptr) → Ptr → Ptr → List Ptr → Type 0
Chain next prev b p [] = p ≡ null
Chain next prev b p (x ∷ xs) = (p ≡ x) × (x ≢ null) × (prev x ≡ b) × Chain next prev x (next x) xs

abbrev pub IsDistinct : List Ptr → Type 0
IsDistinct [] = Unit
IsDistinct (x ∷ xs) = (has x xs ≡ false) × IsDistinct xs

-- The list holds exactly `xs`, in this order.
abbrev pub IsList : Links → List Ptr → Type 0
IsList l xs = Chain l.next l.prev null l.head xs × IsDistinct xs

pub update_here : {A : Type 0} → (f : Ptr → A) (h : Ptr) (v : A) → update f h v h ≡ v
unfolding update
update_here f h v = rw (==_refl h) refl

pub update_away : (f : Ptr → Ptr) (h v x : Ptr) → (x == h) ≡ false → update f h v x ≡ f x
unfolding update
update_away f h v x e = rw e refl

-- A chain survives a change of links that spares its members.
pub Chain-same :
    {next prev next' prev' : Ptr → Ptr} (b p : Ptr) (xs : List Ptr)
    → ((x : Ptr) → has x xs ≡ true → (next' x ≡ next x) × (prev' x ≡ prev x))
    → Chain next prev b p xs
    → Chain next' prev' b p xs
Chain-same b p [] same c = c
Chain-same {next} b p (x ∷ xs) same (e, real, back, rest) =
    let own = same x (rw (==_refl x) refl) in
    (e, real, own.1 ∙ back, rw own.0 (Chain-same x (next x) xs (λ y i. same y (ground arith)) rest))

-- The members of a chain are not null.
pub Chain-real :
    (next prev : Ptr → Ptr) (b p : Ptr) (xs : List Ptr)
    → Chain next prev b p xs
    → has null xs ≡ false
Chain-real next prev b p [] c = refl
Chain-real next prev b p (x ∷ xs) (e, real, back, rest) =
    ground (arith, Chain-real next prev x (next x) xs rest)

-- The link back of the first member.
pub Chain-first :
    (next prev : Ptr → Ptr) (b h : Ptr) (xs : List Ptr)
    → Chain next prev b h xs
    → has h xs ≡ true
    → prev h ≡ b
Chain-first next prev b h [] c i = absurd (ground arith)
Chain-first next prev b h (x ∷ xs) (e, real, back, rest) i = rw e back

-- Where the link back of another member leads.
pub Chain-prev :
    (next prev : Ptr → Ptr) (b p : Ptr) (xs : List Ptr) (h : Ptr)
    → Chain next prev b p xs
    → has h xs ≡ true
    → (p == h) ≡ false
    → has (prev h) xs ≡ true
Chain-prev next prev b p [] h c i away = absurd (ground arith)
Chain-prev next prev b p (x ∷ xs) h (e, real, back, rest) i away = elim (Bool-cases (next x == h)) [
  | inr e' ↦ ground (arith, Chain-prev next prev x (next x) xs h rest)
  | inl e' ↦
      let inside : has h xs ≡ true = ground arith in
      let start : Chain next prev x h xs =
        subst (λ p. Chain next prev x p xs) (eq_of_== (next x) h e') rest in
      rw (Chain-first next prev x h xs start inside, ==_refl x) refl
]

-- A chain starts at a member or at null.
pub Chain-start :
    (next prev : Ptr → Ptr) (b p : Ptr) (xs : List Ptr)
    → Chain next prev b p xs
    → (p ≡ null) ⊎ (has p xs ≡ true)
Chain-start next prev b p [] c = inl c
Chain-start next prev b p (x ∷ xs) (e, real, back, rest) = inr (rw (e, ==_refl x) refl)

-- Where the link onward of a member leads.
pub Chain-next :
    (next prev : Ptr → Ptr) (b p : Ptr) (xs : List Ptr) (h : Ptr)
    → Chain next prev b p xs
    → has h xs ≡ true
    → (next h ≡ null) ⊎ (has (next h) xs ≡ true)
Chain-next next prev b p [] h c i = absurd (ground arith)
Chain-next next prev b p (x ∷ xs) h (e, real, back, rest) i = elim (Bool-cases (h == x)) [
  | inl e' ↦ elim (Chain-start next prev x (next x) xs rest) [
    | inl none_left ↦ inl (rw (eq_of_== h x e') none_left)
    | inr inside ↦
        inr (
          subst (λ y. has (next y) (x ∷ xs) ≡ true) (sym (eq_of_== h x e'))
            (ground (arith, inside)))
  ]
  | inr e' ↦ elim (Chain-next next prev x (next x) xs h rest (ground arith)) [
    | inl none_left ↦ inl none_left
    | inr inside ↦ inr (ground arith)
  ]
]

-- A header outside of the list is not equal to one inside.
pub apart_from : (x y : Ptr) (xs : List Ptr) → has x xs ≡ false → has y xs ≡ true → (x == y) ≡ false
apart_from x y xs out inside = elim (Bool-cases (x == y)) [
  | inr e ↦ e
  | inl e ↦ absurd (
      let inside' : has x xs ≡ true = subst (λ z. has z xs ≡ true) (sym (eq_of_== x y e)) inside in
      ground arith)
]

pub has-erase :
    (x h : Ptr) (xs : List Ptr) → IsDistinct xs → has x (erase h xs) ≡ (not (x == h) && has x xs)
has-erase x h [] d = ground arith
has-erase x h (y ∷ xs) (fresh, d) = elim (Bool-cases (h == y)) [
  | inl e ↦ elim (Bool-cases (x == h)) [
    | inl e' ↦
        let same : x ≡ y = ground arith in
        let out : has x xs ≡ false = rw same fresh in rw (e, e', out) refl
    | inr e' ↦ rw (e, e') (ground arith)
  ]
  | inr e ↦ rw (e, has-erase x h xs d) (ground arith)
]
