-- ===== src/Links/Unlink.antt =====
-- `unlink` over lists of addresses.
use mathlib.Core.Path.{subst}
use ycpl.Base.{
  ◌≡◌, refl, sym, ◌≢◌, inl, inr, true, false, List, [], ◌∷◌, arith, ◌==◌, if◌then◌else◌, Bool-cases,
  eq_of_==, ==_refl, ◌∙◌,
}
use ycpl.Address.{Ptr, null}
use ycpl.Links.{update, Links, pass_next, pass_prev, unlink}
use ycpl.Links.Chain.{
  has, erase, Chain, IsDistinct, IsList, Chain-real, Chain-same, Chain-first, Chain-prev,
  Chain-next, apart_from,
}

-- The links after `unlink`.
abbrev next_without : (Ptr → Ptr) → (Ptr → Ptr) → Ptr → Ptr → Ptr
next_without next prev h =
    update (if prev h == null then next else update next (prev h) (next h)) h null

abbrev prev_without : (Ptr → Ptr) → (Ptr → Ptr) → Ptr → Ptr → Ptr
prev_without next prev h =
    update (if next h == null then prev else update prev (next h) (prev h)) h null

module _ (next prev : Ptr → Ptr) (h : Ptr) where
  next_elsewhere :
      (x : Ptr) → (x == h) ≡ false → (x == prev h) ≡ false → next_without next prev h x ≡ next x
  unfolding update
  next_elsewhere x e e' = elim (Bool-cases (prev h == null)) [
    | inl z ↦ rw (e, z) refl
    | inr z ↦ rw (e, z, e') refl
  ]

  next_before :
      (x : Ptr) → (x == h) ≡ false → x ≢ null → prev h ≡ x → next_without next prev h x ≡ next h
  unfolding update
  next_before x e real back =
      let z : (prev h == null) ≡ false = ground arith in rw (e, z, back, ==_refl x) refl

  prev_elsewhere :
      (x : Ptr) → (x == h) ≡ false → (x == next h) ≡ false → prev_without next prev h x ≡ prev x
  unfolding update
  prev_elsewhere x e e' = elim (Bool-cases (next h == null)) [
    | inl z ↦ rw (e, z) refl
    | inr z ↦ rw (e, z, e') refl
  ]

  prev_after :
      (x : Ptr) → (x == h) ≡ false → x ≢ null → next h ≡ x → prev_without next prev h x ≡ prev h
  unfolding update
  prev_after x e real on =
      let z : (next h == null) ≡ false = ground arith in rw (e, z, on, ==_refl x) refl

  -- What follows the header, behind what stood before it.
  Chain-rest :
      (b : Ptr) (xs : List Ptr)
      → Chain next prev h (next h) xs
      → prev h ≡ b
      → IsDistinct xs
      → has h xs ≡ false
      → has b xs ≡ false
      → Chain (next_without next prev h) (prev_without next prev h) b (next h) xs
  Chain-rest b [] c back d out out' = c
  Chain-rest b (y ∷ ys) (e, real, back', rest) back (fresh, d) out out' = (
    e,
    real,
    prev_after y (ground arith) real e ∙ back,
    rw (next_elsewhere y (ground arith) (ground arith)) (
        Chain-same y (next y) ys
          (λ z i. (
            next_elsewhere z (ground arith) (ground arith),
            prev_elsewhere z (ground arith) (ground arith),
          ))
          rest),
  )

  Chain-unlink :
      (b p : Ptr) (xs : List Ptr)
      → Chain next prev b p xs
      → IsDistinct xs
      → has b xs ≡ false
      → has h xs ≡ true
      → Chain
          (next_without next prev h)
          (prev_without next prev h)
          b
          (if p == h then next h else p)
          (erase h xs)
  Chain-unlink b p [] c d out i = absurd (ground arith)
  Chain-unlink b p (x ∷ xs) (e, real, back, rest) (fresh, d) out i = elim (Bool-cases (h == x)) [
    | inl e' ↦
        let same : x ≡ h = sym (eq_of_== h x e') in
        let start : Chain next prev h (next h) xs =
          subst (λ x. Chain next prev x (next x) xs) same rest in
        let back' : prev h ≡ b = subst (λ x. prev x ≡ b) same back in
        let first : (p == h) ≡ true = ground arith in
        rw (e', first) (Chain-rest b xs start back' d (ground arith) (ground arith))
    | inr e' ↦
        let inside : has h xs ≡ true = ground arith in
        let first : (p == h) ≡ false = ground arith in
        let behind = Chain-unlink x (next x) xs rest d fresh inside in
        let after : (x == next h) ≡ false =
          elim (Chain-next next prev x (next x) xs h rest inside) [
            | inl none_left ↦ ground arith
            | inr onward ↦ apart_from x (next h) xs fresh onward
          ] in
        let onward : Chain (next_without next prev h) (prev_without next prev h) x
            (next_without next prev h x) (erase h xs) =
          elim (Bool-cases (next x == h)) [
            | inl z ↦
                let start : Chain next prev x h xs =
                  subst (λ p. Chain next prev x p xs) (eq_of_== (next x) h z) rest in
                rw (next_before x (ground arith) real (Chain-first next prev x h xs start inside))
                  (rw z at behind)
            | inr z ↦
                rw
                  (next_elsewhere x (ground arith) (
                    apart_from x (prev h) xs fresh
                      (Chain-prev next prev x (next x) xs h rest inside z)))
                  (rw z at behind)
          ] in
        rw (e', first) (e, real, prev_elsewhere x (ground arith) after ∙ back, onward)
  ]

-- `unlink` in one step: its reads after the first write see what was there before.
unlink_lem :
    (h : Ptr) (l : Links)
    → unlink h l ≡ record {
      next = next_without l.next l.prev h;
      prev = prev_without l.next l.prev h;
      head = if l.prev h == null then if l.head == h then l.next h else l.head else l.head;
    }
unfolding unlink pass_next pass_prev
unlink_lem h l = elim (Bool-cases (l.prev h == null)) [
  | inl first ↦ elim (Bool-cases (l.head == h)) [
    | inl e ↦ elim (Bool-cases (l.next h == null)) [
      | inl last ↦ rw (first, e, last) refl
      | inr on ↦ rw (first, e, on) refl
    ]
    | inr e ↦ elim (Bool-cases (l.next h == null)) [
      | inl last ↦ rw (first, e, last) refl
      | inr on ↦ rw (first, e, on) refl
    ]
  ]
  | inr behind ↦
      let kept : update l.next (l.prev h) (l.next h) h ≡ l.next h =
        unfold update in
        elim (Bool-cases (h == l.prev h)) [ inl e ↦ rw e refl | inr e ↦ rw e refl ] in
      elim (Bool-cases (l.next h == null)) [
        | inl last ↦ rw (behind, kept, last) refl
        | inr on ↦ rw (behind, kept, on) refl
      ]
]

erase-out : (x h : Ptr) (xs : List Ptr) → has x xs ≡ false → has x (erase h xs) ≡ false
erase-out x h [] out = refl
erase-out x h (y ∷ xs) out = elim (Bool-cases (h == y)) [
  | inl e ↦ rw e (ground arith)
  | inr e ↦ rw (e, erase-out x h xs (ground arith)) (ground arith)
]

erase-IsDistinct : (h : Ptr) (xs : List Ptr) → IsDistinct xs → IsDistinct (erase h xs)
erase-IsDistinct h [] d = tt
erase-IsDistinct h (x ∷ xs) (out, d) = elim (Bool-cases (h == x)) [
  | inl e ↦ rw e d
  | inr e ↦ rw e (erase-out x h xs out, erase-IsDistinct h xs d)
]

-- The head of a list has no link back, and another member has one.
head_first :
    (h : Ptr) (l : Links) (xs : List Ptr)
    → IsList l xs
    → has h xs ≡ true
    → (l.prev h == null) ≡ (l.head == h)
head_first h l xs (c, d) inside = elim (Bool-cases (l.head == h)) [
  | inl e ↦
      let start : Chain l.next l.prev null h xs =
        subst (λ p. Chain l.next l.prev null p xs) (eq_of_== l.head h e) c in
      rw (e, Chain-first l.next l.prev null h xs start inside) refl
  | inr e ↦
      let behind = Chain-prev l.next l.prev null l.head xs h c inside e in
      let real = Chain-real l.next l.prev null l.head xs c in
      rw e (ground (arith, apart_from null (l.prev h) xs real behind))
]

-- `unlink` takes a member out and keeps the others in their order.
pub unlink-IsList :
    (h : Ptr) (l : Links) (xs : List Ptr)
    → IsList l xs
    → has h xs ≡ true
    → IsList (unlink h l) (erase h xs)
unlink-IsList h l xs (c, d) inside =
    let real = Chain-real l.next l.prev null l.head xs c in
    let chain = Chain-unlink l.next l.prev h null l.head xs c d real inside in
    let first = head_first h l xs (c, d) inside in
    rw (unlink_lem h l) (elim (Bool-cases (l.head == h)) [
      | inl e ↦ rw (first ∙ e, e) (rw (first ∙ e, e) at chain, erase-IsDistinct h xs d)
      | inr e ↦ rw (first ∙ e) (rw (first ∙ e, e) at chain, erase-IsDistinct h xs d)
    ])

-- Who is in another list sees nothing of it.
pub unlink-elsewhere :
    (h : Ptr) (l : Links) (xs : List Ptr) (x : Ptr)
    → x ≢ null
    → IsList l xs
    → has h xs ≡ true
    → has x xs ≡ false
    → ((unlink h l).next x ≡ l.next x) × ((unlink h l).prev x ≡ l.prev x)
unlink-elsewhere h l xs x real (c, d) inside out =
    let away = apart_from x h xs out inside in
    let next_kept : (x == l.prev h) ≡ false = elim (Bool-cases (l.head == h)) [
      | inl e ↦
          let first : (l.prev h == null) ≡ true = head_first h l xs (c, d) inside ∙ e in
          ground arith
      | inr e ↦
          apart_from x (l.prev h) xs out (Chain-prev l.next l.prev null l.head xs h c inside e)
    ] in
    let prev_kept : (x == l.next h) ≡ false =
      elim (Chain-next l.next l.prev null l.head xs h c inside) [
        | inl last ↦ ground arith
        | inr onward ↦ apart_from x (l.next h) xs out onward
      ] in
    rw (unlink_lem h l) (
      next_elsewhere l.next l.prev h x away next_kept,
      prev_elsewhere l.next l.prev h x away prev_kept,
    )
