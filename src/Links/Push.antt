-- ===== src/Links/Push.antt =====
-- `push_front` over lists of addresses.
use ycpl.Base.{◌≡◌, refl, ◌≢◌, inl, inr, true, false, List, [], ◌∷◌, arith, ◌==◌, Bool-cases, ◌∙◌}
use ycpl.Address.{Ptr, null}
use ycpl.Links.{update, Links, push_front}
use ycpl.Links.Chain.{has, IsList, update_here, update_away, Chain-same, Chain-start, apart_from}

-- `push_front` puts a new header in front of the list.
pub push_front-IsList :
    (h : Ptr) (l : Links) (xs : List Ptr)
    → IsList l xs
    → h ≢ null
    → has h xs ≡ false
    → IsList (push_front h l) (h ∷ xs)
unfolding push_front
push_front-IsList h l [] (c, d) real out =
    let last : (l.head == null) ≡ true = ground arith in
    rw last ((refl, real, update_here l.prev h null, update_here l.next h l.head ∙ c), (refl, tt))
push_front-IsList h l (y ∷ ys) ((e, real', back, rest), (fresh, d)) real out =
    let more : (l.head == null) ≡ false = ground arith in
    let other : (h == l.head) ≡ false = ground arith in
    rw more (
      (
        refl,
        real,
        update_away (update l.prev h null) l.head h h other ∙ update_here l.prev h null,
        (
          update_here l.next h l.head ∙ e,
          real',
          rw e (update_here (update l.prev h null) y h),
          rw (update_away l.next h l.head y (ground arith)) (
              Chain-same {next' = (push_front h l).next} {prev' = (push_front h l).prev} y
                (l.next y) ys
                (λ z i.
                  let apart_y = apart_from y z ys fresh i in
                  let apart_h = apart_from h z ys (ground arith) i in
                  (
                    update_away l.next h l.head z (ground arith),
                    rw more (
                        update_away (update l.prev h null) l.head h z (ground arith)
                        ∙ update_away l.prev h null z (ground arith)),
                  ))
                rest),
        ),
      ),
      (ground arith, (fresh, d)),
    )

pub push_front-elsewhere :
    (h : Ptr) (l : Links) (xs : List Ptr) (x : Ptr)
    → IsList l xs
    → (x == h) ≡ false
    → has x xs ≡ false
    → ((push_front h l).next x ≡ l.next x) × ((push_front h l).prev x ≡ l.prev x)
unfolding push_front
push_front-elsewhere h l xs x (c, d) away out =
    let kept = update_away l.next h l.head x away in
    let prev_kept = update_away l.prev h null x away in
    elim (Bool-cases (l.head == null)) [
      | inl e ↦ rw e (kept, prev_kept)
      | inr e ↦
          let other : (x == l.head) ≡ false = elim (Chain-start l.next l.prev null l.head xs c) [
            | inl none_there ↦ absurd (ground arith)
            | inr first ↦ apart_from x l.head xs out first
          ] in
          rw e (kept, update_away (update l.prev h null) l.head h x other ∙ prev_kept)
    ]
