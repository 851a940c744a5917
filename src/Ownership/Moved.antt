-- ===== src/Ownership/Moved.antt =====
-- What a move to a frame does, and the move of one header (`yc_move_graph_to_frame` before its loop).
use ycpl.Base.{
  ℕ, ◌<◌, ◌≡◌, refl, ◌≢◌, ◌⊎◌, inl, inr, Bool, true, false, some, List, ◌==◌, if◌then◌else◌,
  Bool-cases, eq_of_==, ◌∙◌, length, get_or,
}
use ycpl.Address.{Ptr, null}
use ycpl.Links.Chain.{has}
use ycpl.Links.Family.{joined, left_by, left_by-out, left_by-stays, joined-stays, joined-has}
use ycpl.Links.Leave.{joined-was, left_by-was}
use ycpl.Memory.{Memory, linked_in, frame_link, frame_unlink}
use ycpl.Memory.Frames.{IsFramed, linked_in-IsFramed, frame_unlink-IsFramed}
use ycpl.Memory.Linked.{
  Reframed, Reframed-refl, Reframed-trans, Reframed-length, linked_in-Reframed,
  frame_unlink-Reframed, frame_link_lem,
}

-- Every live header is in the list of its frame, and the lists hold live headers only.
abbrev pub IsPlaced : (Ptr → Bool) → Memory → (ℕ → List Ptr) → Type 0
IsPlaced live m members =
    IsFramed m members
    × ((x : Ptr) → live x ≡ true → has x (members (m.frame x)) ≡ true)
    × ((f : ℕ) (x : Ptr) → has x (members f) ≡ true → live x ≡ true)

-- What a move to `frame` does to the headers of `S`, and what it may change.
pub record Moved (live : Ptr → Bool) (frame : ℕ) (S : Ptr → Type 0) (m m' : Memory) : Type 0 where
  pub reframed : Reframed m m'
  pub only : (x : Ptr) → (m'.frame x ≡ m.frame x) ⊎ ((m'.frame x ≡ frame) × S x)
  pub all : (x : Ptr) → S x → m'.frame x ≡ frame
  pub placed : (members : ℕ → List Ptr) × IsPlaced live m' members

module _ (live : Ptr → Bool) (frame : ℕ) where
  pub Moved-then :
      (S S' : Ptr → Type 0) (m m' m'' : Memory)
      → Moved live frame S m m'
      → Moved live frame S' m' m''
      → Moved live frame (λ x. S x ⊎ S' x) m m''
  Moved-then S S' m m' m'' first second = record {
    reframed = Reframed-trans m m' m'' first.reframed second.reframed;
    only = λ x. elim (second.only x) [
      | inr (e, s) ↦ inr (e, inr s)
      | inl kept ↦ elim (first.only x) [
        | inl kept' ↦ inl (kept ∙ kept')
        | inr (e, s) ↦ inr (kept ∙ e, inl s)
      ]
    ];
    all = λ x s. elim s [
      | inr s' ↦ second.all x s'
      | inl s' ↦ elim (second.only x) [ inl kept ↦ kept ∙ first.all x s' | inr (e, _) ↦ e ]
    ];
    placed = second.placed;
  }

  pub step :
      (realloc : ℕ → Bool) (h : Ptr) (m : Memory) (members : ℕ → List Ptr)
      → IsPlaced live m members
      → live h ≡ true
      → h ≢ null
      → frame < length m.frame_heads
      → (m' : Memory) × ((if m.frame h == frame
            then some m
            else frame_link realloc h frame (frame_unlink h m))
          ≡ some m')
        × Moved live frame (λ x. x ≡ h) m m'
  step realloc h m members placed alive real room = elim (Bool-cases (m.frame h == frame)) [
    | inl e ↦ (
      m,
      rw e refl,
      record {
        reframed = Reframed-refl m;
        only = λ x. inl refl;
        all = λ x same. rw same (eq_of_== (m.frame h) frame e);
        placed = (members, placed);
      },
    )
    | inr e ↦
        let inside = placed.1 h alive in
        let u = frame_unlink h m in
        let apart = frame_unlink-Reframed h m in
        let framed = frame_unlink-IsFramed h m members placed.0 real inside in
        let left = left_by h (m.frame h) members in
        let out =
          left_by-out m.frame_next m.frame_prev (λ f. get_or m.frame_heads f null) m.frame members
            placed.0 h in
        let room' : frame < length u.frame_heads = rw (Reframed-length m u apart.0) room in
        let new = linked_in-Reframed h frame u in
        let m' = linked_in h frame u in
        let elsewhere : (x : Ptr) → (x == h) ≡ false → m'.frame x ≡ m.frame x =
          λ x away. new.2 x away ∙ apart.1 x in
        (
          m',
          rw (e, frame_link_lem realloc h frame u real room') refl,
          record {
            reframed = Reframed-trans m u m' apart.0 new.0;
            only = λ x. elim (Bool-cases (x == h)) [
              | inl same ↦ inr (rw (eq_of_== x h same) new.1, eq_of_== x h same)
              | inr away ↦ inl (elsewhere x away)
            ];
            all = λ x same. rw same new.1;
            placed = (
              joined h frame left,
              (
                linked_in-IsFramed h frame u left framed real out room',
                λ x alive'. elim (Bool-cases (x == h)) [
                  | inl same ↦ rw (eq_of_== x h same, new.1) (joined-has h frame left)
                  | inr away ↦ rw (elsewhere x away) (
                      joined-stays h frame left (m.frame x) x (
                        left_by-stays m.frame_next m.frame_prev (λ f. get_or m.frame_heads f null)
                          m.frame members placed.0 h (m.frame x) x away (placed.1 x alive')))
                ],
                λ f x there. elim (joined-was h frame f x left there) [
                  | inl same ↦ rw same alive
                  | inr stays ↦ placed.2 f x (
                      left_by-was m.frame_next m.frame_prev (λ f. get_or m.frame_heads f null)
                        m.frame members placed.0 h (m.frame h) f x stays)
                ],
              ),
            );
          },
        )
  ]

  pub Moved-set :
      (S S' : Ptr → Type 0) (m m' : Memory)
      → ((x : Ptr) → S x → S' x)
      → ((x : Ptr) → S' x → S x)
      → Moved live frame S m m'
      → Moved live frame S' m m'
  Moved-set S S' m m' to from moved = record {
    reframed = moved.reframed;
    only = λ x. elim (moved.only x) [ inl kept ↦ inl kept | inr (e, s) ↦ inr (e, to x s) ];
    all = λ x s'. moved.all x (from x s');
    placed = moved.placed;
  }
