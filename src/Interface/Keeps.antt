-- ===== src/Interface/Keeps.antt =====
-- The entry points keep the memory of the runtime sound: `yc_release`, `yc_frame_pop` and
-- `yc_frame_push`.
use mathlib.Core.Path.{subst}
use ycpl.Base.{
  ℕ, get_or, ◌%◌, ◌^◌, Bool, refl, ◌+◌, ◌<◌, ◌≡◌, sym, ap, ◌⊎◌, inl, inr, Option, none, some, List,
  arith, length,
}
use ycpl.Address.{Ptr, null}
use ycpl.Memory.{Memory}
use ycpl.Memory.Frames.{frame_heads_ensure-Ensured}
use ycpl.Allocation.{release, frame_push, frame_pop}
use ycpl.Allocation.Release.{IsReady}
use ycpl.Allocation.Twice.{release_twice}
use ycpl.Allocation.Pop.{frame_pop-Popped}
use ycpl.Allocation.Sound.{IsSound, Sound}
use ycpl.Allocation.Heights.{IsRooted-shorter, height, height-le, sound-IsReady}

-- With enough fuel there is a result, and it is sound.
abbrev pub Keeps : (ℕ → Option Memory) → Type 0
Keeps f = (bound : ℕ) × ((fuel : ℕ) → bound < fuel → (m' : Memory) × (f fuel ≡ some m') × Sound m')

abbrev pub get_some : Memory → Option Memory → Memory
get_some m none = m
get_some m (some m') = m'

-- The memory after headers became roots.
trimmed-Sound :
    (m m' : Memory) (children kids : Ptr → List Ptr) (members members' : ℕ → List Ptr) (n width : ℕ)
    (height : Ptr → ℕ)
    → IsSound m children members n width
    → ((x : Ptr) → (m'.owner x ≡ m.owner x) ⊎ (m'.owner x ≡ null))
    → IsReady height width m' kids members'
    → Sound m'
trimmed-Sound m m' children kids members members' n width height s trimmed ready = (
  kids,
  members',
  n,
  width,
  record {
    tracked = ready.0;
    rooted = λ x. IsRooted-shorter m.owner m'.owner n x trimmed (s.rooted x);
    narrow = ready.2;
  },
)

-- `yc_release` keeps the memory sound.
pub release-Sound : (ptr : Ptr) (m : Memory) → Sound m → Keeps (λ fuel. release fuel ptr m)
release-Sound ptr m (children, members, n, width, s) = (
  n + width + 1,
  λ fuel enough.
      let (m', run, again, outcome) =
        release_twice (height m children members n width s) width n
          (height-le m children members n width s) fuel ptr m children members
          (sound-IsReady m children members n width s) enough in
      (
        m',
        run,
        elim outcome [
          | inl (e, none_there) ↦ subst Sound (sym e) (children, members, n, width, s)
          | inr (h, at, once, alive, (m'', kids, members'', e, ready, done)) ↦
              let owners : (x : Ptr) → (m''.owner x ≡ m.owner x) ⊎ (m''.owner x ≡ null) = λ x.
                elim (done.kept x) [
                  | inl kept ↦ inl kept.1
                  | inr below ↦ inr (done.gone x below).1
                ] in
              let same : m' ≡ m'' = ap (get_some m) e in
              subst Sound (sym same) (
                trimmed-Sound m m'' children kids members members'' n width
                  (height m children members n width s) s owners ready)
        ],
      ),
)

-- `yc_frame_pop` keeps the memory sound.
pub frame_pop-Sound : (m : Memory) → Sound m → Keeps (λ fuel. frame_pop fuel fuel m)
frame_pop-Sound m (children, members, n, width, s) = (
  n + width + 1 + length (members m.current_frame),
  λ fuel enough.
      elim (frame_pop-Popped (height m children members n width s) width n
        (height-le m children members n width s) fuel fuel m children members
        (sound-IsReady m children members n width s) (omega arith) (omega arith)) [
          | inl (outermost, run) ↦ (m, run, (children, members, n, width, s))
          | inr (m', kids, left, run, ready, empty, gone, kept, current) ↦
              let owners : (x : Ptr) → (m'.owner x ≡ m.owner x) ⊎ (m'.owner x ≡ null) = λ x.
                elim (kept x) [
                  | inl still ↦ inl still.1
                  | inr in_frame ↦ inr (gone x in_frame).1
                ] in
              (
                m',
                run,
                trimmed-Sound m m' children kids members left n width
                    (height m children members n width s) s owners ready,
              )
        ],
)

-- `yc_frame_push` keeps the memory sound.
pub frame_push-Sound :
    (realloc : ℕ → Bool) (m : Memory)
    → Sound m
    → m.current_frame + 1 < 2 ^ 32
    → (m' : Memory) × (frame_push realloc m ≡ some m') × Sound m'
unfolding frame_push
frame_push-Sound realloc m (children, members, n, width, s) small =
    let next = m.current_frame + 1 in
    let exact : next % 2 ^ 32 ≡ next = omega arith in
    let m₁ = record m { current_frame = next } in
    let t = s.tracked in
    let widened : (heads : List Ptr)
        → ((i : ℕ) → get_or heads i null ≡ get_or m.frame_heads i null)
        → Sound (record m { current_frame = next; frame_heads = heads }) =
      λ heads agree. (
        children,
        members,
        n,
        width,
        record {
          tracked = record {
            owned = t.owned;
            owners_live = t.owners_live;
            placed = (((λ k. rw (agree k) (t.placed.0.0 k)), t.placed.0.1), t.placed.1, t.placed.2);
            listed = t.listed;
            registry = t.registry;
            registered = t.registered;
            ranges = t.ranges;
            in_ranges = t.in_ranges;
            real = t.real;
          };
          rooted = s.rooted;
          narrow = s.narrow;
        },
      ) in
    elim (frame_heads_ensure-Ensured realloc next m₁ small) [
      | inr (e, beyond) ↦ (m₁, rw (exact, e) refl, widened m.frame_heads λ i. refl)
      | inl (m', e, (heads, same, room, agree)) ↦
          (m', rw (exact, e) refl, subst Sound (sym same) (widened heads agree))
    ]
