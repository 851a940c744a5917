-- ===== src/Allocation/New.antt =====
-- `yc_alloc` and `yc_calloc`: what they enter, and what they turn down.
use native.Mathlib.Nat.{div-add-mod, mod-lt, mul-le-mul_left, mul_comm, mul-suc}
use ycpl.Base.{
  ℕ, ◌+◌, ◌-◌, ◌*◌, ◌/◌, ◌%◌, ◌≤◌, ◌<◌, ◌^◌, ◌≡◌, refl, ap, ◌≢◌, ◌⊎◌, inl, inr, Bool, ◌&&◌, not,
  some, arith, ltb, ◌==◌, Bool-cases, length,
}
use ycpl.Address.{null, word}
use ycpl.Memory.{Memory}
use ycpl.Memory.Frames.{frame_heads_ensure-Ensured}
use ycpl.Allocation.{Library, alloc, calloc, frame_push}

quotient_small : (c s : ℕ) → s ≢ 0 → c ≤ (word - 1) / s → c * s < word
quotient_small c s real le =
    omega (arith, mul-le-mul_left s le, div-add-mod (word - 1) s, mul_comm c s)

quotient_large : (c s : ℕ) → s ≢ 0 → (word - 1) / s < c → word ≤ c * s
quotient_large c s real lt =
    let pos : 0 < s = omega arith in
    omega (
      arith,
      mul-le-mul_left s lt,
      mul-suc s ((word - 1) / s),
      div-add-mod (word - 1) s,
      mod-lt (word - 1) pos,
      mul_comm c s,
    )

-- `yc_calloc` allocates the exact product, and returns null where it does not fit a word.
pub calloc-product :
    (lib : Library) (count size : ℕ) (m : Memory)
    → ((calloc lib count size m ≡ alloc lib (count * size) m) × (count * size < word))
      ⊎ ((calloc lib count size m ≡ some (null, m)) × (word ≤ count * size))
unfolding calloc
calloc-product lib count size m =
    elim (Bool-cases (not (size == 0) && ltb ((word - 1) / size) count)) [
      | inl e ↦ inr (rw e refl, quotient_large count size (ground arith) (ground arith))
      | inr e ↦ elim (Bool-cases (size == 0)) [
        | inl z ↦
            let empty : size ≡ 0 = ground arith in
            let fits : count * size < word = rw empty (omega arith) in
            inl (rw e (ap (λ n. alloc lib n m) (omega arith)), fits)
        | inr z ↦
            let fits = quotient_small count size (ground arith) (ground arith) in
            inl (rw e (ap (λ n. alloc lib n m) (omega arith)), fits)
      ]
    ]

-- `yc_frame_push` enters the next frame, whose list exists unless there is no memory for it.
pub frame_push-frame :
    (realloc : ℕ → Bool) (m : Memory)
    → m.current_frame + 1 < 2 ^ 32
    → (m' : Memory) × (frame_push realloc m ≡ some m')
      × (m'.current_frame ≡ m.current_frame + 1)
      × ((m.current_frame + 1 < length m'.frame_heads) ⊎ (m'.frame_heads ≡ m.frame_heads))
unfolding frame_push
frame_push-frame realloc m small =
    let m₁ = record m { current_frame = m.current_frame + 1 } in
    let exact : (m.current_frame + 1) % 2 ^ 32 ≡ m.current_frame + 1 = omega arith in
    elim (frame_heads_ensure-Ensured realloc (m.current_frame + 1) m₁ small) [
      | inr (e, beyond) ↦ (m₁, rw (exact, e) refl, refl, inr refl)
      | inl (m', e, (heads, same, room, agree)) ↦
          (m', rw (exact, e) refl, rw same refl, inl (rw same room))
    ]
