-- ===== src/Streams/Whole.antt =====
-- The loops of `yc_fs_read_all` and `yc_fs_write_all`.
use mathlib.Core.Path.{subst}
use Prim.Native.Nat.{min}
use ycpl.Base.{
  ℕ, zero, suc, ◌+◌, ◌-◌, ◌*◌, ◌/◌, ◌%◌, ◌≤◌, ◌<◌, ◌^◌, ◌≡◌, refl, sym, ap, ◌⊎◌, inl, inr, Bool,
  true, false, Option, none, some, List, [], ◌∷◌, ◌++◌, ltb, ◌==◌, if◌then◌else◌, ◌∙◌, length, take,
  drop, arith, Bool-cases, length-append, length-take, length-drop, take-append-drop,
}
use ycpl.Address.{word}
use ycpl.Text.{Bytes}
use ycpl.Streams.{Stream, read_bytes, write_loop}

-- There was no memory, or the bytes are half an address space.
abbrev pub IsStarved : (ℕ → Bool) → ℕ → Type 0
IsStarved realloc total = ((n : ℕ) × (realloc n ≡ false)) ⊎ (2 ^ 63 ≤ total)

append_assoc : (xs ys zs : Bytes) → (xs ++ ys) ++ zs ≡ xs ++ (ys ++ zs)
append_assoc [] ys zs = refl
append_assoc (x ∷ xs) ys zs = ap (λ t. x ∷ t) (append_assoc xs ys zs)

append_nil : (xs : Bytes) → xs ++ [] ≡ xs
append_nil [] = refl
append_nil (x ∷ xs) = ap (λ t. x ∷ t) (append_nil xs)

nothing_left : (xs : Bytes) → length xs ≡ 0 → xs ≡ []
nothing_left [] e = refl
nothing_left (x ∷ xs) e = absurd (omega arith)

-- What one call of `fwrite` or `fread` takes, and what is left after it, is what there was.
split_again :
    (n : ℕ) (buffer left : Bytes) → (buffer ++ take n left) ++ drop n left ≡ buffer ++ left
split_again n buffer left =
    append_assoc buffer (take n left) (drop n left)
    ∙ ap (λ t. buffer ++ t) (take-append-drop n left)

-- The loop of `yc_fs_write_all` ends, when `fwrite` answers more often than there are bytes. It
-- succeeds with all bytes in the file, or fails with the first of them.
pub write_loop-prefix :
    (answers : List ℕ) (left file : Bytes)
    → length left < length answers
    → (write_loop answers left file ≡ some (true, file ++ left))
      ⊎ ((xs : Bytes) × (ys : Bytes) × (write_loop answers left file ≡ some (false, file ++ xs))
          × (left ≡ xs ++ ys)
          × (0 < length ys))
unfolding write_loop
write_loop-prefix [] left file lt = absurd (omega arith)
write_loop-prefix (answer ∷ answers) left file lt = elim (Bool-cases (length left == 0)) [
  | inl e ↦ inl (
      let empty = nothing_left left (ground arith) in
      rw empty (ap (λ t. some (true, t)) (sym (append_nil file))))
  | inr e ↦ elim (Bool-cases (min answer (length left) == 0)) [
    | inl z ↦ inr (
      [],
      left,
      rw (e, z) (ap (λ t. some (false, t)) (sym (append_nil file))),
      refl,
      ground arith,
    )
    | inr z ↦
        let got = min answer (length left) in
        let shorter : length (drop got left) < length answers =
          let some_answer : 0 < got = ground arith in omega (arith, length-drop got left) in
        elim (write_loop-prefix answers (drop got left) (file ++ take got left) shorter) [
          | inl done ↦ inl (rw (e, z) (done ∙ ap (λ t. some (true, t)) (split_again got file left)))
          | inr (xs, ys, stopped, parts, some_left) ↦ inr (
            take got left ++ xs,
            ys,
            rw (e, z) (stopped ∙ ap (λ t. some (false, t)) (append_assoc file (take got left) xs)),
            sym (take-append-drop got left)
                ∙ ap (λ t. take got left ++ t) parts
                ∙ sym (append_assoc (take got left) xs ys),
            some_left,
          )
        ]
  ]
]

-- How a read of `whole` comes out.
abbrev pub Outcome : (ℕ → Bool) → Bool → Bytes → Option (Option Bytes) → Type 0
Outcome realloc fails whole o =
    (o ≡ some (if fails then none else some whole))
    ⊎ ((o ≡ some none) × IsStarved realloc (length whole))

-- One call of `fread` into a buffer that is not full, and what the loop does with it.
one_read :
    (realloc : ℕ → Bool) (fails : Bool) (room : ℕ) (buffer left : Bytes)
    (rest : Option (Option Bytes))
    → 0 < room
    → (0 < length (take room left)
        → Outcome realloc fails ((buffer ++ take room left) ++ drop room left) rest)
    → Outcome realloc fails
        (buffer ++ left)
        (if length (take room left) == 0 then some (if fails then none else some buffer) else rest)
one_read realloc fails room buffer left rest pos outcome =
    elim (Bool-cases (length (take room left) == 0)) [
      | inl e ↦
          let none_taken : length (take room left) ≡ 0 = ground arith in
          let empty = nothing_left left (omega (arith, length-take room left)) in
          inl (
            rw e (
              rw empty (ap (λ t. some (if fails then none else some t)) (sym (append_nil buffer)))))
      | inr e ↦ rw e (
          subst (λ w. Outcome realloc fails w rest) (split_again room buffer left)
            (outcome (ground arith)))
    ]

-- A call that reads something leaves less, and the buffer holds what it reads.
fewer :
    (room : ℕ) (left : Bytes) (fuel : ℕ)
    → length left < suc fuel
    → 0 < length (take room left)
    → length (drop room left) < fuel
fewer room left fuel lt some_read = omega (arith, length-take room left, length-drop room left)

fuller :
    (cap : ℕ) (buffer left : Bytes)
    → length buffer ≤ cap
    → length (buffer ++ take (cap - length buffer) left) ≤ cap
fuller cap buffer left fits = omega (
  arith,
  length-append buffer (take (cap - length buffer) left),
  length-take (cap - length buffer) left,
)

-- The loop of `yc_fs_read_all` ends, when the fuel is more than the bytes left. It gives what the
-- buffer held and the whole stream after it, and null where the stream fails; else it gives null
-- because memory was refused or the bytes take half an address space.
pub read_bytes-Outcome :
    (realloc : ℕ → Bool) (fuel cap : ℕ) (buffer : Bytes) (s : Stream)
    → length s.bytes < fuel
    → 0 < cap
    → length buffer ≤ cap
    → cap < word
    → Outcome realloc s.fails (buffer ++ s.bytes) (read_bytes realloc fuel cap buffer s)
unfolding read_bytes
read_bytes-Outcome realloc zero cap buffer s lt pos fits small = absurd (omega arith)
read_bytes-Outcome realloc (suc fuel) cap buffer s lt pos fits small =
    elim (Bool-cases (length buffer == cap)) [
      | inl e ↦ elim (Bool-cases (ltb ((word - 1) / 2) cap)) [
        | inl big ↦
            let past : (word - 1) / 2 < cap = ground arith in
            let full : length buffer ≡ cap = ground arith in
            inr (rw (e, big) refl, inr (omega (arith, length-append buffer s.bytes)))
        | inr room ↦ elim (Bool-cases (realloc ((cap * 2 + 1) % word))) [
          | inr refused ↦ inr (rw (e, room, refused) refl, inl (((cap * 2 + 1) % word), refused))
          | inl given ↦
              let exact : cap * 2 % word ≡ cap * 2 = ground arith in
              rw (e, room, given)
                (one_read realloc s.fails (cap * 2 % word - length buffer) buffer s.bytes
                  (read_bytes realloc fuel (cap * 2 % word)
                    (buffer ++ take (cap * 2 % word - length buffer) s.bytes)
                    (record s { bytes = drop (cap * 2 % word - length buffer) s.bytes }))
                  (ground arith)
                  (λ some_read.
                    read_bytes-Outcome realloc fuel (cap * 2 % word)
                      (buffer ++ take (cap * 2 % word - length buffer) s.bytes)
                      (record s { bytes = drop (cap * 2 % word - length buffer) s.bytes })
                      (fewer (cap * 2 % word - length buffer) s.bytes fuel lt some_read)
                      (omega arith) (fuller (cap * 2 % word) buffer s.bytes (omega arith))
                      (omega arith)))
        ]
      ]
      | inr e ↦ rw e (
          one_read realloc s.fails (cap - length buffer) buffer s.bytes
            (read_bytes realloc fuel cap (buffer ++ take (cap - length buffer) s.bytes)
              (record s { bytes = drop (cap - length buffer) s.bytes }))
            (ground arith)
            (λ some_read.
              read_bytes-Outcome realloc fuel cap (buffer ++ take (cap - length buffer) s.bytes)
                (record s { bytes = drop (cap - length buffer) s.bytes })
                (fewer (cap - length buffer) s.bytes fuel lt some_read) pos
                (fuller cap buffer s.bytes fits) small))
    ]
