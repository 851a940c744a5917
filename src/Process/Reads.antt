-- ===== src/Process/Reads.antt =====
-- The reads of `yc_process_capture` (bootstrap/cpp/runtime/yc_runtime.c), each in its block.
use mathlib.Core.List.{append-nil}
use mathlib.Core.Path.{subst}
use ycpl.Base.{
  ℕ, ◌+◌, ◌-◌, ◌*◌, ◌%◌, ◌^◌, ◌≤◌, ◌<◌, ◌≡◌, refl, sym, ◌⊎◌, inl, inr, Bool, true, false, ◌&&◌,
  Option, none, some, [], ◌∷◌, ◌++◌, ltb, length, if◌then◌else◌, arith, Bool-cases, length-append,
}
use ycpl.Address.{word}
use ycpl.Text.{Bytes}
use ycpl.Process.Capture.{Read, got, again, finished, Pipe, wanted_cap, read_loop}

Read-cases : (r : Read) → ((bytes : Bytes) × (r ≡ got bytes)) ⊎ ((r ≡ again) ⊎ (r ≡ finished))
Read-cases (got bytes) = inl (bytes, refl)
Read-cases again = inr (inl refl)
Read-cases finished = inr (inr refl)

-- `read(fd, p, n)` gives at most `n` bytes.
abbrev pub AnswersFit : Pipe → Type 0
AnswersFit [] = Unit
AnswersFit (read ∷ pipe) =
    ((n : ℕ) (bytes : Bytes) → read n ≡ got bytes → length bytes ≤ n) × AnswersFit pipe

-- `realloc` gives no block of half the address space.
abbrev pub BlocksFit : (ℕ → Bool) → Type 0
BlocksFit realloc = (n : ℕ) → realloc n ≡ true → n < 2 ^ 63

-- The block that a buffer lies in: it has room for the buffer and the final NUL.
abbrev Holds : (ℕ → Bool) → ℕ → Bytes → Type 0
Holds realloc cap buffer =
    (length buffer < cap) × (4096 ≤ cap) × (cap < 2 ^ 63) × ((cap ≡ 4096) ⊎ (realloc cap ≡ true))

-- The block for the next read into a buffer in a block of `cap` bytes: the same block where 2049 bytes
-- are free in it, else one of twice the size that `realloc` gave.
abbrev pub Block : (ℕ → Bool) → ℕ → Bytes → ℕ → Type 0
Block realloc cap buffer c =
    ((length buffer + 2049 ≤ cap) × (c ≡ cap))
    ⊎ ((cap < length buffer + 2049) × (c ≡ cap * 2) × (realloc (cap * 2) ≡ true))

-- A read of `n` bytes behind the buffer: 2048 or more, and all of the block but the final NUL.
abbrev pub Asks : ℕ → Bytes → ℕ → Type 0
Asks c buffer n = (2048 ≤ n) × (length buffer + n + 1 ≡ c)

-- The reads from a buffer in a block on, and what is returned in the end.
pub data Reads (realloc : ℕ → Bool) : ℕ → Bytes → Pipe → Option (Option Bytes) → Type 0 where
  starved : (cap : ℕ) (buffer : Bytes) → Reads realloc cap buffer [] none
  refused :
      (cap : ℕ) (buffer : Bytes) (read : ℕ → Read) (pipe : Pipe)
      → cap < length buffer + 2049
      → realloc (cap * 2) ≡ false
      → Reads realloc cap buffer (read ∷ pipe) (some none)
  end_of_data :
      (cap c n : ℕ) (buffer : Bytes) (read : ℕ → Read) (pipe : Pipe)
      → Block realloc cap buffer c
      → Asks c buffer n
      → read n ≡ finished
      → Reads realloc cap buffer (read ∷ pipe) (some (some buffer))
  repeated :
      (cap c n : ℕ) (buffer : Bytes) (read : ℕ → Read) (pipe : Pipe) (out : Option (Option Bytes))
      → Block realloc cap buffer c
      → Asks c buffer n
      → read n ≡ again
      → Reads realloc c buffer pipe out
      → Reads realloc cap buffer (read ∷ pipe) out
  appended :
      (cap c n : ℕ) (buffer bytes : Bytes) (read : ℕ → Read) (pipe : Pipe)
      (out : Option (Option Bytes))
      → Block realloc cap buffer c
      → Asks c buffer n
      → read n ≡ got bytes
      → Reads realloc c (buffer ++ bytes) pipe out
      → Reads realloc cap buffer (read ∷ pipe) out

module _ (realloc : ℕ → Bool) (sane : BlocksFit realloc) where
  -- A read that is made asks for 2048 bytes or more, and stays in the block.
  grown-Holds :
      (cap : ℕ) (buffer bytes : Bytes)
      → Holds realloc cap buffer
      → (ltb cap (length buffer + 2048 + 1)
          && (if realloc (wanted_cap cap (length buffer)) then false else true))
        ≡ false
      → length bytes ≤ wanted_cap cap (length buffer) - length buffer - 1
      → Holds realloc (wanted_cap cap (length buffer)) (buffer ++ bytes)
        × (2048 ≤ wanted_cap cap (length buffer) - length buffer - 1)
  grown-Holds cap buffer bytes h room few = elim (Bool-cases (ltb cap (length buffer + 2048 + 1))) [
    | inl full ↦
        let doubled : cap * 2 % word ≡ cap * 2 = omega arith in
        let memory : realloc (cap * 2 % word) ≡ true = ground arith in
        let below : cap * 2 < 2 ^ 63 = omega (arith, sane (cap * 2 % word) memory) in
        let next : wanted_cap cap (length buffer) ≡ cap * 2 = rw full doubled in
        let few' : length bytes ≤ cap * 2 - length buffer - 1 =
          subst (λ c. length bytes ≤ c - length buffer - 1) next few in
        rw next (
          (
            omega (arith, length-append buffer bytes),
            omega arith,
            below,
            inr (subst (λ c. realloc c ≡ true) doubled memory),
          ),
          ground arith,
        )
    | inr roomy ↦
        let next : wanted_cap cap (length buffer) ≡ cap = rw roomy refl in
        let few' : length bytes ≤ cap - length buffer - 1 =
          subst (λ c. length bytes ≤ c - length buffer - 1) next few in
        rw next ((ground (arith, length-append buffer bytes), h.1, h.2, h.3), ground arith)
  ]

  module _ (read : ℕ → Read) (pipe : Pipe) (cap : ℕ) (buffer : Bytes)
      (room : (ltb cap (length buffer + 2048 + 1)
          && (if realloc (wanted_cap cap (length buffer)) then false else true))
        ≡ false) where
    abbrev asks : ℕ
    asks = wanted_cap cap (length buffer) - length buffer - 1

    step_got :
        (bytes : Bytes)
        → read asks ≡ got bytes
        → read_loop realloc (read ∷ pipe) cap buffer
          ≡ read_loop realloc pipe (wanted_cap cap (length buffer)) (buffer ++ bytes)
    unfolding read_loop
    step_got bytes e = rw room (rw (e, read_loop) refl)

    step_again :
        read asks ≡ again
        → read_loop realloc (read ∷ pipe) cap buffer
          ≡ read_loop realloc pipe (wanted_cap cap (length buffer)) buffer
    unfolding read_loop
    step_again e = rw room (rw (e, read_loop) refl)

    step_finished :
        read asks ≡ finished → read_loop realloc (read ∷ pipe) cap buffer ≡ some (some buffer)
    unfolding read_loop
    step_finished e = rw room (rw (e, read_loop) refl)

  -- The block that the loop reads into, where it reads.
  wanted-Block :
      (cap : ℕ) (buffer : Bytes)
      → Holds realloc cap buffer
      → (ltb cap (length buffer + 2048 + 1)
          && (if realloc (wanted_cap cap (length buffer)) then false else true))
        ≡ false
      → Block realloc cap buffer (wanted_cap cap (length buffer))
        × Asks
            (wanted_cap cap (length buffer))
            buffer
            (wanted_cap cap (length buffer) - length buffer - 1)
  wanted-Block cap buffer h room = elim (Bool-cases (ltb cap (length buffer + 2048 + 1))) [
    | inl full ↦
        let doubled : cap * 2 % word ≡ cap * 2 = omega arith in
        let memory : realloc (cap * 2 % word) ≡ true = ground arith in
        let next : wanted_cap cap (length buffer) ≡ cap * 2 = rw full doubled in
        rw next (
          inr (ground arith, refl, subst (λ c. realloc c ≡ true) doubled memory),
          (omega arith, omega arith),
        )
    | inr roomy ↦
        let next : wanted_cap cap (length buffer) ≡ cap = rw roomy refl in
        rw next (inl (ground arith, refl), (ground arith, ground arith))
  ]

  -- Where the loop gives up.
  wanted-refused :
      (cap : ℕ) (buffer : Bytes)
      → Holds realloc cap buffer
      → (ltb cap (length buffer + 2048 + 1)
          && (if realloc (wanted_cap cap (length buffer)) then false else true))
        ≡ true
      → (cap < length buffer + 2049) × (realloc (cap * 2) ≡ false)
  wanted-refused cap buffer h no_room =
      let full : ltb cap (length buffer + 2048 + 1) ≡ true = ground arith in
      let doubled : cap * 2 % word ≡ cap * 2 = omega arith in
      let next : wanted_cap cap (length buffer) ≡ cap * 2 = rw full doubled in
      let none_given : realloc (wanted_cap cap (length buffer)) ≡ false = ground arith in
      (ground arith, rw next at none_given)

  loop-Reads :
      (pipe : Pipe) (cap : ℕ) (buffer : Bytes)
      → AnswersFit pipe
      → Holds realloc cap buffer
      → Reads realloc cap buffer pipe (read_loop realloc pipe cap buffer)
  unfolding read_loop
  loop-Reads [] cap buffer fit h = starved cap buffer
  loop-Reads (read ∷ pipe) cap buffer fit h =
      let next = wanted_cap cap (length buffer) in
      elim (Bool-cases
        (ltb cap (length buffer + 2048 + 1) && (if realloc next then false else true))) [
          | inl no_room ↦
              let (full, none_given) = wanted-refused cap buffer h no_room in
              rw no_room (refused cap buffer read pipe full none_given)
          | inr room ↦
              let asked = next - length buffer - 1 in
              let (block, asks) = wanted-Block cap buffer h room in
              elim (Read-cases (read asked)) [
                | inl (bytes, e) ↦
                    let (h', _) = grown-Holds cap buffer bytes h room (fit.0 asked bytes e) in
                    subst (Reads realloc cap buffer (read ∷ pipe))
                      (sym (step_got read pipe cap buffer room bytes e))
                      (appended cap next asked buffer bytes read pipe _ block asks e
                        (loop-Reads pipe next (buffer ++ bytes) fit.1 h'))
                | inr (inl e) ↦
                    let (h', _) = grown-Holds cap buffer [] h room (omega arith) in
                    subst (Reads realloc cap buffer (read ∷ pipe))
                      (sym (step_again read pipe cap buffer room e))
                      (repeated cap next asked buffer read pipe _ block asks e
                        (loop-Reads pipe next buffer fit.1 (rw append-nil at h')))
                | inr (inr e) ↦
                    subst (Reads realloc cap buffer (read ∷ pipe))
                      (sym (step_finished read pipe cap buffer room e))
                      (end_of_data cap next asked buffer read pipe block asks e)
              ]
        ]

-- The reads of `yc_process_capture` from its block of 4096 bytes on, where no block has half the
-- address space and `read` gives no more than it is asked for: each read asks for 2048 bytes or more,
-- behind the bytes before it and with place for the final NUL in the block, which `realloc` doubles
-- where too little is free; what it gives is appended, `EINTR` repeats it, and at the end the bytes
-- are returned. Null is returned just where `realloc` refuses the doubled block.
pub read_loop-Reads :
    (realloc : ℕ → Bool) (pipe : Pipe)
    → BlocksFit realloc
    → AnswersFit pipe
    → Reads realloc 4096 [] pipe (read_loop realloc pipe 4096 [])
read_loop-Reads realloc pipe sane fit =
    loop-Reads realloc sane pipe 4096 [] fit (omega arith, omega arith, omega arith, inl refl)
