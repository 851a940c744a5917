-- ===== src/Streams.antt =====
-- Whole files (bootstrap/cpp/runtime/yc_runtime.c): `yc_fs_read_all` and `yc_fs_write_all`. A stream
-- that is read gives its bytes, and then ends or fails; `fread` stops short only there. What `fwrite`
-- answers to each call is a list, cut to what was asked for.
pub mod Whole
use Prim.Native.Nat.{min}
use ycpl.Base.{
  ℕ, zero, suc, ◌+◌, ◌-◌, ◌*◌, ◌/◌, ◌%◌, Bool, true, false, ◌&&◌, ◌||◌, not, Option, none, some,
  List, [], ◌∷◌, ◌++◌, ltb, ◌==◌, if◌then◌else◌, ◌>>=◌, length, take, drop,
}
use ycpl.Address.{word}
use ycpl.Text.{Bytes}

pub record Stream : Type 0 where
  pub bytes : Bytes
  pub fails : Bool

-- The loop of `yc_fs_read_all`: the buffer's capacity, what it holds and what the stream has left.
-- The answer is the bytes, or nothing where the function returns null.
unfoldable pub read_bytes : (realloc : ℕ → Bool) → ℕ → ℕ → Bytes → Stream → Option (Option Bytes)
read_bytes realloc zero cap buffer s = none
read_bytes realloc (suc fuel) cap buffer s =
    let full = length buffer == cap in
    let cap' = if full then cap * 2 % word else cap in
    let got = take (cap' - length buffer) s.bytes in
    let rest =
      read_bytes realloc fuel cap' (buffer ++ got)
        (record s { bytes = drop (cap' - length buffer) s.bytes }) in
    if full && (ltb ((word - 1) / 2) cap || not (realloc ((cap * 2 + 1) % word)))
    then some none
    else if length got == 0
    then some (if s.fails then none else some buffer)
    else rest

-- `yc_fs_read_all`, with the size that it reports, which is the length of the text. `opened` is the
-- stream that `fopen` gives, and `alloc` answers for `yc_alloc`.
unfoldable pub read_all :
    (malloc realloc alloc : ℕ → Bool) → ℕ → Option Stream → Option (Option Bytes)
unfolding read_bytes
read_all malloc realloc alloc fuel none = some none
read_all malloc realloc alloc fuel (some s) =
    if not (malloc 4097)
    then some none
    else (read_bytes realloc fuel 4096 [] s >>= λ text.
        some (text >>= λ bytes. if alloc (length bytes + 1) then some bytes else none))

-- The loop of `yc_fs_write_all`: the bytes left to write, and what the file holds by then. There is
-- no result when `fwrite` is asked more often than it answers.
unfoldable pub write_loop : List ℕ → Bytes → Bytes → Option (Bool × Bytes)
write_loop [] left file = if length left == 0 then some (true, file) else none
write_loop (answer ∷ answers) left file =
    let got = min answer (length left) in
    let rest = write_loop answers (drop got left) (file ++ take got left) in
    if length left == 0 then some (true, file) else if got == 0 then some (false, file) else rest

-- `yc_fs_write_all`: `before` is what the file holds, which an append keeps, and `none` stands for an
-- `fopen` that fails. Where the loop fails the answer of `fclose` does not count.
unfoldable pub write_all :
    Bool → List ℕ → Bool → Option Bytes → Bytes → Option (Bool × Option Bytes)
unfolding write_loop
write_all append answers closes none bytes = some (false, none)
write_all append answers closes (some before) bytes =
    write_loop answers bytes (if append then before else []) >>= λ (done, file).
    some (done && closes, some file)
