-- ===== src/Tests/StreamsTests.antt =====
-- A stream of three bytes, and a file that takes its bytes in two calls.
use ycpl.Base.{ℕ, ◌≡◌, refl, Bool, true, false, some, [], ◌∷◌, ◌++◌, arith}
use ycpl.Text.{Bytes}
use ycpl.Streams.{Stream, read_bytes, write_loop, write_all}
use ycpl.Streams.Whole.{Outcome, read_bytes-Outcome}

abbrev abc : Bytes
abc = 97 ∷ 98 ∷ 99 ∷ []

abbrev stream : Stream
stream = record { bytes = abc; fails = false }

abbrev plenty : ℕ → Bool
plenty n = true

read_bytes-Outcome_example : Outcome plenty false abc (read_bytes plenty 4 2 [] stream)
read_bytes-Outcome_example =
    read_bytes-Outcome plenty 4 2 [] stream (omega arith) (omega arith) (omega arith) (omega arith)

read_run : read_bytes plenty 4 2 [] stream ≡ some (some abc)
unfolding read_bytes
read_run = refl

append_run : write_all true (2 ∷ 5 ∷ []) true (some abc) abc ≡ some (true, some (abc ++ abc))
unfolding write_all write_loop
append_run = refl
