-- ===== src/Tests/ProcessTests.antt =====
-- Argument vectors, captured output and the linker's command line at concrete inputs.
use ycpl.Base.{
  ℕ, ◌^◌, ◌≤◌, ◌≡◌, refl, Bool, true, false, none, some, List, [], ◌∷◌, arith, if◌then◌else◌, ltb,
  length,
}
use ycpl.Text.{Bytes, codes}
use ycpl.Process.{
  interrupted, failed, wait_child, unpack_argv, no_args, Allocator, arg_vector_push_words,
}
use ycpl.Process.Unpack.{pack, AreTexts, unpack_argv-pack, unpack_argv_sound}
use ycpl.Process.Words.{IsArgVector, Pushed}
use ycpl.Process.Splits.{AreWordsOf, arg_vector_push_words-Pushed}
use ycpl.Process.Capture.{
  Read, got, again, finished, Pipe, read_loop, capture_status, wait_fails,
  capture_status-wait_child,
}
use ycpl.Process.Reads.{Reads, BlocksFit, AnswersFit, read_loop-Reads}
use ycpl.Process.Link.{link_args, command_line, link_args-command_line}

abbrev args : List Bytes
args = codes "-c" ∷ codes "a.yc" ∷ []

unpack_argv-pack_example : unpack_argv (λ _. true) (pack args) ≡ some args
unpack_argv-pack_example = unpack_argv-pack (λ _. true) args (omega arith)

abbrev packed : Bytes
packed = b'a' ∷ 0 ∷ []

unpack_run : unpack_argv (λ _. true) packed ≡ some ((b'a' ∷ []) ∷ [])
unfolding unpack_argv
unpack_run = refl

unpack_argv_sound_example : (packed ≡ pack ((b'a' ∷ []) ∷ [])) × AreTexts ((b'a' ∷ []) ∷ [])
unpack_argv_sound_example = unpack_argv_sound (λ _. true) packed ((b'a' ∷ []) ∷ []) unpack_run

-- A last argument with no NUL.
unpack_unended : unpack_argv (λ _. true) (b'a' ∷ []) ≡ none
unfolding unpack_argv
unpack_unended = refl

abbrev allocator : Allocator
allocator = record { realloc = λ len size. true; malloc = λ len size. true }

no_args-IsArgVector : IsArgVector no_args
no_args-IsArgVector = record { counted = refl; fits = omega arith; small = omega arith }

arg_vector_push_words-Pushed_example :
    (ws : List Bytes) × AreWordsOf (some (codes "-L/lib  -lz")) ws
    × Pushed ws no_args (arg_vector_push_words allocator (some (codes "-L/lib  -lz")) no_args)
arg_vector_push_words-Pushed_example =
    arg_vector_push_words-Pushed allocator (some (codes "-L/lib  -lz")) no_args no_args-IsArgVector

link_run :
    (link_args allocator none (codes "a.o") (codes "rt.o") (codes "a") (codes " -lLLVM")).0 ≡ true
unfolding link_args
link_run = refl

link_args-command_line_example :
    (link_args allocator none (codes "a.o") (codes "rt.o") (codes "a") (codes " -lLLVM")).1.items
    ≡ command_line none (codes "a.o") (codes "rt.o") (codes "a") (codes " -lLLVM")
link_args-command_line_example =
    link_args-command_line allocator none (codes "a.o") (codes "rt.o") (codes "a") (codes " -lLLVM")
      link_run

abbrev small_blocks : ℕ → Bool
small_blocks n = ltb n (2 ^ 20)

small_blocks-BlocksFit : BlocksFit small_blocks
small_blocks-BlocksFit n h = ground arith

abbrev short_read : ℕ → Read
short_read n = if ltb n 2 then finished else got (codes "ok")

abbrev pipe : Pipe
pipe = short_read ∷ (λ _. again) ∷ (λ _. finished) ∷ []

pipe-AnswersFit : AnswersFit pipe
pipe-AnswersFit = (λ n bytes h. fits n bytes h, (λ n bytes h. cc, (λ n bytes h. cc, tt)))
  where
    fits : (n : ℕ) (bytes : Bytes) → short_read n ≡ got bytes → length bytes ≤ n
    fits n bytes h = ground arith

pipe_run : read_loop small_blocks pipe 4096 [] ≡ some (some (codes "ok"))
unfolding read_loop
pipe_run = refl

read_loop-Reads_example : Reads small_blocks 4096 [] pipe (read_loop small_blocks pipe 4096 [])
read_loop-Reads_example = read_loop-Reads small_blocks pipe small_blocks-BlocksFit pipe-AnswersFit

capture_status-wait_child_example :
    (wait_fails (interrupted ∷ failed ∷ []) ≡ false
      → capture_status (interrupted ∷ failed ∷ []) ≡ wait_child (interrupted ∷ failed ∷ []))
    × (wait_fails (interrupted ∷ failed ∷ []) ≡ true
        → (capture_status (interrupted ∷ failed ∷ []) ≡ some 0)
          × (wait_child (interrupted ∷ failed ∷ []) ≡ some 127))
capture_status-wait_child_example = capture_status-wait_child (interrupted ∷ failed ∷ [])
