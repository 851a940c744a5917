-- ===== src/Process.antt =====
-- Running programs (bootstrap/cpp/runtime/yc_runtime.c): argument vectors, the status of a child, the
-- capture of its output, and the call of the linker. What the kernel answers comes as arguments.
pub mod Unpack
pub mod Words
pub mod Splits
pub mod Reads
pub mod Capture
pub mod Link
use ycpl.Base.{
  ℕ, zero, suc, ◌+◌, ◌-◌, ◌*◌, ◌/◌, ◌%◌, ◌≤◌, ◌<◌, Bool, true, false, ◌&&◌, ◌||◌, Option, none,
  some, List, [], ◌∷◌, ◌++◌, ◌==◌, ltb, leb, ◌>>=◌, length, get_or, take, drop, if◌then◌else◌,
}
use ycpl.Address.{word}
use ycpl.Text.{Bytes, codes}

-- What `waitpid` says of a child.
pub data ChildStatus : Type 0 where
  exited : (code : ℕ) → ChildStatus
  signaled : (signal : ℕ) → ChildStatus
  stopped : ChildStatus

-- The status that the runtime returns for a child.
unfoldable pub exit_status : ChildStatus → ℕ
exit_status (exited code) = code
exit_status (signaled signal) = 128 + signal
exit_status stopped = 127

-- An answer of `waitpid`: a status, `EINTR`, or another error.
pub data Wait : Type 0 where
  ended : ChildStatus → Wait
  interrupted failed : Wait

-- The loop of `yc_process_run` over the answers of `waitpid`; `none` is a wait that does not end.
unfoldable pub wait_child : List Wait → Option ℕ
unfolding exit_status
wait_child [] = none
wait_child (ended status ∷ answers) = some (exit_status status)
wait_child (interrupted ∷ answers) = wait_child answers
wait_child (failed ∷ answers) = some 127

-- `yc_make_argv`: the program, the arguments and the final null, where there is memory.
unfoldable pub make_argv : Bool → Bytes → List Bytes → Option (List Bytes)
make_argv given program args =
    if ltb ((word - 1) / 8 - 2) (length args)
    then none
    else if given
    then some (program ∷ args)
    else none

-- What the system answers to a run of a program with arguments: whether the two vectors get memory,
-- whether `fork` gives a child, and the answers of `waitpid` for it.
pub record Kernel : Type 0 where
  pub argv_memory : List Bytes → Bool
  pub unpack_memory : List Bytes → Bool
  pub forks : List Bytes → Bool
  pub waits : List Bytes → List Wait

-- `yc_process_run`; the first `none` is a wait that does not end.
unfoldable pub process_run : Kernel → Option Bytes → List Bytes → Option ℕ
unfolding make_argv wait_child
process_run kernel none args = some 127
process_run kernel (some program) args = elim (make_argv (kernel.argv_memory args) program args) [
  | none ↦ some 127
  | some argv ↦ if kernel.forks argv then wait_child (kernel.waits argv) else some 127
]

-- The first loop of `yc_unpack_argv` in one pass: the strings between the NULs, or null where the
-- last one is not ended. `current` is what was read since the last NUL.
unfoldable pub unpack : Bytes → Bytes → Option (List Bytes)
unpack [] [] = some []
unpack [] (c ∷ current) = none
unpack (b ∷ packed) current = elim (b == 0) [
  | true ↦ unpack packed [] >>= λ args. some (current ∷ args)
  | false ↦ unpack packed (current ++ b ∷ [])
]

-- `yc_unpack_argv`: the arguments behind the program.
unfoldable pub unpack_argv : (List Bytes → Bool) → Bytes → Option (List Bytes)
unfolding unpack
unpack_argv memory packed = unpack packed [] >>= λ args. if memory args then some args else none

-- `packed_args` and `packed_size`: null with a size, or a block of bytes.
pub data Packed : Type 0 where
  null_block : (size : ℕ) → Packed
  block : (bytes : Bytes) → Packed

-- The bytes that are unpacked, after the test for null.
pub packed_bytes : Packed → Option Bytes
packed_bytes (null_block size) = if size == 0 then some [] else none
packed_bytes (block bytes) = some bytes

-- `yc_process_run_packed`
unfoldable pub process_run_packed : Kernel → Option Bytes → Packed → Option ℕ
unfolding process_run unpack_argv packed_bytes
process_run_packed kernel none packed = some 127
process_run_packed kernel (some program) packed =
    elim (packed_bytes packed >>= unpack_argv kernel.unpack_memory) [
      | none ↦ some 127
      | some args ↦ process_run kernel (some program) args
    ]

-- `YcArgVector`
pub record ArgVector : Type 0 where
  pub items : List Bytes
  pub len : ℕ
  pub cap : ℕ

abbrev pub no_args : ArgVector
no_args = record { items = []; len = 0; cap = 0 }

-- What the allocator answers to `realloc(items, size)` and `malloc(size)` where the vector has a
-- given number of items.
pub record Allocator : Type 0 where
  pub realloc : ℕ → ℕ → Bool
  pub malloc : ℕ → ℕ → Bool

-- The growth in `yc_arg_vector_push`.
pub arg_vector_grow : Allocator → ArgVector → Option ArgVector
arg_vector_grow m v =
    let next_cap = if v.cap == 0 then 16 else v.cap * 2 % word in
    if v.len == v.cap
    then (if ltb next_cap v.cap || ltb ((word - 1) / 8) next_cap
        then none
        else if m.realloc v.len (next_cap * 8)
        then some (record v { cap = next_cap })
        else none)
    else some v

-- `yc_arg_vector_push` of a text that is not null: the vector after it, and whether it was entered.
unfoldable pub arg_vector_push : Allocator → Bytes → ArgVector → Bool × ArgVector
unfolding arg_vector_grow
arg_vector_push m text v =
    if ltb (word - 2) (length text) then (false, v) else elim (arg_vector_grow m v) [
      | none ↦ (false, v)
      | some grown ↦
          if m.malloc v.len (length text + 1)
          then (true, record grown { items = grown.items ++ text ∷ []; len = grown.len + 1 })
          else (false, grown)
    ]

-- `yc_arg_vector_push_text`; `none` is the null pointer.
unfoldable pub arg_vector_push_text : Allocator → Option Bytes → ArgVector → Bool × ArgVector
unfolding arg_vector_push
arg_vector_push_text m none v = (false, v)
arg_vector_push_text m (some text) v = arg_vector_push m text v

abbrev pub is_blank : ℕ → Bool
is_blank c = c == 32 || c == 9 || c == 13 || c == 10

-- The words between the blanks, as the two inner loops of `yc_arg_vector_push_words` find them.
-- `current` is the word that is being read.
unfoldable pub words : Bytes → Bytes → List Bytes
words [] [] = []
words [] (c ∷ current) = (c ∷ current) ∷ []
words (b ∷ text) [] = words text (if is_blank b then [] else b ∷ [])
words (b ∷ text) (c ∷ current) = elim (is_blank b) [
  | true ↦ (c ∷ current) ∷ words text []
  | false ↦ words text (c ∷ (current ++ b ∷ []))
]

-- Pushes word after word, and stops at the first that cannot be entered.
unfoldable pub push_all : Allocator → List Bytes → ArgVector → Bool × ArgVector
unfolding arg_vector_push
push_all m [] v = (true, v)
push_all m (w ∷ ws) v =
    let (ok, v') = arg_vector_push m w v in
    let rest = push_all m ws v' in if ok then rest else (false, v')

-- `yc_arg_vector_push_words`
unfoldable pub arg_vector_push_words : Allocator → Option Bytes → ArgVector → Bool × ArgVector
unfolding words push_all
arg_vector_push_words m none v = (true, v)
arg_vector_push_words m (some text) v = push_all m (words text []) v
