-- ===== src/Process/Capture.antt =====
-- `yc_process_capture`: the buffer that grows as the child writes, and the status of the child.
use mathlib.Core.List.{append-nil, append_assoc}
use ycpl.Base.{
  ℕ, ◌+◌, ◌-◌, ◌*◌, ◌%◌, ◌≡◌, refl, ap, ◌∙◌, inl, inr, Bool, true, false, ◌&&◌, Option, none, some,
  List, [], ◌∷◌, ◌++◌, ltb, ◌>>=◌, length, if◌then◌else◌, Bool-cases,
}
use ycpl.Address.{word}
use ycpl.Text.{Bytes}
use ycpl.Process.{exited, exit_status, Wait, ended, interrupted, failed, make_argv, wait_child}

-- An answer of `read`: bytes, `EINTR`, or the end of the data or another error.
pub data Read : Type 0 where
  got : Bytes → Read
  again finished : Read

-- The answers to the reads that follow, each as a function of the size that is asked for.
abbrev pub Pipe : Type 0
Pipe = List (ℕ → Read)

-- The capacity before a read into a buffer that holds `len` bytes.
abbrev pub wanted_cap : ℕ → ℕ → ℕ
wanted_cap cap len = if ltb cap (len + 2048 + 1) then cap * 2 % word else cap

-- The reading loop: the bytes read, or null where `realloc` has no memory. `none` is a child whose
-- output does not end.
unfoldable pub read_loop : (ℕ → Bool) → Pipe → ℕ → Bytes → Option (Option Bytes)
read_loop realloc [] cap buffer = none
read_loop realloc (read ∷ pipe) cap buffer =
    let len = length buffer in
    let next_cap = wanted_cap cap len in
    if ltb cap (len + 2048 + 1) && (if realloc next_cap then false else true)
    then some none
    else elim (read (next_cap - len - 1)) [
      | got bytes ↦ read_loop realloc pipe next_cap (buffer ++ bytes)
      | again ↦ read_loop realloc pipe next_cap buffer
      | finished ↦ some (some buffer)
    ]

-- The status after the loop over `waitpid`, which leaves `child_status` at 0 where the wait fails.
unfoldable pub capture_status : List Wait → Option ℕ
unfolding exit_status
capture_status [] = none
capture_status (ended status ∷ answers) = some (exit_status status)
capture_status (interrupted ∷ answers) = capture_status answers
capture_status (failed ∷ answers) = some (exit_status (exited 0))

-- What the system answers to a captured run.
pub record CaptureKernel : Type 0 where
  pub pipe_made : Bool
  pub argv_memory : Bool
  pub forks : Bool
  pub buffer_memory : Bool
  pub realloc : ℕ → Bool
  pub pipe : Pipe
  pub waits : List Wait
  pub output_memory : ℕ → Bool

-- `yc_process_capture`: the output, null or a text, and the value left in `*status`.
unfoldable pub process_capture :
    CaptureKernel → Option Bytes → List Bytes → Option (Option Bytes × ℕ)
unfolding read_loop capture_status make_argv
process_capture kernel none args = some (none, 127)
process_capture kernel (some program) args =
    if kernel.pipe_made
    then elim (make_argv kernel.argv_memory program args) [
      | none ↦ some (none, 127)
      | some argv ↦
          if kernel.forks && kernel.buffer_memory
          then (read_loop kernel.realloc kernel.pipe 4096 [] >>= λ read. elim read [
            | none ↦ some (none, 127)
            | some buffer ↦ capture_status kernel.waits >>= λ status. some (
                if kernel.output_memory (length buffer + 1)
                then (some buffer, status)
                else (none, status))
          ])
          else some (none, 127)
    ]
    else some (none, 127)

-- A pipe that gives the chunks one after the other, whatever it is asked for, and ends.
abbrev pub deliver : List Bytes → Pipe
deliver [] = (λ _. finished) ∷ []
deliver (c ∷ chunks) = (λ _. got c) ∷ deliver chunks

unfoldable pub joined : List Bytes → Bytes
joined [] = []
joined (c ∷ chunks) = c ++ joined chunks

read_loop-joined :
    (chunks : List Bytes) (cap : ℕ) (buffer : Bytes)
    → read_loop (λ _. true) (deliver chunks) cap buffer ≡ some (some (buffer ++ joined chunks))
unfolding read_loop joined
read_loop-joined [] cap buffer = elim (Bool-cases (ltb cap (length buffer + 2048 + 1))) [
  | inl e ↦ rw (e, append-nil) refl
  | inr e ↦ rw (e, append-nil) refl
]
read_loop-joined (c ∷ chunks) cap buffer =
    let rest =
      read_loop-joined chunks (wanted_cap cap (length buffer)) (buffer ++ c)
      ∙ ap (λ t. some (some t)) (append_assoc buffer c (joined chunks)) in
    elim (Bool-cases (ltb cap (length buffer + 2048 + 1))) [
      | inl e ↦ rw e (rw e at rest)
      | inr e ↦ rw e (rw e at rest)
    ]

-- Whether the wait for the child ends in an error other than `EINTR`.
unfoldable pub wait_fails : List Wait → Bool
wait_fails [] = false
wait_fails (ended status ∷ answers) = false
wait_fails (interrupted ∷ answers) = wait_fails answers
wait_fails (failed ∷ answers) = true

-- `yc_process_capture` and `yc_process_run` agree on the status of a child, except where the wait for
-- it fails: then the one reports 0, the status of success, and the other 127.
pub capture_status-wait_child :
    (answers : List Wait)
    → (wait_fails answers ≡ false → capture_status answers ≡ wait_child answers)
      × (wait_fails answers ≡ true
          → (capture_status answers ≡ some 0) × (wait_child answers ≡ some 127))
unfolding wait_fails capture_status wait_child
capture_status-wait_child [] = (λ _. refl, λ h. cc)
capture_status-wait_child (ended status ∷ answers) = (λ _. refl, λ h. cc)
capture_status-wait_child (failed ∷ answers) = (λ h. cc, λ _. (refl, refl))
capture_status-wait_child (interrupted ∷ answers) = capture_status-wait_child answers
