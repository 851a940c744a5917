-- ===== src/Process/Link.antt =====
-- `yc_native_link`: the flags of llvm-config, then the command line of the linker.
use mathlib.Core.List.{append-nil, append_assoc}
use ycpl.Base.{
  ℕ, ◌≡◌, refl, sym, ap, ◌∙◌, Bool, true, false, Option, none, some, List, [], ◌∷◌, ◌++◌, ◌==◌,
  ◌>>=◌, if◌then◌else◌, arith,
}
use ycpl.Text.{Bytes, codes}
use ycpl.Process.{
  Kernel, process_run, ArgVector, no_args, Allocator, arg_vector_push_text, arg_vector_push_words,
  words,
}
use ycpl.Process.Capture.{CaptureKernel, process_capture}
use ycpl.Process.Words.{IsArgVector, Pushed, arg_vector_push-IsArgVector, arg_vector_push_words_lem}

-- One push of the chain `a && b && …`, after those that went before.
abbrev pub and_push : (ArgVector → Bool × ArgVector) → Bool × ArgVector → Bool × ArgVector
and_push push (ok, v) = if ok then push v else (false, v)

-- The chain of pushes of `yc_native_link`.
unfoldable pub link_args :
    Allocator → Option Bytes → Bytes → Bytes → Bytes → Bytes → Bool × ArgVector
unfolding arg_vector_push_text arg_vector_push_words
link_args m linkflags object_file runtime_object output_file llvm_flags =
    and_push (arg_vector_push_text m (some (codes "-lm"))) (
      and_push (arg_vector_push_words m (some llvm_flags)) (
        and_push (arg_vector_push_text m (some output_file)) (
          and_push (arg_vector_push_text m (some (codes "-o"))) (
            and_push (arg_vector_push_text m (some runtime_object)) (
              and_push (arg_vector_push_text m (some object_file))
                (arg_vector_push_words m linkflags no_args))))))

-- `yc_native_link` of paths that are not null.
unfoldable pub link_files :
    Kernel
    → CaptureKernel
    → Allocator
    → (clang llvm_config : Bytes) → Option Bytes
    → (object_file runtime_object output_file : Bytes) → Option ℕ
unfolding process_run process_capture link_args
link_files kernel config m clang llvm_config linkflags object_file runtime_object output_file =
    process_capture config (some llvm_config)
      (codes "--ldflags" ∷ codes "--libs" ∷ codes "core" ∷ codes "--system-libs" ∷ [])
    >>= λ (output, status). elim output [
      | none ↦ some (if status == 0 then 127 else status)
      | some llvm_flags ↦
          if status == 0
          then (let (ok, v) =
                link_args m linkflags object_file runtime_object output_file llvm_flags in
              if ok then process_run kernel (some clang) v.items else some 127)
          else some status
    ]

-- `yc_native_link`; `none` is the null pointer.
unfoldable pub native_link :
    Kernel
    → CaptureKernel
    → Allocator
    → (clang llvm_config linkflags object_file runtime_object output_file : Option Bytes) → Option ℕ
unfolding link_files
native_link kernel config m (some clang) (some llvm_config) linkflags (some o) (some r) (some out) =
    link_files kernel config m clang llvm_config linkflags o r out
native_link kernel config m _ _ linkflags _ _ _ = some 127

-- One push, or a chain of them: all of the texts are entered, in order, if it succeeds.
abbrev Enters : List Bytes → List Bytes → Bool × ArgVector → Type 0
Enters before ws r = IsArgVector r.1 × (r.0 ≡ true → r.1.items ≡ before ++ ws)

Pushed-Enters :
    (ws : List Bytes) (v : ArgVector) (r : Bool × ArgVector) → Pushed ws v r → Enters v.items ws r
Pushed-Enters ws v r (valid, (entered, left, items, split, all)) = (
  valid,
  λ ok.
      items
      ∙ ap (λ t. v.items ++ t)
          (sym (append-nil entered) ∙ sym (ap (λ t. entered ++ t) (all ok)) ∙ split),
)

text-Enters :
    (m : Allocator) (t : Bytes) (v : ArgVector)
    → IsArgVector v
    → Enters v.items (t ∷ []) (arg_vector_push_text m (some t) v)
unfolding arg_vector_push_text
text-Enters m t v valid =
    let (valid', items) = arg_vector_push-IsArgVector m t v valid in
    (valid', λ ok. items ∙ rw ok refl)

words-Enters :
    (m : Allocator) (t : Option Bytes) (v : ArgVector)
    → IsArgVector v
    → Enters v.items (elim t [ none ↦ [] | some x ↦ words x [] ]) (arg_vector_push_words m t v)
words-Enters m t v valid = Pushed-Enters _ v _ (arg_vector_push_words_lem m t v valid)

and_push-Enters :
    (push : ArgVector → Bool × ArgVector) (before ws us : List Bytes) (r : Bool × ArgVector)
    → ((v : ArgVector) → IsArgVector v → Enters v.items us (push v))
    → Enters before ws r
    → Enters before (ws ++ us) (and_push push r)
and_push-Enters push before ws us (true, v) enters (valid, items) =
    let (valid', items') = enters v valid in
    (valid', λ ok. items' ok ∙ ap (λ t. t ++ us) (items refl) ∙ append_assoc before ws us)
and_push-Enters push before ws us (false, v) enters (valid, items) = (valid, λ ok. cc)

-- The command line of the linker.
abbrev pub command_line : Option Bytes → Bytes → Bytes → Bytes → Bytes → List Bytes
command_line linkflags object_file runtime_object output_file llvm_flags =
    elim linkflags [ none ↦ [] | some t ↦ words t [] ]
    ++ object_file ∷ runtime_object ∷ codes "-o" ∷ output_file ∷ []
    ++ words llvm_flags []
    ++ codes "-lm" ∷ []

-- The arguments that `yc_native_link` gives the linker, where all of them are entered: the words of the
-- caller's flags, the object, the runtime, "-o" and the output, the words of llvm-config, and "-lm".
pub link_args-command_line :
    (m : Allocator) (linkflags : Option Bytes)
    (object_file runtime_object output_file llvm_flags : Bytes)
    → (link_args m linkflags object_file runtime_object output_file llvm_flags).0 ≡ true
    → (link_args m linkflags object_file runtime_object output_file llvm_flags).1.items
      ≡ command_line linkflags object_file runtime_object output_file llvm_flags
unfolding link_args
link_args-command_line m linkflags o r out flags ok =
    let start : IsArgVector no_args = record {
      counted = refl;
      fits = omega arith;
      small = omega arith;
    } in
    let step = λ (t : Bytes) (v : ArgVector) (valid : IsArgVector v). text-Enters m t v valid in
    let e₀ = words-Enters m linkflags no_args start in
    let e₁ = and_push-Enters _ [] _ (o ∷ []) _ (step o) e₀ in
    let e₂ = and_push-Enters _ [] _ (r ∷ []) _ (step r) e₁ in
    let e₃ = and_push-Enters _ [] _ (codes "-o" ∷ []) _ (step (codes "-o")) e₂ in
    let e₄ = and_push-Enters _ [] _ (out ∷ []) _ (step out) e₃ in
    let e₅ =
      and_push-Enters _ [] _ (words flags []) _ (λ v valid. words-Enters m (some flags) v valid)
        e₄ in
    let e₆ = and_push-Enters _ [] _ (codes "-lm" ∷ []) _ (step (codes "-lm")) e₅ in
    e₆.1 ok ∙ simp append_assoc
