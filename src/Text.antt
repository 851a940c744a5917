-- ===== src/Text.antt =====
-- C strings as lists of bytes without the final NUL (bootstrap/cpp/runtime/yc_runtime.c).
pub mod Bytes
use Prim.Native.Char.{code}
use Prim.Native.String.{String}
use ycpl.Base.{
  ℕ, ◌+◌, ◌-◌, Bool, true, false, ◌&&◌, List, [], ◌∷◌, ◌==◌, length, drop, ltb, if◌then◌else◌,
}

abbrev pub Bytes : Type 0
Bytes = List ℕ

-- The bytes of an ASCII literal.
abbrev pub codes : String → Bytes
codes String.[] = []
codes (String.◌∷◌ c s) = code c ∷ codes s

abbrev pub newline : ℕ
newline = 10

abbrev pub slash : ℕ
slash = 47

-- `strcmp(a, b) == 0`
abbrev pub str_eq : Bytes → Bytes → Bool
str_eq [] [] = true
str_eq [] (d ∷ b) = false
str_eq (c ∷ a) [] = false
str_eq (c ∷ a) (d ∷ b) = c == d && str_eq a b

-- `strcmp(a, b) <= 0`, by unsigned bytes.
abbrev pub str_le : Bytes → Bytes → Bool
str_le [] b = true
str_le (c ∷ a) [] = false
str_le (c ∷ a) (d ∷ b) = if c == d then str_le a b else ltb c d
