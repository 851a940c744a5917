-- ===== src/Json/Printed/Strings.antt =====
-- Strings of JSON are read back (bootstrap/cpp/src/module/json.cpp).
use mathlib.Core.List.{append_assoc, append-nil}
use ycpl.Base.{
  ℕ, ◌≡◌, refl, ap, ◌∙◌, ◌≢◌, inl, inr, true, false, ◌||◌, [], ◌∷◌, ◌++◌, ◌==◌, if◌then◌else◌,
  arith, Bool-cases,
}
use ycpl.Text.{Bytes}
use ycpl.Json.{returned, string_loop, escaped}
use ycpl.Json.Printed.{escape, NoNul}

escape_some : (s rest : Bytes) → escape s rest ≢ []
unfolding escape
escape_some [] rest e = cc e
escape_some (c ∷ s) rest e = elim (Bool-cases (c == b'"' || c == b'\\')) [
  | inl k ↦ marked c s (escape s rest) k e
  | inr k ↦ unmarked c s (escape s rest) k e
]
  where
    marked :
        (c : ℕ) (s t : Bytes)
        → (c == b'"' || c == b'\\') ≡ true
        → (if c == b'"' || c == b'\\' then b'\\' ∷ c ∷ t else c ∷ t) ≢ []
    marked c s t k = rw k (λ n. cc n)

    unmarked :
        (c : ℕ) (s t : Bytes)
        → (c == b'"' || c == b'\\') ≡ false
        → (if c == b'"' || c == b'\\' then b'\\' ∷ c ∷ t else c ∷ t) ≢ []
    unmarked c s t k = rw k (λ n. cc n)

loop_quote : (rest result : Bytes) → string_loop (b'"' ∷ rest) result ≡ returned result rest
unfolding string_loop
loop_quote [] result = refl
loop_quote (c ∷ rest) result = refl

loop_plain :
    (c : ℕ) (text result : Bytes)
    → text ≢ []
    → (c == b'"' || c == b'\\') ≡ false
    → (c == 0) ≡ false
    → string_loop (c ∷ text) result ≡ string_loop text (result ++ c ∷ [])
unfolding string_loop
loop_plain c [] result h e k = absurd (h refl)
loop_plain c (d ∷ text) result h e k =
    let q : (c == b'"') ≡ false = ground arith in
    let b : (c == b'\\') ≡ false = ground arith in rw (q, k, b) refl

loop_escape :
    (c : ℕ) (text result : Bytes)
    → (c == b'"' || c == b'\\') ≡ true
    → string_loop (b'\\' ∷ c ∷ text) result ≡ string_loop text (result ++ c ∷ [])
unfolding string_loop
loop_escape c text result h =
    let e : escaped c ≡ c = ground arith in ap (λ x. string_loop text (result ++ x ∷ [])) e

pub string_loop-escape :
    (s rest result : Bytes)
    → NoNul s
    → string_loop (escape s rest) result ≡ returned (result ++ s) rest
unfolding escape
string_loop-escape [] rest result h = loop_quote rest result ∙ rw (append-nil result) refl
string_loop-escape (c ∷ s) rest result h =
    let again =
      string_loop-escape s rest (result ++ c ∷ []) (h.1)
      ∙ ap (λ r. returned r rest) (append_assoc result (c ∷ []) s) in
    elim (Bool-cases (c == b'"' || c == b'\\')) [
      | inl k ↦ rw k (loop_escape c (escape s rest) result k ∙ again)
      | inr k ↦ rw k (loop_plain c (escape s rest) result (escape_some s rest) k (h.0) ∙ again)
    ]
