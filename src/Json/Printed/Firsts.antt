-- ===== src/Json/Printed/Firsts.antt =====
-- First bytes and lengths of the text of JSON values (bootstrap/cpp/src/module/json.cpp).
use mathlib.Core.Path.{subst}
use ycpl.Base.{ℕ, ◌<◌, ◌≡◌, refl, ap, true, false, ◌||◌, [], ◌∷◌, ◌++◌, ◌==◌, length, arith}
use ycpl.Text.{Bytes}
use ycpl.Json.{
  JsonArray, JsonObject, no_items, item, no_fields, field, Result, returned, is_digit, is_space,
  skip_whitespace, peek,
}
use ycpl.Json.Shrinks.{Ends}
use ycpl.Json.Printed.{escape, Numeral, unsigned, minus}
use ycpl.Json.Printed.Lists.{append_items, append_fields}

pub skip_at : (text : Bytes) → is_space (peek text) ≡ false → skip_whitespace text ≡ text
unfolding skip_whitespace
skip_at [] h = refl
skip_at (c ∷ text) h = rw h refl

pub Numeral-first :
    (w rest : Bytes)
    → Numeral w
    → let c = peek (w ++ rest) in (is_space c ≡ false) × ((c == b'-' || is_digit c) ≡ true)
Numeral-first _ rest (unsigned d ds f e h digits fraction exponent) = (ground arith, ground arith)
Numeral-first _ rest (minus d ds f e h digits fraction exponent) = (refl, refl)

pub append-no_items : {Double : Type 0} (arr : JsonArray Double) → append_items arr no_items ≡ arr
unfolding append_items
append-no_items no_items = refl
append-no_items (item v arr) = ap (item v) (append-no_items arr)

pub append-no_fields :
    {Double : Type 0} (obj : JsonObject Double) → append_fields obj no_fields ≡ obj
unfolding append_fields
append-no_fields no_fields = refl
append-no_fields (field k v obj) = ap (field k v) (append-no_fields obj)

pub length-escape : (s rest : Bytes) → length rest < length (escape s rest)
unfolding escape
length-escape [] rest = omega arith
length-escape (c ∷ s) rest = ground (arith, length-escape s rest)

pub Ends-returned :
    {A : Type 0} (n : ℕ) (r : Result A) (a : A) (rest : Bytes)
    → r ≡ returned a rest
    → Ends n r
    → length rest < n
Ends-returned n r a rest e h = subst (Ends n) e h
