-- ===== src/Json/Printed/Whole.antt =====
-- Values of JSON are read back from their text (bootstrap/cpp/src/module/json.cpp).
use ycpl.Base.{
  ℕ, zero, suc, ◌<◌, ◌≡◌, refl, ap, ◌∙◌, true, false, ◌||◌, Option, none, some, [], ◌∷◌, ◌++◌, ◌==◌,
  if◌then◌else◌, length, arith,
}
use ycpl.Text.{Bytes, codes}
use ycpl.Json.{
  JsonValue, JsonArray, JsonObject, json_null, json_bool, json_number, json_string, json_array,
  json_object, no_items, item, no_fields, field, Result, returned, is_space, skip_whitespace, peek,
  advance, push_back, store, find_field, close, array_loop, parse_array, object_loop, parse_number,
  dispatch, parse_value, parse, parse_json,
}
use ycpl.Json.Ends.{parse_value-Ends}
use ycpl.Json.Printed.{
  escape, NoNul, Numeral, print, print_items, print_fields, IsPlain, ArePlain, HasPlain, delimits,
}
use ycpl.Json.Printed.Strings.{string_loop-escape}
use ycpl.Json.Printed.Numbers.{parse_number-append}
use ycpl.Json.Printed.Lists.{
  append_items, append_fields, append-push_back, append-store, Apart, store-Apart,
}
use ycpl.Json.Printed.Firsts.{
  skip_at, Numeral-first, append-no_items, append-no_fields, length-escape, Ends-returned,
}

module _ {Double : Type 0} (stod : Bytes → Option Double) (show : Double → Bytes) where
  print-first :
      (v : JsonValue Double) (rest : Bytes)
      → IsPlain stod show v
      → is_space (peek (print show v rest)) ≡ false
  unfolding print IsPlain
  print-first json_null rest plain = refl
  print-first (json_bool true) rest plain = refl
  print-first (json_bool false) rest plain = refl
  print-first (json_number n) rest plain = (Numeral-first (show n) rest (plain.0)).0
  print-first (json_string s) rest plain = refl
  print-first (json_array no_items) rest plain = refl
  print-first (json_array (item v items)) rest plain = refl
  print-first (json_object no_fields) rest plain = refl
  print-first (json_object (field k v more)) rest plain = refl

  print-open :
      (v : JsonValue Double) (rest : Bytes)
      → IsPlain stod show v
      → (peek (print show v rest) == b']') ≡ false
  unfolding print IsPlain
  print-open json_null rest plain = refl
  print-open (json_bool true) rest plain = refl
  print-open (json_bool false) rest plain = refl
  print-open (json_number n) rest plain =
      let h = (Numeral-first (show n) rest (plain.0)).1 in ground arith
  print-open (json_string s) rest plain = refl
  print-open (json_array no_items) rest plain = refl
  print-open (json_array (item v items)) rest plain = refl
  print-open (json_object no_fields) rest plain = refl
  print-open (json_object (field k v more)) rest plain = refl

  array_step :
      (fuel : ℕ) (v : JsonValue Double) (items : JsonArray Double) (rest : Bytes)
      → IsPlain stod show v
      → let text = print show v (print_items show items rest) in
        array_loop (parse_value stod fuel) fuel no_items text
          ≡ returned (json_array (item v items)) rest
        → parse_array (parse_value stod fuel) fuel (b'[' ∷ text)
          ≡ returned (json_array (item v items)) rest
  array_step fuel v items rest plain h =
      let tail = print_items show items rest in
      rw (skip_at (print show v tail) (print-first v tail plain), print-open v tail plain) h

  number-dispatch :
      (w rest : Bytes) (again : Bytes → Result (JsonValue Double)) (fuel : ℕ)
      → Numeral w
      → dispatch stod again fuel (w ++ rest) ≡ parse_number stod (w ++ rest)
  unfolding dispatch
  number-dispatch w rest again fuel h =
      let c = peek (w ++ rest) in
      let k = (Numeral-first w rest h).1 in
      let n : (c == b'n') ≡ false = ground arith in
      let t : (c == b't' || c == b'f') ≡ false = ground arith in rw (n, t, k) refl

  abbrev Reads : ℕ → JsonValue Double → Type 0
  Reads fuel v =
      (rest : Bytes)
      → delimits (peek rest) ≡ true
      → length (print show v rest) < fuel
      → parse_value stod fuel (print show v rest) ≡ returned v rest

  -- The loop over an array reads the items from the first on.
  abbrev ReadsItems : ℕ → JsonArray Double → Type 0
  ReadsItems fuel no_items = Unit
  ReadsItems fuel (item v items) =
      (n : ℕ) (arr : JsonArray Double) (rest : Bytes)
      → let text = print show v (print_items show items rest) in
        length text < n
        → length text < fuel
        → array_loop (parse_value stod fuel) n arr text
          ≡ returned (json_array (append_items arr (item v items))) rest

  items_delimit :
      (items : JsonArray Double) (rest : Bytes)
      → delimits (peek (print_items show items rest)) ≡ true
  unfolding print_items
  items_delimit no_items rest = refl
  items_delimit (item v items) rest = refl

  -- Behind an item: the bracket, or a comma and the loop.
  after_item :
      (fuel n : ℕ) (arr items : JsonArray Double) (rest : Bytes)
      → ReadsItems fuel items
      → length (print_items show items rest) < suc n
      → length (print_items show items rest) < fuel
      → let next = skip_whitespace (print_items show items rest) in
        (if peek next == b','
          then array_loop (parse_value stod fuel) n arr (advance next)
          else close b']' (codes "Expected ]") json_array arr next)
        ≡ returned (json_array (append_items arr items)) rest
  unfolding print_items skip_whitespace
  after_item fuel n arr no_items rest h l m = rw (append-no_items arr) refl
  after_item fuel n arr (item v items) rest h l m = h n arr rest (omega arith) (omega arith)

  item-ReadsItems :
      (fuel : ℕ) (v : JsonValue Double) (items : JsonArray Double)
      → IsPlain stod show v
      → Reads fuel v
      → ReadsItems fuel items
      → ReadsItems fuel (item v items)
  unfolding array_loop
  item-ReadsItems fuel v items plain value more zero arr rest h l = absurd (omega arith)
  item-ReadsItems fuel v items plain value more (suc n) arr rest h l =
      let tail = print_items show items rest in
      let e = value tail (items_delimit items rest) l in
      let less = Ends-returned _ _ v tail e (parse_value-Ends stod fuel (print show v tail) l) in
      rw (skip_at (print show v tail) (print-first v tail plain), e)
        (after_item fuel n (push_back arr v) items rest more (omega arith) (omega arith)
          ∙ ap (λ a. returned (json_array a) rest) (append-push_back arr items v))

  -- The loop over an object reads the fields from the first on, and stores keys that are new.
  abbrev ReadsFields : ℕ → JsonObject Double → Type 0
  ReadsFields fuel no_fields = Unit
  ReadsFields fuel (field k v more) =
      (n : ℕ) (obj : JsonObject Double) (rest : Bytes)
      → let text = b'"' ∷ escape k (b':' ∷ print show v (print_fields show more rest)) in
        length text < n
        → length text < fuel
        → Apart obj (field k v more)
        → object_loop (parse_value stod fuel) n obj text
          ≡ returned (json_object (append_fields obj (field k v more))) rest

  fields_delimit :
      (more : JsonObject Double) (rest : Bytes)
      → delimits (peek (print_fields show more rest)) ≡ true
  unfolding print_fields
  fields_delimit no_fields rest = refl
  fields_delimit (field k v more) rest = refl

  after_field :
      (fuel n : ℕ) (obj more : JsonObject Double) (rest : Bytes)
      → ReadsFields fuel more
      → length (print_fields show more rest) < suc n
      → length (print_fields show more rest) < fuel
      → Apart obj more
      → let next = skip_whitespace (print_fields show more rest) in
        (if peek next == b','
          then object_loop (parse_value stod fuel) n obj (advance next)
          else close b'}' (codes "Expected }") json_object obj next)
        ≡ returned (json_object (append_fields obj more)) rest
  unfolding print_fields skip_whitespace
  after_field fuel n obj no_fields rest h l m apart = rw (append-no_fields obj) refl
  after_field fuel n obj (field k v more) rest h l m apart =
      h n obj rest (omega arith) (omega arith) apart

  field-ReadsFields :
      (fuel : ℕ) (k : Bytes) (v : JsonValue Double) (more : JsonObject Double)
      → NoNul k
      → find_field more k ≡ none
      → IsPlain stod show v
      → Reads fuel v
      → ReadsFields fuel more
      → ReadsFields fuel (field k v more)
  unfolding object_loop skip_whitespace
  field-ReadsFields fuel k v more plain new plain_value value rest_of zero obj rest h l apart =
      absurd (omega arith)
  field-ReadsFields fuel k v more plain new plain_value value rest_of (suc n) obj rest h l apart =
      let tail = print_fields show more rest in
      let text = print show v tail in
      let key = string_loop-escape k (b':' ∷ text) [] plain in
      let short = length-escape k (b':' ∷ text) in
      let e = value tail (fields_delimit more rest) (omega arith) in
      let less = Ends-returned _ _ v tail e (parse_value-Ends stod fuel text (omega arith)) in
      rw (key, skip_at text (print-first v tail plain_value), e)
        (after_field fuel n (store obj k v) more rest rest_of (omega arith) (omega arith)
            (store-Apart obj more k v (apart.1) new)
          ∙ ap (λ o. returned (json_object o) rest) (append-store obj more k v (apart.0)))

  Apart-empty : (more : JsonObject Double) → Apart no_fields more
  unfolding find_field
  Apart-empty no_fields = tt
  Apart-empty (field k v more) = (refl, Apart-empty more)

  -- One value, from what the parts of an array or an object give on less fuel.
  value_step :
      (fuel : ℕ) (v : JsonValue Double) (rest : Bytes)
      → IsPlain stod show v
      → dispatch stod (parse_value stod fuel) fuel (print show v rest) ≡ returned v rest
      → parse_value stod (suc fuel) (print show v rest) ≡ returned v rest
  unfolding parse_value
  value_step fuel v rest plain h = rw (skip_at (print show v rest) (print-first v rest plain)) h

  mutual
    unfolding print dispatch IsPlain ArePlain HasPlain skip_whitespace append_items append_fields

    value-Reads : (v : JsonValue Double) (fuel : ℕ) → IsPlain stod show v → Reads fuel v
    value-Reads v zero plain rest d h = absurd (omega arith)
    value-Reads json_null (suc fuel) plain rest d h = value_step fuel json_null rest plain refl
    value-Reads (json_bool true) (suc fuel) plain rest d h =
        value_step fuel (json_bool true) rest plain refl
    value-Reads (json_bool false) (suc fuel) plain rest d h =
        value_step fuel (json_bool false) rest plain refl
    value-Reads (json_number n) (suc fuel) plain rest d h =
        value_step fuel (json_number n) rest plain (
          number-dispatch (show n) rest (parse_value stod fuel) fuel (plain.0)
          ∙ parse_number-append stod n (show n) rest (plain.0) d (plain.1))
    value-Reads (json_string s) (suc fuel) plain rest d h =
        value_step fuel (json_string s) rest plain
          (let e = string_loop-escape s rest [] plain in rw e refl)
    value-Reads (json_array no_items) (suc fuel) plain rest d h =
        value_step fuel (json_array no_items) rest plain refl
    value-Reads (json_array (item v items)) (suc fuel) plain rest d h =
        value_step fuel (json_array (item v items)) rest plain (
          array_step fuel v items rest (plain.0)
            (items-Reads (item v items) fuel plain fuel no_items rest (omega arith) (omega arith)))
    value-Reads (json_object no_fields) (suc fuel) plain rest d h =
        value_step fuel (json_object no_fields) rest plain refl
    value-Reads (json_object (field k v more)) (suc fuel) plain rest d h =
        value_step fuel (json_object (field k v more)) rest plain (
          fields-Reads (field k v more) fuel plain fuel no_fields rest (omega arith) (omega arith)
            (Apart-empty (field k v more)))

    items-Reads :
        (items : JsonArray Double) (fuel : ℕ) → ArePlain stod show items → ReadsItems fuel items
    items-Reads no_items fuel plain = tt
    items-Reads (item v items) fuel plain =
        item-ReadsItems fuel v items (plain.0) (value-Reads v fuel (plain.0))
          (items-Reads items fuel (plain.1))

    fields-Reads :
        (more : JsonObject Double) (fuel : ℕ) → HasPlain stod show more → ReadsFields fuel more
    fields-Reads no_fields fuel plain = tt
    fields-Reads (field k v more) fuel plain =
        field-ReadsFields fuel k v more (plain.0) (plain.2) (plain.1) (value-Reads v fuel (plain.1))
          (fields-Reads more fuel (plain.3))

  -- A value is read back from its text, where no string holds NUL, no object has a key twice, and the
  -- text of each of its numbers is a numeral, perhaps with a minus, a fraction and an exponent, from
  -- which `stod` gives the number. What stands behind the text is ignored, where it is nothing, or
  -- begins with a NUL, a comma or a closing bracket.
  pub parse_json-print :
      (v : JsonValue Double) (rest : Bytes)
      → IsPlain stod show v
      → delimits (peek rest) ≡ true
      → parse_json stod (print show v rest) ≡ some (some v)
  unfolding parse
  parse_json-print v rest plain d =
      let text = print show v rest in
      rw
        (
          skip_at text (print-first v rest plain),
          value-Reads v (suc (length text)) plain rest d (omega arith),
        )
        refl
