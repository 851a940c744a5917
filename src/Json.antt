-- ===== src/Json.antt =====
-- The reader of project files in JSON (bootstrap/cpp/src/module/json.h, bootstrap/cpp/src/module/json.cpp).
-- `input_` and `pos_` are the text from `pos_` on; a read past the end gives NUL. Doubles and `stod`,
-- with `none` for its exceptions, are parameters. Values in one another run on fuel; more than the
-- bytes of the text is enough, since each reads a byte.
pub mod Shrinks
pub mod Ends
pub mod Printed
pub mod Stored
use ycpl.Base.{
  ℕ, zero, suc, ◌-◌, Bool, true, false, ◌&&◌, ◌||◌, Option, none, some, List, [], ◌∷◌, ◌++◌, leb,
  ◌==◌, if◌then◌else◌, length, get_or, take, drop,
}
use ycpl.Text.{Bytes, codes, str_eq}

-- An object is a list of keys and values, in the order in which the keys were first stored.
mutual
  pub data JsonValue (Double : Type 0) : Type 0 where
    json_null : JsonValue Double
    json_bool : Bool → JsonValue Double
    json_number : Double → JsonValue Double
    json_string : Bytes → JsonValue Double
    json_array : JsonArray Double → JsonValue Double
    json_object : JsonObject Double → JsonValue Double

  pub data JsonArray (Double : Type 0) : Type 0 where
    no_items : JsonArray Double
    item : JsonValue Double → JsonArray Double → JsonArray Double

  pub data JsonObject (Double : Type 0) : Type 0 where
    no_fields : JsonObject Double
    field : Bytes → JsonValue Double → JsonObject Double → JsonObject Double

-- What a parsing function leaves: a value with the text behind it, or an exception.
pub data Result (A : Type 0) : Type 0 where
  returned : A → Bytes → Result A
  thrown : Bytes → Result A
  out_of_fuel : Result A

abbrev pub then_parse : {A B : Type 0} → Result A → (A → Bytes → Result B) → Result B
then_parse (returned a rest) f = f a rest
then_parse (thrown message) f = thrown message
then_parse out_of_fuel f = out_of_fuel

-- `isspace` and `isdigit` of the C locale.
abbrev pub is_space : ℕ → Bool
is_space c = c == b' ' || (leb 9 c && leb c 13)

abbrev pub is_digit : ℕ → Bool
is_digit c = leb b'0' c && leb c b'9'

unfoldable pub skip_whitespace : Bytes → Bytes
skip_whitespace [] = []
skip_whitespace (c ∷ cs) = if is_space c then skip_whitespace cs else c ∷ cs

abbrev pub peek : Bytes → ℕ
peek text = get_or text 0 0

-- `advance` returns `peek text` and leaves this.
abbrev pub advance : Bytes → Bytes
advance text = drop 1 text

abbrev pub starts : Bytes → Bytes → Bool
starts word text = str_eq (take (length word) text) word

abbrev pub escaped : ℕ → ℕ
escaped c =
    if c == b'b'
    then 8
    else if c == b'f'
    then 12
    else if c == b'n'
    then 10
    else if c == b'r'
    then 13
    else if c == b't'
    then 9
    else c

abbrev pub unterminated : Result Bytes
unterminated = thrown (codes "Unterminated string")

-- The loop of `parse_string`, with what `result` holds. An escape at the end of the text reads NUL.
unfoldable pub string_loop : Bytes → Bytes → Result Bytes
string_loop [] result = unterminated
string_loop (c ∷ []) result = if c == b'"' then returned result [] else unterminated
string_loop (c ∷ d ∷ cs) result =
    let after_escape = string_loop cs (result ++ escaped d ∷ []) in
    let rest = string_loop (d ∷ cs) (result ++ c ∷ []) in
    if c == b'"'
    then returned result (d ∷ cs)
    else if c == 0
    then unterminated
    else if c == b'\\'
    then after_escape
    else rest

abbrev pub parse_string : Bytes → Result Bytes
parse_string text = string_loop (advance text) []

unfoldable pub skip_digits : Bytes → Bytes
skip_digits [] = []
skip_digits (c ∷ cs) = if is_digit c then skip_digits cs else c ∷ cs

abbrev pub skip_fraction : Bytes → Bytes
skip_fraction text = if peek text == b'.' then skip_digits (advance text) else text

abbrev pub skip_sign : Bytes → Bytes
skip_sign text = if peek text == b'+' || peek text == b'-' then advance text else text

abbrev pub skip_exponent : Bytes → Bytes
skip_exponent text =
    if peek text == b'e' || peek text == b'E' then skip_digits (skip_sign (advance text)) else text

-- The text behind a number.
unfoldable pub skip_number : Bytes → Bytes
skip_number text =
    let unsigned = if peek text == b'-' then advance text else text in
    skip_exponent (skip_fraction (skip_digits unsigned))

module _ {Double : Type 0} where
  -- `arr.push_back(value)`
  unfoldable pub push_back : JsonArray Double → JsonValue Double → JsonArray Double
  push_back no_items v = item v no_items
  push_back (item w items) v = item w (push_back items v)

  -- `obj[key] = value`
  unfoldable pub store : JsonObject Double → Bytes → JsonValue Double → JsonObject Double
  store no_fields key v = field key v no_fields
  store (field k w fields) key v =
      let rest = store fields key v in if str_eq k key then field k v fields else field k w rest

  -- `obj.find(key)`
  unfoldable pub find_field : JsonObject Double → Bytes → Option (JsonValue Double)
  find_field no_fields key = none
  find_field (field k w fields) key = if str_eq k key then some w else find_field fields key

  -- `JsonValue::get`; the null pointer is `none`.
  abbrev pub get : JsonValue Double → Bytes → Option (JsonValue Double)
  get (json_object fields) key = find_field fields key
  get v key = none

  abbrev pub string_or : Bytes → Option (JsonValue Double) → Bytes
  string_or default (some (json_string s)) = s
  string_or default v = default

  abbrev pub number_or : Double → Option (JsonValue Double) → Double
  number_or default (some (json_number n)) = n
  number_or default v = default

  -- `JsonValue::value`, with a string and with a double.
  abbrev pub value : JsonValue Double → Bytes → Bytes → Bytes
  value v key default = string_or default (get v key)

  abbrev pub value_number : JsonValue Double → Bytes → Double → Double
  value_number v key default = number_or default (get v key)

  abbrev pub close :
      {A : Type 0} → ℕ → Bytes → (A → JsonValue Double) → A → Bytes → Result (JsonValue Double)
  close bracket message make a text =
      if peek text == bracket then returned (make a) (advance text) else thrown message

  -- The loop of `parse_array`, where `parse` is `parse_value`.
  unfoldable pub array_loop :
      (Bytes → Result (JsonValue Double)) → ℕ → JsonArray Double → Bytes → Result (JsonValue Double)
  array_loop parse zero arr text = out_of_fuel
  array_loop parse (suc fuel) arr text = then_parse (parse (skip_whitespace text)) (λ v rest.
      let next = skip_whitespace rest in
      if peek next == b','
      then array_loop parse fuel (push_back arr v) (advance next)
      else close b']' (codes "Expected ]") json_array (push_back arr v) next)

  abbrev pub parse_array :
      (Bytes → Result (JsonValue Double)) → ℕ → Bytes → Result (JsonValue Double)
  parse_array parse fuel text =
      let first = skip_whitespace (advance text) in
      if peek first == b']'
      then returned (json_array no_items) (advance first)
      else array_loop parse fuel no_items first

  -- The loop of `parse_object`.
  unfoldable pub object_loop :
      (Bytes → Result (JsonValue Double))
      → ℕ
      → JsonObject Double
      → Bytes
      → Result (JsonValue Double)
  object_loop parse zero obj text = out_of_fuel
  object_loop parse (suc fuel) obj text =
      then_parse (parse_string (skip_whitespace text)) (λ key behind_key.
        let colon = skip_whitespace behind_key in
        if peek colon == b':'
        then then_parse (parse (skip_whitespace (advance colon))) (λ v rest.
          let next = skip_whitespace rest in
          if peek next == b','
          then object_loop parse fuel (store obj key v) (advance next)
          else close b'}' (codes "Expected }") json_object (store obj key v) next)
        else thrown (codes "Expected :"))

  abbrev pub parse_object :
      (Bytes → Result (JsonValue Double)) → ℕ → Bytes → Result (JsonValue Double)
  parse_object parse fuel text =
      let first = skip_whitespace (advance text) in
      if peek first == b'}'
      then returned (json_object no_fields) (advance first)
      else object_loop parse fuel no_fields first

  abbrev pub parse_null : Bytes → Result (JsonValue Double)
  parse_null text =
      if starts (codes "null") text
      then returned json_null (drop 4 text)
      else thrown (codes "Expected null")

  abbrev pub parse_bool : Bytes → Result (JsonValue Double)
  parse_bool text =
      if starts (codes "true") text
      then returned (json_bool true) (drop 4 text)
      else if starts (codes "false") text
      then returned (json_bool false) (drop 5 text)
      else thrown (codes "Expected boolean")

module _ {Double : Type 0} (stod : Bytes → Option Double) where
  abbrev pub number_at : Option Double → Bytes → Result (JsonValue Double)
  number_at none rest = thrown (codes "stod")
  number_at (some n) rest = returned (json_number n) rest

  unfoldable pub parse_number : Bytes → Result (JsonValue Double)
  parse_number text =
      let rest = skip_number text in number_at (stod (take (length text - length rest) text)) rest

  -- `parse_value` behind the white space, where `parse` is `parse_value` itself.
  unfoldable pub dispatch :
      (Bytes → Result (JsonValue Double)) → ℕ → Bytes → Result (JsonValue Double)
  dispatch parse fuel text =
      let c = peek text in
      if c == b'n'
      then parse_null text
      else if c == b't' || c == b'f'
      then parse_bool text
      else if c == b'-' || is_digit c
      then parse_number text
      else if c == b'"'
      then then_parse (parse_string text) (λ s rest. returned (json_string s) rest)
      else if c == b'['
      then parse_array parse fuel text
      else if c == b'{'
      then parse_object parse fuel text
      else thrown (codes "Unexpected character")

  unfoldable pub parse_value : ℕ → Bytes → Result (JsonValue Double)
  parse_value zero text = out_of_fuel
  parse_value (suc fuel) text = dispatch (parse_value fuel) fuel (skip_whitespace text)

  -- `SimpleJsonParser::parse`: an exception gives `nullopt`, and text behind the value is ignored.
  abbrev pub result_of : Result (JsonValue Double) → Option (Option (JsonValue Double))
  result_of (returned v rest) = some (some v)
  result_of (thrown message) = some none
  result_of out_of_fuel = none

  unfoldable pub parse : ℕ → Bytes → Option (Option (JsonValue Double))
  parse fuel input = result_of (parse_value fuel (skip_whitespace input))

  abbrev pub parse_json : Bytes → Option (Option (JsonValue Double))
  parse_json input = parse (suc (length input)) input
