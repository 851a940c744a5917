-- ===== src/Json/Ends.antt =====
-- Parsing JSON ends, and every value reads a byte (bootstrap/cpp/src/module/json.cpp).
use ycpl.Base.{
  ℕ, zero, suc, ◌<◌, ◌≡◌, refl, ◌≢◌, ◌||◌, Option, none, some, [], ◌∷◌, ◌==◌, if◌then◌else◌, length,
  drop, arith, length-drop,
}
use ycpl.Text.{Bytes, codes}
use ycpl.Json.{
  JsonValue, JsonArray, JsonObject, json_array, json_object, no_items, no_fields, Result, returned,
  thrown, out_of_fuel, is_digit, skip_whitespace, peek, advance, starts, parse_string, push_back,
  store, close, array_loop, object_loop, parse_bool, number_at, parse_number, dispatch, parse_value,
  result_of, parse, parse_json,
}
use ycpl.Json.Shrinks.{
  Ends, Ends-weaken, then_parse-Ends, Ends-if, advance_less, advance_le, whitespace_le, number_less,
  string_loop-Ends,
}

module _ {Double : Type 0} where
  -- The values that `parse` reads have fewer bytes than the bound.
  abbrev Reader : ℕ → (Bytes → Result (JsonValue Double)) → Type 0
  Reader bound parse = (text : Bytes) → length text < bound → Ends (length text) (parse text)

  close-Ends :
      {A : Type 0} (n bracket : ℕ) (message : Bytes) (make : A → JsonValue Double) (a : A)
      (text : Bytes)
      → length text < n
      → Ends n (close bracket message make a text)
  close-Ends n bracket message make a text h =
      Ends-if n (peek text == bracket) _ _ (λ e. omega (arith, advance_le text)) (λ e. tt)

  -- Behind a value in a list: a comma and the rest of the loop, or the bracket.
  next-Ends :
      {A : Type 0} (n bracket : ℕ) (message : Bytes) (make : A → JsonValue Double) (a : A)
      (rest : Bytes) (loop : Bytes → Result (JsonValue Double))
      → length rest < n
      → ((text : Bytes) → length text < length rest → Ends (length text) (loop text))
      → let next = skip_whitespace rest in
        Ends n
          (if peek next == b',' then loop (advance next) else close bracket message make a next)
  next-Ends n bracket message make a rest loop h again =
      let next = skip_whitespace rest in
      Ends-if n (peek next == b',') _ _
        (λ e.
          let less = advance_less next (λ z. ground arith) in
          Ends-weaken (length (advance next)) n _ (omega (arith, less, whitespace_le rest))
            (again (advance next) (omega (arith, less, whitespace_le rest))))
        (λ e. close-Ends n bracket message make a next (omega (arith, whitespace_le rest)))

  module _ (bound : ℕ) (parse : Bytes → Result (JsonValue Double))
      (reads : Reader bound parse) where
    array_loop-Ends :
        (fuel : ℕ) (arr : JsonArray Double) (text : Bytes)
        → length text < fuel
        → length text < bound
        → Ends (length text) (array_loop parse fuel arr text)
    unfolding array_loop
    array_loop-Ends zero arr text h l = absurd (omega arith)
    array_loop-Ends (suc fuel) arr text h l =
        let first = skip_whitespace text in
        then_parse-Ends (length first) (length text) (parse first) _
          (reads first (omega (arith, whitespace_le text)))
          (λ v rest k.
            next-Ends (length text) b']' (codes "Expected ]") json_array (push_back arr v) rest
              (array_loop parse fuel (push_back arr v)) (omega (arith, whitespace_le text))
              (λ t m.
                array_loop-Ends fuel (push_back arr v) t (omega (arith, whitespace_le text))
                  (omega (arith, whitespace_le text))))

    object_loop-Ends :
        (fuel : ℕ) (obj : JsonObject Double) (text : Bytes)
        → length text < fuel
        → length text < bound
        → Ends (length text) (object_loop parse fuel obj text)
    unfolding object_loop
    object_loop-Ends zero obj text h l = absurd (omega arith)
    object_loop-Ends (suc fuel) obj text h l =
        let first = skip_whitespace text in
        then_parse-Ends (length (advance first)) (length text) (parse_string first) _
          (string_loop-Ends (advance first) [])
          (λ key behind k.
            let colon = skip_whitespace behind in
            let at = skip_whitespace (advance colon) in
            let less : length at < length text = omega (
              arith,
              whitespace_le text,
              advance_le first,
              whitespace_le behind,
              advance_le colon,
              whitespace_le (advance colon),
            ) in
            Ends-if (length text) (peek colon == b':') _ _
              (λ e.
                then_parse-Ends (length at) (length text) (parse at) _ (reads at (omega arith))
                  (λ v rest m.
                    next-Ends (length text) b'}' (codes "Expected }") json_object (store obj key v)
                      rest (object_loop parse fuel (store obj key v)) (omega arith)
                      (λ t o.
                        object_loop-Ends fuel (store obj key v) t (omega arith) (omega arith))))
              (λ e. tt))

module _ {Double : Type 0} (stod : Bytes → Option Double) where
  number_at-Ends :
      (n : ℕ) (o : Option Double) (rest : Bytes) → length rest < n → Ends n (number_at stod o rest)
  number_at-Ends n none rest h = tt
  number_at-Ends n (some d) rest h = h

  some_byte : (text : Bytes) → peek text ≢ 0 → 0 < length text
  some_byte [] h = absurd (h refl)
  some_byte (c ∷ text) h = omega arith

  cut_less : (k : ℕ) (text : Bytes) → 0 < k → 0 < length text → length (drop k text) < length text
  cut_less k text h l = omega (arith, length-drop k text)

  bool-Ends :
      (text : Bytes) → 0 < length text → Ends (length text) (parse_bool {Double = Double} text)
  bool-Ends text h =
      Ends-if _ (starts (codes "true") text) _ _ (λ e. cut_less 4 text (omega arith) h)
        (λ e.
          Ends-if _ (starts (codes "false") text) _ _ (λ k. cut_less 5 text (omega arith) h)
            (λ k. tt))

  -- A list that is empty, or is read by a loop.
  list-Ends :
      (text : Bytes)
      → peek text ≢ 0
      → (bracket : ℕ) (empty : JsonValue Double) (loop : Bytes → Result (JsonValue Double))
      → ((t : Bytes) → length t < length text → Ends (length t) (loop t))
      → let first = skip_whitespace (advance text) in
        Ends
          (length text)
          (if peek first == bracket then returned empty (advance first) else loop first)
  list-Ends text nonzero bracket empty loop again =
      let first = skip_whitespace (advance text) in
      let less : length first < length text =
        omega (arith, advance_less text nonzero, whitespace_le (advance text)) in
      Ends-if _ (peek first == bracket) _ _ (λ e. omega (arith, advance_le first))
        (λ e. Ends-weaken (length first) _ _ (omega arith) (again first less))

  dispatch-Ends :
      (bound : ℕ) (parse : Bytes → Result (JsonValue Double)) (fuel : ℕ) (text : Bytes)
      → Reader bound parse
      → length text < suc fuel
      → length text < suc bound
      → Ends (length text) (dispatch stod parse fuel text)
  unfolding dispatch parse_number
  dispatch-Ends bound parse fuel text reads h l =
      let c = peek text in
      Ends-if _ (c == b'n') _ _
        (λ e.
          let nonempty = some_byte text (λ z. ground arith) in
          Ends-if _ (starts (codes "null") text) _ _ (λ k. cut_less 4 text (omega arith) nonempty)
            (λ k. tt))
        (λ e.
          Ends-if _ (c == b't' || c == b'f') _ _
            (λ k. bool-Ends text (some_byte text (λ z. ground arith)))
            (λ k.
              Ends-if _ (c == b'-' || is_digit c) _ _
                (λ m. number_at-Ends (length text) _ _ (number_less text m))
                (λ m.
                  Ends-if _ (c == b'"') _ _
                    (λ o.
                      then_parse-Ends (length (advance text)) (length text) (parse_string text) _
                        (string_loop-Ends (advance text) [])
                        (λ s rest q. omega (arith, advance_le text)))
                    (λ o.
                      Ends-if _ (c == b'[') _ _
                        (λ p.
                          list-Ends text (λ z. ground arith) b']' _ _
                            (λ t n.
                              array_loop-Ends bound parse reads fuel no_items t (omega arith)
                                (omega arith)))
                        (λ p.
                          Ends-if _ (c == b'{') _ _
                            (λ q.
                              list-Ends text (λ z. ground arith) b'}' _ _
                                (λ t n.
                                  object_loop-Ends bound parse reads fuel no_fields t (omega arith)
                                    (omega arith)))
                            (λ q. tt))))))

  -- More fuel than bytes is enough: a value is read with at least one byte, or an exception is thrown.
  pub parse_value-Ends :
      (fuel : ℕ) (text : Bytes)
      → length text < fuel
      → Ends (length text) (parse_value stod fuel text)
  unfolding parse_value
  parse_value-Ends zero text h = absurd (omega arith)
  parse_value-Ends (suc fuel) text h =
      let first = skip_whitespace text in
      Ends-weaken (length first) _ _ (whitespace_le text) (
        dispatch-Ends fuel (parse_value stod fuel) fuel first (λ t l. parse_value-Ends fuel t l)
          (omega (arith, whitespace_le text)) (omega (arith, whitespace_le text)))

  ended :
      (n : ℕ) (r : Result (JsonValue Double))
      → Ends n r
      → (o : Option (JsonValue Double)) × (result_of stod r ≡ some o)
  ended n (returned v rest) h = (some v, refl)
  ended n (thrown message) h = (none, refl)
  ended n out_of_fuel h = elim h [ ]

  -- Every text is parsed to an end, with a value or with none.
  pub parse_json-Ends :
      (input : Bytes) → (o : Option (JsonValue Double)) × (parse_json stod input ≡ some o)
  unfolding parse
  parse_json-Ends input =
      let first = skip_whitespace input in
      ended _ _ (parse_value-Ends (suc (length input)) first (omega (arith, whitespace_le input)))
