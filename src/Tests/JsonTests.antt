-- ===== src/Tests/JsonTests.antt =====
-- Runs of the reader of JSON, and its theorems at concrete inputs. In some of them a double is
-- a truth value, written 1 or 0.
use ycpl.Base.{[], ◌≡◌, refl, Bool, true, false, Option, none, some, if◌then◌else◌}
use ycpl.Text.{Bytes, codes, str_eq}
use ycpl.Json.{
  JsonValue, JsonObject, json_null, json_number, json_string, json_array, json_object, no_items,
  item, no_fields, field, skip_whitespace, string_loop, skip_digits, skip_number, push_back, store,
  find_field, array_loop, object_loop, parse_number, dispatch, parse_value, parse, parse_json,
}
use ycpl.Json.Ends.{parse_json-Ends}
use ycpl.Json.Printed.{
  print, IsPlain, Numeral, unsigned, minus, whole, decimals, no_power, signed_power,
}
use ycpl.Json.Printed.Whole.{parse_json-print}

abbrev read_bit : Bytes → Option Bool
read_bit text =
    if str_eq text (codes "1")
    then some true
    else if str_eq text (codes "0")
    then some false
    else none

-- Three doubles, as `printf` writes them.
data Sample : Type 0 where
  half million two : Sample

abbrev show_sample : Sample → Bytes
show_sample half = codes "-0.5"
show_sample million = codes "1.25e+06"
show_sample two = codes "2"

abbrev read_sample : Bytes → Option Sample
read_sample text =
    if str_eq text (codes "-0.5")
    then some half
    else if str_eq text (codes "1.25e+06")
    then some million
    else if str_eq text (codes "2")
    then some two
    else none

abbrev half_text : Numeral (codes "-0.5")
half_text = minus b'0' [] (codes ".5") [] refl tt (decimals (codes "5") (refl, tt)) no_power

abbrev million_text : Numeral (codes "1.25e+06")
million_text =
    unsigned b'1' [] (codes ".25") (codes "e+06") refl tt (decimals (codes "25") (refl, (refl, tt)))
      (signed_power b'e' b'+' (codes "06") refl refl (refl, (refl, tt)))

abbrev two_text : Numeral (codes "2")
two_text = unsigned b'2' [] [] [] refl tt whole no_power

abbrev sample : JsonValue Sample
sample = json_object (
    field (codes "n")
      (json_array (item (json_number half) (item (json_number million) (item json_null no_items))))
      (field (codes "s") (json_string (codes "a\"b"))
        (field (codes "t") (json_number two) no_fields)))

sample-IsPlain : IsPlain read_sample show_sample sample
unfolding IsPlain find_field
sample-IsPlain = (
  (refl, tt),
  ((half_text, refl), ((million_text, refl), (tt, tt))),
  refl,
  ((refl, tt), (refl, (refl, (refl, tt))), refl, ((refl, tt), (two_text, refl), refl, tt)),
)

parse_json-print_example :
    parse_json read_sample (print show_sample sample (codes "]")) ≡ some (some sample)
parse_json-print_example =
    parse_json-print read_sample show_sample sample (codes "]") sample-IsPlain refl

parse_json-Ends_example :
    (o : Option (JsonValue Bool)) × (parse_json read_bit (codes "{\"a\":[1,") ≡ some o)
parse_json-Ends_example = parse_json-Ends read_bit (codes "{\"a\":[1,")

abbrev stored : JsonObject Bool
stored = field (codes "name") (json_string (codes "a")) no_fields

-- A key whose opening quote is another byte, and text behind the value.
loose_run :
    (parse read_bit 20 (codes "{xn\":1}")
      ≡ some (some (json_object (field (codes "n") (json_number true) no_fields))))
    × (parse read_bit 20 (codes "null x") ≡ some (some json_null))
    × (parse read_bit 20 (codes "[1 1]") ≡ some none)
unfolding parse parse_value dispatch parse_number array_loop object_loop store push_back skip_number
    skip_digits string_loop skip_whitespace
loose_run = (refl, refl, refl)
