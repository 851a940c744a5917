-- ===== src/Json/Printed.antt =====
-- Text that the reader of JSON gives back (bootstrap/cpp/src/module/json.cpp).
pub mod Strings
pub mod Numbers
pub mod Lists
pub mod Firsts
pub mod Whole
use ycpl.Base.{
  ℕ, ◌≡◌, ◌≢◌, Bool, true, false, not, ◌||◌, ◌&&◌, none, some, Option, List, [], ◌∷◌, ◌++◌, ◌==◌,
  leb, if◌then◌else◌, length,
}
use ycpl.Text.{Bytes, codes}
use ycpl.Json.{
  JsonValue, JsonArray, JsonObject, json_null, json_bool, json_number, json_string, json_array,
  json_object, no_items, item, no_fields, field, find_field, is_digit, peek,
}

-- The text of a string behind its opening quote, before `rest`.
unfoldable pub escape : Bytes → Bytes → Bytes
escape [] rest = b'"' ∷ rest
escape (c ∷ s) rest =
    if c == b'"' || c == b'\\' then b'\\' ∷ c ∷ escape s rest else c ∷ escape s rest

abbrev pub NoNul : Bytes → Type 0
NoNul [] = Unit
NoNul (c ∷ s) = ((c == 0) ≡ false) × NoNul s

module _ {Double : Type 0} (show : Double → Bytes) where
  unfoldable mutual
    -- The text of a value before `rest`.
    pub print : JsonValue Double → Bytes → Bytes
    print json_null rest = codes "null" ++ rest
    print (json_bool true) rest = codes "true" ++ rest
    print (json_bool false) rest = codes "false" ++ rest
    print (json_number n) rest = show n ++ rest
    print (json_string s) rest = b'"' ∷ escape s rest
    print (json_array no_items) rest = b'[' ∷ b']' ∷ rest
    print (json_array (item v items)) rest = b'[' ∷ print v (print_items items rest)
    print (json_object no_fields) rest = b'{' ∷ b'}' ∷ rest
    print (json_object (field k v fields)) rest =
        b'{' ∷ b'"' ∷ escape k (b':' ∷ print v (print_fields fields rest))

    pub print_items : JsonArray Double → Bytes → Bytes
    print_items no_items rest = b']' ∷ rest
    print_items (item v items) rest = b',' ∷ print v (print_items items rest)

    pub print_fields : JsonObject Double → Bytes → Bytes
    print_fields no_fields rest = b'}' ∷ rest
    print_fields (field k v fields) rest =
        b',' ∷ b'"' ∷ escape k (b':' ∷ print v (print_fields fields rest))

-- Decimal digits.
abbrev pub digit : ℕ → Bool
digit c = leb b'0' c && leb c b'9'

abbrev pub Digits : Bytes → Type 0
Digits [] = Unit
Digits (c ∷ cs) = (digit c ≡ true) × Digits cs

-- Nothing, or a point and digits.
pub data Fraction : Bytes → Type 0 where
  whole : Fraction []
  decimals : (ds : Bytes) → Digits ds → Fraction (b'.' ∷ ds)

-- Nothing, or an e, perhaps a sign, and digits.
pub data Exponent : Bytes → Type 0 where
  no_power : Exponent []
  power : (m : ℕ) (ds : Bytes) → (m == b'e' || m == b'E') ≡ true → Digits ds → Exponent (m ∷ ds)
  signed_power :
      (m s : ℕ) (ds : Bytes)
      → (m == b'e' || m == b'E') ≡ true
      → (s == b'+' || s == b'-') ≡ true
      → Digits ds
      → Exponent (m ∷ s ∷ ds)

-- Perhaps a minus, digits, a fraction and an exponent.
pub data Numeral : Bytes → Type 0 where
  unsigned :
      (d : ℕ) (ds f e : Bytes)
      → digit d ≡ true
      → Digits ds
      → Fraction f
      → Exponent e
      → Numeral ((d ∷ ds) ++ (f ++ e))
  minus :
      (d : ℕ) (ds f e : Bytes)
      → digit d ≡ true
      → Digits ds
      → Fraction f
      → Exponent e
      → Numeral (b'-' ∷ ((d ∷ ds) ++ (f ++ e)))

module _ {Double : Type 0} (stod : Bytes → Option Double) (show : Double → Bytes) where
  -- No NUL in a string, no key twice in an object, and each number has a numeral for its text, from
  -- which `stod` gives the number.
  unfoldable mutual
    pub IsPlain : JsonValue Double → Type 0
    IsPlain (json_number n) = Numeral (show n) × (stod (show n) ≡ some n)
    IsPlain (json_string s) = NoNul s
    IsPlain (json_array items) = ArePlain items
    IsPlain (json_object fields) = HasPlain fields
    IsPlain v = Unit

    pub ArePlain : JsonArray Double → Type 0
    ArePlain no_items = Unit
    ArePlain (item v items) = IsPlain v × ArePlain items

    pub HasPlain : JsonObject Double → Type 0
    HasPlain no_fields = Unit
    HasPlain (field k v fields) =
        NoNul k × IsPlain v × (find_field fields k ≡ none) × HasPlain fields

-- Where a number ends: at the end of the text, or at a comma or a bracket.
abbrev pub delimits : ℕ → Bool
delimits c = c == 0 || c == b',' || c == b']' || c == b'}'
