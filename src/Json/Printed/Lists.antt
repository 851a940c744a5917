-- ===== src/Json/Printed/Lists.antt =====
-- Arrays and objects of JSON grow at their ends (bootstrap/cpp/src/module/json.cpp).
use ycpl.Base.{
  ◌≡◌, refl, ap, inl, inr, Bool, true, false, Option, none, some, if◌then◌else◌, Bool-cases,
}
use ycpl.Text.{Bytes, str_eq}
use ycpl.Text.Bytes.{eq_of_str_eq, str_eq_refl}
use ycpl.Json.{
  JsonValue, JsonArray, JsonObject, no_items, item, no_fields, field, push_back, store, find_field,
}

str_eq_sym : (a b : Bytes) → str_eq a b ≡ false → str_eq b a ≡ false
str_eq_sym a b h = elim (Bool-cases (str_eq b a)) [
  | inl e ↦ let f = eq_of_str_eq b a e in absurd (cc (f, h, str_eq_refl a))
  | inr e ↦ e
]

if_none :
    {A : Type 0} (b : Bool) (x : A) (o : Option A)
    → (if b then some x else o) ≡ none
    → (b ≡ false) × (o ≡ none)
if_none true x o h = absurd (cc h)
if_none false x o h = (refl, h)

module _ {Double : Type 0} where
  unfoldable pub append_items : JsonArray Double → JsonArray Double → JsonArray Double
  append_items no_items more = more
  append_items (item v items) more = item v (append_items items more)

  unfoldable pub append_fields : JsonObject Double → JsonObject Double → JsonObject Double
  append_fields no_fields more = more
  append_fields (field k v fields) more = field k v (append_fields fields more)

  pub append-push_back :
      (items more : JsonArray Double) (v : JsonValue Double)
      → append_items (push_back items v) more ≡ append_items items (item v more)
  unfolding append_items push_back
  append-push_back no_items more v = refl
  append-push_back (item w items) more v = ap (item w) (append-push_back items more v)

  -- No key of the second object stands in the first.
  abbrev pub Apart : JsonObject Double → JsonObject Double → Type 0
  Apart first no_fields = Unit
  Apart first (field k v more) = (find_field first k ≡ none) × Apart first more

  pub append-store :
      (fields more : JsonObject Double) (k : Bytes) (v : JsonValue Double)
      → find_field fields k ≡ none
      → append_fields (store fields k v) more ≡ append_fields fields (field k v more)
  unfolding append_fields store find_field
  append-store no_fields more k v h = refl
  append-store (field l w fields) more k v h =
      let (e, miss) = if_none (str_eq l k) w (find_field fields k) h in
      rw e (ap (field l w) (append-store fields more k v miss))

  store_found :
      (first : JsonObject Double) (k j : Bytes) (v : JsonValue Double)
      → find_field first j ≡ none
      → str_eq k j ≡ false
      → find_field (store first k v) j ≡ none
  unfolding store find_field
  store_found no_fields k j v h e = rw e refl
  store_found (field l w first) k j v h e =
      let (n, miss) = if_none (str_eq l j) w (find_field first j) h in
      elim (Bool-cases (str_eq l k)) [
        | inl m ↦ rw (m, n) miss
        | inr m ↦ rw (m, n) (store_found first k j v miss e)
      ]

  -- The keys that follow stay apart when a key is stored that is none of them.
  pub store-Apart :
      (first more : JsonObject Double) (k : Bytes) (v : JsonValue Double)
      → Apart first more
      → find_field more k ≡ none
      → Apart (store first k v) more
  unfolding find_field
  store-Apart first no_fields k v h e = tt
  store-Apart first (field j w more) k v h e =
      let (n, miss) = if_none (str_eq j k) w (find_field more k) e in
      (store_found first k j v (h.0) (str_eq_sym j k n), store-Apart first more k v (h.1) miss)
