-- ===== src/Json/Stored.antt =====
-- What is stored under a key of a JSON object is found there (bootstrap/cpp/src/module/json.h).
use mathlib.Core.Path.{subst}
use ycpl.Base.{◌≡◌, refl, sym, ◌∙◌, inl, inr, Bool, true, false, some, if◌then◌else◌, Bool-cases}
use ycpl.Text.{Bytes, str_eq}
use ycpl.Text.Bytes.{eq_of_str_eq, str_eq_refl}
use ycpl.Json.{
  JsonValue, JsonObject, json_string, json_number, json_object, no_fields, field, store, find_field,
  value, value_number,
}

-- The same question asked twice, and two questions of which at most one is answered.
if_again :
    {A : Type 0} (b : Bool) (x y z : A)
    → (if b then x else z) ≡ (if b then x else (if b then y else z))
if_again true x y z = refl
if_again false x y z = refl

if_swap :
    {A : Type 0} (b c : Bool) (x y z : A)
    → (b ≡ true → c ≡ true → ⊥)
    → (if b then x else (if c then y else z)) ≡ (if c then y else (if b then x else z))
if_swap true true x y z h = absurd (h refl refl)
if_swap true false x y z h = refl
if_swap false c x y z h = refl

not_both : (a b j : Bytes) → str_eq a b ≡ false → str_eq a j ≡ true → str_eq b j ≡ true → ⊥
not_both a b j e h k =
    let same : a ≡ b = eq_of_str_eq a j h ∙ sym (eq_of_str_eq b j k) in
    let equal : str_eq a b ≡ true = subst (λ c. str_eq a c ≡ true) same (str_eq_refl a) in
    cc (e, equal)

module _ {Double : Type 0} where
  find_field-store :
      (obj : JsonObject Double) (key j : Bytes) (v : JsonValue Double)
      → find_field (store obj key v) j ≡ (if str_eq key j then some v else find_field obj j)
  unfolding store find_field
  find_field-store no_fields key j v = refl
  find_field-store (field k w obj) key j v = elim (Bool-cases (str_eq k key)) [
    | inl e ↦ rw e (
        subst
          (λ l.
            (if str_eq k j then some v else find_field obj j)
            ≡ (if str_eq l j then some v else (if str_eq k j then some w else find_field obj j)))
          (eq_of_str_eq k key e) (if_again (str_eq k j) (some v) (some w) (find_field obj j)))
    | inr e ↦
        rw (e, find_field-store obj key j v)
          (if_swap (str_eq k j) (str_eq key j) (some w) (some v) (find_field obj j)
            (not_both k key j e))
  ]

  -- Storing under a key changes what is read under this key alone: a string is read as it was stored,
  -- a number is no string and gives the default, and every other key gives what it gave before.
  pub value-store :
      (obj : JsonObject Double) (key j default s : Bytes) (n d : Double)
      → (value (json_object (store obj key (json_string s))) j default
          ≡ (if str_eq key j then s else value (json_object obj) j default))
        × (value (json_object (store obj key (json_number n))) j default
            ≡ (if str_eq key j then default else value (json_object obj) j default))
        × (value_number (json_object (store obj key (json_number n))) j d
            ≡ (if str_eq key j then n else value_number (json_object obj) j d))
  value-store obj key j default s n d =
      rw (find_field-store obj key j (json_string s), find_field-store obj key j (json_number n))
        (elim (Bool-cases (str_eq key j)) [
          | inl e ↦ rw e (refl, refl, refl)
          | inr e ↦ rw e (refl, refl, refl)
        ])
