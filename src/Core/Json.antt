-- ===== src/Core/Json.antt =====
-- `serde_json::Value`, as far as the crates look into it.
use bot_marshal.Prelude.{ℕ, Text, Option, none, some, Bool, List, [], ◌∷◌, text_eq, if◌then◌else◌}

-- serde_json's number: an unsigned one, a negative one (-(n + 1)), or the bits of an f64.
pub data Number : Type 0 where
  pos_int neg_int float : ℕ → Number

mutual
  pub data Json : Type 0 where
    null : Json
    bool : Bool → Json
    number : Number → Json
    string : Text → Json
    array : Items → Json
    object : Fields → Json

  pub data Items : Type 0 where
    nil : Items
    item : Json → Items → Items

  pub data Fields : Type 0 where
    end : Fields
    field : Text → Json → Fields → Fields

unfoldable pub get_field : Text → Fields → Option Json
get_field key end = none
get_field key (field k v fs) = if text_eq k key then some v else get_field key fs

-- `value.get(key)`: only an object has a value under a string.
unfoldable pub get : Text → Json → Option Json
unfolding get_field
get key (object fs) = get_field key fs
get key null = none
get key (bool b) = none
get key (number n) = none
get key (string s) = none
get key (array xs) = none

unfoldable pub as_str : Json → Option Text
as_str (string s) = some s
as_str null = none
as_str (bool b) = none
as_str (number n) = none
as_str (array xs) = none
as_str (object fs) = none

-- `as_array`.
unfoldable pub as_items : Json → Option Items
as_items (array vs) = some vs
as_items null = none
as_items (bool b) = none
as_items (number n) = none
as_items (string s) = none
as_items (object fs) = none

unfoldable pub items : Items → List Json
items nil = []
items (item v vs) = v ∷ items vs

unfoldable pub of_items : List Json → Items
of_items [] = nil
of_items (v ∷ vs) = item v (of_items vs)
