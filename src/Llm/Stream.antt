-- ===== src/Llm/Stream.antt =====
-- crates/marshal-llm/src/sse.rs: how an event stream is cut into lines, and how its documents are looked
-- into. serde_json is a parameter.
use bot_marshal.Prelude.{
  ℕ, Text, Option, none, some, Bool, true, false, ◌&&◌, List, [], ◌∷◌, map, lit, strip_prefix,
  text_eq, ◌==◌, if◌then◌else◌,
}
use bot_marshal.Core.Json.{
  Json, null, bool, number, string, array, object, Items, nil, item, get, get_field, as_str,
  as_items, Number, pos_int, neg_int, float,
}
use bot_marshal.Policy.ToolFilter.{split_inclusive}
use bot_marshal.Secrets.Oauth.Token.{value_as_i64}

-- `serde_json::from_str` and the printing of a value.
pub record LlmLib : Type 0 where
  pub from_str : Text → Option Json
  pub print : Json → Text

-- `split("\n\n")`.
abbrev onto_first : ℕ → List Text → List Text
onto_first c [] = (c ∷ []) ∷ []
onto_first c (s ∷ more) = (c ∷ s) ∷ more

unfoldable pub split_blank : Text → List Text
split_blank [] = [] ∷ []
split_blank (c ∷ []) = (c ∷ []) ∷ []
split_blank (c ∷ d ∷ s) = elim (c == 10 && d == 10) [
  | true ↦ [] ∷ split_blank s
  | false ↦ onto_first c (split_blank (d ∷ s))
]

-- `lines()`: without the line feed, and a carriage return in front of it.
unfoldable pub strip_end : Text → Text
strip_end [] = []
strip_end (c ∷ []) = if c == 10 then [] else c ∷ []
strip_end (c ∷ d ∷ []) = if d == 10 then (if c == 13 then [] else c ∷ []) else c ∷ d ∷ []
strip_end (c ∷ d ∷ e ∷ s) = c ∷ strip_end (d ∷ e ∷ s)

unfoldable pub lines : Text → List Text
unfolding split_inclusive strip_end
lines s = map strip_end (split_inclusive s)

-- `find_map(strip_prefix("data: "))`.
unfoldable pub data_line : List Text → Option Text
data_line [] = none
data_line (line ∷ more) =
    let later = data_line more in
    elim (strip_prefix (lit "data: ") line) [ none ↦ later | some rest ↦ some rest ]

-- A step of `Value::pointer`; the only number in the pointers is 0.
abbrev first_item : Items → Option Json
first_item nil = none
first_item (item v vs) = some v

unfoldable pub child : Text → Json → Option Json
unfolding get_field text_eq
child key (object fs) = get_field key fs
child key (array vs) = if text_eq key (lit "0") then first_item vs else none
child key null = none
child key (bool b) = none
child key (number n) = none
child key (string s) = none

unfoldable pub pointer : List Text → Json → Option Json
unfolding child
pointer [] v = some v
pointer (key ∷ path) v = elim (child key v) [ none ↦ none | some u ↦ pointer path u ]

abbrev pub str_of : Option Json → Option Text
str_of none = none
str_of (some v) = as_str v

abbrev pub items_of : Option Json → Option Items
items_of none = none
items_of (some v) = as_items v

abbrev pub value_or : Json → Option Json → Json
value_or v none = v
value_or v (some u) = u

-- `get("index").and_then(as_i64).unwrap_or(0)`.
abbrev i64_of : Option Json → Option Number
i64_of none = none
i64_of (some v) = value_as_i64 v

abbrev number_or_zero : Option Number → Number
number_or_zero none = pos_int 0
number_or_zero (some n) = n

unfoldable pub index_of : Json → Number
unfolding value_as_i64
index_of v = number_or_zero (i64_of (get (lit "index") v))

unfoldable pub number_eq : Number → Number → Bool
number_eq (pos_int m) (pos_int n) = m == n
number_eq (neg_int m) (neg_int n) = m == n
number_eq (float m) (float n) = m == n
number_eq (pos_int m) (neg_int n) = false
number_eq (pos_int m) (float n) = false
number_eq (neg_int m) (pos_int n) = false
number_eq (neg_int m) (float n) = false
number_eq (float m) (pos_int n) = false
number_eq (float m) (neg_int n) = false
