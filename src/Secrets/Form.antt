-- ===== src/Secrets/Form.antt =====
-- crates/marshal-secrets/src/oauth/form.rs. `String::from_utf8_lossy` is a parameter, `lossy`: it
-- leaves the bytes of a string as they are and repairs any others.
pub mod Decoding
pub mod Pairs
use bot_marshal.Prelude.{
  ℕ, ◌+◌, ◌*◌, ◌-◌, Text, Option, none, some, Bool, true, false, not, List, [], ◌∷◌, map, is_empty,
  keep, find, text_eq, within, ◌==◌, if◌then◌else◌,
}
use mathlib.Core.Option

-- A digit of base 16 in either case.
unfoldable pub hex_value : ℕ → Option ℕ
hex_value c =
    if within b'0' b'9' c
    then some (c - b'0')
    else if within b'A' b'F' c
    then some (c - b'A' + 10)
    else if within b'a' b'f' c
    then some (c - b'a' + 10)
    else none

-- `u8::from_str_radix(two, 16)`, which accepts a plus sign in front of a digit.
unfoldable pub from_str_radix : ℕ → ℕ → Option ℕ
unfolding hex_value
from_str_radix d e = if d == b'+' then hex_value e else elim (hex_value d) [
  | none ↦ none
  | some high ↦ Option.map (λ low. high * 16 + low) (hex_value e)
]

-- What stands for the three bytes, if the first begins an escape.
unfoldable pub escape : ℕ → ℕ → ℕ → Option ℕ
unfolding from_str_radix
escape c d e = if c == b'%' then from_str_radix d e else none

abbrev plain_byte : ℕ → ℕ
plain_byte c = if c == b'+' then b' ' else c

-- The loop of `percent_decode`; an escape needs two bytes behind the percent sign.
unfoldable pub decode_bytes : List ℕ → List ℕ
unfolding escape
decode_bytes [] = []
decode_bytes (c ∷ []) = plain_byte c ∷ []
decode_bytes (c ∷ d ∷ []) = plain_byte c ∷ decode_bytes (d ∷ [])
decode_bytes (c ∷ d ∷ e ∷ s) = elim (escape c d e) [
  | some b ↦ b ∷ decode_bytes s
  | none ↦ plain_byte c ∷ decode_bytes (d ∷ e ∷ s)
]

abbrev cons_head : ℕ → List Text → List Text
cons_head c [] = (c ∷ []) ∷ []
cons_head c (p ∷ ps) = (c ∷ p) ∷ ps

-- `str::split` and `str::split_once` at a byte.
unfoldable pub split : ℕ → Text → List Text
split sep [] = [] ∷ []
split sep (c ∷ s) = let rest = split sep s in if c == sep then [] ∷ rest else cons_head c rest

unfoldable pub split_once : ℕ → Text → Option (Text × Text)
split_once sep [] = none
split_once sep (c ∷ s) =
    let rest = split_once sep s in
    if c == sep then some ([], s) else Option.map (λ kv. (c ∷ kv.0, kv.1)) rest

-- `find` among the pairs.
unfoldable pub find_pair : Text → List (Text × Text) → Option Text
find_pair name pairs = Option.map (λ kv. kv.1) (find (λ kv. text_eq kv.0 name) pairs)

module _ (lossy : List ℕ → Text) where
  unfoldable pub percent_decode : Text → Text
  unfolding decode_bytes
  percent_decode input = lossy (decode_bytes input)

  unfoldable pub decode_pair : Text → Text × Text
  unfolding percent_decode split_once
  decode_pair pair = elim (split_once b'=' pair) [
    | some kv ↦ (percent_decode kv.0, percent_decode kv.1)
    | none ↦ (percent_decode pair, [])
  ]

  unfoldable pub parse_pairs : Text → List (Text × Text)
  unfolding decode_pair split
  parse_pairs input = map decode_pair (keep (λ p. not (is_empty p)) (split b'&' input))
