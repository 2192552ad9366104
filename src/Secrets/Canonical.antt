-- ===== src/Secrets/Canonical.antt =====
-- crates/marshal-secrets/src/swap.rs: the canonical form of a path and a query, for the AWS signature.
pub mod Decodes
use bot_marshal.Prelude.{
  ℕ, ◌+◌, ◌-◌, ◌*◌, ◌/◌, ◌%◌, Text, Option, none, some, Bool, true, false, not, ◌&&◌, ◌||◌, List,
  [], ◌∷◌, ◌++◌, Result, ok, err, ◌>>=◌, ok_or, keep, map, take, is_empty, lit, decimal, format,
  join, trim, within, text_eq, text_lt, ltb, ◌==◌, if◌then◌else◌,
}
use bot_marshal.Core.Encoding.{percent_encode}
use bot_marshal.Secrets.Form.{split, split_once}

-- A digit of `{:02x}`.
lower_hex : ℕ → ℕ
lower_hex n = if ltb n 10 then b'0' + n else b'a' + (n - 10)

unfoldable pub hex_encode : List ℕ → Text
unfolding lower_hex
hex_encode [] = []
hex_encode (b ∷ bs) = lower_hex (b / 16) ∷ lower_hex (b % 16) ∷ hex_encode bs

unfoldable pub hex_val : ℕ → Option ℕ
hex_val b =
    if within b'0' b'9' b
    then some (b - b'0')
    else if within b'a' b'f' b
    then some (b - b'a' + 10)
    else if within b'A' b'F' b
    then some (b - b'A' + 10)
    else none

-- Two hex digits as a byte: `(h << 4) | l`.
unfoldable pub hex_pair : Option ℕ → Option ℕ → Option ℕ
hex_pair (some h) (some l) = some (16 * h + l)
hex_pair none l = none
hex_pair (some h) none = none

-- A percent sign with two more bytes behind it.
unfoldable pub escaped : ℕ → ℕ → ℕ → Option ℕ
unfolding hex_val hex_pair
escaped c h l = if c == b'%' then hex_pair (hex_val h) (hex_val l) else none

abbrev pub decoded : Option ℕ → ℕ → (plain rest : List ℕ) → List ℕ
decoded (some b) c plain rest = b ∷ rest
decoded none c plain rest = c ∷ plain

unfoldable pub percent_decode : Text → List ℕ
unfolding escaped
percent_decode [] = []
percent_decode (c ∷ []) = c ∷ []
percent_decode (c ∷ h ∷ []) = c ∷ h ∷ []
percent_decode (c ∷ h ∷ l ∷ s) =
    let plain = percent_decode (h ∷ l ∷ s) in
    let rest = percent_decode s in decoded (escaped c h l) c plain rest

unfoldable pub canonical_path : Text → Text
unfolding percent_encode join split
canonical_path path =
    if is_empty path then lit "/" else join (lit "/") (map percent_encode (split b'/' path))

-- `split_once('=').unwrap_or((pair, ""))`.
name_value : Text → Option (Text × Text) → Text × Text
name_value pair none = (pair, [])
name_value pair (some (k, v)) = (k, v)

unfoldable pub canonical_pair : Text → Text × Text
unfolding name_value split_once percent_encode percent_decode
canonical_pair pair =
    let (k, v) = name_value pair (split_once b'=' pair) in
    (percent_encode (percent_decode k), percent_encode (percent_decode v))

-- `sort` of the pairs.
insert_pair : Text × Text → List (Text × Text) → List (Text × Text)
insert_pair p [] = p ∷ []
insert_pair (k, v) ((j, w) ∷ ps) =
    let later = insert_pair (k, v) ps in
    if text_lt j k || (text_eq j k && text_lt w v) then (j, w) ∷ later else (k, v) ∷ (j, w) ∷ ps

sort_pairs : List (Text × Text) → List (Text × Text)
unfolding insert_pair
sort_pairs [] = []
sort_pairs (p ∷ ps) = insert_pair p (sort_pairs ps)

abbrev equation : Text × Text → Text
equation (k, v) = k ++ (lit "=" ++ v)

unfoldable pub canonical_query_string : Text → Text
unfolding sort_pairs canonical_pair join split
canonical_query_string query =
    if is_empty query
    then []
    else join (lit "&") (
        map equation
          (sort_pairs (map canonical_pair (keep (λ p. not (is_empty p)) (split b'&' query)))))
