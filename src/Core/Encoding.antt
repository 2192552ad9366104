-- ===== src/Core/Encoding.antt =====
-- crates/marshal-core/src/encoding.rs. A byte is a number; shifts and masks are divisions.
pub mod Base64
use bot_marshal.Prelude.{
  ℕ, ◌+◌, ◌*◌, ◌/◌, ◌%◌, ◌-◌, ◌^◌, Text, Option, none, some, Bool, true, false, ◌||◌, List, [], ◌∷◌,
  ◌++◌, Result, ok, err, ◌>>=◌, is_empty, lit, within, ltb, leb, ◌==◌, if◌then◌else◌,
}

-- The alphabets, by the value of a digit; they differ in the last two.
alphabet : (plus slash value : ℕ) → ℕ
alphabet plus slash value =
    if ltb value 26
    then b'A' + value
    else if ltb value 52
    then b'a' + (value - 26)
    else if ltb value 62
    then b'0' + (value - 52)
    else if value == 62
    then plus
    else slash

abbrev padding : Bool → Text
padding true = b'=' ∷ []
padding false = []

-- One turn of the loop for each three bytes, and for what is left of them.
encode_with : (ℕ → ℕ) → Bool → List ℕ → Text
unfolding alphabet
encode_with digit pad [] = []
encode_with digit pad (x ∷ []) = digit (x / 4) ∷ digit (x % 4 * 16) ∷ (padding pad ++ padding pad)
encode_with digit pad (x ∷ y ∷ []) =
    digit (x / 4) ∷ digit (x % 4 * 16 + y / 16) ∷ digit (y % 16 * 4) ∷ padding pad
encode_with digit pad (x ∷ y ∷ z ∷ more) =
    digit (x / 4)
    ∷ digit (x % 4 * 16 + y / 16)
    ∷ digit (y % 16 * 4 + z / 64)
    ∷ digit (z % 64)
    ∷ encode_with digit pad more

unfoldable pub base64_encode : List ℕ → Text
unfolding encode_with alphabet
base64_encode input = encode_with (alphabet b'+' b'/') true input

unfoldable pub base64url_encode : List ℕ → Text
unfolding encode_with alphabet
base64url_encode input = encode_with (alphabet b'-' b'_') false input

-- The bytes of the RFC 3986 unreserved set.
unfoldable pub unreserved : ℕ → Bool
unreserved c =
    within b'A' b'Z' c
    || (within b'a' b'z' c
        || (within b'0' b'9' c || ((c == b'-') || ((c == b'_') || ((c == b'.') || (c == b'~'))))))

-- A digit of `{:02X}`.
unfoldable pub hex_digit : ℕ → ℕ
hex_digit n = if ltb n 10 then b'0' + n else b'A' + (n - 10)

unfoldable pub percent_encode : List ℕ → Text
unfolding unreserved hex_digit
percent_encode [] = []
percent_encode (c ∷ cs) =
    let rest = percent_encode cs in
    if unreserved c then c ∷ rest else b'%' ∷ hex_digit (c / 16) ∷ hex_digit (c % 16) ∷ rest

-- The loop over the pairs; `out` is what was written so far.
unfoldable pub form_from : Text → List (Text × Text) → Text
unfolding percent_encode
form_from out [] = out
form_from out ((name, value) ∷ pairs) =
    let before = if is_empty out then out else out ++ b'&' ∷ [] in
    form_from (before ++ (percent_encode name ++ b'=' ∷ percent_encode value)) pairs

unfoldable pub form_urlencode : List (Text × Text) → Text
unfolding form_from
form_urlencode pairs = form_from [] pairs

-- What a character of base64url stands for; a padding sign is passed over.
pub data Digit : Type 0 where
  value : ℕ → Digit
  skipped invalid : Digit

decode_digit : ℕ → Digit
decode_digit c =
    if within b'A' b'Z' c
    then value (c - b'A')
    else if within b'a' b'z' c
    then value (c - b'a' + 26)
    else if within b'0' b'9' c
    then value (c - b'0' + 52)
    else if c == b'-'
    then value 62
    else if c == b'_'
    then value 63
    else if c == b'='
    then skipped
    else invalid

-- The loop; `acc` is a u32. An error is told by the character that is not a digit.
decode_from : (acc bits : ℕ) → Text → Result ℕ (List ℕ)
unfolding decode_digit
decode_from acc bits [] = ok []
decode_from acc bits (c ∷ s) = elim (decode_digit c) [
  | invalid ↦ err c
  | skipped ↦ decode_from acc bits s
  | value v ↦
      let acc' = acc * 64 % 2 ^ 32 + v in
      elim (leb 8 (bits + 6)) [
        | true ↦
            decode_from acc' (bits + 6 - 8) s >>= λ out. ok (acc' / 2 ^ (bits + 6 - 8) % 256 ∷ out)
        | false ↦ decode_from acc' (bits + 6) s
      ]
]

unfoldable pub base64url_decode : Text → Result ℕ (List ℕ)
unfolding decode_from decode_digit
base64url_decode input = decode_from 0 0 input
