-- ===== src/Tests/Encodings.antt =====
-- The encodings and the header filter, at concrete inputs.
use bot_marshal.Prelude.{ℕ, List, [], ◌∷◌, ok, arith, ℕ, Text, List, [], ◌∷◌, ◌≡◌, refl, arith, lit}
use bot_marshal.Core.Encoding.Base64.{base64url_decode-encode}
use bot_marshal.Core.Encoding.{base64url_encode, base64url_decode, form_urlencode}
use bot_marshal.Secrets.Form.{parse_pairs}
use bot_marshal.Secrets.Form.Pairs.{parse_pairs-form_urlencode}

-- A reader of ASCII, which every byte below is.
abbrev ascii : List ℕ → Text
ascii t = t

abbrev form_pairs : List (Text × Text)
form_pairs = (b'a' ∷ [], b'&' ∷ b' ' ∷ []) ∷ ([], b'=' ∷ []) ∷ []

parse_pairs-form_urlencode_example : parse_pairs ascii (form_urlencode form_pairs) ≡ form_pairs
parse_pairs-form_urlencode_example = parse_pairs-form_urlencode ascii form_pairs (
  (((omega arith, tt), refl), ((omega arith, (omega arith, tt)), refl)),
  (((tt, refl), ((omega arith, tt), refl)), tt),
)

abbrev sent : List (Text × List ℕ)
sent = (lit "host", 97 ∷ []) ∷ (lit "x-id", 98 ∷ []) ∷ (lit "x-id", 99 ∷ []) ∷ []

abbrev four_bytes : List ℕ
four_bytes = 0 ∷ 255 ∷ 62 ∷ 7 ∷ []

base64url_decode-encode_example : base64url_decode (base64url_encode four_bytes) ≡ ok four_bytes
base64url_decode-encode_example =
    base64url_decode-encode four_bytes
      (omega arith, (omega arith, (omega arith, (omega arith, tt))))
