-- ===== src/Secrets/Oauth/Token.antt =====
-- crates/marshal-secrets/src/oauth/token.rs: what a token endpoint says, and what is kept of it. A
-- duration is a number of nanoseconds and an instant one on the monotonic clock.
use bot_marshal.Prelude.{
  ℕ, ◌*◌, ◌^◌, Text, Option, none, some, Bool, true, false, List, [], ◌∷◌, ◌++◌, Result, ok, err,
  ◌>>=◌, map_err, lit, format, ltb, if◌then◌else◌,
}
use bot_marshal.Core.Error.{Error, config}
use bot_marshal.Core.Json.{
  Json, null, bool, number, string, array, object, Number, pos_int, neg_int, float, get, as_str,
}
use bot_marshal.Core.Encoding.{base64url_decode}
use bot_marshal.Secrets.Form.{split}

-- What the parts below take of serde_json and of the crate http.
pub record WireLib : Type 0 where
  pub from_slice : List ℕ → Result Text Json
  pub to_vec : Json → List ℕ
  pub to_vec_pretty : Json → List ℕ
  -- `StatusCode`, printed, and `is_success`.
  pub status_string : ℕ → Text
  pub is_success : ℕ → Bool
  -- `{c:?}` of a character.
  pub debug_char : ℕ → Text
  -- `{d:?}` of a duration.
  pub debug_duration : ℕ → Text

-- `as_u64` and `as_i64`.
unfoldable pub value_as_u64 : Json → Option ℕ
value_as_u64 (number (pos_int n)) = some n
value_as_u64 (number (neg_int n)) = none
value_as_u64 (number (float n)) = none
value_as_u64 null = none
value_as_u64 (bool b) = none
value_as_u64 (string s) = none
value_as_u64 (array vs) = none
value_as_u64 (object fs) = none

unfoldable pub value_as_i64 : Json → Option Number
value_as_i64 (number (pos_int n)) = if ltb n (2 ^ 63) then some (pos_int n) else none
value_as_i64 (number (neg_int n)) = some (neg_int n)
value_as_i64 (number (float n)) = none
value_as_i64 null = none
value_as_i64 (bool b) = none
value_as_i64 (string s) = none
value_as_i64 (array vs) = none
value_as_i64 (object fs) = none

abbrev and_then : {A B : Type 0} → Option A → (A → Option B) → Option B
and_then none f = none
and_then (some a) f = f a

abbrev not_empty : Text → Option Text
not_empty [] = none
not_empty (c ∷ s) = some (c ∷ s)

-- `body.get(name).and_then(as_str)`, and the same without an empty text.
unfoldable pub str_field : Text → Json → Option Text
str_field name body = and_then (get name body) as_str

unfoldable pub secret_field : Text → Json → Option Text
unfolding str_field
secret_field name body = and_then (str_field name body) not_empty

unfoldable pub u64_field : Text → Json → Option ℕ
u64_field name body = and_then (get name body) value_as_u64

abbrev pub nanos_per_sec : ℕ
nanos_per_sec = 1000000000

-- `Duration::from_secs`.
abbrev pub from_secs : ℕ → ℕ
from_secs n = n * nanos_per_sec

pub record TokenResponse : Type 0 where
  pub access_token : Text
  pub expires_in : Option ℕ
  pub refresh_token : Option Text
  pub scope : Option Text
  pub id_token : Option Text

abbrev duration_of : Option ℕ → Option ℕ
duration_of none = none
duration_of (some n) = some (from_secs n)

unfoldable pub parse_response : Json → Result Error TokenResponse
unfolding secret_field str_field u64_field
parse_response body = elim (secret_field (lit "access_token") body) [
  | none ↦ err (config (lit "the token endpoint returned 200 with no `access_token` field"))
  | some token ↦ ok (record {
    access_token = token;
    expires_in = duration_of (u64_field (lit "expires_in") body);
    refresh_token = secret_field (lit "refresh_token") body;
    scope = str_field (lit "scope") body;
    id_token = secret_field (lit "id_token") body;
  })
]

-- The second of three parts.
unfoldable pub payload_of : List Text → Option Text
payload_of (a ∷ b ∷ c ∷ []) = some b
payload_of (a ∷ b ∷ c ∷ d ∷ more) = none
payload_of (a ∷ b ∷ []) = none
payload_of (a ∷ []) = none
payload_of [] = none

unfoldable pub decode_id_token_claims : WireLib → Text → Result Error Json
unfolding payload_of
decode_id_token_claims lib jwt = elim (payload_of (split b'.' jwt)) [
  | none ↦ err (config (lit "id_token is not a JWT: expected three dot-separated parts"))
  | some payload ↦
      map_err
        (λ c. config (
          lit "id_token payload is not valid base64url: invalid base64url character "
          ++ lib.debug_char c))
        (base64url_decode payload)
      >>= λ bytes.
          map_err (λ e. config (lit "id_token payload is not valid JSON: " ++ e))
            (lib.from_slice bytes)
]

abbrev is_object : Json → Bool
is_object (object fs) = true
is_object null = false
is_object (bool b) = false
is_object (number n) = false
is_object (string s) = false
is_object (array vs) = false

unfoldable pub describe_code : Text → Option Text → Option Text → Text
describe_code status none none = status
describe_code status none (some message) = format (status ∷ lit ": " ∷ message ∷ [])
describe_code status (some code) none = format (status ∷ lit ": " ∷ code ∷ [])
describe_code status (some code) (some message) =
    format (status ∷ lit ": " ∷ code ∷ lit ": " ∷ message ∷ [])

-- What is under `error`: a text, an object, or anything else.
unfoldable pub describe_value : Text → Json → Json → Text
unfolding describe_code str_field
describe_value status body (string code) =
    describe_code status (some code) (str_field (lit "error_description") body)
describe_value status body (object fs) =
    describe_code status (str_field (lit "code") (object fs))
      (str_field (lit "message") (object fs))
describe_value status body null = status
describe_value status body (bool b) = status
describe_value status body (number n) = status
describe_value status body (array vs) = status

unfoldable pub describe_error : Text → Json → Text
unfolding describe_value
describe_error status body = elim (get (lit "error") body) [
  | none ↦ status
  | some e ↦ describe_value status body e
]

pub record CachedToken : Type 0 where
  pub value : Text
  pub expires_at : Option ℕ
  pub id_token : Option Text
