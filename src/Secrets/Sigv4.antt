-- ===== src/Secrets/Sigv4.antt =====
-- crates/marshal-secrets/src/swap.rs: the AWS signature of a request. The digests, the clock and the
-- checks of the crate http are parameters.
use bot_marshal.Prelude.{
  ℕ, Text, Option, none, some, List, [], ◌∷◌, ◌++◌, Result, ok, err, ◌>>=◌, ok_or, map, take, lit,
  decimal, format, trim, ltb, if◌then◌else◌,
}
use bot_marshal.Core.Error.{Error, config, body_too_large}
use bot_marshal.Core.Request.{RequestContext, BodyHandle, authority_string}
use bot_marshal.Core.HeaderMap.{Headers, header_get, header_insert}
use bot_marshal.Secrets.Canonical.{hex_encode, canonical_path, canonical_query_string}

pub record UtcTime : Type 0 where
  pub year : ℕ
  pub month : ℕ
  pub day : ℕ
  pub hour : ℕ
  pub minute : ℕ
  pub second : ℕ

-- What the signature takes of other crates, at the moment of the request.
pub record SigLib : Type 0 where
  pub now_utc : UtcTime
  pub sha256 : List ℕ → List ℕ
  pub hmac_sha256 : List ℕ → List ℕ → List ℕ
  -- `HeaderValue::from_str`, the message of its error, and `HeaderValue::to_str`.
  pub from_str : Text → Option (List ℕ)
  pub invalid_value : Text
  pub to_str : List ℕ → Option Text
  -- `{:?}` of a text.
  pub debug_string : Text → Text

-- `{:02}` and `{:04}`.
pad : ℕ → Text → Text
pad n s = if ltb n 10 then b'0' ∷ s else s

two_digits : ℕ → Text
unfolding pad
two_digits n = pad n (decimal n)

four_digits : ℕ → Text
four_digits n =
    if ltb n 10
    then lit "000" ++ decimal n
    else if ltb n 100
    then lit "00" ++ decimal n
    else if ltb n 1000
    then lit "0" ++ decimal n
    else decimal n

unfoldable pub amz_date : UtcTime → Text
unfolding two_digits four_digits
amz_date t = format (
    four_digits t.year
    ∷ two_digits t.month
    ∷ two_digits t.day
    ∷ lit "T"
    ∷ two_digits t.hour
    ∷ two_digits t.minute
    ∷ two_digits t.second
    ∷ lit "Z"
    ∷ [])

-- The body that is hashed.
unfoldable pub signed_body : BodyHandle → Result Error (List ℕ)
signed_body BodyHandle.empty = ok []
signed_body (BodyHandle.buffered b) = ok b
signed_body (BodyHandle.over_limit prefix limit observed) = err (body_too_large limit)
signed_body BodyHandle.streaming = err (
    config (
      lit
        "sigv4 injection needs the request body materialised to hash it, but the body is streaming (for example a WebSocket upgrade) "
      ++ 0xE2 ∷ 0x80 ∷ 0x94 ∷ lit " scope this swap away from connections that upgrade"))

-- The three signed headers, in the order of their names.
abbrev signed : (host payload_hash date : Text) → List (Text × Text)
signed host payload_hash date =
    (lit "host", host) ∷ (lit "x-amz-content-sha256", payload_hash) ∷ (lit "x-amz-date", date) ∷ []

abbrev header_line : Text × Text → Text
header_line (k, v) = k ++ (lit ":" ++ (trim v ++ lit "\n"))

abbrev signed_headers : Text
signed_headers = lit "host;x-amz-content-sha256;x-amz-date"

unfoldable pub canonical_request : RequestContext → (host payload_hash date : Text) → Text
unfolding canonical_path canonical_query_string
canonical_request cx host payload_hash date = format (
    cx.method
    ∷ lit "\n"
    ∷ canonical_path cx.uri.path
    ∷ lit "\n"
    ∷ canonical_query_string (elim cx.uri.query [ none ↦ [] | some q ↦ q ])
    ∷ lit "\n"
    ∷ format (map header_line (signed host payload_hash date))
    ∷ lit "\n"
    ∷ signed_headers
    ∷ lit "\n"
    ∷ payload_hash
    ∷ [])

module _ (lib : SigLib) where
  open lib use {now_utc, sha256, hmac_sha256, from_str, invalid_value, to_str, debug_string}

  unfoldable pub signature : (secret date region service hashed_request : Text) → Text
  unfolding hex_encode
  signature secret date region service hashed_request =
      let date_stamp = take 8 date in
      let scope =
        format (date_stamp ∷ lit "/" ∷ region ∷ lit "/" ∷ service ∷ lit "/aws4_request" ∷ []) in
      let string_to_sign =
        format
          (lit "AWS4-HMAC-SHA256\n" ∷ date ∷ lit "\n" ∷ scope ∷ lit "\n" ∷ hashed_request ∷ []) in
      let k_date = hmac_sha256 (lit "AWS4" ++ secret) date_stamp in
      let k_service = hmac_sha256 (hmac_sha256 k_date region) service in
      hex_encode (hmac_sha256 (hmac_sha256 k_service (lit "aws4_request")) string_to_sign)

  unfoldable pub authorization :
      (access_key_id secret date region service hashed_request : Text) → Text
  unfolding signature
  authorization access_key_id secret date region service hashed_request = format (
      lit "AWS4-HMAC-SHA256 Credential="
      ∷ access_key_id
      ∷ lit "/"
      ∷ take 8 date
      ∷ lit "/"
      ∷ region
      ∷ lit "/"
      ∷ service
      ∷ lit "/aws4_request, SignedHeaders="
      ∷ signed_headers
      ∷ lit ", Signature="
      ∷ signature secret date region service hashed_request
      ∷ [])

  -- The host header if it is text, else the authority.
  host_value : RequestContext → Text
  unfolding header_get
  host_value cx = elim (header_get (lit "host") cx.headers) [
    | none ↦ authority_string cx.authority
    | some v ↦ elim (to_str v) [ none ↦ authority_string cx.authority | some host ↦ host ]
  ]

  -- `if let Some(token) .. && let Ok(v)`: a token that no header can hold is left out.
  insert_token : Option Text → Headers → Headers
  unfolding header_insert
  insert_token none headers = headers
  insert_token (some token) headers = elim (from_str token) [
    | none ↦ headers
    | some v ↦ header_insert (lit "x-amz-security-token") v headers
  ]

  -- The date and the digest are ASCII, so they are values as they are.
  unfoldable pub sign_sigv4 :
      RequestContext
      → (access_key_id secret : Text) (session_token : Option Text) (region service : Text)
      → Result Error RequestContext
  unfolding signed_body hex_encode amz_date host_value insert_token header_insert canonical_request
      authorization
  sign_sigv4 cx access_key_id secret session_token region service = do
    body ← signed_body cx.body
    let payload_hash = hex_encode (sha256 body)
    let date = amz_date now_utc
    let host = host_value cx
    host_header ←
        ok_or
          (config (
            format
              (lit "sigv4: invalid host " ∷ debug_string host ∷ lit ": " ∷ invalid_value ∷ [])))
          (from_str host)
    let named = header_insert (lit "host") host_header cx.headers
    let dated = header_insert (lit "x-amz-date") date named
    let hashed = header_insert (lit "x-amz-content-sha256") payload_hash dated
    let request = canonical_request cx host payload_hash date
    let value = authorization access_key_id secret date region service (hex_encode (sha256 request))
    v ←
        ok_or (config (lit "sigv4: could not build the Authorization header: " ++ invalid_value))
          (from_str value)
    ok (record cx {
      headers = header_insert (lit "authorization") v (insert_token session_token hashed);
    })
