-- ===== src/Policy/Limiter.antt =====
-- crates/marshal-policy/src/transforms.rs: the limiter of response bodies, with its actions of
-- crates/marshal-config/src/model.rs. `to_str` stands for
-- that of the crate http, `to_vec` for serde_json's with its `unwrap_or_default`.
pub mod Bounds
use bot_marshal.Prelude.{
  ℕ, ◌-◌, ◌+◌, min, Text, Option, none, some, Bool, true, false, not, ◌&&◌, ◌||◌, List, [], ◌∷◌,
  ◌++◌, all, keep, length, take, lit, decimal, text_eq, eq_ignore_ascii_case, ltb, within, ◌==◌,
  is_none, valid_up_to, if◌then◌else◌,
}
use bot_marshal.Core.Json.{Json, string, number, object, Number, end, field}
use bot_marshal.Core.Request.{BodyHandle, ResponseParts}
use bot_marshal.Core.HeaderMap.{Headers, remove, header_get, header_insert}

pub data TruncationMethod : Type 0 where
  by_bytes by_utf8 : TruncationMethod

pub data ResponseOversizeAction : Type 0 where
  fail : ResponseOversizeAction
  truncating : (method : TruncationMethod) (marker : Text) → ResponseOversizeAction
  replacing : (body : Text) → ResponseOversizeAction

pub record ResponseLimiter : Type 0 where
  pub max_bytes : ℕ
  pub on_oversize : ResponseOversizeAction

unfoldable pub replace_body : ResponseParts → List ℕ → Text → ResponseParts
unfolding header_insert
replace_body resp body action = record resp {
  headers = header_insert (lit "x-marshal-response-limited") action (
      header_insert (lit "content-length") (decimal (length body))
        (remove (lit "content-encoding") resp.headers));
  body = BodyHandle.buffered body;
}

unfoldable pub utf8_prefix_len : List ℕ → ℕ → ℕ
utf8_prefix_len bytes limit = valid_up_to (take (min (length bytes) limit) bytes)

-- The end of what a method keeps of some bytes within a limit.
unfoldable pub prefix_end : TruncationMethod → List ℕ → ℕ → ℕ
unfolding utf8_prefix_len
prefix_end by_bytes bytes limit = min (length bytes) limit
prefix_end by_utf8 bytes limit = utf8_prefix_len bytes limit

unfoldable pub truncate : ℕ → List ℕ → TruncationMethod → Text → List ℕ
unfolding prefix_end
truncate max_bytes source method marker =
    let cut = take (prefix_end method marker max_bytes) marker in
    take (prefix_end method source (max_bytes - length cut)) source ++ cut

-- The oversized bytes, and how many there are at least.
unfoldable pub raw_oversized : ℕ → BodyHandle → Option (List ℕ × ℕ)
raw_oversized max_bytes (BodyHandle.buffered source) =
    if ltb max_bytes (length source) then some (source, length source) else none
raw_oversized max_bytes (BodyHandle.over_limit prefix limit observed) = some (prefix, observed)
raw_oversized max_bytes BodyHandle.empty = none
raw_oversized max_bytes BodyHandle.streaming = none

is_encoding : Option Text → Bool
is_encoding none = false
is_encoding (some value) = not (eq_ignore_ascii_case value (lit "identity"))

-- `to_str` reads a header value that is text.
module _ (to_str : List ℕ → Option Text) where
  encoded_value : Option (List ℕ) → Bool
  unfolding is_encoding
  encoded_value none = false
  encoded_value (some value) = is_encoding (to_str value)

  unfoldable pub is_encoded : Headers → Bool
  unfolding header_get encoded_value
  is_encoded headers = encoded_value (header_get (lit "content-encoding") headers)

unfoldable pub is_replacing : ResponseOversizeAction → Bool
is_replacing (replacing body) = true
is_replacing fail = false
is_replacing (truncating method marker) = false

-- The two error bodies, their keys in order.
abbrev encoded_error : ℕ → Json
encoded_error max_bytes = object (
    field (lit "error") (string (lit "encoded_response_size_unknown")) (
      field (lit "max_bytes") (number (Number.pos_int max_bytes)) (
        field (lit "message")
          (string (
            lit
              "cannot enforce a decoded response limit on encoded bytes; request identity encoding"))
          (field (lit "proxy") (string (lit "bot-marshal")) end))))

abbrev too_large_error : ℕ → ℕ → Json
too_large_error max_bytes observed = object (
    field (lit "error") (string (lit "response_too_large")) (
      field (lit "max_bytes") (number (Number.pos_int max_bytes)) (
        field (lit "proxy") (string (lit "bot-marshal"))
          (field (lit "received_at_least_bytes") (number (Number.pos_int observed)) end))))

module _ (to_str : List ℕ → Option Text) (to_vec : Json → List ℕ) where
  -- A 502 with a JSON body.
  unfoldable pub bad_gateway : ResponseParts → Json → ResponseParts
  unfolding replace_body header_insert
  bad_gateway resp error =
      replace_body
        (record resp {
          status = 502;
          headers = header_insert (lit "content-type") (lit "application/json") resp.headers;
        })
        (to_vec error) (lit "fail")

  -- The `match` on the action.
  unfoldable pub bound : ℕ → ResponseOversizeAction → ResponseParts → List ℕ → ℕ → ResponseParts
  unfolding bad_gateway truncate replace_body header_insert
  bound max_bytes fail resp source observed = bad_gateway resp (too_large_error max_bytes observed)
  bound max_bytes (truncating method marker) resp source observed =
      replace_body resp (truncate max_bytes source method marker) (lit "truncate")
  bound max_bytes (replacing body) resp source observed =
      replace_body
        (record resp {
          headers =
              header_insert (lit "content-type") (lit "text/plain; charset=utf-8") resp.headers;
        })
        body (lit "replace")

  -- What follows the encoded responses that are refused.
  unfoldable pub bound_oversized :
      ℕ → ResponseOversizeAction → ResponseParts → Option (List ℕ × ℕ) → ResponseParts
  unfolding bound
  bound_oversized max_bytes action resp none = resp
  bound_oversized max_bytes action resp (some (source, observed)) =
      bound max_bytes action resp source observed

  unfoldable pub limit_response : ResponseLimiter → ResponseParts → ResponseParts
  unfolding raw_oversized is_encoded is_replacing bad_gateway bound_oversized
  limit_response limiter resp =
      let oversized = raw_oversized limiter.max_bytes resp.body in
      let encoded = is_encoded to_str resp.headers in
      if not encoded && is_none oversized
      then resp
      else if encoded && not (is_replacing limiter.on_oversize)
      then bad_gateway resp (encoded_error limiter.max_bytes)
      else bound_oversized limiter.max_bytes limiter.on_oversize resp oversized
