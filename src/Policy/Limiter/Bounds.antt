-- ===== src/Policy/Limiter/Bounds.antt =====
-- The size of what the limiter leaves.
use bot_marshal.Prelude.{
  ℕ, ◌-◌, ◌≤◌, min, Text, Option, none, some, false, List, ◌≡◌, ◌≢◌, ◌⊎◌, inl, inr, refl, arith,
  Bool-cases, length, length-append, length-take, take, ltb, valid_up_to-le,
}
use bot_marshal.Core.Json.{Json}
use bot_marshal.Core.Request.{BodyHandle, ResponseParts}
use bot_marshal.Policy.Limiter.{
  ResponseLimiter, ResponseOversizeAction, fail, truncating, replacing, TruncationMethod, by_bytes,
  by_utf8, utf8_prefix_len, prefix_end, truncate, raw_oversized, is_encoded, is_replacing,
  bad_gateway, bound, bound_oversized, replace_body, limit_response,
}

pub prefix_end-le :
    (method : TruncationMethod) (bytes : List ℕ) (limit : ℕ) → prefix_end method bytes limit ≤ limit
unfolding prefix_end utf8_prefix_len
prefix_end-le by_bytes bytes limit = omega arith
prefix_end-le by_utf8 bytes limit =
    let cut = take (min (length bytes) limit) bytes in
    omega (arith, valid_up_to-le cut, length-take (min (length bytes) limit) bytes)

-- A truncated body, its marker included, is within the limit.
pub truncate-le :
    (max_bytes : ℕ) (source : List ℕ) (method : TruncationMethod) (marker : Text)
    → length (truncate max_bytes source method marker) ≤ max_bytes
unfolding truncate
truncate-le max_bytes source method marker =
    let end = prefix_end method marker max_bytes in
    let cut = take end marker in
    let budget = max_bytes - length cut in
    let kept = prefix_end method source budget in
    omega (
      arith,
      length-append (take kept source) cut,
      length-take end marker,
      length-take kept source,
      prefix_end-le method marker max_bytes,
      prefix_end-le method source budget,
    )

-- A body that was read, and is no longer than the limit.
pub IsWithin : ℕ → BodyHandle → Type 0
IsWithin limit BodyHandle.empty = Unit
IsWithin limit (BodyHandle.buffered b) = length b ≤ limit
IsWithin limit (BodyHandle.over_limit p l o) = ⊥
IsWithin limit BodyHandle.streaming = ⊥

module _ (to_str : List ℕ → Option Text) (to_vec : Json → List ℕ) where
  -- An error response of the proxy itself.
  pub IsRefusal : ResponseParts → Type 0
  IsRefusal resp =
      (resp.status ≡ 502) × ((error : Json) × (resp.body ≡ BodyHandle.buffered (to_vec error)))

  bad_gateway-IsRefusal :
      (resp : ResponseParts) (error : Json) → IsRefusal (bad_gateway to_str to_vec resp error)
  unfolding bad_gateway replace_body IsRefusal
  bad_gateway-IsRefusal resp error = (refl, (error, refl))

  bound-IsWithin :
      (max_bytes : ℕ) (action : ResponseOversizeAction) (resp : ResponseParts) (source : List ℕ)
      (observed : ℕ)
      → is_replacing action ≡ false
      → IsWithin max_bytes (bound to_str to_vec max_bytes action resp source observed).body
        ⊎ IsRefusal (bound to_str to_vec max_bytes action resp source observed)
  unfolding bound is_replacing replace_body IsWithin
  bound-IsWithin max_bytes fail resp source observed h = inr (bad_gateway-IsRefusal resp _)
  bound-IsWithin max_bytes (truncating method marker) resp source observed h =
      inl (truncate-le max_bytes source method marker)
  bound-IsWithin max_bytes (replacing body) resp source observed h = cc

  IsWithin-raw_oversized :
      (max_bytes : ℕ) (body : BodyHandle)
      → body ≢ BodyHandle.streaming
      → ((raw_oversized max_bytes body ≡ none) × IsWithin max_bytes body)
        ⊎ ((s : List ℕ) × ((n : ℕ) × (raw_oversized max_bytes body ≡ some (s, n))))
  unfolding raw_oversized IsWithin
  IsWithin-raw_oversized max_bytes BodyHandle.empty h = inl (refl, tt)
  IsWithin-raw_oversized max_bytes (BodyHandle.buffered b) h =
      elim (Bool-cases (ltb max_bytes (length b))) [
        | inl over ↦ inr (b, (length b, rw over refl))
        | inr fits ↦ inl (rw fits refl, ground arith)
      ]
  IsWithin-raw_oversized max_bytes (BodyHandle.over_limit p l o) h = inr (p, (o, refl))
  IsWithin-raw_oversized max_bytes BodyHandle.streaming h = absurd (h refl)

  -- A limiter that fails or truncates lets through, of a body that was read, at most `max_bytes`
  -- bytes, and only if the response is not encoded; else the response is an error of the proxy.
  pub limit_response-IsWithin :
      (limiter : ResponseLimiter) (resp : ResponseParts)
      → is_replacing limiter.on_oversize ≡ false
      → resp.body ≢ BodyHandle.streaming
      → ((is_encoded to_str resp.headers ≡ false)
          × IsWithin limiter.max_bytes (limit_response to_str to_vec limiter resp).body)
        ⊎ IsRefusal (limit_response to_str to_vec limiter resp)
  unfolding limit_response bound_oversized
  limit_response-IsWithin limiter resp keeps read =
      elim (Bool-cases (is_encoded to_str resp.headers)) [
        | inl on ↦ rw (on, keeps) (inr (bad_gateway-IsRefusal resp _))
        | inr off ↦ elim (IsWithin-raw_oversized limiter.max_bytes resp.body read) [
          | inl (fits, small) ↦ rw (off, fits) (inl (refl, small))
          | inr (source, (observed, over)) ↦
              rw (off, over)
                (elim (bound-IsWithin limiter.max_bytes limiter.on_oversize resp source observed
                  keeps) [ inl small ↦ inl (refl, small) | inr refused ↦ inr refused ])
        ]
      ]
