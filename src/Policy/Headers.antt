-- ===== src/Policy/Headers.antt =====
-- crates/marshal-policy/src/transforms.rs: the header transforms. The header map is the list of its
-- entries, with names in lower case.
pub mod Globs
pub mod Filters
use bot_marshal.Prelude.{
  ℕ, Text, Option, none, some, Bool, true, false, not, ◌&&◌, ◌||◌, List, [], ◌∷◌, any, keep,
  is_empty, lit, lower, text_eq, ◌==◌, if◌then◌else◌,
}
use bot_marshal.Core.HeaderMap.{remove}
use bot_marshal.Core.Request.{RequestContext, ResponseParts, header_keys}

pub data HeaderFilterMode : Type 0 where
  allow deny : List Text → HeaderFilterMode

-- A star: the rest of the pattern at this place, or at a later one.
star : (Text → Bool) → Text → Bool
star rest [] = rest []
star rest (d ∷ s) = rest (d ∷ s) || star rest s

-- Any other character of the pattern.
literal : ℕ → (Text → Bool) → Text → Bool
literal c rest [] = false
literal c rest (d ∷ s) = (lower c == lower d) && rest s

-- `header_glob_matches`.
unfoldable pub header_glob_matches : Text → Text → Bool
unfolding star literal
header_glob_matches [] name = is_empty name
header_glob_matches (c ∷ pattern) name =
    let rest = header_glob_matches pattern in
    if c == b'*' then star rest name else literal c rest name

-- `patterns` and `keep_on_match` of the mode.
abbrev patterns : HeaderFilterMode → List Text
patterns (allow ps) = ps
patterns (deny ps) = ps

abbrev keep_on_match : HeaderFilterMode → Bool
keep_on_match (allow ps) = true
keep_on_match (deny ps) = false

abbrev differ : Bool → Bool → Bool
differ true b = not b
differ false b = b

-- Whether a header of this name is dropped.
unfoldable pub drops : (Text → Bool) → HeaderFilterMode → Text → Bool
unfolding header_glob_matches
drops is_managed mode name =
    not (is_managed name)
    && differ (any (λ p. header_glob_matches p name) (patterns mode)) (keep_on_match mode)

abbrev remove_all : List Text → List (Text × List ℕ) → List (Text × List ℕ)
remove_all [] headers = headers
remove_all (name ∷ names) headers = remove_all names (remove name headers)

-- `header_filter_apply`.
unfoldable pub header_filter_apply :
    (Text → Bool) → HeaderFilterMode → List (Text × List ℕ) → List (Text × List ℕ)
unfolding drops
header_filter_apply is_managed mode headers =
    remove_all (keep (drops is_managed mode) (header_keys headers)) headers

abbrev one_of : List Text → Text → Bool
one_of names name = any (λ n. text_eq n name) names

-- The framing headers, of crates/marshal-config/src/model.rs.
unfoldable pub request_header_is_managed : Text → Bool
request_header_is_managed name =
    one_of
      (lit "host"
        ∷ lit "content-length"
        ∷ lit "connection"
        ∷ lit "keep-alive"
        ∷ lit "proxy-authenticate"
        ∷ lit "proxy-authorization"
        ∷ lit "proxy-connection"
        ∷ lit "te"
        ∷ lit "trailer"
        ∷ lit "transfer-encoding"
        ∷ lit "upgrade"
        ∷ [])
      name

unfoldable pub response_header_is_managed : Text → Bool
response_header_is_managed name =
    one_of
      (lit "content-length"
        ∷ lit "connection"
        ∷ lit "keep-alive"
        ∷ lit "trailer"
        ∷ lit "transfer-encoding"
        ∷ lit "upgrade"
        ∷ [])
      name

-- `apply` of the two filters.
unfoldable pub filter_request_headers : HeaderFilterMode → RequestContext → RequestContext
unfolding header_filter_apply request_header_is_managed
filter_request_headers mode cx = record cx {
  headers = header_filter_apply request_header_is_managed mode cx.headers;
}

unfoldable pub filter_response_headers : HeaderFilterMode → ResponseParts → ResponseParts
unfolding header_filter_apply response_header_is_managed
filter_response_headers mode resp = record resp {
  headers = header_filter_apply response_header_is_managed mode resp.headers;
}
