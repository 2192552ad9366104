-- ===== src/Http/Endpoint.antt =====
-- crates/marshal-http/src/endpoint.rs: where a call that marshal makes for itself goes. An error is the
-- text of `HttpError::InvalidUrl`.
use bot_marshal.Prelude.{
  ℕ, Text, none, some, Bool, true, false, not, ◌&&◌, [], ◌∷◌, ◌++◌, Result, ok, err, ◌>>=◌, all,
  is_empty, lit, decimal, format, contains_byte, split_once_text, rsplit_once, break_at, parse_u16,
  text_eq, within, ◌==◌, if◌then◌else◌,
}
use bot_marshal.Core.Request.{Authority}

pub record Endpoint : Type 0 where
  pub https : Bool
  pub host : Text
  pub port : ℕ

abbrev is_digit : ℕ → Bool
is_digit c = within b'0' b'9' c

unfoldable pub default_port : Bool → ℕ
default_port https = if https then 443 else 80

unfoldable pub scheme_of : Text → Text → Result Text Bool
scheme_of url scheme =
    if text_eq scheme (lit "https")
    then ok true
    else if text_eq scheme (lit "http")
    then ok false
    else err (
        format (url ∷ lit ": unsupported scheme `" ∷ scheme ∷ lit "`, expected http or https" ∷ []))

-- A text without a port that is all digits is a host as it is.
unfoldable pub whole_host : Text → Bool → Text → Result Text Endpoint
unfolding default_port
whole_host url https [] = err url
whole_host url https (c ∷ s) =
    ok (record { https = https; host = c ∷ s; port = default_port https })

unfoldable pub split_port : Text → Bool → Text → Result Text Endpoint
unfolding whole_host
split_port url https rest = elim (rsplit_once b':' rest) [
  | none ↦ whole_host url https rest
  | some hp ↦
      if not (is_empty hp.0) && all is_digit hp.1
      then elim (parse_u16 hp.1) [
        | none ↦ err (url ++ lit ": bad port")
        | some port ↦ ok (record { https = https; host = hp.0; port = port })
      ]
      else whole_host url https rest
]

unfoldable pub no_path : Text → Text → Result Text (Unit {0})
no_path url rest =
    if contains_byte b'/' rest
    then err (url ++ lit ": expected `scheme://host[:port]` with no path")
    else ok tt

unfoldable pub parse_parts : Text → Text × Text → Result Text Endpoint
unfolding scheme_of split_port no_path
parse_parts url (scheme, rest) = do
  https ← scheme_of url scheme
  no_path url rest >>= λ _. split_port url https rest

unfoldable pub parse_endpoint : Text → Result Text Endpoint
unfolding parse_parts
parse_endpoint url = elim (split_once_text (lit "://") url) [
  | none ↦ err url
  | some parts ↦ parse_parts url parts
]

abbrev path_or_root : Text → Text
path_or_root [] = lit "/"
path_or_root (c ∷ s) = c ∷ s

unfoldable pub parse_with_path : Text → Result Text (Endpoint × Text)
unfolding parse_endpoint
parse_with_path url = elim (split_once_text (lit "://") url) [
  | none ↦ err url
  | some parts ↦
      let (host_part, path) = break_at b'/' parts.1 in
      parse_endpoint (format (parts.0 ∷ lit "://" ∷ host_part ∷ [])) >>= λ e.
      ok (e, path_or_root path)
]

unfoldable pub https_endpoint : Text → Endpoint
https_endpoint host = record { https = true; host = host; port = 443 }

abbrev scheme_name : Bool → Text
scheme_name true = lit "https"
scheme_name false = lit "http"

unfoldable pub endpoint_uri : Endpoint → Text → Text
endpoint_uri e path =
    format (scheme_name e.https ∷ lit "://" ∷ e.host ∷ lit ":" ∷ decimal e.port ∷ path ∷ [])

unfoldable pub endpoint_authority : Endpoint → Authority
endpoint_authority e = record { host = e.host; port = e.port }

unfoldable pub host_header : Endpoint → Text
unfolding default_port
host_header e =
    if e.port == default_port e.https
    then e.host
    else format (e.host ∷ lit ":" ∷ decimal e.port ∷ [])
