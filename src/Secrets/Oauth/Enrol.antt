-- ===== src/Secrets/Oauth/Enrol.antt =====
-- crates/marshal-secrets/src/oauth/source.rs and pkce.rs: enrolment, which a human drives once.
use bot_marshal.Prelude.{
  ℕ, Text, Option, none, some, Bool, false, ◌||◌, [], ◌∷◌, ◌++◌, Result, ok, err, join, lit, dash,
  format, text_eq, contains_byte, split_once_text, rsplit_once, break_at, length, ◌==◌,
  if◌then◌else◌,
}
use bot_marshal.Core.Error.{Error, config}
use bot_marshal.Core.Encoding.{base64url_encode, form_urlencode}
use bot_marshal.Proxy.Identity.{fold_bytes}
use bot_marshal.Secrets.Form.{split_once}
use bot_marshal.Secrets.Oauth.Token.{WireLib, TokenResponse}
use bot_marshal.Secrets.Oauth.Jwt.{KeyLib}
use bot_marshal.Secrets.Oauth.World.{Os, Io, ◌>>=◌, ◌>>◌, pure, throw, of_result}
use bot_marshal.Secrets.Oauth.Store.{put_grant, now_unix}
use bot_marshal.Secrets.Oauth.Client.{Params, Oauth2Source, random_urlsafe}
use bot_marshal.Secrets.Oauth.Mint.{post_token, cache_token}

-- An address in brackets is what stands in them; else the last colon ends the host.
unfoldable pub redirect_host : Text → Option Text
unfolding split_once rsplit_once
redirect_host [] = none
redirect_host (c ∷ s) =
    if c == b'['
    then elim (split_once b']' s) [ none ↦ none | some kv ↦ some kv.0 ]
    else elim (rsplit_once b':' (c ∷ s)) [ none ↦ some (c ∷ s) | some kv ↦ some kv.0 ]

abbrev with_host : Text → Option Text → Option (Text × Text)
with_host scheme none = none
with_host scheme (some []) = none
with_host scheme (some (c ∷ host)) = some (scheme, c ∷ host)

unfoldable pub split_redirect : Text → Option (Text × Text)
unfolding redirect_host split_once_text break_at
split_redirect uri = elim (split_once_text (lit "://") uri) [
  | none ↦ none
  | some parts ↦ with_host parts.0 (redirect_host (break_at b'/' parts.1).0)
]

pub record Enrolled : Type 0 where
  pub enrolled_scope : Option Text
  pub enrolled_for : Option ℕ

pub record AuthCodeFlow : Type 0 where
  pub url : Text
  pub state : Text
  pub verifier : Text
  pub redirect : Text

unfoldable pub intercepted : (url state verifier redirect_uri : Text) → AuthCodeFlow
intercepted url state verifier redirect_uri = record {
  url = url;
  state = state;
  verifier = verifier;
  redirect = redirect_uri;
}

-- The fold is over `acc | (x ^ y)`, as in crates/marshal-proxy/src/identity/resolvers.rs.
unfoldable pub state_matches : AuthCodeFlow → Text → Bool
unfolding fold_bytes
state_matches flow candidate =
    if length flow.state == length candidate then fold_bytes 0 flow.state candidate == 0 else false

-- `join(" ")` of the scope, unless that is empty.
abbrev joined_param : Text → Params
joined_param [] = []
joined_param (c ∷ s) = (lit "scope", c ∷ s) ∷ []

abbrev audience_param : Option Text → Params
audience_param none = []
audience_param (some a) = (lit "audience", a) ∷ []

unfoldable pub check_redirect : Text → Text → Option (Text × Text) → Result Error Text
check_redirect name uri none =
    err
      (config (format (lit "`" ∷ name ∷ lit "`: redirect_uri `" ∷ uri ∷ lit "` is not a URL" ∷ [])))
check_redirect name uri (some (scheme, host)) =
    if text_eq host (lit "127.0.0.1")
      || (text_eq host (lit "localhost") || text_eq host (lit "::1"))
    then if text_eq scheme (lit "http")
      then ok uri
      else err (
          config (
            format (
              lit "`"
              ∷ name
              ∷ lit "`: redirect_uri must be `http://` on loopback, not `"
              ∷ scheme
              ∷ lit "://` "
              ∷ dash
              ∷ lit
                  " the listener marshal binds for the redirect is plain HTTP, which is what every provider "
              ∷ lit "expects for a loopback redirect"
              ∷ [])))
    else err (
        config (
          format (
            lit "`"
            ∷ name
            ∷ lit "`: redirect_uri must point at loopback (127.0.0.1 or localhost), not `"
            ∷ host
            ∷ lit "` "
            ∷ dash
            ∷ lit
                " marshal binds it itself to receive the authorization code, and a redirect anywhere else "
            ∷ lit "would hand the code to something that is not marshal"
            ∷ [])))

unfoldable pub missing_option : Text → Text → Text → Error
missing_option name grant option = config (
    format (
      lit "`"
      ∷ name
      ∷ lit "` uses `grant: "
      ∷ grant
      ∷ lit "` but sets no `"
      ∷ option
      ∷ lit "`"
      ∷ []))

abbrev pub endpoint_or : Text → Text → Text → Option Text → Result Error Text
unfolding missing_option
endpoint_or name grant option none = err (missing_option name grant option)
endpoint_or name grant option (some url) = ok url

unfoldable pub redirect_uri_of : {S : Type 0} → Oauth2Source S → Result Error Text
unfolding check_redirect split_redirect missing_option
redirect_uri_of o = elim o.cfg.redirect_uri [
  | none ↦ err (missing_option o.name (lit "authorization_code") (lit "redirect_uri"))
  | some uri ↦ check_redirect o.name uri (split_redirect uri)
]

module _ {S : Type 0} (os : Os S) (lib : WireLib) (keys : KeyLib) (o : Oauth2Source S) where
  unfoldable pub challenge_s256 : Text → Text
  challenge_s256 verifier = base64url_encode (keys.sha256 verifier)

  unfoldable pub authorize_params : (redirect_uri state verifier : Text) → Params
  unfolding challenge_s256
  authorize_params redirect_uri state verifier =
      ((lit "response_type", lit "code")
        ∷ (lit "client_id", o.cfg.client_id)
        ∷ (lit "redirect_uri", redirect_uri)
        ∷ (lit "state", state)
        ∷ (lit "code_challenge", challenge_s256 verifier)
        ∷ (lit "code_challenge_method", lit "S256")
        ∷ [])
      ++ (joined_param (join (lit " ") o.cfg.scope)
          ++ (audience_param o.cfg.audience ++ o.cfg.extra_params))

  -- The endpoint may have a query of its own.
  unfoldable pub authorize_url : Text → (redirect_uri state verifier : Text) → Text
  unfolding authorize_params form_urlencode
  authorize_url authorize redirect_uri state verifier =
      authorize
      ++ ((if contains_byte b'?' authorize then b'&' else b'?')
          ∷ form_urlencode (authorize_params redirect_uri state verifier))

  unfoldable pub begun_at : (authorize redirect_uri : Text) → Io S AuthCodeFlow
  unfolding random_urlsafe authorize_url
  begun_at authorize uri = random_urlsafe os lib keys 32 >>= λ verifier.
      random_urlsafe os lib keys 24 >>= λ state. pure (record {
        url = authorize_url authorize uri state verifier;
        state = state;
        verifier = verifier;
        redirect = uri;
      })

  unfoldable pub begin_authorization_code : Io S AuthCodeFlow
  unfolding missing_option redirect_uri_of begun_at
  begin_authorization_code =
      of_result (
        endpoint_or o.name (lit "authorization_code") (lit "authorization_endpoint")
          o.cfg.authorization_endpoint)
      >>= λ authorize. of_result (redirect_uri_of o) >>= begun_at authorize

  unfoldable pub no_refresh_token : Error
  no_refresh_token = config (
      format (
        lit "the provider completed the flow for `"
        ∷ o.name
        ∷ lit "` but issued no refresh token, so nothing can be kept and every restart would need "
        ∷ lit "authorising again. Ask for offline access "
        ∷ dash
        ∷ lit
            " most providers want `scope: [offline_access]`, or Google's `access_type=offline` in "
        ∷ lit "`extra_params`."
        ∷ []))

  abbrev needed_token : Option Text → Io S Text
  unfolding no_refresh_token
  needed_token none = throw no_refresh_token
  needed_token (some token) = pure token

  unfoldable pub store_enrolment : TokenResponse → Io S Enrolled
  unfolding no_refresh_token now_unix put_grant cache_token
  store_enrolment r = needed_token r.refresh_token >>= λ token. now_unix os >>= λ at.
      put_grant os lib o.name (record { refresh_token = token; obtained_at = at; scope = r.scope })
      >> cache_token os lib keys o r
      >> pure (record { enrolled_scope = r.scope; enrolled_for = r.expires_in })

  unfoldable pub complete_authorization_code : Text → AuthCodeFlow → Io S Enrolled
  unfolding post_token store_enrolment
  complete_authorization_code code flow =
      post_token os lib keys o (lit "exchanging the authorization code for") (
        (lit "grant_type", lit "authorization_code")
        ∷ (lit "code", code)
        ∷ (lit "redirect_uri", flow.redirect)
        ∷ (lit "code_verifier", flow.verifier)
        ∷ [])
      >>= store_enrolment
