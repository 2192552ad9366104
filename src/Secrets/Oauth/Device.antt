-- ===== src/Secrets/Oauth/Device.antt =====
-- crates/marshal-secrets/src/oauth/source.rs: the device-code flow.
use bot_marshal.Prelude.{
  ℕ, Text, Option, none, some, Bool, List, [], ◌∷◌, ◌++◌, Result, ok, err, map_err, any, join, lit,
  format, text_eq, if◌then◌else◌,
}
use bot_marshal.Core.Error.{Error, config}
use bot_marshal.Core.Json.{Json, get, as_str}
use bot_marshal.Core.Encoding.{form_urlencode}
use bot_marshal.Http.Endpoint.{Endpoint, parse_with_path}
use bot_marshal.Secrets.Oauth.Token.{
  WireLib, TokenResponse, parse_response, describe_error, str_field, u64_field, from_secs,
}
use bot_marshal.Secrets.Oauth.Jwt.{KeyLib}
use bot_marshal.Secrets.Oauth.World.{
  Os, PostRequest, Io, ◌>>=◌, ◌>>◌, pure, throw, of_result, learn_as,
}
use bot_marshal.Secrets.Oauth.Client.{Params, Oauth2Source, auth_of}
use bot_marshal.Secrets.Oauth.Enrol.{Enrolled, missing_option, endpoint_or, store_enrolment}
use bot_marshal.Secrets.Oauth.Mint.{bounded, too_late}

infixl 5 ◌>>=r◌
abbrev ◌>>=r◌ : {A B : Type 0} → Result Error A → (A → Result Error B) → Result Error B
ok a >>=r f = f a
err e >>=r f = err e

pub data DevicePoll : Type 0 where
  pending slow_down : DevicePoll
  done : Enrolled → DevicePoll

pub record DeviceAuthorization : Type 0 where
  pub device_code : Text
  pub user_code : Text
  pub verification_uri : Text
  pub verification_uri_complete : Option Text
  pub expires_in : ℕ
  pub interval : ℕ

unfoldable pub device_field : Json → Text → Result Error Text
unfolding str_field
device_field body name = elim (str_field name body) [
  | none ↦
      err (config (format (lit "the device authorization response has no `" ∷ name ∷ lit "`" ∷ [])))
  | some v ↦ ok v
]

abbrev or_field : Result Error Text → Result Error Text → Result Error Text
or_field (ok v) other = ok v
or_field (err e) other = other

-- `get(..).or_else(get(..)).and_then(as_str)`: the first that is there, if it is a text.
abbrev first_str : Option Json → Option Json → Option Text
first_str (some v) other = as_str v
first_str none (some v) = as_str v
first_str none none = none

abbrev secs_or : ℕ → Option ℕ → ℕ
secs_or n none = from_secs n
secs_or n (some m) = from_secs m

unfoldable pub parse_device : Json → Result Error DeviceAuthorization
unfolding device_field str_field u64_field
parse_device body = device_field body (lit "device_code") >>=r λ device_code.
    device_field body (lit "user_code") >>=r λ user_code.
    or_field (device_field body (lit "verification_uri"))
      (device_field body (lit "verification_url"))
    >>=r λ verification_uri. ok (record {
      device_code = device_code;
      user_code = user_code;
      verification_uri = verification_uri;
      verification_uri_complete =
          first_str (get (lit "verification_uri_complete") body)
            (get (lit "verification_url_complete") body);
      expires_in = secs_or 1800 (u64_field (lit "expires_in") body);
      interval = secs_or 5 (u64_field (lit "interval") body);
    })

abbrev has_client_id : Params → Bool
has_client_id params = any (λ kv. text_eq kv.0 (lit "client_id")) params

unfoldable pub with_client_id : Text → Params → Params
with_client_id client_id params =
    if has_client_id params then params else params ++ (lit "client_id", client_id) ∷ []

abbrev scope_param : List Text → Params
scope_param [] = []
scope_param (s ∷ more) = (lit "scope", join (lit " ") (s ∷ more)) ∷ []

module _ {S : Type 0} (os : Os S) (lib : WireLib) (keys : KeyLib) (o : Oauth2Source S) where
  unfoldable pub device_request : Endpoint → Text → Params × Params → Params → PostRequest
  unfolding with_client_id form_urlencode
  device_request ep path auth more = record {
    endpoint = ep;
    path = path;
    headers = auth.1;
    form = form_urlencode (with_client_id o.cfg.client_id (auth.0 ++ more));
  }

  abbrev device_endpoint : Text → Result Error (Endpoint × Text)
  device_endpoint url =
      map_err (λ e. config (lit "device_authorization_endpoint: invalid url: " ++ e))
        (parse_with_path url)

  abbrev device_error : Text → Text → Error
  device_error url e =
      config (format (lit "requesting a device code from " ∷ url ∷ lit ": " ∷ e ∷ []))

  unfoldable pub read_device : Text → ℕ × Json → Io S DeviceAuthorization
  unfolding parse_device describe_error
  read_device url (status, body) =
      if lib.is_success status
      then of_result (parse_device body)
      else throw (device_error url (describe_error (lib.status_string status) body))

  unfoldable pub begin_device_authorization : Io S DeviceAuthorization
  unfolding missing_option auth_of device_request bounded read_device parse_with_path
  begin_device_authorization =
      of_result (
        endpoint_or o.name (lit "device_code") (lit "device_authorization_endpoint")
          o.cfg.device_authorization_endpoint)
      >>= λ url. of_result (device_endpoint url) >>= λ ep.
          auth_of os lib keys o o.cfg.client_auth >>= λ auth.
          bounded os lib keys o (device_error url)
            (too_late os lib keys o (lit "requesting a device code for") url)
            (device_request ep.0 ep.1 auth (scope_param o.cfg.scope))
          >>= read_device url

  abbrev poll_error : Text → Error
  poll_error e = config (lit "polling for the device token: " ++ e)

  abbrev learn_refresh : Option Text → Io S (Unit {0})
  learn_refresh none = pure tt
  learn_refresh (some token) = learn_as o.name token

  -- Two of the errors of the endpoint say only that the flow is not done.
  unfoldable pub poll_refused : ℕ → Json → Option Text → Io S DevicePoll
  unfolding describe_error
  poll_refused status body none =
      throw (poll_error (describe_error (lib.status_string status) body))
  poll_refused status body (some code) =
      if text_eq code (lit "authorization_pending")
      then pure pending
      else if text_eq code (lit "slow_down")
      then pure slow_down
      else throw (poll_error (describe_error (lib.status_string status) body))

  unfoldable pub enrol_device : TokenResponse → Io S DevicePoll
  unfolding store_enrolment
  enrol_device r =
      learn_as o.name r.access_token
      >> learn_refresh r.refresh_token
      >> store_enrolment os lib keys o r
      >>= λ enrolled. pure (done enrolled)

  unfoldable pub read_poll : ℕ × Json → Io S DevicePoll
  unfolding poll_refused parse_response enrol_device str_field
  read_poll (status, body) =
      if lib.is_success status
      then of_result (parse_response body) >>= enrol_device
      else poll_refused status body (str_field (lit "error") body)

  unfoldable pub poll_device_token : Text → Io S DevicePoll
  unfolding auth_of device_request bounded read_poll
  poll_device_token device_code = auth_of os lib keys o o.cfg.client_auth >>= λ auth.
      bounded os lib keys o poll_error
        (too_late os lib keys o (lit "polling for the device token for") o.cfg.token_endpoint)
        (device_request o.endpoint o.path auth (
          (lit "grant_type", lit "urn:ietf:params:oauth:grant-type:device_code")
          ∷ (lit "device_code", device_code)
          ∷ []))
      >>= read_poll
