-- ===== src/Secrets/Oauth/Client.antt =====
-- crates/marshal-secrets/src/oauth/source.rs: the requests to a token endpoint. The world's store and
-- redactor are the ones that the source holds. A source of secrets acts on the world, and its own
-- state, if it has any, is outside.
use bot_marshal.Prelude.{
  ℕ, ◌/◌, Text, Option, none, some, Bool, true, false, List, [], ◌∷◌, ◌++◌, Result, ok, err, join,
  lit, format,
}
use bot_marshal.Core.Error.{Error, config}
use bot_marshal.Core.Encoding.{base64_encode, base64url_encode, percent_encode, form_urlencode}
use bot_marshal.Http.Endpoint.{Endpoint, parse_with_path}
use bot_marshal.Secrets.Oauth.Token.{WireLib, nanos_per_sec}
use bot_marshal.Secrets.Oauth.Jwt.{KeyLib, Algorithm, Claims, sign_at}
use bot_marshal.Secrets.Oauth.World.{
  Os, StoredGrant, Io, ◌>>=◌, ◌>>◌, pure, throw, of_result, perform, learn_as,
}
use bot_marshal.Secrets.Oauth.Store.{stored_grant}

abbrev pub Params : Type 0
Params = List (Text × Text)

pub record Source (S : Type 0) : Type 0 where
  pub source_name : Text
  pub resolve : Io S Text

pub record AssertionKey (S : Type 0) : Type 0 where
  pub source : Source S
  pub algorithm : Algorithm
  pub key_id : Option Text
  pub lifetime : ℕ

pub data ClientAuth (S : Type 0) : Type 0 where
  no_auth : ClientAuth S
  client_secret_basic client_secret_post : (secret : Source S) → ClientAuth S
  private_key_jwt : (key : AssertionKey S) → ClientAuth S

pub data Grant (S : Type 0) : Type 0 where
  client_credentials enrolled : Grant S
  refresh_token_of : (source : Source S) → Grant S
  jwt_bearer : (key : AssertionKey S) (issuer subject audience : Text) → Grant S

pub data ExchangeSubject : Type 0 where
  id_token access_token : ExchangeSubject

unfoldable pub token_type_uri : ExchangeSubject → Text
token_type_uri id_token = lit "urn:ietf:params:oauth:token-type:id_token"
token_type_uri access_token = lit "urn:ietf:params:oauth:token-type:access_token"

pub record TokenExchange : Type 0 where
  pub subject : ExchangeSubject
  pub exchange_params : Params

-- The maps of extra parameters are lists in key order.
pub record Oauth2Config (S : Type 0) : Type 0 where
  pub token_endpoint : Text
  pub client_id : Text
  pub client_auth : ClientAuth S
  pub grant : Grant S
  pub scope : List Text
  pub audience : Option Text
  pub extra_params : Params
  pub expiry_skew : ℕ
  pub timeout : ℕ
  pub authorization_endpoint : Option Text
  pub redirect_uri : Option Text
  pub device_authorization_endpoint : Option Text
  pub token_exchange : Option TokenExchange

pub record Oauth2Source (S : Type 0) : Type 0 where
  pub name : Text
  pub cfg : Oauth2Config S
  pub endpoint : Endpoint
  pub path : Text

unfoldable pub new_source : {S : Type 0} → Text → Oauth2Config S → Result Error (Oauth2Source S)
unfolding parse_with_path
new_source name cfg = elim (parse_with_path cfg.token_endpoint) [
  | err e ↦ err (config (lit "token_endpoint: invalid url: " ++ e))
  | ok ep ↦ ok (record { name = name; cfg = cfg; endpoint = ep.0; path = ep.1 })
]

abbrev pub push_some : Text → Option Text → Params
push_some key none = []
push_some key (some v) = (key, v) ∷ []

-- The configured scope, joined, if there is any.
abbrev joined_scope : List Text → Option Text
joined_scope [] = none
joined_scope (s ∷ more) = some (join (lit " ") (s ∷ more))

abbrev or_else : Option Text → Option Text → Option Text
or_else none b = b
or_else (some a) b = some a

-- The scope of the configuration wins over the one of the grant.
unfoldable pub scope_params : List Text → Option Text → Params
scope_params scope enrolled_scope =
    push_some (lit "scope") (or_else (joined_scope scope) enrolled_scope)

unfoldable pub refresh_params : Option (Text × Bool × Option Text) → Params
refresh_params none = (lit "grant_type", lit "client_credentials") ∷ []
refresh_params (some (token, stored, scope)) =
    (lit "grant_type", lit "refresh_token") ∷ (lit "refresh_token", token) ∷ []

abbrev granted_scope : Option (Text × Bool × Option Text) → Option Text
granted_scope none = none
granted_scope (some (token, stored, scope)) = scope

module _ {S : Type 0} (os : Os S) (lib : WireLib) (keys : KeyLib) where
  unfoldable pub random_urlsafe : ℕ → Io S Text
  random_urlsafe n =
      perform (λ e. config (lit "cannot read operating-system entropy: " ++ e)) (os.fill n)
      >>= λ bytes. pure (base64url_encode bytes)

  -- `sign`, at the time of the system clock.
  unfoldable pub sign : Text → Algorithm → Option Text → Claims → Io S Text
  unfolding sign_at
  sign pem algorithm key_id claims =
      perform (λ e. config (lit "the system clock is before the epoch: " ++ e)) os.epoch_secs
      >>= λ now. of_result (sign_at keys lib now pem algorithm key_id claims)

  module _ (o : Oauth2Source S) where
    -- What is presented is learned first.
    unfoldable pub present : Source S → Text → Io S Text
    present source purpose =
        source.resolve >>= λ value. learn_as (o.name ++ (b'.' ∷ purpose)) value >> pure value

    unfoldable pub not_enrolled : Error
    not_enrolled = config (
        format (
          lit "the `"
          ∷ o.name
          ∷ lit "` credential has not been enrolled: run `marshal secrets oauth login "
          ∷ o.name
          ∷ lit "` to authorise it once, then this swap works unattended"
          ∷ []))

    unfoldable pub enrolled_token : Option StoredGrant → Io S (Option (Text × Bool × Option Text))
    unfolding not_enrolled
    enrolled_token none = throw not_enrolled
    enrolled_token (some g) =
        learn_as (o.name ++ lit ".refresh_token") g.refresh_token
        >> pure (some (g.refresh_token, true, g.scope))

    unfoldable pub refresh_token_for : Grant S → Io S (Option (Text × Bool × Option Text))
    unfolding present enrolled_token stored_grant
    refresh_token_for client_credentials = pure none
    refresh_token_for (jwt_bearer key issuer subject audience) = pure none
    refresh_token_for (refresh_token_of source) =
        present source (lit "refresh_token") >>= λ t. pure (some (t, false, none))
    refresh_token_for enrolled = stored_grant os lib o.name >>= enrolled_token

    abbrev maybe_jti : Bool → Io S (Option Text)
    unfolding random_urlsafe
    maybe_jti true = random_urlsafe 16 >>= λ jti. pure (some jti)
    maybe_jti false = pure none

    unfoldable pub assertion :
        AssertionKey S → (issuer subject audience : Text) → Bool → Option Text → Io S Text
    unfolding present sign random_urlsafe
    assertion key issuer subject audience with_jti scope =
        present key.source (lit "private_key") >>= λ pem. maybe_jti with_jti >>= λ jti.
        sign pem key.algorithm key.key_id (record {
          issuer = issuer;
          subject = subject;
          audience = audience;
          scope = scope;
          jti = jti;
          lifetime_secs = key.lifetime / nanos_per_sec;
          extra = [];
        })

    abbrev client_id_param : Text × Text
    client_id_param = (lit "client_id", o.cfg.client_id)

    -- The form parameters and the headers that authenticate the client.
    unfoldable pub auth_of : ClientAuth S → Io S (Params × Params)
    unfolding present assertion
    auth_of no_auth = pure (client_id_param ∷ [], [])
    auth_of (client_secret_post secret) = present secret (lit "client_secret") >>= λ value.
        pure (client_id_param ∷ (lit "client_secret", value) ∷ [], [])
    auth_of (private_key_jwt key) =
        assertion key o.cfg.client_id o.cfg.client_id o.cfg.token_endpoint true none >>= λ signed.
        pure (
          client_id_param
              ∷ (
                lit "client_assertion_type",
                lit "urn:ietf:params:oauth:client-assertion-type:jwt-bearer",
              )
              ∷ (lit "client_assertion", signed)
              ∷ [],
          [],
        )
    auth_of (client_secret_basic secret) = present secret (lit "client_secret") >>= λ value. pure (
      [],
      (
        lit "authorization",
        lit "Basic "
            ++ base64_encode (percent_encode o.cfg.client_id ++ (b':' ∷ percent_encode value)),
      )
          ∷ [],
    )

    -- The parameters of the grant, for a routine request.
    unfoldable pub params_of : Grant S → Io S Params
    unfolding assertion refresh_token_for refresh_params scope_params
    params_of (jwt_bearer key issuer subject audience) =
        assertion key issuer subject audience false (joined_scope o.cfg.scope) >>= λ signed. pure (
          (lit "grant_type", lit "urn:ietf:params:oauth:grant-type:jwt-bearer")
          ∷ (lit "assertion", signed)
          ∷ scope_params o.cfg.scope none)
    params_of g = refresh_token_for g >>= λ held. pure (
        refresh_params held
        ++ (scope_params o.cfg.scope (granted_scope held)
            ++ push_some (lit "audience") o.cfg.audience))

    unfoldable pub form_body : Params → Params → Text
    unfolding form_urlencode
    form_body params auth_params = form_urlencode ((params ++ auth_params) ++ o.cfg.extra_params)
