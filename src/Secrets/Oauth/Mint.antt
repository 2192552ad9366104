-- ===== src/Secrets/Oauth/Mint.antt =====
-- crates/marshal-secrets/src/oauth/source.rs and claim.rs: obtaining a token, keeping it, and handing
-- it out. Logging is left out.
use bot_marshal.Prelude.{
  ℕ, Text, Option, none, some, [], ◌∷◌, ◌++◌, Result, ok, err, lit, format, if◌then◌else◌,
}
use bot_marshal.Core.Error.{Error, config}
use bot_marshal.Core.Json.{Json}
use bot_marshal.Core.Redact.{Redactor, learn}
use bot_marshal.Secrets.Oauth.Token.{
  WireLib, TokenResponse, CachedToken, parse_response, decode_id_token_claims, describe_error,
}
use bot_marshal.Secrets.Oauth.Jwt.{KeyLib}
use bot_marshal.Secrets.Oauth.World.{Os, PostRequest, Io, ◌>>=◌, ◌>>◌, pure, throw, of_result}
use bot_marshal.Secrets.Oauth.Store.{cached_access, put_access, put_grant, with_id_token, now_unix}
use bot_marshal.Secrets.Oauth.Client.{
  Params, Oauth2Source, Grant, client_credentials, enrolled, refresh_token_of, jwt_bearer,
  TokenExchange, ExchangeSubject, id_token, access_token, token_type_uri, auth_of, params_of,
  form_body,
}

abbrev take_id_token : ExchangeSubject → Text
take_id_token id_token = lit "exchanging the id token for"
take_id_token access_token = lit "exchanging the access token for"

module _ {S : Type 0} (os : Os S) (lib : WireLib) (keys : KeyLib) (o : Oauth2Source S) where
  -- "{what} the `{name}` credential"
  abbrev credential_message : Text → Text → Text
  credential_message what tail =
      format (what ∷ lit " the `" ∷ o.name ∷ lit "` credential" ∷ tail ∷ [])

  abbrev at_endpoint : Text → Text → Error
  at_endpoint what e =
      config
        (credential_message what (format (lit " at " ∷ o.cfg.token_endpoint ∷ lit ": " ∷ e ∷ [])))

  -- `bounded`: an answer, or the error that the limit was reached.
  unfoldable pub bounded_answer :
      (Text → Error) → Error → Option (Result Text (ℕ × Json)) → Result Error (ℕ × Json)
  bounded_answer on_error late none = err late
  bounded_answer on_error late (some (err e)) = err (on_error e)
  bounded_answer on_error late (some (ok answer)) = ok answer

  unfoldable pub bounded : (Text → Error) → Error → PostRequest → Io S (ℕ × Json)
  unfolding bounded_answer
  bounded on_error late request w =
      let (answer, s) = os.post_form o.cfg.timeout request w.outside in
      of_result (bounded_answer on_error late answer) (record w { outside = s })

  abbrev pub too_late : Text → Text → Error
  too_late what url = config (
      credential_message what (
        format (
          lit ": " ∷ url ∷ lit " did not respond within " ∷ lib.debug_duration o.cfg.timeout ∷ [])))

  abbrev learn_some : Text → Option Text → Redactor → Redactor
  learn_some label none redactor = redactor
  learn_some label (some value) redactor = learn label value redactor

  -- Each token of a response is learned before it is used.
  unfoldable pub learned : TokenResponse → Redactor → Redactor
  learned r redactor =
      learn_some (o.name ++ lit ".id_token") r.id_token
        (learn_some o.name r.refresh_token (learn o.name r.access_token redactor))

  unfoldable pub learn_response : TokenResponse → Io S TokenResponse
  unfolding learned
  learn_response r w = (ok r, record w { redactor = learned r w.redactor })

  unfoldable pub read_answer : Text → ℕ × Json → Io S TokenResponse
  unfolding parse_response describe_error learn_response
  read_answer what (status, body) =
      if lib.is_success status
      then of_result (parse_response body) >>= learn_response
      else throw (at_endpoint what (describe_error (lib.status_string status) body))

  unfoldable pub token_form : Params → Params × Params → PostRequest
  unfolding form_body
  token_form params auth = record {
    endpoint = o.endpoint;
    path = o.path;
    headers = auth.1;
    form = form_body os lib keys o params auth.0;
  }

  unfoldable pub post_token : Text → Params → Io S TokenResponse
  unfolding auth_of token_form bounded read_answer
  post_token what params = auth_of os lib keys o o.cfg.client_auth >>= λ auth.
      bounded (at_endpoint what) (too_late what o.cfg.token_endpoint) (token_form params auth)
      >>= read_answer what

  -- A rotated refresh token is saved only if marshal keeps the grant itself.
  unfoldable pub save_rotation : Grant S → Text → Option Text → Io S (Unit {0})
  unfolding put_grant now_unix
  save_rotation client_credentials token scope = pure tt
  save_rotation (jwt_bearer key issuer subject audience) token scope = pure tt
  save_rotation (refresh_token_of source) token scope = pure tt
  save_rotation enrolled token scope = now_unix os >>= λ at.
      put_grant os lib o.name (record { refresh_token = token; obtained_at = at; scope = scope })

  unfoldable pub persist_rotation : TokenResponse → Io S (Unit {0})
  unfolding save_rotation
  persist_rotation r = elim r.refresh_token [
    | none ↦ pure tt
    | some token ↦ save_rotation o.cfg.grant token r.scope
  ]

  unfoldable pub no_id_token : Error
  no_id_token = config (
      format (
        lit "`"
        ∷ o.name
        ∷ lit
            "` is configured with `token_exchange: { subject: id_token }`, but the grant response "
        ∷ lit "carried no `id_token` to exchange"
        ∷ []))

  abbrev subject_token : ExchangeSubject → TokenResponse → Option Text → Io S Text
  unfolding no_id_token
  subject_token id_token r none = throw no_id_token
  subject_token id_token r (some token) = pure token
  subject_token access_token r held = pure r.access_token

  unfoldable pub exchange_token : TokenResponse → Option Text → TokenExchange → Io S TokenResponse
  unfolding no_id_token token_type_uri post_token
  exchange_token r held exchange = subject_token exchange.subject r held >>= λ subject.
      post_token (take_id_token exchange.subject) (
        (lit "grant_type", lit "urn:ietf:params:oauth:grant-type:token-exchange")
        ∷ (lit "subject_token", subject)
        ∷ (lit "subject_token_type", token_type_uri exchange.subject)
        ∷ exchange.exchange_params)

  unfoldable pub cache_token : TokenResponse → Io S (Unit {0})
  unfolding put_access with_id_token
  cache_token r =
      with_id_token os r.access_token r.expires_in o.cfg.expiry_skew r.id_token
      >>= put_access os o.name

  -- The exchanged response keeps the session's ID token.
  unfoldable pub exchanged : Option TokenExchange → TokenResponse → Io S TokenResponse
  unfolding exchange_token
  exchanged none r = pure r
  exchanged (some exchange) r =
      exchange_token (record r { id_token = none }) r.id_token exchange >>= λ fresh.
      pure (record fresh { id_token = r.id_token })

  unfoldable pub mint : Io S Text
  unfolding params_of post_token persist_rotation exchanged cache_token
  mint = params_of os lib keys o o.cfg.grant >>= λ params.
      post_token (lit "requesting") params >>= λ r.
      persist_rotation r >> exchanged o.cfg.token_exchange r >>= λ last.
      cache_token last >> pure last.access_token

  -- With the lock held, the cache is asked once more.
  abbrev or_mint : Io S Text → Option CachedToken → Io S Text
  or_mint m none = m
  or_mint m (some token) = pure token.value

  -- `wait` is what other tasks do until the lock is taken.
  unfoldable pub resolve_access : Io S (Unit {0}) → Io S Text
  unfolding cached_access mint
  resolve_access wait =
      cached_access os o.name >>= or_mint (wait >> cached_access os o.name >>= or_mint mint)

  abbrev token_value : Option CachedToken → Option Text
  token_value none = none
  token_value (some token) = some token.value

  -- `cached` and `preload`.
  unfoldable pub preload_token : Io S (Option Text)
  unfolding cached_access
  preload_token = cached_access os o.name >>= λ t. pure (token_value t)

  abbrev claims_of : Option Text → Io S (Option Json)
  claims_of none = pure none
  claims_of (some jwt) = of_result (decode_id_token_claims lib jwt) >>= λ claims. pure (some claims)

  abbrev claims_of_cached : Option CachedToken → Io S (Option Json)
  claims_of_cached none = pure none
  claims_of_cached (some token) = claims_of token.id_token

  unfoldable pub cached_id_token_claim : Io S (Option Json)
  unfolding cached_access
  cached_id_token_claim = cached_access os o.name >>= claims_of_cached

  unfoldable pub id_token_claim : Io S (Unit {0}) → Io S (Option Json)
  unfolding resolve_access cached_id_token_claim
  id_token_claim wait = resolve_access wait >> cached_id_token_claim
