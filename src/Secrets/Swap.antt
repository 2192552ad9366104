-- ===== src/Secrets/Swap.antt =====
-- crates/marshal-secrets/src/swap.rs: the credentials that are set on the requests for some hosts. A
-- secret source gives what it has at the moment of the request; what it keeps is its own.
pub mod Bound
pub mod Replaces
use bot_marshal.Prelude.{
  ℕ, Text, Option, none, some, Bool, true, false, ◌&&◌, List, [], ◌∷◌, ◌++◌, Result, ok, err, ◌>>=◌,
  find, is_empty, is_some, lit, text_eq, eq_ignore_ascii_case, if◌then◌else◌,
}
use bot_marshal.Core.Error.{Error}
use bot_marshal.Core.Json
use bot_marshal.Core.Evidence.{record_fact}
use bot_marshal.Core.Layer.{BodyRequirement, streaming, buffered, combine}
use bot_marshal.Core.Request.{RequestContext, Uri}
use bot_marshal.Core.Hosts.{NetLib, HostMatcher, matches}
use bot_marshal.Core.HeaderMap.{header_insert}
use bot_marshal.Core.Encoding.{base64_encode, percent_encode}
use bot_marshal.Secrets.Sigv4.{SigLib, sign_sigv4}

pub record SecretSource : Type 0 where
  pub resolve : Result Error Text
  pub preload : Result Error (Option Text)

pub data Injection : Type 0 where
  basic : (username : Text) (source : SecretSource) → Injection
  bearer : (source : SecretSource) → Injection
  header : (name : Text) (source : SecretSource) → Injection
  query : (name : Text) (source : SecretSource) → Injection
  sigv4 :
      (access_key_id secret_access_key : SecretSource) (session_token : Option SecretSource)
      (region service : Text) (body_cap : ℕ)
      → Injection

pub record SecretSwap (Net : Type 0) : Type 0 where
  pub name : Text
  pub injection : Injection
  pub hosts : HostMatcher Net

pub record SecretInjector (Net : Type 0) : Type 0 where
  pub swaps : List (SecretSwap Net)
  pub exceptions : List (Text × Text)

unfoldable pub injector_new : {Net : Type 0} → List (SecretSwap Net) → SecretInjector Net
injector_new swaps = record { swaps = swaps; exceptions = [] }

unfoldable pub excluding :
    {Net : Type 0} → SecretInjector Net → List (Text × Text) → SecretInjector Net
excluding injector endpoints = record injector { exceptions = endpoints }

unfoldable pub excluded :
    {Net : Type 0} → SecretInjector Net → RequestContext → Option (Text × Text)
excluded injector cx =
    find (λ e. eq_ignore_ascii_case cx.authority.host e.0 && text_eq cx.uri.path e.1)
      injector.exceptions

unfoldable pub is_empty_injector : {Net : Type 0} → SecretInjector Net → Bool
is_empty_injector injector = is_empty injector.swaps

abbrev token_source : Text → Option SecretSource → List (Text × SecretSource)
token_source name none = []
token_source name (some token) = (name ++ lit ".session_token", token) ∷ []

unfoldable pub labeled_sources : Text → Injection → List (Text × SecretSource)
labeled_sources name (basic username source) = (name, source) ∷ []
labeled_sources name (bearer source) = (name, source) ∷ []
labeled_sources name (header h source) = (name, source) ∷ []
labeled_sources name (query q source) = (name, source) ∷ []
labeled_sources name (sigv4 access_key secret_key token region service cap) =
    (name ++ lit ".access_key_id", access_key)
    ∷ (name ++ lit ".secret_access_key", secret_key)
    ∷ token_source name token

-- What is held already; an error is only logged.
abbrev held : Text → Result Error (Option Text) → List (Text × Text)
held label (ok (some v)) = (label, v) ∷ []
held label (ok none) = []
held label (err e) = []

preload_all : List (Text × SecretSource) → List (Text × Text)
preload_all [] = []
preload_all ((label, source) ∷ sources) = held label source.preload ++ preload_all sources

unfoldable pub resolve_all : {Net : Type 0} → List (SecretSwap Net) → List (Text × Text)
unfolding preload_all labeled_sources
resolve_all [] = []
resolve_all (swap ∷ swaps) =
    preload_all (labeled_sources swap.name swap.injection) ++ resolve_all swaps

injection_requirement : Injection → BodyRequirement
injection_requirement (sigv4 access_key secret_key token region service cap) = buffered cap
injection_requirement (basic username source) = streaming
injection_requirement (bearer source) = streaming
injection_requirement (header name source) = streaming
injection_requirement (query name source) = streaming

swaps_requirement : {Net : Type 0} → BodyRequirement → List (SecretSwap Net) → BodyRequirement
unfolding injection_requirement
swaps_requirement acc [] = acc
swaps_requirement acc (s ∷ swaps) =
    swaps_requirement (combine acc (injection_requirement s.injection)) swaps

unfoldable pub swap_requirement : {Net : Type 0} → SecretInjector Net → BodyRequirement
unfolding swaps_requirement
swap_requirement injector = swaps_requirement streaming injector.swaps

-- The `?` on the optional token.
abbrev resolve_token : Option SecretSource → Result Error (Option Text)
resolve_token none = ok none
resolve_token (some source) = do token ← source.resolve; ok (some token)

-- `unwrap_or("")`.
abbrev query_text : Option Text → Text
query_text none = []
query_text (some q) = q

-- `rebuild_uri` is the parser of the crate http: the URI with another path and query.
module _ (net : NetLib) (lib : SigLib) (rebuild_uri : Uri → Text → Option Uri) where
  open net use {Net}
  open lib use {from_str}

  -- The request, and whether the header was set.
  unfoldable pub try_set_header : RequestContext → Text → Text → RequestContext × Bool
  unfolding header_insert
  try_set_header cx name value = elim (from_str value) [
    | some v ↦ (record cx { headers = header_insert name v cx.headers }, true)
    | none ↦ (cx, false)
  ]

  unfoldable pub append_query : Uri → Text → Text → Option Uri
  unfolding percent_encode
  append_query uri name value =
      let path = if is_empty uri.path then lit "/" else uri.path in
      let existing = query_text uri.query in
      let pair = name ++ (lit "=" ++ percent_encode value) in
      let new_query = if is_empty existing then pair else existing ++ (lit "&" ++ pair) in
      rebuild_uri uri (path ++ (lit "?" ++ new_query))

  set_query : RequestContext → Option Uri → RequestContext × Bool
  set_query cx (some uri) = (record cx { uri = uri }, true)
  set_query cx none = (cx, false)

  unfoldable pub inject : Injection → RequestContext → Result Error (RequestContext × Bool)
  unfolding try_set_header base64_encode append_query set_query sign_sigv4
  inject (basic username source) cx = do
    real ← source.resolve
    ok (
        try_set_header cx (lit "authorization")
          (lit "Basic " ++ base64_encode (username ++ (lit ":" ++ real))))
  inject (bearer source) cx = do
    real ← source.resolve
    ok (try_set_header cx (lit "authorization") (lit "Bearer " ++ real))
  inject (header name source) cx = do real ← source.resolve; ok (try_set_header cx name real)
  inject (query name source) cx = do
    real ← source.resolve
    ok (set_query cx (append_query cx.uri name real))
  inject (sigv4 access_key_id secret_access_key session_token region service cap) cx = do
    access_key ← access_key_id.resolve
    secret_key ← secret_access_key.resolve
    token ← resolve_token session_token
    signed ← sign_sigv4 lib cx access_key secret_key token region service
    ok (signed, true)

  -- `cx.evidence.record(.., true)`.
  unfoldable pub note_fact : Text → RequestContext → RequestContext
  unfolding record_fact
  note_fact key cx = record cx { evidence = (record_fact key (Json.bool true) cx.evidence).0 }

  unfoldable pub note_injected : SecretSwap Net → RequestContext × Bool → RequestContext
  unfolding note_fact
  note_injected swap (cx, injected) =
      if injected then note_fact (lit "secrets.injected." ++ swap.name) cx else cx

  unfoldable pub is_for : RequestContext → SecretSwap Net → Bool
  unfolding matches
  is_for cx swap = is_some (matches net swap.hosts cx.authority.host)

  unfoldable pub apply_swaps : List (SecretSwap Net) → RequestContext → Result Error RequestContext
  unfolding is_for inject note_injected
  apply_swaps [] cx = ok cx
  apply_swaps (swap ∷ swaps) cx = elim (is_for cx swap) [
    | true ↦ inject swap.injection cx >>= λ r. apply_swaps swaps (note_injected swap r)
    | false ↦ apply_swaps swaps cx
  ]

  -- A request whose transform fails is refused, so an error holds no request.
  unfoldable pub apply_injector : SecretInjector Net → RequestContext → Result Error RequestContext
  unfolding excluded note_fact apply_swaps
  apply_injector injector cx = elim (excluded injector cx) [
    | some (host, path) ↦ ok (note_fact (lit "secrets.not_injected." ++ (host ++ path)) cx)
    | none ↦ apply_swaps injector.swaps cx
  ]
