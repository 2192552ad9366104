-- ===== src/Llm/Router.antt =====
-- crates/marshal-llm/src/router.rs, and the router's part of crates/marshal-config/src/model.rs. The
-- translation of a document is an argument; Translate/Bodies has that of translate.rs. serde_json and
-- the parser of URIs are parameters.
use bot_marshal.Prelude.{
  ℕ, Text, Option, none, some, Bool, true, false, not, ◌&&◌, ◌||◌, List, [], ◌∷◌, ◌++◌, Result, ok,
  err, ◌>>=◌, map_err, any, find, find_entry, is_empty, keep, map, length, lit, format, decimal,
  text_eq, eq_ignore_ascii_case, trim_end_by, ◌==◌, if◌then◌else◌,
}
use bot_marshal.Core.Error.{Error, body_too_large}
use bot_marshal.Core.Error
use bot_marshal.Core.Json.{
  Json, string, array, object, Items, nil, item, Fields, end, field, of_items,
}
use bot_marshal.Core.Evidence.{Evidence, record_fact}
use bot_marshal.Core.Layer.{BodyRequirement, streaming, buffered}
use bot_marshal.Core.Request.{Authority, BodyHandle, LlmRoute, RequestContext, ResponseParts, Uri}
use bot_marshal.Core.HeaderMap.{Headers, remove, header_insert}
use bot_marshal.Secrets.Oauth.Token.{str_field}
use bot_marshal.Llm.Sse.{Dialect, openai, anthropic, system_one, DialectSse, new_sse}
pub mod Removed
pub mod Confined
pub mod Requests
pub mod Responses

unfoldable pub dialect_name : Dialect → Text
dialect_name openai = lit "openai"
dialect_name anthropic = lit "anthropic"
dialect_name system_one = lit "system_one"

unfoldable pub default_chat_path : Dialect → Text
default_chat_path openai = lit "/v1/chat/completions"
default_chat_path anthropic = lit "/v1/messages"
default_chat_path system_one = lit "/v1/systemone"

pub record LlmListen : Type 0 where
  pub dialect : Dialect
  pub hosts : List Text
  pub paths : List Text

pub record LlmModelTarget : Type 0 where
  pub model : Text
  pub target_dialect : Dialect
  pub target_host : Text
  pub target_path : Option Text
  pub target_port : ℕ

pub data LlmUnmapped : Type 0 where
  pass deny : LlmUnmapped

pub record LlmRouterConfig : Type 0 where
  pub listen : List LlmListen
  pub models : List (Text × LlmModelTarget)
  pub unmapped : LlmUnmapped
  pub max_request_bytes : ℕ
  pub max_response_bytes : ℕ

pub record RouterLib : Type 0 where
  pub from_slice : List ℕ → Result Text Json
  pub to_vec : Json → Result Text (List ℕ)
  pub parse_uri : Text → Result Text Uri

-- From one dialect to another, with the name of the model that the result has.
pub record Translation : Type 0 where
  pub on_request : (source target : Dialect) → Json → (model : Text) → Result Text Json
  pub on_response : (source target : Dialect) → Json → (model : Text) → Result Text Json

abbrev without_dots : Text → Text
without_dots s = trim_end_by (λ c. c == b'.') s

unfoldable pub host_matches : Text → Text → Bool
unfolding trim_end_by eq_ignore_ascii_case
host_matches left right = eq_ignore_ascii_case (without_dots left) (without_dots right)

unfoldable pub path_matches : LlmListen → Text → Bool
unfolding default_chat_path
path_matches l path =
    if is_empty l.paths
    then text_eq path (default_chat_path l.dialect)
    else any (λ candidate. text_eq candidate path) l.paths

unfoldable pub listens : Text → LlmListen → Bool
unfolding host_matches
listens host l = any (λ candidate. host_matches candidate host) l.hosts

unfoldable pub listen_for : LlmRouterConfig → (host path : Text) → Option LlmListen
unfolding listens path_matches
listen_for c host path = find (λ l. listens host l && path_matches l path) c.listen

unfoldable pub listens_on : LlmRouterConfig → Text → Bool
unfolding listens
listens_on c host = any (listens host) c.listen

abbrev is_elsewhere : Text → Text × LlmModelTarget → Bool
unfolding host_matches
is_elsewhere host entry =
    not (host_matches entry.1.target_host host) || not (entry.1.target_port == 443)

unfoldable pub defers_connect : LlmRouterConfig → Text → Bool
unfolding listens_on host_matches
defers_connect c host = listens_on c host && any (is_elsewhere host) c.models

unfoldable pub parse_dialect : Text → Result Error Dialect
parse_dialect value =
    if text_eq value (lit "openai")
    then ok openai
    else if text_eq value (lit "anthropic")
    then ok anthropic
    else if text_eq value (lit "system_one")
    then ok system_one
    else err
        (Error.other (format (lit "unknown LLM dialect `" ∷ value ∷ lit "` in route state" ∷ [])))

unfoldable pub request_requirement : LlmRouterConfig → Authority → Uri → BodyRequirement
unfolding listen_for
request_requirement c authority uri = elim (listen_for c authority.host uri.path) [
  | none ↦ streaming
  | some l ↦ buffered c.max_request_bytes
]

unfoldable pub response_requirement : LlmRouterConfig → RequestContext → BodyRequirement
response_requirement c cx = elim cx.llm_route [
  | none ↦ streaming
  | some route ↦ buffered c.max_response_bytes
]

-- The headers that belong to the endpoint that the client sees.
abbrev pub client_headers : List Text
client_headers =
    lit "authorization"
    ∷ lit "x-api-key"
    ∷ lit "content-encoding"
    ∷ lit "anthropic-version"
    ∷ lit "anthropic-beta"
    ∷ lit "openai-organization"
    ∷ lit "openai-project"
    ∷ []

unfoldable pub remove_all : List Text → Headers → Headers
remove_all [] headers = headers
remove_all (name ∷ names) headers = remove_all names (remove name headers)

abbrev pub version_header : Dialect → Headers → Headers
unfolding header_insert
version_header anthropic headers =
    header_insert (lit "anthropic-version") (lit "2023-06-01") headers
version_header openai headers = headers
version_header system_one headers = headers

unfoldable pub routed_headers : Dialect → ℕ → Headers → Headers
unfolding remove_all header_insert
routed_headers dialect len headers = version_header dialect (
    header_insert (lit "content-length") (decimal len) (
      header_insert (lit "content-type") (lit "application/json")
        (remove_all client_headers headers)))

abbrev pub path_of : LlmModelTarget → Text
unfolding default_chat_path
path_of target = elim target.target_path [
  | none ↦ default_chat_path target.target_dialect
  | some path ↦ path
]

abbrev note : Text → Text → Evidence → Evidence
unfolding record_fact
note key value ev = (record_fact key (string value) ev).0

unfoldable pub routed_evidence : Text → LlmModelTarget → Evidence → Evidence
unfolding record_fact dialect_name
routed_evidence from_model target ev =
    note (lit "llm_router.to_dialect") (dialect_name target.target_dialect) (
      note (lit "llm_router.to_host") target.target_host (
        note (lit "llm_router.to_model") target.model
          (note (lit "llm_router.from_model") from_model ev)))

unfoldable pub routed :
    LlmListen → Text → LlmModelTarget → List ℕ → Uri → RequestContext → RequestContext
unfolding routed_headers routed_evidence dialect_name
routed l from_model target body uri cx = record cx {
  body = BodyHandle.buffered body;
  headers = routed_headers target.target_dialect (length body) cx.headers;
  uri = uri;
  authority = record { host = target.target_host; port = target.target_port };
  evidence = routed_evidence from_model target cx.evidence;
  llm_route = some (record {
    client_dialect = dialect_name l.dialect;
    origin_dialect = dialect_name target.target_dialect;
    from_model = from_model;
    to_model = target.model;
    to_host = target.target_host;
  });
}

abbrev pub other_error : Text → Text → Error
other_error what e = Error.other (what ++ e)

unfoldable pub encode_body : RouterLib → Json → Result Error (List ℕ)
encode_body lib v = map_err (other_error (lit "could not encode routed LLM JSON: ")) (lib.to_vec v)
