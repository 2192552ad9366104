-- ===== src/Llm/Router/Responses.antt =====
-- crates/marshal-llm/src/router.rs: what the router does to a response, and the catalogue of models. The
-- answer is that of crates/marshal-core/src/policy.rs.
use bot_marshal.Prelude.{
  ℕ, Text, Option, none, some, Bool, not, ◌&&◌, List, [], ◌∷◌, Result, ok, err, ◌>>=◌, map_err, any,
  keep, map, length, lit, decimal, text_eq, if◌then◌else◌,
}
use bot_marshal.Core.Error.{Error, body_too_large}
use bot_marshal.Core.Json.{Json, string, array, object, end, field, of_items}
use bot_marshal.Core.Request.{BodyHandle, LlmRoute, RequestContext, ResponseParts}
use bot_marshal.Core.HeaderMap.{remove, header_insert}
use bot_marshal.Llm.Sse.{Dialect, openai, system_one, DialectSse, new_sse}
use bot_marshal.Llm.Sse.Chunks.{dialect_eq}
use bot_marshal.Llm.Router.{
  LlmListen, LlmModelTarget, LlmRouterConfig, RouterLib, Translation, listens, parse_dialect,
  other_error, encode_body,
}

pub record SynthesizedResponse : Type 0 where
  pub status : ℕ
  pub headers : List (Text × Text)
  pub body : List ℕ
  pub code : Text
  pub message : Text

module _ (lib : RouterLib) (t : Translation) (c : LlmRouterConfig) where
  unfoldable pub translated_response :
      LlmRoute → List ℕ → ResponseParts → Result Error ResponseParts
  unfolding parse_dialect encode_body header_insert
  translated_response route bytes response =
      map_err (other_error (lit "LLM response body is not valid JSON: ")) (lib.from_slice bytes)
      >>= λ body. parse_dialect route.origin_dialect >>= λ origin.
          parse_dialect route.client_dialect >>= λ client.
          map_err (other_error (lit "could not translate LLM response: "))
            (t.on_response origin client body route.from_model)
          >>= λ translated. encode_body lib translated >>= λ encoded. ok (record response {
            body = BodyHandle.buffered encoded;
            headers = header_insert (lit "content-length") (decimal (length encoded)) (
                header_insert (lit "content-type") (lit "application/json")
                  (remove (lit "content-encoding") response.headers));
          })

  unfoldable pub route_body : LlmRoute → BodyHandle → ResponseParts → Result Error ResponseParts
  unfolding translated_response
  route_body route (BodyHandle.buffered []) response = ok response
  route_body route (BodyHandle.buffered (b ∷ bytes)) response =
      translated_response route (b ∷ bytes) response
  route_body route (BodyHandle.over_limit p l o) response =
      err (body_too_large c.max_response_bytes)
  route_body route BodyHandle.empty response = ok response
  route_body route BodyHandle.streaming response = ok response

  -- `ResponseTransform::apply`.
  unfoldable pub route_response : RequestContext → ResponseParts → Result Error ResponseParts
  unfolding route_body
  route_response cx response = elim cx.llm_route [
    | none ↦ ok response
    | some route ↦ route_body route response.body response
  ]

  abbrev session_between :
      LlmRoute → Result Error Dialect → Result Error Dialect → Option DialectSse
  unfolding new_sse
  session_between route (ok origin) (ok client) = some (new_sse origin client route.from_model)
  session_between route (ok origin) (err e) = none
  session_between route (err e) client = none

  unfoldable pub stream_session : RequestContext → Option DialectSse
  unfolding parse_dialect new_sse
  stream_session cx = elim cx.llm_route [
    | none ↦ none
    | some route ↦
        if text_eq route.client_dialect (lit "system_one")
        then none
        else session_between route (parse_dialect route.origin_dialect)
            (parse_dialect route.client_dialect)
  ]

  abbrev model_entry : Text × LlmModelTarget → Json
  model_entry entry = object (
      field (lit "id") (string entry.0) (
        field (lit "object") (string (lit "model"))
          (field (lit "owned_by") (string (lit "bot-marshal")) end)))

  abbrev is_chat : Text × LlmModelTarget → Bool
  unfolding dialect_eq
  is_chat entry = not (dialect_eq entry.1.target_dialect system_one)

  unfoldable pub model_catalog : Json
  unfolding dialect_eq of_items
  model_catalog = object (
      field (lit "data") (array (of_items (map model_entry (keep is_chat c.models))))
        (field (lit "object") (string (lit "list")) end))

  abbrev is_openai_listen : Text → LlmListen → Bool
  unfolding dialect_eq listens
  is_openai_listen host l = dialect_eq l.dialect openai && listens host l

  abbrev catalogue_answer : List ℕ → SynthesizedResponse
  catalogue_answer bytes = record {
    status = 200;
    headers = (lit "content-type", lit "application/json") ∷ [];
    body = bytes;
    code = lit "model_catalog";
    message = lit "served the configured client-facing LLM model catalog";
  }

  unfoldable pub catalogue : Result Error SynthesizedResponse
  unfolding model_catalog
  catalogue =
      map_err (other_error (lit "could not encode LLM model catalog: ")) (lib.to_vec model_catalog)
      >>= λ bytes. ok (catalogue_answer bytes)

  -- `RequestResponder::respond`.
  unfoldable pub respond : RequestContext → Result Error (Option SynthesizedResponse)
  unfolding catalogue dialect_eq listens
  respond cx =
      if text_eq cx.method (lit "GET")
        && text_eq cx.uri.path (lit "/v1/models")
        && any (is_openai_listen cx.authority.host) c.listen
      then (catalogue >>= λ answer. ok (some answer))
      else ok none
