-- ===== src/Llm/Router/Requests.antt =====
-- crates/marshal-llm/src/router.rs: what the router does to a request.
use bot_marshal.Prelude.{
  ℕ, Text, none, some, List, [], ◌∷◌, Result, ok, err, ◌>>=◌, map_err, find_entry, lit, format,
}
use bot_marshal.Core.Error.{Error, body_too_large}
use bot_marshal.Core.Json.{Json}
use bot_marshal.Core.Request.{BodyHandle, RequestContext}
use bot_marshal.Secrets.Oauth.Token.{str_field}
use bot_marshal.Llm.Router.{
  default_chat_path, LlmListen, LlmModelTarget, LlmUnmapped, pass, deny, LlmRouterConfig, RouterLib,
  Translation, listen_for, routed, path_of, other_error, encode_body,
}

module _ (lib : RouterLib) (t : Translation) (c : LlmRouterConfig) where
  abbrev pub buffered_body : BodyHandle → ℕ → Result Error (List ℕ)
  buffered_body (BodyHandle.buffered bytes) cap = ok bytes
  buffered_body (BodyHandle.over_limit p l o) cap = err (body_too_large cap)
  buffered_body BodyHandle.empty cap =
      err (Error.other (lit "LLM router requires a buffered JSON request body"))
  buffered_body BodyHandle.streaming cap =
      err (Error.other (lit "LLM router requires a buffered JSON request body"))

  unfoldable pub model_of : Json → Result Error Text
  unfolding str_field
  model_of body = elim (str_field (lit "model") body) [
    | none ↦ err (Error.other (lit "LLM request body has no string `model` field"))
    | some m ↦ ok m
  ]

  abbrev pub bad_path : Text → Text → Error
  bad_path path e =
      Error.other (format (lit "invalid mapped LLM path `" ∷ path ∷ lit "`: " ∷ e ∷ []))

  unfoldable pub send_to :
      LlmListen → Text → LlmModelTarget → Json → RequestContext → Result Error RequestContext
  unfolding encode_body routed default_chat_path
  send_to l from_model target body cx =
      map_err (other_error (lit "could not translate LLM request: "))
        (t.on_request l.dialect target.target_dialect body target.model)
      >>= λ translated. encode_body lib translated >>= λ bytes.
          map_err (bad_path (path_of target)) (lib.parse_uri (path_of target)) >>= λ uri.
          ok (routed l from_model target bytes uri cx)

  -- A model that the table does not have is passed on, or refused.
  unfoldable pub not_mapped : LlmUnmapped → Text → RequestContext → Result Error RequestContext
  not_mapped pass from_model cx = ok cx
  not_mapped deny from_model cx = err (
      Error.other (
        format
          (lit "LLM model `" ∷ from_model ∷ lit "` is not present in the router model map" ∷ [])))

  unfoldable pub route_model :
      LlmListen → Json → RequestContext → Text → Result Error RequestContext
  unfolding send_to not_mapped find_entry
  route_model l body cx from_model = elim (find_entry from_model c.models) [
    | none ↦ not_mapped c.unmapped from_model cx
    | some target ↦ send_to l from_model target body cx
  ]

  unfoldable pub route_listed : LlmListen → RequestContext → Result Error RequestContext
  unfolding route_model model_of
  route_listed l cx = buffered_body cx.body c.max_request_bytes >>= λ bytes.
      map_err (other_error (lit "LLM request body is not valid JSON: ")) (lib.from_slice bytes)
      >>= λ body. model_of body >>= route_model l body cx

  -- `RequestTransform::apply`.
  unfoldable pub route_request : RequestContext → Result Error RequestContext
  unfolding listen_for route_listed
  route_request cx = elim (listen_for c cx.authority.host cx.uri.path) [
    | none ↦ ok cx
    | some l ↦ route_listed l cx
  ]
