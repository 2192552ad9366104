-- ===== src/Tests/Routes.antt =====
-- The router at a concrete request.
use bot_marshal.Prelude.{
  some, ◌≡◌, none, [], ◌∷◌, ok, lit, refl, text_eq, eq_ignore_ascii_case, trim_end_by, find_entry,
}
use bot_marshal.Core.Json.{Fields, string, object, field, end, get, get_field, as_str}
use bot_marshal.Core.Request.{RequestContext, BodyHandle}
use bot_marshal.Llm.Sse.{openai, anthropic}
use bot_marshal.Llm.Router.{
  LlmListen, LlmModelTarget, LlmRouterConfig, deny, RouterLib, Translation, routed, listen_for,
  listens, path_matches, host_matches, default_chat_path, encode_body,
}
use bot_marshal.Llm.Router.Requests.{route_request, route_listed, route_model, model_of, send_to}
use bot_marshal.Llm.Router.Confined.{IsConfined, route_request-IsConfined}
use bot_marshal.Secrets.Oauth.Token.{str_field}
use bot_marshal.Llm.Stream.{LlmLib}
use bot_marshal.Llm.Translate.ToAnthropic.{openai_request_to_anthropic, openai_object_to_anthropic}
use bot_marshal.Llm.Translate.Bodies.{request_between, translate_request}
use bot_marshal.Llm.Translate.Named.{translate_request-IsNamed}
use bot_marshal.Llm.Sse.Chunks.{dialect_eq}
use bot_marshal.Tests.Data.{to_host}

abbrev router_lib : RouterLib
router_lib = record {
  from_slice = λ bytes. ok (object (field (lit "model") (string (lit "gpt")) end));
  to_vec = λ v. ok (7 ∷ []);
  parse_uri = λ path. ok (record { path = path; query = none });
}

abbrev unchanged : Translation
unchanged = record {
  on_request = λ source target v model. ok v;
  on_response = λ source target v model. ok v;
}

abbrev listen : LlmListen
listen = record { dialect = openai; hosts = lit "a.b" ∷ []; paths = [] }

abbrev target : LlmModelTarget
target = record {
  model = lit "claude";
  target_dialect = anthropic;
  target_host = lit "x.y";
  target_path = none;
  target_port = 443;
}

abbrev config : LlmRouterConfig
config = record {
  listen = listen ∷ [];
  models = (lit "gpt", target) ∷ [];
  unmapped = deny;
  max_request_bytes = 100;
  max_response_bytes = 100;
}

abbrev cx : RequestContext
cx = record (to_host (lit "a.b")) {
  uri = record { path = lit "/v1/chat/completions"; query = none };
  headers = (lit "authorization", lit "Bearer mine") ∷ [];
  body = BodyHandle.buffered (1 ∷ []);
}

abbrev out : RequestContext
out =
    routed listen (lit "gpt") target (7 ∷ []) (record { path = lit "/v1/messages"; query = none })
      cx

route_request-IsConfined_example : IsConfined router_lib config (lit "authorization") cx out
unfolding text_eq lit route_request listen_for listens path_matches host_matches default_chat_path
    route_listed route_model model_of send_to encode_body trim_end_by eq_ignore_ascii_case str_field
    get get_field as_str find_entry
route_request-IsConfined_example =
    route_request-IsConfined router_lib unchanged config (lit "authorization") cx out refl refl

abbrev documents : LlmLib
documents = record { from_str = λ s. none; print = λ v. lit "{}" }

abbrev small : Fields
small = field (lit "model") (string (lit "gpt")) end

translate_request-IsNamed_example :
    get (lit "model") (openai_object_to_anthropic documents (object small) (lit "claude"))
    ≡ some (string (lit "claude"))
unfolding translate_request dialect_eq request_between openai_request_to_anthropic
translate_request-IsNamed_example =
    translate_request-IsNamed documents (lit "claude") openai anthropic small
      (openai_object_to_anthropic documents (object small) (lit "claude")) refl
