-- ===== src/Llm/Translate/Bodies.antt =====
-- crates/marshal-llm/src/translate.rs: `translate_request` and `translate_response`, which choose the direction,
-- and the shapes of errors.
use bot_marshal.Prelude.{
  Text, Option, none, some, Bool, true, false, not, ◌&&◌, ◌||◌, [], ◌∷◌, Result, ok, err, map_err,
  lit, if◌then◌else◌,
}
use bot_marshal.Core.Json.{Json, null, bool, number, string, array, object, end, field, get}
use bot_marshal.Llm.Stream.{LlmLib, pointer, str_of}
use bot_marshal.Llm.Sse.{Dialect, openai, anthropic, system_one}
use bot_marshal.Llm.Sse.Chunks.{dialect_eq, with_model}
use bot_marshal.Llm.Translate.{
  TranslateError, untranslatable, error_text, text_value, text_or, first_text, is_text, has_value,
}
use bot_marshal.Llm.Translate.ToAnthropic.{
  openai_request_to_anthropic, openai_response_to_anthropic,
}
use bot_marshal.Llm.Translate.ToOpenai.{anthropic_request_to_openai, anthropic_response_to_openai}
use bot_marshal.Llm.Router.{Translation}
use bot_marshal.Secrets.Oauth.Token.{str_field}
use bot_marshal.Secrets.Oauth.Jwt.{set_key}

abbrev is_state : Option Json → Bool
is_state (some (string s)) = true
is_state (some (object fs)) = true
is_state (some (array vs)) = true
is_state (some null) = false
is_state (some (bool b)) = false
is_state (some (number n)) = false
is_state none = false

abbrev has_questions : Option Json → Bool
has_questions (some (object (field k v fs))) = true
has_questions (some (object end)) = false
has_questions (some null) = false
has_questions (some (bool b)) = false
has_questions (some (number n)) = false
has_questions (some (string s)) = false
has_questions (some (array vs)) = false
has_questions none = false

abbrev is_true : Option Json → Bool
is_true (some (bool b)) = b
is_true (some null) = false
is_true (some (number n)) = false
is_true (some (string s)) = false
is_true (some (array vs)) = false
is_true (some (object fs)) = false
is_true none = false

unfoldable pub is_decision : Json → Bool
is_decision body =
    is_state (get (lit "state") body)
    && has_questions (get (lit "questions") body)
    && not (is_true (get (lit "stream") body))

unfoldable pub put_model : Text → Json → Json
unfolding set_key
put_model model (object fs) = object (set_key (lit "model") (string model) fs)
put_model model null = null
put_model model (bool b) = bool b
put_model model (number n) = number n
put_model model (string s) = string s
put_model model (array vs) = array vs

unfoldable pub anthropic_error : Json → Json
unfolding pointer str_field
anthropic_error body =
    let message = text_or (lit "origin error") (
      first_text (str_of (pointer (lit "error" ∷ lit "message" ∷ []) body))
        (str_field (lit "message") body)) in
    let kind = text_or (lit "api_error") (str_of (pointer (lit "error" ∷ lit "type" ∷ []) body)) in
    object (
      field (lit "error")
        (object (
          field (lit "code") (string kind)
            (field (lit "message") (string message) (field (lit "type") (string kind) end))))
        end)

unfoldable pub openai_error : Json → Json
unfolding str_field
openai_error e =
    let message = text_or (lit "origin error") (str_field (lit "message") e) in
    let kind =
      text_or (lit "api_error")
        (first_text (str_field (lit "type") e) (str_field (lit "code") e)) in
    object (
      field (lit "error")
        (object (field (lit "message") (string message) (field (lit "type") (string kind) end)))
        (field (lit "type") (text_value (lit "error")) end))

abbrev error_for_anthropic : Option Json → Json → Json
unfolding openai_error
error_for_anthropic none body = body
error_for_anthropic (some e) body = openai_error e

unfoldable pub map_error_shape : (source target : Dialect) → Json → Json
unfolding anthropic_error openai_error str_field
map_error_shape anthropic openai body =
    if is_text (lit "error") (str_field (lit "type") body) || has_value (get (lit "error") body)
    then anthropic_error body
    else body
map_error_shape openai anthropic body = error_for_anthropic (get (lit "error") body) body
map_error_shape openai openai body = body
map_error_shape anthropic anthropic body = body
map_error_shape openai system_one body = body
map_error_shape anthropic system_one body = body
map_error_shape system_one openai body = body
map_error_shape system_one anthropic body = body
map_error_shape system_one system_one body = body

abbrev apart : TranslateError
apart = untranslatable (lit "System One decision and chat dialects cannot be translated")

module _ (lib : LlmLib) where
  -- The last `match` of `translate_request`, and the test of equal dialects before it.
  unfoldable pub request_between :
      (source target : Dialect) → Json → Text → Result TranslateError Json
  unfolding put_model openai_request_to_anthropic anthropic_request_to_openai
  request_between openai openai body model = ok (put_model model body)
  request_between anthropic anthropic body model = ok (put_model model body)
  request_between system_one system_one body model = ok (put_model model body)
  request_between openai anthropic body model = openai_request_to_anthropic lib body model
  request_between anthropic openai body model = anthropic_request_to_openai lib body model
  request_between openai system_one body model = err apart
  request_between anthropic system_one body model = err apart
  request_between system_one openai body model = err apart
  request_between system_one anthropic body model = err apart

  unfoldable pub translate_request :
      (source target : Dialect) → Json → Text → Result TranslateError Json
  unfolding is_decision request_between dialect_eq
  translate_request source target body model =
      if dialect_eq source system_one && not (is_decision body)
      then err (
          untranslatable
            (lit "System One requires state and non-empty questions; streaming is not supported"))
      else request_between source target body model

  unfoldable pub response_between :
      (source target : Dialect) → Json → Text → Result TranslateError Json
  unfolding with_model openai_response_to_anthropic anthropic_response_to_openai
  response_between openai openai body model = ok (with_model model body)
  response_between anthropic anthropic body model = ok (with_model model body)
  response_between system_one system_one body model = ok (with_model model body)
  response_between anthropic openai body model = ok (anthropic_response_to_openai lib body model)
  response_between openai anthropic body model = ok (openai_response_to_anthropic lib body model)
  response_between openai system_one body model = err apart
  response_between anthropic system_one body model = err apart
  response_between system_one openai body model = err apart
  response_between system_one anthropic body model = err apart

  unfoldable pub translate_response :
      (source target : Dialect) → Json → Text → Result TranslateError Json
  unfolding map_error_shape response_between
  translate_response source target body model =
      response_between source target (map_error_shape source target body) model

  -- The translation that the router uses.
  abbrev pub translation : Translation
  unfolding translate_request translate_response error_text
  translation = record {
    on_request =
        λ source target body model. map_err error_text (translate_request source target body model);
    on_response = λ source target body model.
        map_err error_text (translate_response source target body model);
  }
