-- ===== src/Llm/Translate/ToOpenai.antt =====
-- crates/marshal-llm/src/translate.rs: requests and responses of Anthropic's dialect for OpenAI's.
use bot_marshal.Prelude.{
  ℕ, ◌+◌, Text, Option, none, some, ◌&&◌, ◌||◌, List, [], ◌∷◌, ◌++◌, Result, ok, err, is_empty,
  join, lit, ◌%◌, ◌^◌, if◌then◌else◌,
}
use bot_marshal.Core.Json.{Json, null, bool, number, string, array, object, end, field, get, items}
use bot_marshal.Llm.Stream.{LlmLib, pointer, str_of, items_of, value_or}
use bot_marshal.Llm.Sse.Chunks.{finish_reason_of}
use bot_marshal.Llm.Translate.{
  TranslateError, not_json, text_value, count, entries, document, list_value, unless_empty, text_or,
  add_text, is_text, has_value, block_texts, content_as_text, call_value,
}
use bot_marshal.Llm.Translate.ToAnthropic.{array_of, mapped, mapped_items}
use bot_marshal.Secrets.Oauth.Token.{str_field, value_as_u64}

-- What the blocks of a message hold: texts, tool calls, and messages with results.
pub record Blocks : Type 0 where
  pub texts : List Text
  pub tool_calls : List Json
  pub results : List Json

abbrev pub role_message : Text → Text → Json
role_message role text =
    object (field (lit "content") (string text) (field (lit "role") (string role) end))

abbrev pub message_of : Text → Blocks → List Json
unfolding entries
message_of role b =
    if is_empty b.texts && is_empty b.tool_calls
    then b.results
    else document (
        (lit "content", some (string (join (lit "\n") b.texts)))
        ∷ (lit "role", some (string role))
        ∷ (lit "tool_calls", unless_empty b.tool_calls)
        ∷ [])
      ∷ b.results

unfoldable pub anthropic_tool_choice_to_openai : Json → Json
unfolding str_field
anthropic_tool_choice_to_openai choice =
    let kind = str_field (lit "type") choice in
    if is_text (lit "none") kind
    then text_value (lit "none")
    else if is_text (lit "any") kind
    then text_value (lit "required")
    else if is_text (lit "tool") kind
    then object (
        field (lit "function")
          (object (
            field (lit "name") (value_or (text_value (lit "function")) (get (lit "name") choice))
              end))
          (field (lit "type") (text_value (lit "function")) end))
    else text_value (lit "auto")

unfoldable pub anthropic_tool_to_openai : Json → Json
anthropic_tool_to_openai tool = object (
    field (lit "function")
      (object (
        field (lit "description") (value_or (text_value []) (get (lit "description") tool)) (
          field (lit "name") (value_or (text_value (lit "function")) (get (lit "name") tool)) (
            field (lit "parameters")
              (value_or (object (field (lit "type") (text_value (lit "object")) end))
                (get (lit "input_schema") tool))
              end))))
      (field (lit "type") (text_value (lit "function")) end))

abbrev pub system_of : Option Json → Text
unfolding block_texts
system_of none = []
system_of (some (string s)) = s
system_of (some (array vs)) = join (lit "\n") (block_texts (items vs))
system_of (some null) = []
system_of (some (bool b)) = []
system_of (some (number n)) = []
system_of (some (object fs)) = []

abbrev pub system_message : Text → List Json
system_message [] = []
system_message (c ∷ s) = role_message (lit "system") (c ∷ s) ∷ []

abbrev pub null_if_empty : Text → Json
null_if_empty [] = null
null_if_empty (c ∷ s) = string (c ∷ s)

abbrev pub u64_or_zero : Option Json → ℕ
unfolding value_as_u64
u64_or_zero none = 0
u64_or_zero (some v) = elim (value_as_u64 v) [ none ↦ 0 | some n ↦ n ]

-- The sum wraps around in a release build.
unfoldable pub usage_of : Json → Json
unfolding pointer value_as_u64
usage_of body =
    let taken = pointer (lit "usage" ∷ lit "input_tokens" ∷ []) body in
    let given = pointer (lit "usage" ∷ lit "output_tokens" ∷ []) body in
    object (
      field (lit "completion_tokens") (value_or (count 0) given) (
        field (lit "prompt_tokens") (value_or (count 0) taken) (
          field (lit "total_tokens") (count ((u64_or_zero taken + u64_or_zero given) % 2 ^ 64))
            end)))

module _ (lib : LlmLib) where
  abbrev pub result_text : Option Json → Text
  unfolding content_as_text
  result_text none = []
  result_text (some v) = content_as_text lib v

  abbrev pub result_message : Json → Json
  unfolding content_as_text
  result_message block = object (
      field (lit "content") (string (result_text (get (lit "content") block))) (
        field (lit "role") (text_value (lit "tool")) (
          field (lit "tool_call_id") (value_or (text_value []) (get (lit "tool_use_id") block))
            end)))

  unfoldable pub read_blocks : List Json → Blocks
  unfolding str_field content_as_text
  read_blocks [] = record { texts = []; tool_calls = []; results = [] }
  read_blocks (block ∷ blocks) =
      let later = read_blocks blocks in
      let kind = str_field (lit "type") block in
      if is_text (lit "text") kind
      then record later { texts = add_text (str_field (lit "text") block) later.texts }
      else if is_text (lit "tool_use") kind
      then record later { tool_calls = call_value lib block ∷ later.tool_calls }
      else if is_text (lit "tool_result") kind
      then record later { results = result_message block ∷ later.results }
      else later

  abbrev pub messages_of : Text → Option Json → List Json
  unfolding read_blocks entries
  messages_of role (some (string s)) = role_message role s ∷ []
  messages_of role (some (array vs)) = message_of role (read_blocks (items vs))
  messages_of role none = role_message role [] ∷ []
  messages_of role (some null) = role_message role [] ∷ []
  messages_of role (some (bool b)) = role_message role [] ∷ []
  messages_of role (some (number n)) = role_message role [] ∷ []
  messages_of role (some (object fs)) = role_message role [] ∷ []

  unfoldable pub anthropic_message_to_openai : Json → List Json
  unfolding read_blocks entries
  anthropic_message_to_openai msg =
      messages_of (text_or (lit "user") (str_of (get (lit "role") msg))) (get (lit "content") msg)

  unfoldable pub anthropic_messages_to_openai : List Json → List Json
  unfolding anthropic_message_to_openai
  anthropic_messages_to_openai [] = []
  anthropic_messages_to_openai (msg ∷ msgs) =
      anthropic_message_to_openai msg ++ anthropic_messages_to_openai msgs

  unfoldable pub anthropic_object_to_openai : Json → Text → Json
  unfolding anthropic_messages_to_openai anthropic_tool_to_openai anthropic_tool_choice_to_openai
      block_texts entries
  anthropic_object_to_openai body model = document (
      (lit "max_tokens", get (lit "max_tokens") body)
      ∷ (
        lit "messages",
        some (
            list_value (
              system_message (system_of (get (lit "system") body))
              ++ anthropic_messages_to_openai (array_of (lit "messages") body))),
      )
      ∷ (lit "model", some (string model))
      ∷ (lit "stop", get (lit "stop_sequences") body)
      ∷ (lit "stream", get (lit "stream") body)
      ∷ (lit "temperature", get (lit "temperature") body)
      ∷ (lit "tool_choice", mapped anthropic_tool_choice_to_openai (get (lit "tool_choice") body))
      ∷ (lit "tools", mapped_items anthropic_tool_to_openai (items_of (get (lit "tools") body)))
      ∷ [])

  unfoldable pub anthropic_request_to_openai : Json → Text → Result TranslateError Json
  unfolding anthropic_object_to_openai
  anthropic_request_to_openai (object fs) model = ok (anthropic_object_to_openai (object fs) model)
  anthropic_request_to_openai null model = err not_json
  anthropic_request_to_openai (bool b) model = err not_json
  anthropic_request_to_openai (number n) model = err not_json
  anthropic_request_to_openai (string s) model = err not_json
  anthropic_request_to_openai (array vs) model = err not_json

  abbrev pub answer_choice : Json → Text → List Json → Json
  unfolding pointer finish_reason_of entries
  answer_choice body text calls =
      let stop = text_or (lit "end_turn") (str_of (pointer (lit "stop_reason" ∷ []) body)) in
      object (
        field (lit "finish_reason") (string (finish_reason_of stop)) (
          field (lit "index") (count 0) (
            field (lit "message")
              (document (
                (lit "content", some (null_if_empty text))
                ∷ (lit "role", some (text_value (lit "assistant")))
                ∷ (lit "tool_calls", unless_empty calls)
                ∷ []))
              end)))

  unfoldable pub anthropic_response_to_openai : Json → Text → Json
  unfolding str_field read_blocks pointer finish_reason_of usage_of entries
  anthropic_response_to_openai body model =
      let b = read_blocks (array_of (lit "content") body) in
      if has_value (get (lit "error") body) || is_text (lit "error") (str_field (lit "type") body)
      then body
      else object (
          field (lit "choices")
            (list_value (answer_choice body (join [] b.texts) b.tool_calls ∷ []))
            (field (lit "id") (value_or (text_value (lit "chatcmpl-marshal")) (get (lit "id") body))
              (field (lit "model") (string model) (
                field (lit "object") (text_value (lit "chat.completion"))
                  (field (lit "usage") (usage_of body) end)))))
