-- ===== src/Llm/Translate/ToAnthropic.antt =====
-- crates/marshal-llm/src/translate.rs: requests and responses of OpenAI's dialect for Anthropic's.
use bot_marshal.Prelude.{
  ℕ, Text, Option, none, some, ◌||◌, List, [], ◌∷◌, ◌++◌, Result, ok, err, map, join, lit, text_eq,
  if◌then◌else◌,
}
use bot_marshal.Core.Json.{
  Json, null, bool, number, string, array, object, Items, end, field, get, as_str, items,
}
use bot_marshal.Llm.Stream.{LlmLib, pointer, str_of, items_of, value_or}
use bot_marshal.Llm.Sse.{calls_of, stop_reason_of}
use bot_marshal.Llm.Translate.{
  TranslateError, not_json, text_value, count, entries, document, list_value, text_or, add_text,
  message_text, tool_use, text_part_value, arguments_of,
}
use bot_marshal.Secrets.Oauth.Token.{value_as_u64}

abbrev pub array_of : Text → Json → List Json
array_of key v = calls_of (items_of (get key v))

abbrev pub text_blocks : Option Text → List Json
text_blocks none = []
text_blocks (some []) = []
text_blocks (some (c ∷ s)) = text_part_value (c ∷ s) ∷ []

-- One block that is a text stands as the text.
unfoldable pub content_of : List Json → Json
content_of [] = text_value []
content_of (block ∷ []) =
    let several = list_value (block ∷ []) in
    if text_eq (text_or [] (str_of (get (lit "type") block))) (lit "text")
    then value_or null (get (lit "text") block)
    else several
content_of (block ∷ b ∷ blocks) = list_value (block ∷ b ∷ blocks)

unfoldable pub openai_tool_to_anthropic : Json → Json
openai_tool_to_anthropic tool =
    let function = value_or tool (get (lit "function") tool) in
    object (
      field (lit "description") (value_or (text_value []) (get (lit "description") function)) (
        field (lit "input_schema")
          (value_or
            (object (
              field (lit "properties") (object end)
                (field (lit "type") (text_value (lit "object")) end)))
            (get (lit "parameters") function))
          (field (lit "name") (value_or (text_value (lit "function")) (get (lit "name") function))
            end)))

abbrev pub choice_type : Text → Json
choice_type s = object (field (lit "type") (string s) end)

abbrev pub named_choice : Option Text → Json
named_choice none = choice_type (lit "auto")
named_choice (some name) =
    object (field (lit "name") (string name) (field (lit "type") (text_value (lit "tool")) end))

abbrev pub choice_of : Option Text → Json → Json
choice_of none named = named
choice_of (some s) named =
    if text_eq s (lit "none")
    then choice_type (lit "none")
    else if text_eq s (lit "auto")
    then choice_type (lit "auto")
    else if text_eq s (lit "required")
    then choice_type (lit "any")
    else named

unfoldable pub openai_tool_choice_to_anthropic : Json → Json
unfolding pointer
openai_tool_choice_to_anthropic choice =
    choice_of (as_str choice)
      (named_choice (str_of (pointer (lit "function" ∷ lit "name" ∷ []) choice)))

abbrev pub stop_sequences : Json → Json
stop_sequences (string s) = list_value (string s ∷ [])
stop_sequences null = null
stop_sequences (bool b) = bool b
stop_sequences (number n) = number n
stop_sequences (array vs) = array vs
stop_sequences (object fs) = object fs

abbrev pub mapped : (Json → Json) → Option Json → Option Json
mapped f none = none
mapped f (some v) = some (f v)

abbrev pub mapped_items : (Json → Json) → Option Items → Option Json
mapped_items f none = none
mapped_items f (some vs) = some (list_value (map f (items vs)))

abbrev pub system_text : List Text → Option Json
system_text [] = none
system_text (s ∷ texts) = some (string (join (lit "\n\n") (s ∷ texts)))

abbrev pub u64_of : Option Json → ℕ
unfolding value_as_u64
u64_of none = 4096
u64_of (some v) = elim (value_as_u64 v) [ none ↦ 4096 | some n ↦ n ]

abbrev pub first_value : Option Json → Option Json → Option Json
first_value none later = later
first_value (some v) later = some v

abbrev pub tool_result : Text → Text → Json
tool_result id text = object (
    field (lit "content")
      (list_value (
        object (
          field (lit "content") (string text) (
            field (lit "tool_use_id") (string id)
              (field (lit "type") (text_value (lit "tool_result")) end)))
        ∷ []))
      (field (lit "role") (text_value (lit "user")) end))

module _ (lib : LlmLib) where
  abbrev pub call_block : Json → Json
  unfolding pointer
  call_block call =
      tool_use (string (text_or (lit "toolu_unknown") (str_of (get (lit "id") call))))
        (string
          (text_or (lit "function") (str_of (pointer (lit "function" ∷ lit "name" ∷ []) call))))
        (arguments_of lib call)

  unfoldable pub openai_message_to_anthropic : Json → Text → Json
  unfolding content_of message_text
  openai_message_to_anthropic msg role =
      let blocks =
        text_blocks (message_text msg) ++ map call_block (array_of (lit "tool_calls") msg) in
      object (field (lit "content") (content_of blocks) (field (lit "role") (string role) end))

  -- The texts for the system, and the messages, of one message.
  unfoldable pub openai_message : Json → List Text × List Json
  unfolding openai_message_to_anthropic message_text
  openai_message msg =
      let role = text_or (lit "user") (str_of (get (lit "role") msg)) in
      if text_eq role (lit "system")
      then (add_text (message_text msg) [], [])
      else if text_eq role (lit "user") || text_eq role (lit "assistant")
      then ([], openai_message_to_anthropic msg role ∷ [])
      else if text_eq role (lit "tool")
      then (
        [],
        tool_result (text_or [] (str_of (get (lit "tool_call_id") msg)))
              (text_or [] (message_text msg))
            ∷ [],
      )
      else ([], openai_message_to_anthropic msg (lit "user") ∷ [])

  unfoldable pub openai_messages : List Json → List Text × List Json
  unfolding openai_message
  openai_messages [] = ([], [])
  openai_messages (msg ∷ msgs) =
      let (texts, ms) = openai_message msg in
      let (texts', ms') = openai_messages msgs in (texts ++ texts', ms ++ ms')

  unfoldable pub openai_object_to_anthropic : Json → Text → Json
  unfolding openai_messages openai_tool_to_anthropic openai_tool_choice_to_anthropic entries
  openai_object_to_anthropic body model =
      let (texts, msgs) = openai_messages (array_of (lit "messages") body) in
      document (
        (
          lit "max_tokens",
          some (
              count (
                u64_of (
                  first_value (get (lit "max_tokens") body)
                    (get (lit "max_completion_tokens") body)))),
        )
        ∷ (lit "messages", some (list_value msgs))
        ∷ (lit "model", some (string model))
        ∷ (lit "stop_sequences", mapped stop_sequences (get (lit "stop") body))
        ∷ (lit "stream", get (lit "stream") body)
        ∷ (lit "system", system_text texts)
        ∷ (lit "temperature", get (lit "temperature") body)
        ∷ (lit "tool_choice", mapped openai_tool_choice_to_anthropic (get (lit "tool_choice") body))
        ∷ (lit "tools", mapped_items openai_tool_to_anthropic (items_of (get (lit "tools") body)))
        ∷ [])

  unfoldable pub openai_request_to_anthropic : Json → Text → Result TranslateError Json
  unfolding openai_object_to_anthropic
  openai_request_to_anthropic (object fs) model = ok (openai_object_to_anthropic (object fs) model)
  openai_request_to_anthropic null model = err not_json
  openai_request_to_anthropic (bool b) model = err not_json
  openai_request_to_anthropic (number n) model = err not_json
  openai_request_to_anthropic (string s) model = err not_json
  openai_request_to_anthropic (array vs) model = err not_json

  abbrev pub response_call : Json → Json
  unfolding pointer
  response_call call =
      tool_use (value_or (text_value (lit "toolu_unknown")) (get (lit "id") call))
        (value_or (text_value (lit "function")) (pointer (lit "function" ∷ lit "name" ∷ []) call))
        (arguments_of lib call)

  abbrev pub translated_answer : Json → Json → Text → Json
  unfolding pointer stop_reason_of entries
  translated_answer body message model =
      let finish =
        text_or (lit "stop")
          (str_of (pointer (lit "choices" ∷ lit "0" ∷ lit "finish_reason" ∷ []) body)) in
      document (
        (
          lit "content",
          some (
              list_value (
                text_blocks (str_of (get (lit "content") message))
                ++ map response_call (array_of (lit "tool_calls") message))),
        )
        ∷ (lit "id", some (value_or (text_value (lit "msg_marshal")) (get (lit "id") body)))
        ∷ (lit "model", some (string model))
        ∷ (lit "role", some (text_value (lit "assistant")))
        ∷ (lit "stop_reason", some (string (stop_reason_of finish)))
        ∷ (lit "type", some (text_value (lit "message")))
        ∷ (
          lit "usage",
          some (
              object (
                field (lit "input_tokens")
                  (value_or (count 0) (pointer (lit "usage" ∷ lit "prompt_tokens" ∷ []) body))
                  (field (lit "output_tokens")
                    (value_or (count 0) (pointer (lit "usage" ∷ lit "completion_tokens" ∷ []) body))
                    end))),
        )
        ∷ [])

  unfoldable pub openai_response_to_anthropic : Json → Text → Json
  unfolding pointer stop_reason_of entries
  openai_response_to_anthropic body model = elim (get (lit "error") body) [
    | some e ↦ body
    | none ↦
        translated_answer body
          (value_or (object end) (pointer (lit "choices" ∷ lit "0" ∷ lit "message" ∷ []) body))
          model
  ]
