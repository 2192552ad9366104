-- ===== src/Llm/Sse/Chunks.antt =====
-- crates/marshal-llm/src/sse.rs: the translation from the dialect of Anthropic to that of OpenAI, the
-- rewriting of the model's name, and the choice between them.
use bot_marshal.Prelude.{
  ℕ, ◌+◌, Text, Option, none, some, Bool, true, false, List, [], ◌∷◌, ◌++◌, map, is_empty, lit,
  trim, format, join, strip_prefix, text_eq, if◌then◌else◌,
}
use bot_marshal.Core.Json.{
  Json, null, bool, number, string, array, object, nil, item, Fields, end, field, Number, pos_int,
}
use bot_marshal.Llm.Stream.{LlmLib, split_blank, lines, pointer, str_of, value_or, index_of}
use bot_marshal.Llm.Sse.{
  Dialect, openai, anthropic, system_one, DialectSse, block_of, openai_chunk_to_anthropic,
}

-- `parse_sse_event`: the last event name and the last data.
unfoldable pub parse_sse_event : Option Text → Option Text → List Text → Option Text × Option Text
parse_sse_event event body [] = (event, body)
parse_sse_event event body (line ∷ more) = elim (strip_prefix (lit "event: ") line) [
  | some rest ↦ parse_sse_event (some (trim rest)) body more
  | none ↦ elim (strip_prefix (lit "data: ") line) [
    | some rest ↦ parse_sse_event event (some rest) more
    | none ↦ parse_sse_event event body more
  ]
]

-- The chunks of OpenAI's dialect that the translator writes, without the id and the model.
pub data Chunk : Type 0 where
  role_chunk : Chunk
  content_chunk : Text → Chunk
  tool_chunk : ℕ → (id name : Json) → Chunk
  arguments_chunk : ℕ → Text → Chunk
  finish_chunk : Text → Chunk
  done_chunk : Chunk

abbrev pub Writes : Type 0
Writes = DialectSse → List (Chunk × Text) × DialectSse

-- A chunk carries the id of the message at that moment.
abbrev emit : Chunk → Writes
emit c s = ((c, s.message_id) ∷ [], s)

unfoldable pub start_part : Json → Writes
unfolding pointer
start_part v s = elim (str_of (pointer (lit "message" ∷ lit "id" ∷ []) v)) [
  | none ↦ emit role_chunk (record s { started = true })
  | some id ↦ emit role_chunk (record s { started = true; message_id = id })
]

abbrev numbered : Json → ℕ → Writes
unfolding pointer
numbered v i s =
    emit
      (tool_chunk i
        (value_or (string (lit "call_x")) (pointer (lit "content_block" ∷ lit "id" ∷ []) v))
        (value_or (string (lit "function")) (pointer (lit "content_block" ∷ lit "name" ∷ []) v)))
      s

-- The number of the tool call that a block stands for, or a new one.
unfoldable pub number_tool : Json → Number → Writes
unfolding pointer block_of
number_tool v key s = elim (block_of key s.anthropic_to_openai_tool) [
  | some i ↦ numbered v i s
  | none ↦ numbered v s.next_openai_tool_index (record s {
    anthropic_to_openai_tool = (key, s.next_openai_tool_index) ∷ s.anthropic_to_openai_tool;
    next_openai_tool_index = s.next_openai_tool_index + 1;
  })
]

abbrev is_text : Text → Option Text → Bool
is_text t none = false
is_text t (some s) = text_eq s t

unfoldable pub block_part : Json → Writes
unfolding pointer number_tool index_of
block_part v s =
    if is_text (lit "tool_use") (str_of (pointer (lit "content_block" ∷ lit "type" ∷ []) v))
    then number_tool v (index_of v) s
    else ([], s)

abbrev index_or_zero : Option ℕ → ℕ
index_or_zero none = 0
index_or_zero (some i) = i

unfoldable pub delta_part : Json → Option Text → Option Text → Writes
unfolding index_of block_of
delta_part v (some text) partial s = emit (content_chunk text) (record s { text_started = true })
delta_part v none (some args) s =
    emit (arguments_chunk (index_or_zero (block_of (index_of v) s.anthropic_to_openai_tool)) args) s
delta_part v none none s = ([], s)

unfoldable pub finish_reason_of : Text → Text
finish_reason_of stop =
    if text_eq stop (lit "tool_use")
    then lit "tool_calls"
    else if text_eq stop (lit "max_tokens")
    then lit "length"
    else lit "stop"

unfoldable pub reason_part : Option Text → Writes
unfolding finish_reason_of
reason_part none s = ([], s)
reason_part (some stop) s = emit (finish_chunk (finish_reason_of stop)) s

unfoldable pub named_part : Text → Json → Writes
unfolding start_part block_part delta_part reason_part pointer
named_part name v s =
    if text_eq name (lit "message_start")
    then start_part v s
    else if text_eq name (lit "content_block_start")
    then block_part v s
    else if text_eq name (lit "content_block_delta")
    then delta_part v (str_of (pointer (lit "delta" ∷ lit "text" ∷ []) v))
        (str_of (pointer (lit "delta" ∷ lit "partial_json" ∷ []) v)) s
    else if text_eq name (lit "message_delta")
    then reason_part (str_of (pointer (lit "delta" ∷ lit "stop_reason" ∷ []) v)) s
    else if text_eq name (lit "message_stop")
    then emit done_chunk s
    else ([], s)

abbrev text_json : Text → Json
text_json s = string s

abbrev call_json : ℕ → Json → Json
call_json i function =
    object (field (lit "function") function (field (lit "index") (number (pos_int i)) end))

-- The `delta` and the `finish_reason` of a chunk.
unfoldable pub chunk_delta : Chunk → Json × Json
chunk_delta role_chunk = (object (field (lit "role") (text_json (lit "assistant")) end), null)
chunk_delta (content_chunk text) = (object (field (lit "content") (string text) end), null)
chunk_delta (tool_chunk i id name) = (
  object (
      field (lit "tool_calls")
        (array (
          item
            (object (
              field (lit "function")
                (object (field (lit "arguments") (text_json []) (field (lit "name") name end)))
                (field (lit "id") id (
                  field (lit "index") (number (pos_int i))
                    (field (lit "type") (text_json (lit "function")) end)))))
            nil))
        end),
  null,
)
chunk_delta (arguments_chunk i args) = (
  object (
      field (lit "tool_calls")
        (array (item (call_json i (object (field (lit "arguments") (string args) end))) nil)) end),
  null,
)
chunk_delta (finish_chunk reason) = (object end, string reason)
chunk_delta done_chunk = (object end, null)

unfoldable pub chunk_json : Text → Text → Json × Json → Json
chunk_json id model (delta, finish) = object (
    field (lit "choices")
      (array (
        item
          (object (
            field (lit "delta") delta
              (field (lit "finish_reason") finish (field (lit "index") (number (pos_int 0)) end))))
          nil))
      (field (lit "id") (string id) (
        field (lit "model") (string model)
          (field (lit "object") (text_json (lit "chat.completion.chunk")) end))))

unfoldable pub dialect_eq : Dialect → Dialect → Bool
dialect_eq openai openai = true
dialect_eq openai anthropic = false
dialect_eq openai system_one = false
dialect_eq anthropic openai = false
dialect_eq anthropic anthropic = true
dialect_eq anthropic system_one = false
dialect_eq system_one openai = false
dialect_eq system_one anthropic = false
dialect_eq system_one system_one = true

-- The model's name in one document.
unfoldable pub set_model : Text → Fields → Fields
set_model model end = end
set_model model (field k v fs) =
    let later = set_model model fs in
    if text_eq k (lit "model") then field k (string model) fs else field k v later

unfoldable pub with_model : Text → Json → Json
unfolding set_model
with_model model (object fs) = object (set_model model fs)
with_model model null = null
with_model model (bool b) = bool b
with_model model (number n) = number n
with_model model (string s) = string s
with_model model (array vs) = array vs

module _ (lib : LlmLib) where
  abbrev event_part : Option Text → Option Json → Writes
  unfolding named_part
  event_part none v s = ([], s)
  event_part (some name) none s = ([], s)
  event_part (some name) (some v) s = named_part name v s

  abbrev document_of : Option Text → Option Json
  document_of none = none
  document_of (some text) = if is_empty (trim text) then none else lib.from_str text

  unfoldable pub anthropic_part : Text → Writes
  unfolding named_part parse_sse_event lines trim
  anthropic_part raw s =
      let (event, body) = parse_sse_event none none (lines raw) in
      if is_empty (trim raw) then ([], s) else event_part event (document_of body) s

  unfoldable pub anthropic_parts : List Text → Writes
  unfolding anthropic_part
  anthropic_parts [] s = ([], s)
  anthropic_parts (raw ∷ raws) s =
      let (cs, s') = anthropic_part raw s in
      let (ds, s'') = anthropic_parts raws s' in (cs ++ ds, s'')

  unfoldable pub write_chunk : Text → Chunk × Text → Text
  unfolding chunk_json chunk_delta
  write_chunk model (done_chunk, id) = lit "data: [DONE]\n\n"
  write_chunk model (c, id) =
      format (lit "data: " ∷ lib.print (chunk_json id model (chunk_delta c)) ∷ lit "\n\n" ∷ [])

  unfoldable pub anthropic_chunk_to_openai : Text → DialectSse → Text × DialectSse
  unfolding anthropic_parts split_blank write_chunk
  anthropic_chunk_to_openai chunk s =
      let (cs, s') = anthropic_parts (split_blank chunk) s in
      (format (map (write_chunk s.client_model) cs), s')

  abbrev rewritten : Text → Text → Option Json → Text
  unfolding with_model
  rewritten model line none = line
  rewritten model line (some v) = lit "data: " ++ lib.print (with_model model v)

  unfoldable pub rewrite_line : Text → Text → Text
  unfolding with_model trim
  rewrite_line model line = elim (strip_prefix (lit "data: ") line) [
    | none ↦ line
    | some rest ↦
        if text_eq (trim rest) (lit "[DONE]")
        then line
        else rewritten model line (lib.from_str rest)
  ]

  unfoldable pub rewrite_one_data_event : Text → Text → Text
  unfolding rewrite_line lines
  rewrite_one_data_event event model =
      join (lit "\n") (map (rewrite_line model) (lines event)) ++ lit "\n\n"

  unfoldable pub rewrite_events : Text → List Text → Text
  unfolding rewrite_one_data_event trim
  rewrite_events model [] = []
  rewrite_events model (event ∷ events) =
      let rest = rewrite_events model events in
      if is_empty (trim event) then rest else rewrite_one_data_event event model ++ rest

  unfoldable pub rewrite_model_in_sse : Text → Text → Text
  unfolding rewrite_events split_blank
  rewrite_model_in_sse chunk model = rewrite_events model (split_blank chunk)

  unfoldable pub rewrite_between : Dialect → Dialect → Text → DialectSse → Text × DialectSse
  unfolding anthropic_chunk_to_openai openai_chunk_to_anthropic
  rewrite_between anthropic openai chunk s = anthropic_chunk_to_openai chunk s
  rewrite_between openai anthropic chunk s = openai_chunk_to_anthropic lib chunk s
  rewrite_between openai openai chunk s = (chunk, s)
  rewrite_between openai system_one chunk s = (chunk, s)
  rewrite_between anthropic anthropic chunk s = (chunk, s)
  rewrite_between anthropic system_one chunk s = (chunk, s)
  rewrite_between system_one to chunk s = (chunk, s)

  unfoldable pub rewrite_sse : Text → DialectSse → Text × DialectSse
  unfolding dialect_eq rewrite_model_in_sse rewrite_between
  rewrite_sse chunk s =
      if dialect_eq s.from_origin s.to_client
      then (rewrite_model_in_sse chunk s.client_model, s)
      else rewrite_between s.from_origin s.to_client chunk s
