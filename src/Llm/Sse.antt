-- ===== src/Llm/Sse.antt =====
-- crates/marshal-llm/src/sse.rs: the translation of an event stream from the dialect of OpenAI to that
-- of Anthropic, and of the model's name. An event is kept as a value until it is written.
pub mod Blocks
pub mod Chunks
use bot_marshal.Prelude.{
  ℕ, zero, suc, ◌+◌, Text, Option, none, some, Bool, true, false, not, ◌&&◌, List, [], ◌∷◌, ◌++◌,
  map, is_empty, lit, trim, format, join, strip_prefix, text_eq, ltb, ◌==◌, if◌then◌else◌,
}
use bot_marshal.Core.Json.{
  Json, null, bool, number, string, array, object, Items, nil, item, Fields, end, field, get,
  get_field, as_str, as_items, items, of_items, Number, pos_int, neg_int, float,
}
use bot_marshal.Llm.Stream.{
  LlmLib, split_blank, lines, data_line, pointer, str_of, items_of, value_or, index_of, number_eq,
}

pub data Dialect : Type 0 where
  openai anthropic system_one : Dialect

-- The number of a tool call is what the provider sends; a block is numbered by the translator.
pub record DialectSse : Type 0 where
  pub from_origin : Dialect
  pub to_client : Dialect
  pub client_model : Text
  pub message_id : Text
  pub started : Bool
  pub text_started : Bool
  pub text_block_index : Option ℕ
  pub next_anthropic_block_index : ℕ
  pub openai_to_anthropic_tool : List (Number × ℕ)
  pub open_anthropic_blocks : List ℕ
  pub anthropic_to_openai_tool : List (Number × ℕ)
  pub next_openai_tool_index : ℕ

unfoldable pub new_sse : Dialect → Dialect → Text → DialectSse
new_sse from_origin to_client client_model = record {
  from_origin = from_origin;
  to_client = to_client;
  client_model = client_model;
  message_id = lit "chatcmpl-marshal";
  started = false;
  text_started = false;
  text_block_index = none;
  next_anthropic_block_index = 0;
  openai_to_anthropic_tool = [];
  open_anthropic_blocks = [];
  anthropic_to_openai_tool = [];
  next_openai_tool_index = 0;
}

unfoldable pub block_of : Number → List (Number × ℕ) → Option ℕ
unfolding number_eq
block_of key [] = none
block_of key ((k, i) ∷ m) = if number_eq k key then some i else block_of key m

-- `BTreeSet::insert`.
unfoldable pub insert_block : ℕ → List ℕ → List ℕ
insert_block i [] = i ∷ []
insert_block i (j ∷ open_blocks) =
    let later = j ∷ insert_block i open_blocks in
    if i == j then j ∷ open_blocks else if ltb i j then i ∷ j ∷ open_blocks else later

-- The events of Anthropic's dialect that the translator writes.
pub data Event : Type 0 where
  message_start : (id model : Text) → Event
  block_start : ℕ → (content_block : Json) → Event
  text_delta : ℕ → Text → Event
  input_json_delta : Number → Text → Event
  block_stop : ℕ → Event
  message_delta : (stop_reason : Text) → Event
  message_stop : Event

abbrev text_json : Text → Json
text_json s = string s

abbrev index_json : ℕ → Json
index_json i = number (pos_int i)

-- The name and the data of an event, with the keys in order.
unfoldable pub event_json : Event → Text × Json
event_json (message_start id model) = (
  lit "message_start",
  object (
      field (lit "message")
        (object (
          field (lit "content") (array nil) (
            field (lit "id") (string id) (
              field (lit "model") (string model) (
                field (lit "role") (text_json (lit "assistant"))
                  (field (lit "type") (text_json (lit "message")) end))))))
        (field (lit "type") (text_json (lit "message_start")) end)),
)
event_json (block_start i content_block) = (
  lit "content_block_start",
  object (
      field (lit "content_block") content_block (
        field (lit "index") (index_json i)
          (field (lit "type") (text_json (lit "content_block_start")) end))),
)
event_json (text_delta i text) = (
  lit "content_block_delta",
  object (
      field (lit "delta")
        (object (
          field (lit "text") (string text) (field (lit "type") (text_json (lit "text_delta")) end)))
        (field (lit "index") (index_json i)
          (field (lit "type") (text_json (lit "content_block_delta")) end))),
)
event_json (input_json_delta n args) = (
  lit "content_block_delta",
  object (
      field (lit "delta")
        (object (
          field (lit "partial_json") (string args)
            (field (lit "type") (text_json (lit "input_json_delta")) end)))
        (field (lit "index") (number n)
          (field (lit "type") (text_json (lit "content_block_delta")) end))),
)
event_json (block_stop i) =
    (lit "content_block_stop", object (field (lit "index") (index_json i) end))
event_json (message_delta stop) = (
  lit "message_delta",
  object (
      field (lit "delta") (object (field (lit "stop_reason") (string stop) end))
        (field (lit "type") (text_json (lit "message_delta")) end)),
)
event_json message_stop = (lit "message_stop", object end)

abbrev pub text_block : Json
text_block =
    object (field (lit "text") (text_json []) (field (lit "type") (text_json (lit "text")) end))

abbrev tool_block : Json → Json → Json
tool_block id name = object (
    field (lit "id") id (
      field (lit "input") (object end)
        (field (lit "name") name (field (lit "type") (text_json (lit "tool_use")) end))))

-- A part of the translation: the events that it writes, and the state.
abbrev pub Step : Type 0
Step = DialectSse → List Event × DialectSse

infixl 5 ◌then_do◌
abbrev pub ◌then_do◌ : Step → Step → Step
(f then_do g) s = let (es, s') = f s in let (fs, s'') = g s' in (es ++ fs, s'')

-- `close_anthropic_blocks`.
unfoldable pub close_blocks : Step
close_blocks s = (
  map (λ i. block_stop i) s.open_anthropic_blocks,
  record s { open_anthropic_blocks = []; text_started = false; text_block_index = none },
)

abbrev with_id : Option Text → DialectSse → DialectSse
with_id none s = s
with_id (some id) s = record s { message_id = id }

unfoldable pub start_message : Option Text → Step
start_message id s =
    let s' = with_id id s in
    if s.started
    then ([], s')
    else (message_start s'.message_id s.client_model ∷ [], record s' { started = true })

-- A text opens a block if none is open for texts.
unfoldable pub start_text : Step
unfolding insert_block
start_text s = if s.text_started then ([], s) else (
  block_start s.next_anthropic_block_index text_block ∷ [],
  record s {
    text_started = true;
    next_anthropic_block_index = s.next_anthropic_block_index + 1;
    text_block_index = some s.next_anthropic_block_index;
    open_anthropic_blocks = insert_block s.next_anthropic_block_index s.open_anthropic_blocks;
  },
)

-- `text_block_index.expect(..)`: without an index the code panics; the model writes nothing then.
unfoldable pub write_text : Text → Step
write_text text s = elim s.text_block_index [
  | none ↦ ([], s)
  | some i ↦ (text_delta i text ∷ [], s)
]

unfoldable pub text_part : Option Text → Step
unfolding start_text write_text
text_part none s = ([], s)
text_part (some text) s = (start_text then_do write_text text) s

unfoldable pub opened : Json → ℕ → Step
unfolding insert_block
opened content i s = (
  block_start i content ∷ [],
  record s { open_anthropic_blocks = insert_block i s.open_anthropic_blocks },
)

-- The block of a tool call, or a new one for it.
unfoldable pub open_tool : Number → Json → Step
unfolding block_of opened
open_tool key content s = elim (block_of key s.openai_to_anthropic_tool) [
  | some i ↦ opened content i s
  | none ↦ opened content s.next_anthropic_block_index (record s {
    openai_to_anthropic_tool = (key, s.next_anthropic_block_index) ∷ s.openai_to_anthropic_tool;
    next_anthropic_block_index = s.next_anthropic_block_index + 1;
  })
]

unfoldable pub name_part : Json → Option Json → Step
unfolding open_tool index_of
name_part call none s = ([], s)
name_part call (some name) s =
    open_tool (index_of call)
      (tool_block (value_or (text_json (lit "toolu_x")) (get (lit "id") call)) name) s

abbrev block_number : Number → Option ℕ → Number
block_number key none = key
block_number key (some i) = pos_int i

unfoldable pub arguments_part : Json → Option Text → Step
unfolding block_of index_of
arguments_part call none s = ([], s)
arguments_part call (some []) s = ([], s)
arguments_part call (some (c ∷ args)) s = (
  input_json_delta
        (block_number (index_of call) (block_of (index_of call) s.openai_to_anthropic_tool))
        (c ∷ args)
      ∷ [],
  s,
)

unfoldable pub call_part : Json → Step
unfolding name_part arguments_part pointer
call_part call =
    name_part call (pointer (lit "function" ∷ lit "name" ∷ []) call)
    then_do arguments_part call (str_of (pointer (lit "function" ∷ lit "arguments" ∷ []) call))

unfoldable pub calls_part : List Json → Step
unfolding call_part
calls_part [] s = ([], s)
calls_part (call ∷ calls) s = (call_part call then_do calls_part calls) s

abbrev pub calls_of : Option Items → List Json
calls_of none = []
calls_of (some vs) = items vs

unfoldable pub stop_reason_of : Text → Text
stop_reason_of finish =
    if text_eq finish (lit "tool_calls")
    then lit "tool_use"
    else if text_eq finish (lit "length")
    then lit "max_tokens"
    else lit "end_turn"

unfoldable pub finish_part : Option Text → Step
unfolding close_blocks stop_reason_of
finish_part none s = ([], s)
finish_part (some finish) s =
    (close_blocks then_do λ t. (message_delta (stop_reason_of finish) ∷ [], t)) s

unfoldable pub delta_of : Json → Json
unfolding pointer
delta_of v = value_or (object end) (pointer (lit "choices" ∷ lit "0" ∷ lit "delta" ∷ []) v)

-- One document of the stream.
unfoldable pub document_part : Json → Step
unfolding start_message text_part calls_part finish_part pointer delta_of
document_part v =
    start_message (str_of (get (lit "id") v))
    then_do text_part (str_of (get (lit "content") (delta_of v)))
    then_do calls_part (calls_of (items_of (get (lit "tool_calls") (delta_of v))))
    then_do finish_part (str_of (pointer (lit "choices" ∷ lit "0" ∷ lit "finish_reason" ∷ []) v))

module _ (lib : LlmLib) where
  unfoldable pub parsed_part : Option Json → Step
  unfolding document_part
  parsed_part none s = ([], s)
  parsed_part (some v) s = document_part v s

  abbrev done_part : Step
  unfolding close_blocks
  done_part = close_blocks then_do λ t. (message_stop ∷ [], t)

  unfoldable pub data_part : Option Text → Step
  unfolding parsed_part close_blocks trim
  data_part none s = ([], s)
  data_part (some text) s =
      if text_eq (trim text) (lit "[DONE]") then done_part s else parsed_part (lib.from_str text) s

  -- What stands between two blank lines.
  unfoldable pub raw_part : Text → Step
  unfolding data_part lines data_line trim
  raw_part raw s = if is_empty (trim raw) then ([], s) else data_part (data_line (lines raw)) s

  unfoldable pub raws_part : List Text → Step
  unfolding raw_part
  raws_part [] s = ([], s)
  raws_part (raw ∷ raws) s = (raw_part raw then_do raws_part raws) s

  unfoldable pub write_event : Event → Text
  unfolding event_json
  write_event e =
      let (name, v) = event_json e in
      format (lit "event: " ∷ name ∷ lit "\ndata: " ∷ lib.print v ∷ lit "\n\n" ∷ [])

  -- `openai_chunk_to_anthropic`.
  unfoldable pub openai_chunk_to_anthropic : Text → DialectSse → Text × DialectSse
  unfolding raws_part split_blank write_event
  openai_chunk_to_anthropic chunk s =
      let (es, s') = raws_part (split_blank chunk) s in (format (map write_event es), s')
