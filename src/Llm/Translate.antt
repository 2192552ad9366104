-- ===== src/Llm/Translate.antt =====
-- crates/marshal-llm/src/translate.rs: what both directions share, and the tool calls of OpenAI read into
-- blocks of Anthropic. serde_json is a parameter; the keys of a document are in order, as its map has them.
use bot_marshal.Prelude.{
  ℕ, Text, Option, none, some, Bool, true, false, ◌&&◌, ◌||◌, List, [], ◌∷◌, ◌++◌, is_empty, join,
  lit, text_eq, if◌then◌else◌,
}
use bot_marshal.Core.Json.{
  Json, null, bool, number, string, array, object, Items, nil, item, Fields, end, field, get,
  as_str, Number, pos_int, items, of_items,
}
use bot_marshal.Llm.Stream.{LlmLib, pointer, str_of, items_of, value_or}
use bot_marshal.Llm.Sse.{calls_of}
use bot_marshal.Secrets.Oauth.Token.{str_field}
pub mod ToAnthropic
pub mod ToOpenai
pub mod Bodies
pub mod Named

pub data TranslateError : Type 0 where
  not_json : TranslateError
  untranslatable : Text → TranslateError

unfoldable pub error_text : TranslateError → Text
error_text not_json = lit "request body is not JSON"
error_text (untranslatable what) = what

abbrev pub text_value : Text → Json
text_value s = string s

abbrev pub count : ℕ → Json
count n = number (pos_int n)

-- The entries that are given, in order.
unfoldable pub entries : List (Text × Option Json) → Fields
entries [] = end
entries ((k, none) ∷ more) = entries more
entries ((k, some v) ∷ more) = field k v (entries more)

abbrev pub document : List (Text × Option Json) → Json
unfolding entries
document more = object (entries more)

abbrev pub list_value : List Json → Json
unfolding of_items
list_value vs = array (of_items vs)

abbrev pub unless_empty : List Json → Option Json
unfolding of_items
unless_empty [] = none
unless_empty (v ∷ vs) = some (list_value (v ∷ vs))

abbrev pub text_or : Text → Option Text → Text
text_or default none = default
text_or default (some s) = s

abbrev pub first_text : Option Text → Option Text → Option Text
first_text none later = later
first_text (some s) later = some s

abbrev pub add_text : Option Text → List Text → List Text
add_text none texts = texts
add_text (some s) texts = s ∷ texts

abbrev pub is_text : Text → Option Text → Bool
is_text s none = false
is_text s (some t) = text_eq t s

abbrev pub has_value : Option Json → Bool
has_value none = false
has_value (some v) = true

-- The texts of the parts of a message.
unfoldable pub part_texts : List Json → List Text
unfolding str_field
part_texts [] = []
part_texts (part ∷ parts) =
    add_text
      (if is_text (lit "text") (str_field (lit "type") part)
        then str_field (lit "text") part
        else as_str part)
      (part_texts parts)

abbrev text_of_content : Option Json → Option Text
unfolding part_texts
text_of_content none = none
text_of_content (some (string s)) = some s
text_of_content (some (array vs)) = some (join (lit "\n") (part_texts (items vs)))
text_of_content (some null) = none
text_of_content (some (bool b)) = none
text_of_content (some (number n)) = none
text_of_content (some (object fs)) = none

unfoldable pub message_text : Json → Option Text
unfolding part_texts
message_text msg = text_of_content (get (lit "content") msg)

unfoldable pub block_texts : List Json → List Text
unfolding str_field
block_texts [] = []
block_texts (block ∷ blocks) = add_text (str_field (lit "text") block) (block_texts blocks)

abbrev pub tool_use : Json → Json → Json → Json
tool_use id name input = object (
    field (lit "id") id (
      field (lit "input") input
        (field (lit "name") name (field (lit "type") (text_value (lit "tool_use")) end))))

abbrev pub text_part_value : Text → Json
text_part_value s =
    object (field (lit "text") (string s) (field (lit "type") (text_value (lit "text")) end))

module _ (lib : LlmLib) where
  unfoldable pub content_as_text : Json → Text
  unfolding block_texts
  content_as_text (string s) = s
  content_as_text (array vs) = join (lit "\n") (block_texts (items vs))
  content_as_text null = lib.print null
  content_as_text (bool b) = lib.print (bool b)
  content_as_text (number n) = lib.print (number n)
  content_as_text (object fs) = lib.print (object fs)

  -- The arguments of a tool call, which are a text in the dialect of OpenAI.
  abbrev pub arguments_of : Json → Json
  unfolding pointer
  arguments_of call = value_or (object end) (
      lib.from_str
        (text_or (lit "{}") (str_of (pointer (lit "function" ∷ lit "arguments" ∷ []) call))))

  -- A block `tool_use` as a tool call; `to_string` of a value prints it as `Display` does.
  abbrev pub call_value : Json → Json
  call_value block = object (
      field (lit "function")
        (object (
          field (lit "arguments")
            (string (lib.print (value_or (object end) (get (lit "input") block))))
            (field (lit "name") (value_or (text_value (lit "function")) (get (lit "name") block))
              end)))
        (field (lit "id") (value_or (text_value (lit "call_unknown")) (get (lit "id") block))
          (field (lit "type") (text_value (lit "function")) end)))
