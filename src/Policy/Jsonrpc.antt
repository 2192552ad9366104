-- ===== src/Policy/Jsonrpc.antt =====
-- crates/marshal-policy/src/jsonrpc.rs. The JSON parser is of the crate serde_json, and a parameter.
pub mod Filtering
use bot_marshal.Prelude.{
  ℕ, Text, Option, none, some, Bool, true, false, List, [], ◌∷◌, ◌++◌, lit, text_eq, if◌then◌else◌,
  not,
}
use mathlib.Core.Option
use bot_marshal.Core.Json.{
  Json, Items, Fields, Number, null, bool, number, string, array, object, nil, item, end, field,
  get, as_str, as_items,
}

pub record ToolCall : Type 0 where
  pub id : Option Json
  pub tool : Text
  pub arguments : Option Json

pub data Message : Type 0 where
  tools_call : ToolCall → Message
  tools_list : Option Json → Message
  other : Text → Option Json → Message

infixl 5 ◌>>=?◌
abbrev ◌>>=?◌ {ℓ κ} : {A : Type ℓ} {B : Type κ} → Option A → (A → Option B) → Option B
none >>=? f = none
some a >>=? f = f a

-- The call that a `tools/call` document makes; its `params` need a `name`.
unfoldable pub tool_call : Json → Option Message
tool_call doc = get (lit "params") doc >>=? λ params. get (lit "name") params >>=? λ name.
    as_str name >>=? λ tool. some (
      tools_call
        (record { id = get (lit "id") doc; tool = tool; arguments = get (lit "arguments") params }))

unfoldable pub parse_request_value : Json → Option Message
unfolding tool_call
parse_request_value doc = get (lit "jsonrpc") doc >>=? λ v. as_str v >>=? λ version.
    if not (text_eq version (lit "2.0"))
    then none
    else get (lit "method") doc >>=? λ m. as_str m >>=? λ method.
        if text_eq method (lit "tools/call")
        then tool_call doc
        else if text_eq method (lit "tools/list")
        then some (tools_list (get (lit "id") doc))
        else some (other method (get (lit "id") doc))

unfoldable pub parse_request : (List ℕ → Option Json) → List ℕ → Option Message
unfolding parse_request_value
parse_request from_slice body = from_slice body >>=? parse_request_value

-- `id.unwrap_or(Value::Null)`.
abbrev or_null : Option Json → Json
or_null none = null
or_null (some v) = v

unfoldable pub error_response : Option Json → Number → Text → Json
error_response id code message = object (
    field (lit "jsonrpc") (string (lit "2.0")) (
      field (lit "id") (or_null id) (
        field (lit "error")
          (object (field (lit "code") (number code) (field (lit "message") (string message) end)))
          end)))

-- `doc.get_mut(key)` followed by a write: the first value under the key is replaced.
unfoldable pub set_field : Text → Json → Fields → Fields
set_field key v end = end
set_field key v (field k w fs) =
    if text_eq k key then field k v fs else field k w (set_field key v fs)

-- The name that the filter reads of an entry.
unfoldable pub tool_name : Json → Option Text
tool_name tool = get (lit "name") tool >>=? as_str

-- `retain`, with the names that it removed.
unfoldable pub retain_visible : (Text → Bool) → Items → Items × List Text
retain_visible visible nil = (nil, [])
retain_visible visible (item tool rest) =
    let (kept, removed) = retain_visible visible rest in
    elim (tool_name tool) [
      | none ↦ (kept, lit "<unnamed>" ∷ removed)
      | some name ↦ if visible name then (item tool kept, removed) else (kept, name ∷ removed)
    ]

-- The tools of a document, where it has such a list.
unfoldable pub listed_tools : Json → Option Items
listed_tools doc = get (lit "result") doc >>=? λ result. get (lit "tools") result >>=? as_items

-- A write through `doc["result"]["tools"]`.
unfoldable pub put_under : Text → Json → Json → Json
unfolding set_field
put_under key v (object fs) = object (set_field key v fs)
put_under key v null = null
put_under key v (bool b) = bool b
put_under key v (number n) = number n
put_under key v (string s) = string s
put_under key v (array vs) = array vs

abbrev put_tools : Items → Json → Json
put_tools tools doc = elim (get (lit "result") doc) [
  | none ↦ doc
  | some result ↦ put_under (lit "result") (put_under (lit "tools") (array tools) result) doc
]

-- `filter_tools_list`: the document as it is left, and the names removed.
unfoldable pub filter_tools_list : (Text → Bool) → Json → Json × List Text
unfolding retain_visible listed_tools put_under
filter_tools_list visible doc = elim (listed_tools doc) [
  | none ↦ (doc, [])
  | some tools ↦ let (kept, removed) = retain_visible visible tools in (put_tools kept doc, removed)
]
