-- ===== src/Tests/Mcp.antt =====
-- The MCP policy and the filter of tool lists, at concrete inputs.
use bot_marshal.Prelude.{
  ℕ, Text, none, some, false, [], ◌∷◌, ◌≡◌, refl, ◌↔◌, ◌⊎◌, Any, text_lt, List, Option, keep, lit,
  text_eq, ok, to_ascii_lowercase, trim, lower, is_empty, if◌then◌else◌,
}
use bot_marshal.Core.Hosts.{matches, normalise}
use bot_marshal.Core.Json.{
  as_str, Json, string, array, object, Items, nil, item, end, field, items, get, as_items,
}
use bot_marshal.Policy.Jsonrpc.{listed_tools, filter_tools_list}
use bot_marshal.Policy.Jsonrpc.Filtering.{shows}
use bot_marshal.Policy.ToolFilter.{JsonLib, filter_document, filter_response}
use bot_marshal.Policy.ToolFilter.Listings.{Lists, visible_to, filter_response-Lists}
use bot_marshal.Policy.McpArguments.{check_constraints, ValueLib, CompiledTool}
use bot_marshal.Policy.Mcp.{McpPolicy, governs, check_call, tool_is_visible}
use bot_marshal.Policy.Mcp.Calls.{Permits, check_call_iff}
use bot_marshal.Core.Evidence.{Evidence, empty, record_fact}
use bot_marshal.Core.Request.{RequestContext, ResponseParts, BodyHandle}
use bot_marshal.Policy.Jsonrpc.{ToolCall, parse_request}
use bot_marshal.Policy.Layers.McpCalls.{mcp_evaluate, on_message, record_id}
use bot_marshal.Policy.Layers.McpCalls.Passes.{mcp_evaluate-pass}
use bot_marshal.Tests.Data.{test_net, hosts, to_host}

abbrev values : ValueLib
values = record { value_eq = λ a b. false; value_string = λ v. [] }

abbrev read_tool : CompiledTool
read_tool = record { pattern = lit "read"; is_match = λ t. text_eq t (lit "read"); when = [] }

abbrev policy : McpPolicy ℕ
policy = record { servers = record { hosts = hosts; tools = read_tool ∷ [] } ∷ [] }

check_call_iff_example :
    (check_call values test_net policy (lit "a.b") (lit "read") none ≡ ok tt) ↔ (
      (governs values test_net policy (lit "a.b") ≡ false)
      ⊎ Any (Permits values test_net policy (lit "a.b") (lit "read") none) policy.servers)
check_call_iff_example = check_call_iff values test_net policy (lit "a.b") (lit "read") none

abbrev tool_named : Text → Json
tool_named name = object (field (lit "name") (string name) end)

abbrev two_tools : Items
two_tools = item (tool_named (lit "read")) (item (tool_named (lit "drop")) nil)

abbrev listing : Json
listing = object (field (lit "result") (object (field (lit "tools") (array two_tools) end)) end)

-- A reader that gives the listing for no bytes, and the filtered one for others.
abbrev json : JsonLib
json = record {
  from_slice = λ b.
      if is_empty b
      then some listing
      else some (filter_tools_list (tool_is_visible values test_net policy (lit "a.b")) listing).0;
  to_vec = λ d. ok (1 ∷ []);
}

abbrev answer : ResponseParts
answer = record { status = 200; headers = []; body = BodyHandle.buffered [] }

filter_response-Lists_example :
    (resp' : ResponseParts) × (filter_response values test_net json policy (lit "a.b") answer
      ≡ ok resp')
    × Lists json resp'
        (keep (shows (visible_to values test_net json policy (lit "a.b"))) (items two_tools))
unfolding filter_document listed_tools get as_items governs matches normalise text_eq
    to_ascii_lowercase trim lit lower
filter_response-Lists_example =
    filter_response-Lists values test_net json policy (lit "a.b") answer [] (1 ∷ []) listing
      two_tools refl refl refl refl refl refl

abbrev call_of : Text → Json
call_of tool = object (
    field (lit "jsonrpc") (string (lit "2.0")) (
      field (lit "method") (string (lit "tools/call"))
        (field (lit "params") (tool_named tool) end)))

abbrev posting : BodyHandle → RequestContext
posting body = record (to_host (lit "a.b")) { body = body }

abbrev read_call : ToolCall
read_call = record { id = none; tool = lit "read"; arguments = none }

abbrev recorded : Evidence
recorded = record {
  facts =
      (lit "mcp.method", string (lit "tools/call")) ∷ (lit "mcp.tool", string (lit "read")) ∷ [];
  flags = [];
  trail = [];
}

abbrev reader : List ℕ → Option Json
reader bytes = some (call_of (lit "read"))

mcp_evaluate-pass_example : check_call values test_net policy (lit "a.b") (lit "read") none ≡ ok tt
unfolding mcp_evaluate parse_request matches normalise text_eq to_ascii_lowercase trim lit lower get
    as_str governs on_message check_call check_constraints record_id record_fact text_lt
mcp_evaluate-pass_example =
    mcp_evaluate-pass values test_net policy 64 reader (posting (BodyHandle.buffered [])) empty
      recorded [] read_call refl refl refl
