-- ===== src/Policy/Layers/McpCalls.antt =====
-- layers/mcp.rs: gating `tools/call`.
pub mod Passes
use bot_marshal.Prelude.{
  ℕ, Text, Option, none, some, true, List, [], ◌∷◌, lit, format, decimal, Result, ok, err, not,
  if◌then◌else◌,
}
use bot_marshal.Core.Error.{Error}
use bot_marshal.Core.Evidence.{Evidence, add_flag, record_fact}
use bot_marshal.Core.Hosts.{NetLib}
use bot_marshal.Core.Json.{Json, string}
use bot_marshal.Core.Layer.{PolicyLayer, cheap, buffered, FailureMode}
use bot_marshal.Core.Request.{RequestContext, BodyHandle}
use bot_marshal.Core.Verdict.{Reason, reason, with_rule, Verdict}
use bot_marshal.Policy.Jsonrpc.{Message, tools_call, tools_list, other, ToolCall, parse_request}
use bot_marshal.Policy.McpArguments.{
  Refusal, unknown_tool, constraint_failed, refusal_code, ValueLib,
}
use bot_marshal.Policy.Mcp.{McpPolicy, governs, check_call}

-- `record_id`.
unfoldable pub record_id : Option Json → Evidence → Evidence
record_id none ev = ev
record_id (some id) ev = (record_fact (lit "mcp.request_id") id ev).0

unfoldable pub refusal_message : RequestContext → ToolCall → Refusal → Text
refusal_message cx call unknown_tool = format (
    lit "the tool `"
    ∷ call.tool
    ∷ lit "` is not permitted on `"
    ∷ cx.authority.host
    ∷ lit "` by profile `"
    ∷ cx.profile
    ∷ lit "`"
    ∷ [])
refusal_message cx call (constraint_failed path detail) = detail

module _ (lib : ValueLib) (net : NetLib) (p : McpPolicy net.Net) (body_cap : ℕ)
    (from_slice : List ℕ → Option Json) where
  too_large : RequestContext → Reason
  too_large cx = reason (lit "mcp") (lit "mcp_body_too_large") (
      format (
        lit "a request to the MCP server `"
        ∷ cx.authority.host
        ∷ lit "` exceeded the "
        ∷ decimal body_cap
        ∷ lit " byte inspection cap, so its tool call could not be checked"
        ∷ []))

  -- What is recorded of a call before it is checked.
  call_evidence : ToolCall → Evidence → Evidence
  call_evidence call ev =
      let method = (record_fact (lit "mcp.method") (string (lit "tools/call")) ev).0 in
      let tool = (record_fact (lit "mcp.tool") (string call.tool) method).0 in
      record_id call.id tool

  -- The match on the message.
  unfoldable pub on_message : RequestContext → Evidence → Message → Result Error Verdict
  unfolding call_evidence
  on_message cx ev (tools_list id) =
      let method = (record_fact (lit "mcp.method") (string (lit "tools/list")) ev).0 in
      ok (Verdict.pass (add_flag (lit "McpToolsList") (record_id id method)))
  on_message cx ev (other name id) =
      ok (Verdict.pass (record_id id (record_fact (lit "mcp.method") (string name) ev).0))
  on_message cx ev (tools_call call) =
      elim (check_call lib net p cx.authority.host call.tool call.arguments) [
        | ok u ↦ ok (Verdict.pass (call_evidence call ev))
        | err refusal ↦ ok (
            Verdict.deny (
              with_rule call.tool
                (reason (lit "mcp") (refusal_code refusal) (refusal_message cx call refusal))))
      ]

  -- The match on the body, for a host that the policy governs.
  unfoldable pub on_body : RequestContext → Evidence → BodyHandle → Result Error Verdict
  unfolding too_large
  on_body cx ev (BodyHandle.buffered bytes) = elim (parse_request from_slice bytes) [
    | none ↦ ok (Verdict.pass ev)
    | some message ↦ on_message cx ev message
  ]
  on_body cx ev BodyHandle.streaming = ok (Verdict.deny (too_large cx))
  on_body cx ev (BodyHandle.over_limit prefix limit observed) = ok (Verdict.deny (too_large cx))
  on_body cx ev BodyHandle.empty = ok (Verdict.pass ev)

  -- `Mcp::evaluate`.
  unfoldable pub mcp_evaluate : RequestContext → Evidence → Result Error Verdict
  unfolding on_body
  mcp_evaluate cx ev =
      if not (governs lib net p cx.authority.host)
      then ok (Verdict.pass ev)
      else on_body cx ev cx.body

  unfoldable pub mcp_layer : PolicyLayer
  unfolding mcp_evaluate
  mcp_layer = record {
    name = lit "mcp";
    cost = cheap;
    needs_request = true;
    body_requirement = buffered body_cap;
    on_error = FailureMode.deny;
    evaluate = mcp_evaluate;
  }
