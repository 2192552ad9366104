-- ===== src/Policy/Layers/McpCalls/Passes.antt =====
-- What the MCP layer lets by.
use bot_marshal.Prelude.{
  ℕ, Option, some, List, ◌≡◌, sym, ap, ◌∙◌, inl, inr, Bool-cases, Result-cases, ok,
}
use bot_marshal.Core.Evidence.{Evidence}
use bot_marshal.Core.Hosts.{NetLib}
use bot_marshal.Core.Json.{Json}
use bot_marshal.Core.Request.{RequestContext, BodyHandle}
use bot_marshal.Core.Verdict.{Verdict}
use bot_marshal.Policy.Jsonrpc.{tools_call, ToolCall, parse_request}
use bot_marshal.Policy.McpArguments.{ValueLib}
use bot_marshal.Policy.Mcp.{McpPolicy, governs, check_call}
use bot_marshal.Policy.Mcp.Calls.{check_call_iff}
use bot_marshal.Policy.Layers.McpCalls.{on_message, on_body, mcp_evaluate}

module _ (lib : ValueLib) (net : NetLib) (p : McpPolicy net.Net) (body_cap : ℕ)
    (from_slice : List ℕ → Option Json) where
  on_message-pass :
      (cx : RequestContext) (ev ev' : Evidence) (call : ToolCall)
      → on_message lib net p body_cap from_slice cx ev (tools_call call) ≡ ok (Verdict.pass ev')
      → check_call lib net p cx.authority.host call.tool call.arguments ≡ ok tt
  unfolding on_message
  on_message-pass cx ev ev' call e =
      elim (Result-cases (check_call lib net p cx.authority.host call.tool call.arguments)) [
        | inl (u, permitted) ↦ permitted
        | inr (refusal, refused) ↦ let f = rw (refused, on_message) at e in cc
      ]

  on_body-pass :
      (cx : RequestContext) (ev ev' : Evidence) (bytes : List ℕ) (call : ToolCall)
      → parse_request from_slice bytes ≡ some (tools_call call)
      → on_body lib net p body_cap from_slice cx ev (BodyHandle.buffered bytes)
        ≡ ok (Verdict.pass ev')
      → check_call lib net p cx.authority.host call.tool call.arguments ≡ ok tt
  unfolding on_body
  on_body-pass cx ev ev' bytes call parsed e =
      on_message-pass cx ev ev' call (rw (parsed, on_body) at e)

  -- When a buffered body parses as a tool call and the layer passes it on, `check_call` permits the
  -- call.
  pub mcp_evaluate-pass :
      (cx : RequestContext) (ev ev' : Evidence) (bytes : List ℕ) (call : ToolCall)
      → cx.body ≡ BodyHandle.buffered bytes
      → parse_request from_slice bytes ≡ some (tools_call call)
      → mcp_evaluate lib net p body_cap from_slice cx ev ≡ ok (Verdict.pass ev')
      → check_call lib net p cx.authority.host call.tool call.arguments ≡ ok tt
  unfolding mcp_evaluate
  mcp_evaluate-pass cx ev ev' bytes call body parsed e =
      elim (Bool-cases (governs lib net p cx.authority.host)) [
        | inl governed ↦
            on_body-pass cx ev ev' bytes call parsed
              (ap (on_body lib net p body_cap from_slice cx ev) (sym body) ∙ rw governed at e)
        | inr free ↦
            (check_call_iff lib net p cx.authority.host call.tool call.arguments).1 (inl free)
      ]
