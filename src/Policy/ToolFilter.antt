-- ===== src/Policy/ToolFilter.antt =====
-- crates/marshal-policy/src/transforms.rs: the filter of tool listings in responses. The reader and the
-- writers of serde_json are parameters.
pub mod Listings
use bot_marshal.Prelude.{
  ℕ, Text, Option, none, some, Bool, true, false, List, [], ◌∷◌, ◌++◌, Result, ok, err, ◌>>=◌,
  map_err, length, is_empty, lit, decimal, strip_prefix, trim_start, trim_end_by, is_space, ◌==◌,
  ◌||◌, if◌then◌else◌,
}
use bot_marshal.Core.Error.{Error, other}
use bot_marshal.Core.Json.{Json}
use bot_marshal.Core.Request.{BodyHandle, ResponseParts}
use bot_marshal.Core.HeaderMap.{header_insert}
use bot_marshal.Core.Hosts.{NetLib}
use bot_marshal.Policy.McpArguments.{ValueLib}
use bot_marshal.Policy.Jsonrpc.{filter_tools_list}
use bot_marshal.Policy.Mcp.{McpPolicy, governs, tool_is_visible}

pub record JsonLib : Type 0 where
  pub from_slice : List ℕ → Option Json
  pub to_vec : Json → Result Text (List ℕ)

-- `split_inclusive('\n')`: the lines, each with its end.
end_line : ℕ → List Text → List Text
end_line c [] = (c ∷ []) ∷ []
end_line c (line ∷ lines) = if c == 10 then (c ∷ []) ∷ line ∷ lines else (c ∷ line) ∷ lines

unfoldable pub split_inclusive : Text → List Text
unfolding end_line
split_inclusive [] = []
split_inclusive (c ∷ s) = end_line c (split_inclusive s)

module _ (lib : ValueLib) (net : NetLib) (json : JsonLib) where
  open net use {Net}
  open json use {from_slice, to_vec}

  unfoldable pub filter_document : McpPolicy Net → Text → Json → Json × List Text
  unfolding filter_tools_list tool_is_visible
  filter_document policy host doc = filter_tools_list (tool_is_visible lib net policy host) doc

  -- `to_string` of serde_json, with its `unwrap_or_else`.
  abbrev text_or : Text → Result Text (List ℕ) → Text
  text_or payload (ok s) = s
  text_or payload (err e) = payload

  -- A line whose payload is a document; it is kept if nothing was removed.
  rewritten_line : Text → Text → Json × List Text → Text × List Text
  rewritten_line line payload (doc, removed) =
      if is_empty removed
      then (line, [])
      else (lit "data: " ++ (text_or payload (to_vec doc) ++ 10 ∷ []), removed)

  data_line : McpPolicy Net → Text → Text → Option Text → Text × List Text
  unfolding filter_document rewritten_line trim_start
  data_line policy host line none = (line, [])
  data_line policy host line (some after) =
      let payload = trim_start after in
      elim (from_slice payload) [
        | none ↦ (line, [])
        | some doc ↦ rewritten_line line payload (filter_document policy host doc)
      ]

  filter_lines : McpPolicy Net → Text → List Text → Text × List Text
  unfolding data_line
  filter_lines policy host [] = ([], [])
  filter_lines policy host (line ∷ lines) =
      let (out, removed) =
        data_line policy host line
          (strip_prefix (lit "data:") (trim_end_by (λ c. (c == 13) || (c == 10)) line)) in
      let (more, also) = filter_lines policy host lines in (out ++ more, removed ++ also)

  unfoldable pub filter_sse_chunk : McpPolicy Net → Text → Text → Text × List Text
  unfolding filter_lines split_inclusive
  filter_sse_chunk policy host chunk = filter_lines policy host (split_inclusive chunk)

  unfoldable pub rewrite_chunk : McpPolicy Net → Text → Text → Option Text
  unfolding filter_sse_chunk
  rewrite_chunk policy host chunk =
      if governs lib net policy host then some (filter_sse_chunk policy host chunk).0 else none

  -- The response with the document that is left, if tools were removed.
  unfoldable pub replace_listing : ResponseParts → Json × List Text → Result Error ResponseParts
  unfolding header_insert
  replace_listing resp (doc, removed) =
      if is_empty removed
      then ok resp
      else (map_err (λ e. other (lit "re-serialising a filtered tools/list: " ++ e)) (to_vec doc)
          >>= λ b. ok (record resp {
            headers = header_insert (lit "content-length") (decimal (length b)) resp.headers;
            body = BodyHandle.buffered b;
          }))

  on_document : McpPolicy Net → Text → ResponseParts → Option Json → Result Error ResponseParts
  unfolding filter_document replace_listing
  on_document policy host resp none = ok resp
  on_document policy host resp (some doc) = replace_listing resp (filter_document policy host doc)

  on_response_body : McpPolicy Net → Text → ResponseParts → BodyHandle → Result Error ResponseParts
  unfolding on_document
  on_response_body policy host resp (BodyHandle.buffered bytes) =
      on_document policy host resp (from_slice bytes)
  on_response_body policy host resp BodyHandle.empty = ok resp
  on_response_body policy host resp (BodyHandle.over_limit p l o) = ok resp
  on_response_body policy host resp BodyHandle.streaming = ok resp

  -- `apply`, for the host of the request.
  unfoldable pub filter_response : McpPolicy Net → Text → ResponseParts → Result Error ResponseParts
  unfolding governs on_response_body
  filter_response policy host resp =
      if governs lib net policy host then on_response_body policy host resp resp.body else ok resp
