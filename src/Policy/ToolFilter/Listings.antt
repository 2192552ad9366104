-- ===== src/Policy/ToolFilter/Listings.antt =====
-- What a filtered response lists.
use bot_marshal.Prelude.{
  ℕ, Text, some, Bool, true, List, ok, ◌≡◌, refl, sym, ap, ◌∙◌, inl, inr, Bool-cases, Option-cases,
  keep, is_empty, length, lit, decimal,
}
use bot_marshal.Core.Json.{Json, Items, nil, item, items}
use bot_marshal.Core.Request.{BodyHandle, ResponseParts}
use bot_marshal.Core.HeaderMap.{header_insert}
use bot_marshal.Core.Hosts.{NetLib}
use bot_marshal.Policy.McpArguments.{ValueLib}
use bot_marshal.Policy.Jsonrpc.{tool_name, retain_visible, listed_tools, filter_tools_list}
use bot_marshal.Policy.Jsonrpc.Filtering.{shows, retain_visible-keep, filter_tools_list-listed}
use bot_marshal.Policy.Mcp.{McpPolicy, governs, tool_is_visible}
use bot_marshal.Policy.ToolFilter.{
  JsonLib, filter_document, replace_listing, on_document, on_response_body, filter_response,
}

nothing_removed :
    (visible : Text → Bool) (tools : Items)
    → is_empty (retain_visible visible tools).1 ≡ true
    → (retain_visible visible tools).0 ≡ tools
unfolding retain_visible
nothing_removed visible nil h = refl
nothing_removed visible (item tool rest) h = elim (Option-cases (tool_name tool)) [
  | inl unnamed ↦ let e = rw (retain_visible, unnamed) at h in cc
  | inr (name, named) ↦ elim (Bool-cases (visible name)) [
    | inl on ↦
        let e = rw (retain_visible, named, on) at h in
        rw (retain_visible, named, on) (ap (λ l. item tool l) (nothing_removed visible rest e))
    | inr off ↦ let e = rw (retain_visible, named, off) at h in cc
  ]
]

removed_by :
    (visible : Text → Bool) (doc : Json) (tools : Items)
    → listed_tools doc ≡ some tools
    → (filter_tools_list visible doc).1 ≡ (retain_visible visible tools).1
unfolding filter_tools_list
removed_by visible doc tools h = rw (filter_tools_list, h) refl

-- The response has a body that reads as a document with this list of tools.
pub Lists : JsonLib → ResponseParts → List Json → Type 0
Lists json resp listed =
    (b : List ℕ) × (doc : Json) × (left : Items) × (resp.body ≡ BodyHandle.buffered b)
    × (json.from_slice b ≡ some doc)
    × (listed_tools doc ≡ some left)
    × (items left ≡ listed)

module _ (lib : ValueLib) (net : NetLib) (json : JsonLib) (policy : McpPolicy net.Net)
    (host : Text) where
  abbrev pub visible_to : Text → Bool
  visible_to = tool_is_visible lib net policy host

  replace_listing-Lists :
      (resp : ResponseParts) (bytes b : List ℕ) (doc : Json) (tools : Items)
      → resp.body ≡ BodyHandle.buffered bytes
      → json.from_slice bytes ≡ some doc
      → listed_tools doc ≡ some tools
      → json.to_vec (filter_tools_list visible_to doc).0 ≡ ok b
      → json.from_slice b ≡ some (filter_tools_list visible_to doc).0
      → (resp' : ResponseParts) × (replace_listing lib net json resp
            (filter_tools_list visible_to doc)
          ≡ ok resp')
        × Lists json resp' (keep (shows visible_to) (items tools))
  unfolding Lists replace_listing
  replace_listing-Lists resp bytes b doc tools here read listed written reread =
      elim (Bool-cases (is_empty (filter_tools_list visible_to doc).1)) [
        | inl none_gone ↦
            let gone = ap is_empty (sym (removed_by visible_to doc tools listed)) ∙ none_gone in
            let same : items tools ≡ keep (shows visible_to) (items tools) =
              ap items (sym (nothing_removed visible_to tools gone))
              ∙ retain_visible-keep visible_to tools in
            (
              resp,
              rw (replace_listing, none_gone) refl,
              (bytes, doc, tools, here, read, listed, same),
            )
        | inr some_gone ↦
            let (left, found, kept) = filter_tools_list-listed visible_to doc tools listed in
            (
              record resp {
                headers = header_insert (lit "content-length") (decimal (length b)) resp.headers;
                body = BodyHandle.buffered b;
              },
              rw (replace_listing, some_gone, written) refl,
              (b, (filter_tools_list visible_to doc).0, left, refl, reread, found, kept),
            )
      ]

filter_response-document :
    (lib : ValueLib) (net : NetLib) (json : JsonLib) (policy : McpPolicy net.Net) (host : Text)
    (resp : ResponseParts) (bytes : List ℕ) (doc : Json)
    → governs lib net policy host ≡ true
    → resp.body ≡ BodyHandle.buffered bytes
    → json.from_slice bytes ≡ some doc
    → filter_response lib net json policy host resp
      ≡ replace_listing lib net json resp (filter_document lib net json policy host doc)
unfolding filter_response on_response_body on_document
filter_response-document lib net json policy host resp bytes doc governed here read =
    rw (filter_response, governed, here, read) refl

-- On a governed host, a response whose body reads as a document with a list of tools leaves the filter
-- with a body that reads as a document whose list is the visible tools, in their order: if the filtered
-- document can be written, and reads back as it is.
pub filter_response-Lists :
    (lib : ValueLib) (net : NetLib) (json : JsonLib) (policy : McpPolicy net.Net) (host : Text)
    (resp : ResponseParts) (bytes b : List ℕ) (doc : Json) (tools : Items)
    → governs lib net policy host ≡ true
    → resp.body ≡ BodyHandle.buffered bytes
    → json.from_slice bytes ≡ some doc
    → listed_tools doc ≡ some tools
    → json.to_vec (filter_document lib net json policy host doc).0 ≡ ok b
    → json.from_slice b ≡ some (filter_document lib net json policy host doc).0
    → (resp' : ResponseParts) × (filter_response lib net json policy host resp ≡ ok resp')
      × Lists json resp' (keep (shows (visible_to lib net json policy host)) (items tools))
unfolding filter_document
filter_response-Lists lib net json policy host resp bytes b doc tools governed here read listed
      written reread =
    let (resp', e, lists) =
      replace_listing-Lists lib net json policy host resp bytes b doc tools here read listed written
        reread in
    (
      resp',
      filter_response-document lib net json policy host resp bytes doc governed here read ∙ e,
      lists,
    )
