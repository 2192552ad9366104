-- ===== src/Policy/Jsonrpc/Filtering.antt =====
-- What is left of a tools list.
use bot_marshal.Prelude.{
  Text, none, some, Bool, false, List, ◌∷◌, ◌≡◌, refl, sym, ap, ◌∙◌, keep, keep-accepted,
  keep-refused, Option-cases, Bool-cases, inl, inr, lit, text_eq,
}
use bot_marshal.Core.Json.{
  Json, object, array, null, bool, number, string, Items, nil, item, Fields, end, field, get,
  get_field, as_items, items,
}
use bot_marshal.Policy.Jsonrpc.{
  set_field, put_under, tool_name, retain_visible, listed_tools, put_tools, filter_tools_list,
}

get_field-set_field :
    (key : Text) (v w : Json) (fs : Fields)
    → get_field key fs ≡ some w
    → get_field key (set_field key v fs) ≡ some v
unfolding get_field set_field
get_field-set_field key v w end h = cc
get_field-set_field key v w (field k u fs) h = elim (Bool-cases (text_eq k key)) [
  | inl same ↦ rw (same, set_field) (rw (same, get_field) refl)
  | inr other ↦
      rw (other, set_field)
        (rw (other, get_field) (get_field-set_field key v w fs (rw (other, get_field) at h)))
]

get-put_under :
    (key : Text) (v w doc : Json) → get key doc ≡ some w → get key (put_under key v doc) ≡ some v
unfolding get put_under
get-put_under key v w (object fs) h = get_field-set_field key v w fs h
get-put_under key v w null h = cc
get-put_under key v w (bool b) h = cc
get-put_under key v w (number n) h = cc
get-put_under key v w (string s) h = cc
get-put_under key v w (array vs) h = cc

-- An entry that the client may see: it has a name, and the name is visible.
abbrev pub shows : (Text → Bool) → Json → Bool
shows visible tool = elim (tool_name tool) [ none ↦ false | some name ↦ visible name ]

pub retain_visible-keep :
    (visible : Text → Bool) (tools : Items)
    → items (retain_visible visible tools).0 ≡ keep (shows visible) (items tools)
unfolding retain_visible items
retain_visible-keep visible nil = refl
retain_visible-keep visible (item tool rest) = elim (Option-cases (tool_name tool)) [
  | inl unnamed ↦
      rw (unnamed, retain_visible)
        (retain_visible-keep visible rest
          ∙ sym (keep-refused (shows visible) tool (items rest) (rw (unnamed, shows) refl)))
  | inr (name, named) ↦ elim (Bool-cases (visible name)) [
    | inl on ↦
        rw (named, retain_visible, on)
          (ap (λ (l : List Json). tool ∷ l) (retain_visible-keep visible rest)
            ∙ sym (keep-accepted (shows visible) tool (items rest) (rw (named, shows) on)))
    | inr off ↦
        rw (named, retain_visible, off)
          (retain_visible-keep visible rest
            ∙ sym (keep-refused (shows visible) tool (items rest) (rw (named, shows) off)))
  ]
]

listed_tools-parts :
    (doc : Json) (tools : Items)
    → listed_tools doc ≡ some tools
    → (result list : Json) × (get (lit "result") doc ≡ some result)
      × (get (lit "tools") result ≡ some list)
      × (as_items list ≡ some tools)
unfolding listed_tools
listed_tools-parts doc tools h = elim (Option-cases (get (lit "result") doc)) [
  | inl no_result ↦ let e = rw (no_result, listed_tools) at h in cc
  | inr (result, found) ↦ elim (Option-cases (get (lit "tools") result)) [
    | inl no_tools ↦ let e = rw (found, listed_tools, no_tools) at h in cc
    | inr (list, listed) ↦ (result, list, found, listed, rw (found, listed_tools, listed) at h)
  ]
]

-- In a document with a list of tools, the filter leaves exactly the entries that have a visible
-- name, in their order, where a reader of the document finds them.
pub filter_tools_list-listed :
    (visible : Text → Bool) (doc : Json) (tools : Items)
    → listed_tools doc ≡ some tools
    → (left : Items) × (listed_tools (filter_tools_list visible doc).0 ≡ some left)
      × (items left ≡ keep (shows visible) (items tools))
unfolding filter_tools_list listed_tools as_items
filter_tools_list-listed visible doc tools h =
    let (result, list, found, listed, inside) = listed_tools-parts doc tools h in
    let kept = (retain_visible visible tools).0 in
    let inner : Json = put_under (lit "tools") (array kept) result in
    let outer : get (lit "result") (put_under (lit "result") inner doc) ≡ some inner =
      get-put_under (lit "result") inner result doc found in
    let deep : get (lit "tools") inner ≡ some (array kept) =
      get-put_under (lit "tools") (array kept) list result listed in
    let read : listed_tools (put_under (lit "result") inner doc) ≡ some kept =
      rw (outer, listed_tools, deep) refl in
    (kept, rw (h, filter_tools_list, found, put_tools) read, retain_visible-keep visible tools)
