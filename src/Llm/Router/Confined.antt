-- ===== src/Llm/Router/Confined.antt =====
-- A routed request goes to its target without the headers that belong to the endpoint of the client.
use bot_marshal.Prelude.{
  sym, err, none, Result, ℕ, Text, some, true, List, [], ok, >>=-eq-ok, Option-cases, ◌≡◌, refl, ap,
  ◌⊎◌, inl, inr, map_err, find_entry, lit, length, ◌∙◌, arith, subst,
}
use bot_marshal.Core.Error.{Error}
use bot_marshal.Core.Json.{null, bool, number, string, array, object, get, as_str, Json}
use bot_marshal.Core.Request.{BodyHandle, RequestContext, Uri}
use bot_marshal.Secrets.Swap.Replaces.{values_of}
use bot_marshal.Secrets.Oauth.Token.{str_field}
use bot_marshal.Llm.Router.{
  LlmListen, LlmModelTarget, LlmRouterConfig, RouterLib, Translation, LlmUnmapped, pass, deny,
  listen_for, routed, path_of, other_error, encode_body,
}
use bot_marshal.Llm.Router.Requests.{
  bad_path, buffered_body, send_to, not_mapped, route_model, route_listed, route_request, model_of,
}
use bot_marshal.Llm.Router.Removed.{is_one_of, private_headers, routed_headers-private}

-- The model that the body of a request names.
abbrev pub Names : RouterLib → RequestContext → Text → Type 0
Names lib cx from_model =
    (bytes : List ℕ) × (body : Json) × (cx.body ≡ BodyHandle.buffered bytes)
    × (lib.from_slice bytes ≡ ok body)
    × (get (lit "model") body ≡ some (string from_model))

-- The request was sent to the target of the model that its body names, with no value of the header.
abbrev pub IsSent : RouterLib → LlmRouterConfig → Text → RequestContext → RequestContext → Type 0
IsSent lib c name cx out =
    (from_model : Text) × (target : LlmModelTarget) × Names lib cx from_model
    × (find_entry from_model c.models ≡ some target)
    × (out.authority ≡ record { host = target.target_host; port = target.target_port })
    × (values_of name out.headers ≡ [])

-- Nobody listens for the request, or its model is not in the table and such requests pass.
abbrev pub IsForeign : RouterLib → LlmRouterConfig → RequestContext → Type 0
IsForeign lib c cx =
    (listen_for c cx.authority.host cx.uri.path ≡ none)
    ⊎ ((c.unmapped ≡ LlmUnmapped.pass)
        × (from_model : Text) × Names lib cx from_model
        × (find_entry from_model c.models ≡ none))

-- The request was sent on, or it is none of the router's and left as it came.
abbrev pub IsConfined :
    RouterLib → LlmRouterConfig → Text → RequestContext → RequestContext → Type 0
IsConfined lib c name cx out = ((out ≡ cx) × IsForeign lib c cx) ⊎ IsSent lib c name cx out

as_str-string : (v : Json) (s : Text) → as_str v ≡ some s → v ≡ string s
unfolding as_str
as_str-string (string t) s h = let same : t ≡ s = ground arith in ap (λ (u : Text). string u) same
as_str-string null s h = cc
as_str-string (bool b) s h = cc
as_str-string (number n) s h = cc
as_str-string (array vs) s h = cc
as_str-string (object fs) s h = cc

str_field-string :
    (key : Text) (body : Json) (s : Text)
    → str_field key body ≡ some s
    → get key body ≡ some (string s)
unfolding str_field
str_field-string key body s h = elim (Option-cases (get key body)) [
  | inl missing ↦ absurd (cc (rw (missing, str_field) at h))
  | inr (v, there) ↦
      there ∙ ap (λ (u : Json). some u) (as_str-string v s (rw (there, str_field) at h))
]

module _ (lib : RouterLib) (t : Translation) (c : LlmRouterConfig) (name : Text) where
  model_of-names :
      (body : Json) (m : Text)
      → model_of lib t c body ≡ ok m
      → get (lit "model") body ≡ some (string m)
  unfolding model_of
  model_of-names body m h = elim (Option-cases (str_field (lit "model") body)) [
    | inl missing ↦ absurd (cc (rw (missing, model_of) at h))
    | inr (s, there) ↦
        let same : s ≡ m = cc (rw (there, model_of) at h) in
        str_field-string (lit "model") body m (there ∙ ap (λ (u : Text). some u) same)
  ]

  buffered_body-bytes :
      (b : BodyHandle) (cap : ℕ) (bytes : List ℕ)
      → buffered_body lib t c b cap ≡ ok bytes
      → b ≡ BodyHandle.buffered bytes
  buffered_body-bytes (BodyHandle.buffered bs) cap bytes h =
      let same : bs ≡ bytes = ground arith in ap (λ (u : List ℕ). BodyHandle.buffered u) same
  buffered_body-bytes (BodyHandle.over_limit p l o) cap bytes h = cc
  buffered_body-bytes BodyHandle.empty cap bytes h = cc
  buffered_body-bytes BodyHandle.streaming cap bytes h = cc

  map_err-ok :
      {A : Type 0} (f : Text → Error) (r : Result Text A) (a : A) → map_err f r ≡ ok a → r ≡ ok a
  map_err-ok f (ok b) a h = cc
  map_err-ok f (err e) a h = cc

  routed-IsSent :
      (l : LlmListen) (from_model : Text) (target : LlmModelTarget) (bytes : List ℕ) (uri : Uri)
      (cx : RequestContext)
      → is_one_of name private_headers ≡ true
      → Names lib cx from_model
      → find_entry from_model c.models ≡ some target
      → IsSent lib c name cx (routed l from_model target bytes uri cx)
  unfolding routed
  routed-IsSent l from_model target bytes uri cx m named found = (
    from_model,
    target,
    named,
    found,
    refl,
    routed_headers-private name target.target_dialect (length bytes) cx.headers m,
  )

  send_to-IsSent :
      (l : LlmListen) (from_model : Text) (target : LlmModelTarget) (body : Json)
      (cx out : RequestContext)
      → is_one_of name private_headers ≡ true
      → Names lib cx from_model
      → find_entry from_model c.models ≡ some target
      → send_to lib t c l from_model target body cx ≡ ok out
      → IsSent lib c name cx out
  unfolding send_to
  send_to-IsSent l from_model target body cx out m named found h =
      let translation = t.on_request l.dialect target.target_dialect body target.model in
      let what = other_error (lit "could not translate LLM request: ") in
      let (translated, e1, h1) = >>=-eq-ok (map_err what translation) _ out h in
      let (bytes, e2, h2) = >>=-eq-ok (encode_body lib translated) _ out h1 in
      let parsed = lib.parse_uri (path_of target) in
      let (uri, e3, h3) = >>=-eq-ok (map_err (bad_path lib t c (path_of target)) parsed) _ out h2 in
      let same : routed l from_model target bytes uri cx ≡ out = ground arith in
      subst (IsSent lib c name cx) same
        (routed-IsSent l from_model target bytes uri cx m named found)

  not_mapped-same :
      (unmapped : LlmUnmapped) (from_model : Text) (cx out : RequestContext)
      → not_mapped lib t c unmapped from_model cx ≡ ok out
      → (out ≡ cx) × (unmapped ≡ LlmUnmapped.pass)
  unfolding not_mapped
  not_mapped-same pass from_model cx out h = let same : out ≡ cx = ground arith in (same, refl)
  not_mapped-same deny from_model cx out h = cc

  route_model-IsConfined :
      (l : LlmListen) (body : Json) (cx out : RequestContext) (from_model : Text)
      → is_one_of name private_headers ≡ true
      → Names lib cx from_model
      → route_model lib t c l body cx from_model ≡ ok out
      → IsConfined lib c name cx out
  unfolding route_model
  route_model-IsConfined l body cx out from_model m named =
      elim (Option-cases (find_entry from_model c.models)) [
        | inl missing ↦
            rw (route_model, missing)
              (λ h.
                let (same, lets) = not_mapped-same c.unmapped from_model cx out h in
                inl (same, inr (lets, from_model, named, missing)))
        | inr (target, found) ↦
            rw (route_model, found)
              (λ h. inr (send_to-IsSent l from_model target body cx out m named found h))
      ]

  route_listed-IsConfined :
      (l : LlmListen) (cx out : RequestContext)
      → is_one_of name private_headers ≡ true
      → route_listed lib t c l cx ≡ ok out
      → IsConfined lib c name cx out
  unfolding route_listed
  route_listed-IsConfined l cx out m h =
      let (bytes, e1, h1) = >>=-eq-ok (buffered_body lib t c cx.body c.max_request_bytes) _ out h in
      let what = other_error (lit "LLM request body is not valid JSON: ") in
      let (body, e2, h2) = >>=-eq-ok (map_err what (lib.from_slice bytes)) _ out h1 in
      let (from_model, e3, h3) = >>=-eq-ok (model_of lib t c body) _ out h2 in
      let named : Names lib cx from_model = (
        bytes,
        body,
        buffered_body-bytes cx.body c.max_request_bytes bytes e1,
        map_err-ok what (lib.from_slice bytes) body e2,
        model_of-names body from_model e3,
      ) in
      route_model-IsConfined l body cx out from_model m named h3

  -- A request that the router lets pass leaves as it came, and then nobody listens for it or the model that its
  -- body names is not in the table and such requests are to pass; or it goes to the target of the model that
  -- its body names, with no value of a private header of the client.
  pub route_request-IsConfined :
      (cx out : RequestContext)
      → is_one_of name private_headers ≡ true
      → route_request lib t c cx ≡ ok out
      → IsConfined lib c name cx out
  unfolding route_request
  route_request-IsConfined cx out m =
      elim (Option-cases (listen_for c cx.authority.host cx.uri.path)) [
        | inl missing ↦
            rw (route_request, missing)
              (λ h. let same : out ≡ cx = ground arith in inl (same, inl refl))
        | inr (l, found) ↦
            let listed : route_request lib t c cx ≡ route_listed lib t c l cx =
              rw (route_request, found) refl in
            λ h. route_listed-IsConfined l cx out m (sym listed ∙ h)
      ]
