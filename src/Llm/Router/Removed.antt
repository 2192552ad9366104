-- ===== src/Llm/Router/Removed.antt =====
-- The headers of a routed request: none of the private headers of the client is left.
use bot_marshal.Prelude.{
  ℕ, Text, Bool, true, false, ◌||◌, List, [], ◌∷◌, ◌≡◌, refl, ap, inl, inr, any, lit, decimal,
  text_eq, text_eq_iff, ◌∙◌, Bool-cases,
}
use bot_marshal.Core.HeaderMap.{Headers, remove, header_insert}
use bot_marshal.Secrets.Swap.Replaces.{values_of, values_of-remove}
use bot_marshal.Llm.Sse.{Dialect, openai, anthropic, system_one}
use bot_marshal.Llm.Router.{client_headers, remove_all, version_header, routed_headers}

abbrev pub is_one_of : Text → List Text → Bool
is_one_of name names = any (text_eq name) names

-- The headers of the client that no origin is to see.
abbrev pub private_headers : List Text
private_headers =
    lit "authorization"
    ∷ lit "x-api-key"
    ∷ lit "content-encoding"
    ∷ lit "anthropic-beta"
    ∷ lit "openai-organization"
    ∷ lit "openai-project"
    ∷ []

both_names :
    (n other name : Text)
    → text_eq n other ≡ true
    → text_eq n name ≡ true
    → text_eq other name ≡ true
both_names n other name l r = let e : n ≡ other = (text_eq_iff n other).0 l in rw (← e) r

values_of-remove_other :
    (name other : Text) (headers : Headers)
    → text_eq other name ≡ false
    → values_of name (remove other headers) ≡ values_of name headers
unfolding values_of
values_of-remove_other name other [] apart = refl
values_of-remove_other name other ((n, v) ∷ headers) apart =
    let ih = values_of-remove_other name other headers apart in
    elim (Bool-cases (text_eq n other)) [
      | inl gone ↦ elim (Bool-cases (text_eq n name)) [
        | inl same ↦ let clash = both_names n other name gone same in cc
        | inr differs ↦ rw (gone, differs) ih
      ]
      | inr stays ↦ elim (Bool-cases (text_eq n name)) [
        | inl same ↦ rw (stays, same) (ap (λ (vs : List (List ℕ)). v ∷ vs) ih)
        | inr differs ↦ rw (stays, differs) ih
      ]
    ]

values_of-insert_other :
    (name other : Text) (v : List ℕ) (headers : Headers)
    → text_eq other name ≡ false
    → values_of name (header_insert other v headers) ≡ values_of name headers
unfolding values_of header_insert
values_of-insert_other name other v [] apart = rw apart refl
values_of-insert_other name other v ((n, w) ∷ headers) apart =
    let ih = values_of-insert_other name other v headers apart in
    elim (Bool-cases (text_eq n other)) [
      | inl here ↦ elim (Bool-cases (text_eq n name)) [
        | inl same ↦ let clash = both_names n other name here same in cc
        | inr differs ↦
            rw (here, differs) (rw apart (values_of-remove_other name other headers apart))
      ]
      | inr later ↦ elim (Bool-cases (text_eq n name)) [
        | inl same ↦ rw (later, same) (ap (λ (vs : List (List ℕ)). w ∷ vs) ih)
        | inr differs ↦ rw (later, differs) ih
      ]
    ]

values_of-removed :
    (name other : Text) (headers : Headers)
    → values_of name headers ≡ []
    → values_of name (remove other headers) ≡ []
values_of-removed name other headers h = elim (Bool-cases (text_eq other name)) [
  | inl same ↦
      let e : other ≡ name = (text_eq_iff other name).0 same in rw e (values_of-remove name headers)
  | inr apart ↦ rw (values_of-remove_other name other headers apart) h
]

values_of-all_removed :
    (name : Text) (names : List Text) (headers : Headers)
    → values_of name headers ≡ []
    → values_of name (remove_all names headers) ≡ []
unfolding remove_all
values_of-all_removed name [] headers h = h
values_of-all_removed name (other ∷ names) headers h =
    values_of-all_removed name names (remove other headers) (values_of-removed name other headers h)

or_later : (a b : Bool) → a ≡ false → (a || b) ≡ true → b ≡ true
or_later true b h e = cc
or_later false b h e = e

values_of-remove_all :
    (name : Text) (names : List Text) (headers : Headers)
    → is_one_of name names ≡ true
    → values_of name (remove_all names headers) ≡ []
unfolding remove_all
values_of-remove_all name [] headers m = cc
values_of-remove_all name (other ∷ names) headers m = elim (Bool-cases (text_eq name other)) [
  | inl same ↦
      let e : name ≡ other = (text_eq_iff name other).0 same in
      values_of-all_removed name names (remove other headers)
        (rw (← e) (values_of-remove name headers))
  | inr apart ↦
      values_of-remove_all name names (remove other headers)
        (or_later (text_eq name other) (is_one_of name names) apart m)
]

-- A name that the list does not have is none of it.
apart_from :
    (name other : Text) (names : List Text)
    → is_one_of name names ≡ true
    → is_one_of other names ≡ false
    → text_eq other name ≡ false
apart_from name other names m absent = elim (Bool-cases (text_eq other name)) [
  | inl same ↦
      let e : other ≡ name = (text_eq_iff other name).0 same in
      let present : is_one_of other names ≡ true = rw e m in cc
  | inr apart ↦ apart
]

values_of-version_header :
    (name : Text) (dialect : Dialect) (headers : Headers)
    → is_one_of name private_headers ≡ true
    → values_of name (version_header dialect headers) ≡ values_of name headers
unfolding values_of version_header text_eq lit
values_of-version_header name openai headers m = refl
values_of-version_header name system_one headers m = refl
values_of-version_header name anthropic headers m =
    values_of-insert_other name (lit "anthropic-version") (lit "2023-06-01") headers
      (apart_from name (lit "anthropic-version") private_headers m refl)

or_inserted :
    (a b c d rest : Bool)
    → (a || (b || (c || rest))) ≡ true
    → (a || (b || (c || (d || rest)))) ≡ true
or_inserted true b c d rest h = refl
or_inserted false true c d rest h = refl
or_inserted false false true d rest h = refl
or_inserted false false false true rest h = refl
or_inserted false false false false rest h = h

pub routed_headers-private :
    (name : Text) (dialect : Dialect) (len : ℕ) (headers : Headers)
    → is_one_of name private_headers ≡ true
    → values_of name (routed_headers dialect len headers) ≡ []
unfolding routed_headers text_eq lit
routed_headers-private name dialect len headers m =
    let clean = remove_all client_headers headers in
    let typed = header_insert (lit "content-type") (lit "application/json") clean in
    values_of-version_header name dialect (header_insert (lit "content-length") (decimal len) typed)
      m
    ∙ values_of-insert_other name (lit "content-length") (decimal len) typed
        (apart_from name (lit "content-length") private_headers m refl)
    ∙ values_of-insert_other name (lit "content-type") (lit "application/json") clean
        (apart_from name (lit "content-type") private_headers m refl)
    ∙ values_of-remove_all name client_headers headers (
        or_inserted (text_eq name (lit "authorization")) (text_eq name (lit "x-api-key"))
          (text_eq name (lit "content-encoding")) (text_eq name (lit "anthropic-version"))
          (text_eq name (lit "anthropic-beta")
            || (text_eq name (lit "openai-organization")
                || (text_eq name (lit "openai-project") || false)))
          m)
