-- ===== src/Llm/Translate/Named.antt =====
-- A translated request names the model that its target is to run.
use bot_marshal.Prelude.{
  Text, some, false, not, ◌&&◌, ok, lit, ◌≡◌, refl, subst, Bool-cases, Option-cases, inl, inr,
  arith, text_eq, text_lt, text_eq_refl,
}
use bot_marshal.Prelude.Maps.{text_eq-different}
use bot_marshal.Core.Json.{Json, string, object, Fields, end, field, get, get_field}
use bot_marshal.Llm.Stream.{LlmLib}
use bot_marshal.Llm.Sse.{Dialect, openai, anthropic, system_one}
use bot_marshal.Llm.Sse.Chunks.{dialect_eq}
use bot_marshal.Llm.Translate.{entries}
use bot_marshal.Llm.Translate.ToAnthropic.{openai_object_to_anthropic, openai_request_to_anthropic}
use bot_marshal.Llm.Translate.ToOpenai.{anthropic_object_to_openai, anthropic_request_to_openai}
use bot_marshal.Llm.Translate.Bodies.{is_decision, put_model, request_between, translate_request}
use bot_marshal.Secrets.Oauth.Jwt.{set_key}

get_field-set_key : (k : Text) (v : Json) (fs : Fields) → get_field k (set_key k v fs) ≡ some v
unfolding set_key get_field
get_field-set_key k v end = rw (text_eq_refl k) refl
get_field-set_key k v (field j u fs) = elim (Bool-cases (text_eq k j)) [
  | inl same ↦ rw same (rw (text_eq_refl k) refl)
  | inr other ↦ elim (Bool-cases (text_lt k j)) [
    | inl before ↦ rw (other, before) (rw (text_eq_refl k) refl)
    | inr behind ↦
        let apart : text_eq j k ≡ false = text_eq-different k j other in
        rw (other, behind) (rw apart (get_field-set_key k v fs))
  ]
]

abbrev IsNamed : Text → Json → Type 0
IsNamed model out = get (lit "model") out ≡ some (string model)

module _ (lib : LlmLib) (model : Text) where
  put_model-IsNamed : (fs : Fields) → IsNamed model (put_model model (object fs))
  unfolding put_model get
  put_model-IsNamed fs = get_field-set_key (lit "model") (string model) fs

  to_anthropic-IsNamed : (body : Json) → IsNamed model (openai_object_to_anthropic lib body model)
  unfolding openai_object_to_anthropic get get_field entries text_eq lit
  to_anthropic-IsNamed body = refl

  to_openai-IsNamed : (body : Json) → IsNamed model (anthropic_object_to_openai lib body model)
  unfolding anthropic_object_to_openai get get_field entries text_eq lit
  to_openai-IsNamed body = elim (Option-cases (get (lit "max_tokens") body)) [
    | inl missing ↦ rw missing refl
    | inr (v, there) ↦ rw there refl
  ]

  request_between-IsNamed :
      (source target : Dialect) (fs : Fields) (out : Json)
      → request_between lib source target (object fs) model ≡ ok out
      → IsNamed model out
  unfolding request_between openai_request_to_anthropic anthropic_request_to_openai
  request_between-IsNamed openai openai fs out h =
      let same : put_model model (object fs) ≡ out = ground arith in
      subst (IsNamed model) same (put_model-IsNamed fs)
  request_between-IsNamed anthropic anthropic fs out h =
      let same : put_model model (object fs) ≡ out = ground arith in
      subst (IsNamed model) same (put_model-IsNamed fs)
  request_between-IsNamed system_one system_one fs out h =
      let same : put_model model (object fs) ≡ out = ground arith in
      subst (IsNamed model) same (put_model-IsNamed fs)
  request_between-IsNamed openai anthropic fs out h =
      let same : openai_object_to_anthropic lib (object fs) model ≡ out = ground arith in
      subst (IsNamed model) same (to_anthropic-IsNamed (object fs))
  request_between-IsNamed anthropic openai fs out h =
      let same : anthropic_object_to_openai lib (object fs) model ≡ out = ground arith in
      subst (IsNamed model) same (to_openai-IsNamed (object fs))
  request_between-IsNamed openai system_one fs out h = cc
  request_between-IsNamed anthropic system_one fs out h = cc
  request_between-IsNamed system_one openai fs out h = cc
  request_between-IsNamed system_one anthropic fs out h = cc

  -- Whatever the dialects are, a translated request object names the mapped model.
  pub translate_request-IsNamed :
      (source target : Dialect) (fs : Fields) (out : Json)
      → translate_request lib source target (object fs) model ≡ ok out
      → get (lit "model") out ≡ some (string model)
  unfolding translate_request
  translate_request-IsNamed source target fs out =
      elim (Bool-cases (dialect_eq source system_one && not (is_decision (object fs)))) [
        | inl refused ↦ rw (translate_request, refused) (λ h. cc)
        | inr fine ↦ rw (translate_request, fine) (request_between-IsNamed source target fs out)
      ]
