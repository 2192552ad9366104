-- ===== src/Secrets/Swap/Replaces.antt =====
-- A header that a swap sets holds the credential alone, whatever the client sent.
use bot_marshal.Prelude.{
  ℕ, Text, Option, none, some, Bool, true, false, List, [], ◌∷◌, ◌++◌, Result, ok, err, ◌>>=◌, ◌≡◌,
  refl, ap, ◌∙◌, arith, inl, inr, Bool-cases, lit, text_eq, text_eq_refl, if◌then◌else◌,
}
use bot_marshal.Core.Error.{Error}
use bot_marshal.Core.Request.{RequestContext, Uri}
use bot_marshal.Core.HeaderMap.{Headers, remove, header_insert}
use bot_marshal.Core.Encoding.{base64_encode}
use bot_marshal.Core.Hosts.{NetLib}
use bot_marshal.Secrets.Sigv4.{SigLib}
use bot_marshal.Secrets.Swap.{
  Injection, basic, bearer, header, query, sigv4, SecretSwap, try_set_header, inject, note_fact,
  note_injected, is_for, apply_swaps,
}
use bot_marshal.Secrets.Swap.Bound.{apply_swaps-done}

-- The values of a name, in order.
unfoldable pub values_of : Text → Headers → List (List ℕ)
values_of name [] = []
values_of name ((n, v) ∷ headers) =
    let later = values_of name headers in if text_eq n name then v ∷ later else later

pub values_of-remove : (name : Text) (headers : Headers) → values_of name (remove name headers) ≡ []
unfolding values_of
values_of-remove name [] = refl
values_of-remove name ((n, v) ∷ headers) = elim (Bool-cases (text_eq n name)) [
  | inl same ↦ rw same (values_of-remove name headers)
  | inr other ↦ rw other (rw other (values_of-remove name headers))
]

header_insert-values_of :
    (name : Text) (v : List ℕ) (headers : Headers)
    → values_of name (header_insert name v headers) ≡ v ∷ []
unfolding values_of header_insert
header_insert-values_of name v [] = rw (text_eq_refl name) refl
header_insert-values_of name v ((n, w) ∷ headers) = elim (Bool-cases (text_eq n name)) [
  | inl same ↦ rw same (rw (text_eq_refl name, values_of-remove name headers) refl)
  | inr other ↦ rw other (rw other (header_insert-values_of name v headers))
]

remove-remove :
    (name : Text) (headers : Headers) → remove name (remove name headers) ≡ remove name headers
remove-remove name [] = refl
remove-remove name ((n, v) ∷ headers) = elim (Bool-cases (text_eq n name)) [
  | inl same ↦ rw same (remove-remove name headers)
  | inr other ↦ rw other (rw other (ap (λ (l : Headers). (n, v) ∷ l) (remove-remove name headers)))
]

remove-header_insert :
    (name : Text) (v : List ℕ) (headers : Headers)
    → remove name (header_insert name v headers) ≡ remove name headers
unfolding header_insert
remove-header_insert name v [] = rw (text_eq_refl name) refl
remove-header_insert name v ((n, w) ∷ headers) = elim (Bool-cases (text_eq n name)) [
  | inl same ↦ rw same (rw (text_eq_refl name) (remove-remove name headers))
  | inr other ↦
      rw other (rw other (ap (λ (l : Headers). (n, w) ∷ l) (remove-header_insert name v headers)))
]

abbrev header_to : Text → Result Error Text → Option (Text × Result Error Text)
header_to name value = some (name, value)

-- The header that an injection sets, and the value for it.
unfoldable pub header_of : Injection → Option (Text × Result Error Text)
header_of (basic username source) = some (
  lit "authorization",
  source.resolve >>= λ real. ok (lit "Basic " ++ base64_encode (username ++ (lit ":" ++ real))),
)
header_of (bearer source) =
    some (lit "authorization", source.resolve >>= λ real. ok (lit "Bearer " ++ real))
header_of (header name source) = some (name, source.resolve)
header_of (query name source) = none
header_of (sigv4 access_key secret_key token region service cap) = none

module _ (net : NetLib) (lib : SigLib) (rebuild_uri : Uri → Text → Option Uri) where
  set_by :
      (cx : RequestContext) (m : Result Error Text) (f : Text → Text) (name n value : Text)
      → header_to n (m >>= λ real. ok (f real)) ≡ some (name, ok value)
      → (m >>= λ real. ok (try_set_header net lib rebuild_uri cx n (f real)))
        ≡ ok (try_set_header net lib rebuild_uri cx name value)
  set_by cx (err problem) f name n value e = cc
  set_by cx (ok real) f name n value e =
      let name_same : n ≡ name = ground arith in
      let value_same : f real ≡ value = ground arith in rw (name_same, value_same) refl

  set_as_it_is :
      (cx : RequestContext) (m : Result Error Text) (name n value : Text)
      → header_to n m ≡ some (name, ok value)
      → (m >>= λ real. ok (try_set_header net lib rebuild_uri cx n real))
        ≡ ok (try_set_header net lib rebuild_uri cx name value)
  set_as_it_is cx (err problem) name n value e = cc
  set_as_it_is cx (ok real) name n value e =
      let name_same : n ≡ name = ground arith in
      let value_same : real ≡ value = ground arith in rw (name_same, value_same) refl

  inject-header_of :
      (injection : Injection) (cx : RequestContext) (name value : Text)
      → header_of injection ≡ some (name, ok value)
      → inject net lib rebuild_uri injection cx
        ≡ ok (try_set_header net lib rebuild_uri cx name value)
  unfolding header_of inject
  inject-header_of (basic username source) cx name value e =
      set_by cx source.resolve
        (λ real. lit "Basic " ++ base64_encode (username ++ (lit ":" ++ real))) name _ value e
  inject-header_of (bearer source) cx name value e =
      set_by cx source.resolve (λ real. lit "Bearer " ++ real) name _ value e
  inject-header_of (header n source) cx name value e = set_as_it_is cx source.resolve name n value e
  inject-header_of (query n source) cx name value e = cc
  inject-header_of (sigv4 a s t r v c) cx name value e = cc

  note_injected-headers :
      (swap : SecretSwap net.Net) (r : RequestContext × Bool)
      → (note_injected net lib rebuild_uri swap r).headers ≡ r.0.headers
  unfolding note_injected note_fact
  note_injected-headers swap (cx, true) = refl
  note_injected-headers swap (cx, false) = refl

  try_set_header-headers :
      (cx : RequestContext) (name value : Text) (v : List ℕ)
      → lib.from_str value ≡ some v
      → (try_set_header net lib rebuild_uri cx name value).0.headers
        ≡ header_insert name v cx.headers
  unfolding try_set_header
  try_set_header-headers cx name value v e = rw (try_set_header, e) refl

-- A swap that sets a header, for a request to one of its hosts, leaves that header with the credential
-- as its one value, whatever the client sent under it, and every other header as it was.
pub apply_swaps-replaces :
    (net : NetLib) (lib : SigLib) (rebuild_uri : Uri → Text → Option Uri)
    (swap : SecretSwap net.Net) (cx : RequestContext) (name value : Text) (v : List ℕ)
    → is_for net lib rebuild_uri cx swap ≡ true
    → header_of swap.injection ≡ some (name, ok value)
    → lib.from_str value ≡ some v
    → (cx' : RequestContext) × (apply_swaps net lib rebuild_uri (swap ∷ []) cx ≡ ok cx')
      × (values_of name cx'.headers ≡ v ∷ [])
      × (remove name cx'.headers ≡ remove name cx.headers)
unfolding apply_swaps
apply_swaps-replaces net lib rebuild_uri swap cx name value v on written valid =
    let r = try_set_header net lib rebuild_uri cx name value in
    let cx' = note_injected net lib rebuild_uri swap r in
    let headers : cx'.headers ≡ header_insert name v cx.headers =
      note_injected-headers net lib rebuild_uri swap r
      ∙ try_set_header-headers net lib rebuild_uri cx name value v valid in
    (
      cx',
      apply_swaps-done net lib rebuild_uri swap [] cx r on
          (inject-header_of net lib rebuild_uri swap.injection cx name value written),
      ap (values_of name) headers ∙ header_insert-values_of name v cx.headers,
      ap (remove name) headers ∙ remove-header_insert name v cx.headers,
    )
