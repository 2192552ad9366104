-- ===== src/Tests/Limits.antt =====
-- The limiter of bodies, the answers of the DNS server, and the secrets that are swapped in.
use bot_marshal.Prelude.{
  ℕ, Text, Option, none, some, true, false, List, [], ◌∷◌, ◌≡◌, ◌⊎◌, refl, All, lit, ok, keep,
  text_eq, to_ascii_lowercase, trim,
}
use bot_marshal.Core.Request.{IpAddr, v4, BodyHandle, ResponseParts, RequestContext, Uri}
use bot_marshal.Core.HeaderMap.{remove}
use bot_marshal.Core.Hosts.{normalise}
use bot_marshal.Policy.Limiter.{
  ResponseLimiter, truncating, by_utf8, is_encoded, is_replacing, limit_response,
}
use bot_marshal.Policy.Limiter.Bounds.{IsWithin, IsRefusal, limit_response-IsWithin}
use bot_marshal.Dns.{DnsPolicy, Query, RecordType, handle_request}
use bot_marshal.Dns.Answers.{IsAnswer, handle_request-IsAnswer}
use bot_marshal.Secrets.Sigv4.{SigLib}
use bot_marshal.Secrets.Swap.{
  SecretSource, Injection, SecretSwap, SecretInjector, is_for, apply_swaps, apply_injector,
}
use bot_marshal.Secrets.Swap.Bound.{apply_injector-bound}
use bot_marshal.Secrets.Swap.Replaces.{values_of, header_of, apply_swaps-replaces}
use bot_marshal.Tests.Data.{test_net, hosts, to_host}

abbrev limiter : ResponseLimiter
limiter = record { max_bytes = 5; on_oversize = truncating by_utf8 (lit "..") }

abbrev response : ResponseParts
response = record { status = 200; headers = []; body = BodyHandle.buffered (lit "0123456789") }

limit_response-IsWithin_example :
    ((is_encoded some [] ≡ false)
      × IsWithin 5 (limit_response some (λ x. []) limiter response).body)
    ⊎ IsRefusal some (λ x. []) (limit_response some (λ x. []) limiter response)
unfolding is_replacing
limit_response-IsWithin_example =
    limit_response-IsWithin some (λ x. []) limiter response refl (λ e. cc)

abbrev policy : DnsPolicy ℕ
policy = record {
  proxy_ip = v4 10 16 0 1;
  passthrough_names = hosts;
  records = (lit "db.local", v4 10 0 0 9 ∷ []) ∷ [];
}

abbrev lookup : Text → Option (List IpAddr)
lookup name = some (v4 93 1 2 3 ∷ [])

abbrev question : Query
question = record { id = 7; recursion_desired = true; info = some (lit "a.b.", RecordType.a) }

handle_request-IsAnswer_example :
    All
      (IsAnswer test_net lookup policy (lit "a.b.") RecordType.a)
      (handle_request test_net lookup policy question).answers
handle_request-IsAnswer_example =
    handle_request-IsAnswer test_net lookup policy question (lit "a.b.") RecordType.a refl

abbrev digests : SigLib
digests = record {
  now_utc = record { year = 2026; month = 1; day = 2; hour = 3; minute = 4; second = 5 };
  sha256 = λ b. b;
  hmac_sha256 = λ k d. k;
  from_str = some;
  invalid_value = lit "failed to parse header value";
  to_str = some;
  debug_string = λ s. s;
}

abbrev same_uri : Uri → Text → Option Uri
same_uri uri text = some uri

abbrev source : SecretSource
source = record { resolve = ok (lit "s3cr"); preload = ok none }

abbrev swap : SecretSwap ℕ
swap = record { name = lit "api"; injection = Injection.bearer source; hosts = hosts }

abbrev elsewhere : SecretSwap ℕ
elsewhere = record {
  name = lit "other";
  injection = Injection.bearer source;
  hosts = record { exact = lit "x.y" ∷ []; suffix = []; cidrs = [] };
}

abbrev injector : SecretInjector ℕ
injector = record { swaps = elsewhere ∷ swap ∷ []; exceptions = [] }

abbrev cx : RequestContext
cx = record (to_host (lit "a.b")) { headers = (lit "authorization", lit "Bearer mine") ∷ [] }

apply_injector-bound_example :
    apply_injector test_net digests same_uri injector cx
    ≡ apply_injector test_net digests same_uri
        (record injector { swaps = keep (is_for test_net digests same_uri cx) injector.swaps })
        cx
apply_injector-bound_example = apply_injector-bound test_net digests same_uri injector cx

apply_swaps-replaces_example :
    (cx' : RequestContext) × (apply_swaps test_net digests same_uri (swap ∷ []) cx ≡ ok cx')
    × (values_of (lit "authorization") cx'.headers ≡ lit "Bearer s3cr" ∷ [])
    × (remove (lit "authorization") cx'.headers ≡ remove (lit "authorization") cx.headers)
unfolding is_for text_eq normalise to_ascii_lowercase trim lit header_of
apply_swaps-replaces_example =
    apply_swaps-replaces test_net digests same_uri swap cx (lit "authorization") (lit "Bearer s3cr")
      (lit "Bearer s3cr") refl refl refl
