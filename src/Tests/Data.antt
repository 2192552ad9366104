-- ===== src/Tests/Data.antt =====
-- The inputs that the tests share: a network library that knows one block and two addresses, a host
-- list, and a request.
use bot_marshal.Prelude.{
  ℕ, Text, Option, none, some, Bool, true, false, List, [], ◌∷◌, Result, ok, err, lit, text_eq,
  if◌then◌else◌, ◌==◌,
}
use bot_marshal.Core.Evidence.{empty}
use bot_marshal.Core.Hosts.{NetLib, HostMatcher}
use bot_marshal.Core.Request.{
  IpAddr, v4, v6, SocketAddr, IngressMode, explicit, Phase, connect, request, Authority, BodyHandle,
  Uri, RequestContext,
}
use bot_marshal.Core.Request
use bot_marshal.Core.Layer.{PolicyLayer, FailureMode, cheap, streaming}
use bot_marshal.Core.Verdict.{Verdict, reason, Decision, denying_decider}
use bot_marshal.Policy.Chain.{Chain}

abbrev in_block : ℕ → IpAddr → Bool
in_block n (v4 a b c d) = a == n
in_block n (v6 s0 s1 s2 s3 s4 s5 s6 s7) = false

abbrev parse_block : Text → Result Text ℕ
parse_block t = if text_eq t (lit "10.0.0.0/8") then ok 10 else err (lit "invalid block")

abbrev parse_address : Text → Option IpAddr
parse_address t = if text_eq t (lit "10.0.0.7") then some (v4 10 0 0 7) else none

abbrev pub test_net : NetLib
test_net = record {
  Net = ℕ;
  parse_net = parse_block;
  net_string = λ n. lit "10.0.0.0/8";
  net_contains = in_block;
  parse_ip = parse_address;
}

abbrev pub hosts : HostMatcher ℕ
hosts = record { exact = lit "a.b" ∷ []; suffix = lit "c.d" ∷ []; cidrs = 10 ∷ [] }

abbrev pub to_host : Text → RequestContext
to_host host = record {
  identity = lit "agent";
  profile = lit "p";
  ingress = explicit;
  phase = request;
  client_addr = record { ip = v4 127 0 0 1; port = 4000 };
  authority = record { host = host; port = 443 };
  method = lit "GET";
  uri = record { path = lit "/"; query = none };
  headers = [];
  body = Request.empty;
  evidence = empty;
  llm_route = none;
}

abbrev pub to_connect : Text → RequestContext
to_connect host = record (to_host host) { phase = connect }

-- A layer that allows every request, and looks at it as a whole.
abbrev pub open_layer : PolicyLayer
open_layer = record {
  name = lit "open";
  cost = cheap;
  needs_request = true;
  body_requirement = streaming;
  on_error = FailureMode.deny;
  evaluate = λ cx ev. ok (Verdict.allow (reason (lit "open") (lit "open") (lit "open")));
}

abbrev pub chain_of : List PolicyLayer → Chain
chain_of layers = record {
  profile = lit "p";
  layers = layers;
  default_action = Decision.deny;
  decider = denying_decider;
  warn_only = false;
}
