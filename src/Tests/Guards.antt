-- ===== src/Tests/Guards.antt =====
-- The upstream guard, at a private address and at a network that connects to it.
use bot_marshal.Prelude.{
  ℕ, Text, some, false, List, [], ◌∷◌, ◌≡◌, refl, All, inl, ok, err, lit, text_eq,
}
use bot_marshal.Core.Request.{IpAddr, v4, SocketAddr, Authority}
use bot_marshal.Http.Guard.{UpstreamGuard, Network, blocked, check, addresses, try_connect, connect}
use bot_marshal.Http.Guard.Safe.{Checked, connect-Checked}
use bot_marshal.Http.Guard.Blocked.{Reports, try_connect-Reports, connect-Refused}
use bot_marshal.Tests.Data.{test_net}

abbrev network : Network
network = record {
  Stream = ℕ;
  lookup_host = λ n host port. ok (record { ip = v4 93 1 2 3; port = port } ∷ []);
  tcp_connect = λ n a. ok 5;
}

abbrev guard : UpstreamGuard ℕ
guard = record { deny = []; allow_private = false }

abbrev to_name : Authority
to_name = record { host = lit "x.y"; port = 443 }

abbrev to_literal : Authority
to_literal = record { host = lit "10.0.0.7"; port = 443 }

connect-Checked_example :
    All (Checked test_net network guard) (connect test_net network guard to_name).tried
connect-Checked_example = connect-Checked test_net network guard to_name

try_connect-Reports_example :
    let o = try_connect test_net network guard 0 to_name in
    Reports test_net network guard 0 o.result o.tried
try_connect-Reports_example = try_connect-Reports test_net network guard 0 to_name

abbrev private_answer : List SocketAddr
private_answer = record { ip = v4 10 0 0 7; port = 443 } ∷ []

connect-refused_example :
    (ip : IpAddr) × (rule : Text) × (check test_net guard ip ≡ some rule)
    × (connect test_net network guard to_literal
        ≡ record { result = err (some (blocked (lit "10.0.0.7") ip rule)); tried = [] })
unfolding addresses check text_eq lit
connect-refused_example =
    connect-Refused test_net network guard to_literal private_answer refl
      (inl (lit "upstream.allow_private=false", refl))
