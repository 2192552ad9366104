-- ===== src/Tests/Clients.antt =====
-- What the proxy reads from a client: a rewound stream, a TLS hello, and the client's identity.
use bot_marshal.Prelude.{
  ℕ, zero, suc, ◌<◌, Text, none, some, true, false, List, [], ◌∷◌, ◌++◌, ◌≡◌, refl, sym, ap, arith,
  All, Any, text_eq, take, drop, take-append-drop, lit, is_utf8, to_ascii_lowercase,
}
use bot_marshal.Core.Request.{v4, explicit}
use bot_marshal.Proxy.Rewind.{ready, Reader, rewind_new}
use bot_marshal.Proxy.Rewind.Streams.{
  IsTape, reads, rewound, rewound_tape, delivered, reads-rewound,
}
use bot_marshal.Proxy.Sniff.{sni_from_client_hello}
use bot_marshal.Proxy.Sniff.Hello.{Hello, IsHello, hello_bytes, sni_from_client_hello-hello_bytes}
use bot_marshal.Proxy.Identity.{
  ConnInfo, Credential, Resolved, Entry, IdentityLib, IdentityRegistry, IdentityResolver,
  resolve_with,
}
use bot_marshal.Proxy.Identity.ConstantTime.{IsByte}
use bot_marshal.Proxy.Identity.Attributes.{IsHolder, resolve_with-IsHolder}

-- A stream that gives the bytes of a list.
abbrev from_list : Reader (List ℕ) (Unit {0})
from_list = record { poll_inner = λ n s. (ready (take n s), drop n s) }

from_list-ends : (n : ℕ) (s : List ℕ) → 0 < n → delivered (from_list.poll_inner n s).0 ≡ [] → s ≡ []
from_list-ends n [] room e = refl
from_list-ends zero (x ∷ s) room e = absurd (omega (arith, room))
from_list-ends (suc n) (x ∷ s) room e = cc

from_list-IsTape : IsTape from_list (λ s. s)
from_list-IsTape = record {
  delivers = λ n s. sym (take-append-drop n s);
  ends = λ n s room e. from_list-ends n s room (ap delivered e);
}

reads-rewound_example :
    let (bytes, last) =
      reads (rewound from_list) (2 ∷ 0 ∷ 4 ∷ 1 ∷ []) (rewind_new (lit "world") (lit "abc")) in
    bytes ++ rewound_tape (λ s. s) last ≡ lit "abc" ++ lit "world"
reads-rewound_example =
    reads-rewound from_list (λ s. s) from_list-IsTape (lit "abc") (lit "world") (2 ∷ 0 ∷ 4 ∷ 1 ∷ [])

abbrev two : List ℕ
two = 3 ∷ 3 ∷ []

abbrev hello : Hello
hello = record {
  record_version = two;
  version = two;
  random =
      1 ∷ 2 ∷ 3 ∷ 4 ∷ 5 ∷ 6 ∷ 7 ∷ 8 ∷ 1 ∷ 2 ∷ 3 ∷ 4 ∷ 5 ∷ 6 ∷ 7 ∷ 8 ∷ 1 ∷ 2 ∷ 3 ∷ 4 ∷ 5 ∷ 6 ∷ 7 ∷ 8
      ∷ 1 ∷ 2 ∷ 3 ∷ 4 ∷ 5 ∷ 6 ∷ 7 ∷ 8 ∷ [];
  session_id = [];
  cipher_suites = 19 ∷ 1 ∷ [];
  compression = 0 ∷ [];
  extensions_before = (16, 1 ∷ 2 ∷ []) ∷ [];
  names_before = [];
  host = lit "API.x";
  names_after = [];
  list_after = [];
  extensions_after = [];
  body_after = [];
  message_after = [];
  record_after = 9 ∷ [];
}

hello-IsHello : IsHello hello
unfolding lit is_utf8
hello-IsHello = record {
  record_version_length = refl;
  version_length = refl;
  random_length = refl;
  extensions_other = (λ e. omega (arith, e), tt);
  names_other = tt;
  host_utf8 = refl;
}

sni_from_client_hello-hello_bytes_example :
    sni_from_client_hello (hello_bytes hello) ≡ some (to_ascii_lowercase (lit "API.x"))
sni_from_client_hello-hello_bytes_example = sni_from_client_hello-hello_bytes hello hello-IsHello

abbrev lib : IdentityLib
lib = record {
  Net = ℕ;
  net_contains = λ n ip. false;
  GlobMatcher = ℕ;
  is_match = λ m path. false;
  peer_cred_for_tcp = λ a enrich. none;
}

abbrev entries : List (Entry (Text × Text))
entries = record { key = (lit "ada", lit "pw"); identity = lit "agent-a"; profile = lit "p" } ∷ []

abbrev credential : Credential
credential = record { user = lit "ada"; password = lit "pw" }

abbrev conn : ConnInfo
conn = record {
  ingress = explicit;
  client_addr = record { ip = v4 127 0 0 1; port = 4000 };
  local_addr = record { ip = v4 127 0 0 1; port = 8080 };
  proxy_auth = some credential;
  peer_cred = none;
}

abbrev registry : IdentityRegistry lib
registry = record {
  resolvers = IdentityResolver.source_ip [] ∷ IdentityResolver.proxy_auth_resolver entries ∷ [];
  fallback_profile = none;
  deny_unidentified = false;
  enrich = false;
}

abbrev ada : Resolved
ada = record {
  identity = lit "agent-a";
  profile = some (lit "p");
  attributed = true;
  resolver = some (lit "proxy_auth");
}

given_bytes : (c : Credential) → some credential ≡ some c → All IsByte c.password
unfolding lit
given_bytes c e =
    let same : credential ≡ c = ground arith in rw (← same) (omega arith, (omega arith, tt))

resolve_with-IsHolder_example :
    (c : Credential) × (conn.proxy_auth ≡ some c) × Any (IsHolder c ada) entries
unfolding lit resolve_with text_eq
resolve_with-IsHolder_example =
    resolve_with-IsHolder lib entries conn ada ((omega arith, (omega arith, tt)), tt) given_bytes
      refl
