-- ===== src/Http/Guard.antt =====
-- crates/marshal-http/src/guard.rs. The resolver and the TCP stack are parameters that answer by the
-- number of the attempt, so that two attempts may see different answers; `IpNet` is ipnet's.
pub mod Safe
pub mod Blocked
pub mod Mapped
use bot_marshal.Prelude.{
  ℕ, suc, ◌/◌, ◌%◌, Text, Option, none, some, Bool, true, false, not, ◌&&◌, ◌||◌, List, [], ◌∷◌,
  ◌++◌, Result, ok, err, collect, find, keep, lit, ◌==◌, if◌then◌else◌,
}
use bot_marshal.Core.Request.{IpAddr, v4, v6, SocketAddr, Authority}
use bot_marshal.Core.Hosts.{NetLib}

pub data GuardError : Type 0 where
  resolve : (host source : Text) → GuardError
  no_addresses : (host : Text) → GuardError
  blocked : (host : Text) (addr : IpAddr) (rule : Text) → GuardError
  connect_failed : (host : Text) (addr : SocketAddr) (source : Text) → GuardError

pub record UpstreamGuard (Net : Type 0) : Type 0 where
  pub deny : List Net
  pub allow_private : Bool

-- `tokio::net::lookup_host` and `TcpStream::connect`, at the n-th attempt.
pub record Network : Type 1 where
  pub Stream : Type 0
  pub lookup_host : ℕ → Text → ℕ → Result Text (List SocketAddr)
  pub tcp_connect : ℕ → SocketAddr → Result Text Stream

-- The classes of std::net::Ipv4Addr that `is_private` asks for.
unfoldable pub private_v4 : (a b c d : ℕ) → Bool
private_v4 a b c d =
    ((a == 10) || (((a == 172) && (b / 16 == 1)) || ((a == 192) && (b == 168))))
    || ((a == 127)
        || (((a == 169) && (b == 254))
            || (((a == 255) && ((b == 255) && ((c == 255) && (d == 255))))
                || (((a == 0) && ((b == 0) && ((c == 0) && (d == 0))))
                    || ((((a == 192) && ((b == 0) && (c == 2)))
                          || (((a == 198) && ((b == 51) && (c == 100)))
                              || ((a == 203) && ((b == 0) && (c == 113)))))
                        || ((a == 100) && (b / 64 == 1)))))))

-- `Ipv6Addr::to_ipv4_mapped`.
unfoldable pub to_ipv4_mapped : IpAddr → Option IpAddr
to_ipv4_mapped (v4 a b c d) = none
to_ipv4_mapped (v6 s0 s1 s2 s3 s4 s5 s6 s7) =
    if (s0 == 0) && ((s1 == 0) && ((s2 == 0) && ((s3 == 0) && ((s4 == 0) && (s5 == 65535)))))
    then some (v4 (s6 / 256) (s6 % 256) (s7 / 256) (s7 % 256))
    else none

-- `map(|v4| is_private(IpAddr::V4(v4))).unwrap_or(false)`.
private_mapped : Option IpAddr → Bool
unfolding private_v4
private_mapped none = false
private_mapped (some (v4 a b c d)) = private_v4 a b c d
private_mapped (some (v6 s0 s1 s2 s3 s4 s5 s6 s7)) = false

-- A mask of leading bits is a division: `s & 0xfe00 == 0xfc00` is `s / 512 == 126`.
unfoldable pub is_private : IpAddr → Bool
unfolding private_v4 to_ipv4_mapped private_mapped
is_private (v4 a b c d) = private_v4 a b c d
is_private (v6 s0 s1 s2 s3 s4 s5 s6 s7) =
    let rest = (s1 == 0) && ((s2 == 0) && ((s3 == 0) && ((s4 == 0) && ((s5 == 0) && (s6 == 0))))) in
    ((s0 == 0) && (rest && (s7 == 1)))
    || (((s0 == 0) && (rest && (s7 == 0)))
        || ((s0 / 512 == 126)
            || ((s0 / 64 == 1018) || private_mapped (to_ipv4_mapped (v6 s0 s1 s2 s3 s4 s5 s6 s7)))))

abbrev pub is_ipv6 : SocketAddr → Bool
is_ipv6 addr = elim addr.ip [ v4 a b c d ↦ false | v6 s0 s1 s2 s3 s4 s5 s6 s7 ↦ true ]

-- A stable sort by a Boolean key.
unfoldable pub prefer_ipv4 : List SocketAddr → List SocketAddr
prefer_ipv4 addrs = keep (λ a. not (is_ipv6 a)) addrs ++ keep is_ipv6 addrs

-- What one call leaves behind: its result, and the addresses it opened a connection to. A result
-- `err none` is the panic of `last.expect("addrs is non-empty")`.
pub record Attempt (Stream : Type 0) : Type 0 where
  pub result : Result (Option GuardError) Stream
  pub tried : List SocketAddr

module _ (net : NetLib) where
  open net use {Net, parse_net, net_string, net_contains, parse_ip}

  unfoldable pub new : List Text → Bool → Result Text (UpstreamGuard Net)
  new deny_cidrs allow_private = elim (collect parse_net deny_cidrs) [
    | ok deny ↦ ok (record { deny = deny; allow_private = allow_private })
    | err e ↦ err e
  ]

  unfoldable pub check : UpstreamGuard Net → IpAddr → Option Text
  unfolding is_private
  check g addr = elim (find (λ n. net_contains n addr) g.deny) [
    | some n ↦ some (net_string n)
    | none ↦
        if not g.allow_private && is_private addr
        then some (lit "upstream.allow_private=false")
        else none
  ]

  -- The loop over all the addresses that were resolved.
  unfoldable pub first_blocked : UpstreamGuard Net → Text → List SocketAddr → Option GuardError
  first_blocked g host [] = none
  first_blocked g host (a ∷ more) = elim (check g a.ip) [
    | some rule ↦ some (blocked host a.ip rule)
    | none ↦ first_blocked g host more
  ]

  module _ (nw : Network) where
    open nw use {Stream, lookup_host, tcp_connect}

    unfoldable pub addresses : ℕ → Authority → Result GuardError (List SocketAddr)
    addresses n authority = elim (parse_ip authority.host) [
      | some ip ↦ ok (record { ip = ip; port = authority.port } ∷ [])
      | none ↦ elim (lookup_host n authority.host authority.port) [
        | ok addrs ↦ ok addrs
        | err source ↦ err (resolve authority.host source)
      ]
    ]

    -- The loop over the addresses that were checked.
    unfoldable pub connect_each : ℕ → Text → Option GuardError → List SocketAddr → Attempt Stream
    connect_each n host last [] = record { result = err last; tried = [] }
    connect_each n host last (a ∷ more) = elim (tcp_connect n a) [
      | ok s ↦ record { result = ok s; tried = a ∷ [] }
      | err source ↦
          let rest = connect_each n host (some (connect_failed host a source)) more in
          record { result = rest.result; tried = a ∷ rest.tried }
    ]

    abbrev refuse : GuardError → Attempt Stream
    refuse e = record { result = err (some e); tried = [] }

    unfoldable pub connect_checked : UpstreamGuard Net → ℕ → Text → List SocketAddr → Attempt Stream
    unfolding connect_each first_blocked prefer_ipv4
    connect_checked g n host [] = refuse (no_addresses host)
    connect_checked g n host (a ∷ more) = elim (first_blocked g host (a ∷ more)) [
      | some e ↦ refuse e
      | none ↦ connect_each n host none (prefer_ipv4 (a ∷ more))
    ]

    unfoldable pub try_connect : UpstreamGuard Net → ℕ → Authority → Attempt Stream
    unfolding addresses connect_checked
    try_connect g n authority = elim (addresses n authority) [
      | err e ↦ refuse e
      | ok addrs ↦ connect_checked g n authority.host addrs
    ]

    -- The retry: what the second attempt comes to, after the first error.
    abbrev second : Option GuardError → List SocketAddr → Attempt Stream → Attempt Stream
    second first before again = elim again.result [
      | ok s ↦ record { result = ok s; tried = before ++ again.tried }
      | err e ↦ record { result = err first; tried = before ++ again.tried }
    ]

    -- Every error but `blocked` is tried once more; a panic is not.
    abbrev retries : Option GuardError → Bool
    retries none = false
    retries (some (blocked host addr rule)) = false
    retries (some (resolve host source)) = true
    retries (some (no_addresses host)) = true
    retries (some (connect_failed host addr source)) = true

    unfoldable pub connect : UpstreamGuard Net → Authority → Attempt Stream
    unfolding try_connect
    connect g authority =
        let first = try_connect g 0 authority in
        elim first.result [
          | ok s ↦ first
          | err e ↦ if retries e then second e first.tried (try_connect g 1 authority) else first
        ]
