-- ===== src/Http/Guard/Blocked.antt =====
-- One blocked answer refuses the whole attempt, and a socket that is handed out stands for a
-- connection that was made.
use bot_marshal.Prelude.{
  ℕ, Text, Option, none, some, true, not, List, [], ◌∷◌, ◌++◌, ◌≡◌, ◌≢◌, refl, ◌⊎◌, inl, inr, Any,
  Option-cases, Result-cases, Bool-cases, Result, ok, err, keep, is_some,
}
use bot_marshal.Core.Request.{IpAddr, SocketAddr, Authority}
use bot_marshal.Core.Hosts.{NetLib}
use bot_marshal.Http.Guard.{
  UpstreamGuard, Network, GuardError, blocked, connect_failed, is_ipv6, prefer_ipv4, check,
  first_blocked, addresses, connect_each, connect_checked, try_connect, connect,
}

append-cons : (xs : List SocketAddr) (y : SocketAddr) (ys : List SocketAddr) → (xs ++ y ∷ ys) ≢ []
append-cons [] y ys h = cc
append-cons (x ∷ xs) y ys h = cc

prefer_ipv4-cons : (a : SocketAddr) (addrs : List SocketAddr) → prefer_ipv4 (a ∷ addrs) ≢ []
unfolding prefer_ipv4
prefer_ipv4-cons a addrs h = elim (Bool-cases (is_ipv6 a)) [
  | inl six ↦ append-cons (keep (λ b. not (is_ipv6 b)) addrs) a (keep is_ipv6 addrs) (rw six at h)
  | inr four ↦ let e = rw four at h in cc
]

module _ (net : NetLib) (nw : Network) (g : UpstreamGuard net.Net) where
  -- The guard names a rule against the address.
  abbrev pub Refused : SocketAddr → Type 0
  Refused a = (rule : Text) × (check net g a.ip ≡ some rule)

  first_blocked-some :
      (host : Text) (addrs : List SocketAddr)
      → Any Refused addrs
      → (ip : IpAddr) × (rule : Text) × (first_blocked net g host addrs
          ≡ some (blocked host ip rule))
        × (check net g ip ≡ some rule)
  unfolding first_blocked
  first_blocked-some host [] h = absurd h
  first_blocked-some host (a ∷ addrs) (inl (rule, e)) = (a.ip, rule, rw (e, first_blocked) refl, e)
  first_blocked-some host (a ∷ addrs) (inr h) = elim (Option-cases (check net g a.ip)) [
    | inl fine ↦ rw (fine, first_blocked) (first_blocked-some host addrs h)
    | inr (rule, e) ↦ (a.ip, rule, rw (e, first_blocked) refl, e)
  ]

  connect_checked-blocked :
      (n : ℕ) (host : Text) (addrs : List SocketAddr) (e : GuardError)
      → first_blocked net g host addrs ≡ some e
      → connect_checked net nw g n host addrs ≡ record { result = err (some e); tried = [] }
  unfolding connect_checked first_blocked
  connect_checked-blocked n host [] e h = cc
  connect_checked-blocked n host (a ∷ addrs) e h = rw (h, connect_checked) refl

  -- When the resolver's first answer holds an address that the guard refuses, wherever it stands
  -- among the others, `connect` fails with `Blocked` for a refused address, opens no connection at
  -- all and does not try again.
  pub connect-Refused :
      (to : Authority) (addrs : List SocketAddr)
      → addresses net nw 0 to ≡ ok addrs
      → Any Refused addrs
      → (ip : IpAddr) × (rule : Text) × (check net g ip ≡ some rule)
        × (connect net nw g to
            ≡ record { result = err (some (blocked to.host ip rule)); tried = [] })
  unfolding connect try_connect
  connect-Refused to addrs found bad =
      let (ip, rule, first, why) = first_blocked-some to.host addrs bad in
      let step = connect_checked-blocked 0 to.host addrs _ first in
      let whole : try_connect net nw g 0 to
          ≡ record { result = err (some (blocked to.host ip rule)); tried = [] } =
        rw (found, try_connect) step in
      (ip, rule, why, rw (whole, connect) whole)

  -- Some address of the list let the n-th attempt connect, with this socket.
  abbrev pub Opened : ℕ → nw.Stream → List SocketAddr → Type 0
  Opened n s tried = Any (λ a. nw.tcp_connect n a ≡ ok s) tried

  -- What an attempt must report: a socket that was opened, or an error, never a panic.
  abbrev pub Reports : ℕ → Result (Option GuardError) nw.Stream → List SocketAddr → Type 0
  Reports n (ok s) tried = Opened n s tried
  Reports n (err none) tried = ⊥
  Reports n (err (some e)) tried = Unit

  Reports-cons :
      (n : ℕ) (a : SocketAddr) (r : Result (Option GuardError) nw.Stream) (tried : List SocketAddr)
      → Reports n r tried
      → Reports n r (a ∷ tried)
  Reports-cons n a (ok s) tried h = inr h
  Reports-cons n a (err none) tried h = h
  Reports-cons n a (err (some e)) tried h = tt

  connect_each-Reports :
      (n : ℕ) (host : Text) (last : Option GuardError) (addrs : List SocketAddr)
      → (is_some last ≡ true) ⊎ (addrs ≢ [])
      → let o = connect_each net nw n host last addrs in Reports n o.result o.tried
  unfolding connect_each
  connect_each-Reports n host none [] (inl h) = cc
  connect_each-Reports n host none [] (inr h) = h refl
  connect_each-Reports n host (some e) [] h = tt
  connect_each-Reports n host last (a ∷ addrs) h = elim (Result-cases (nw.tcp_connect n a)) [
    | inl (s, up) ↦ rw (up, connect_each) (inl up)
    | inr (source, down) ↦
        rw (down, connect_each)
          (Reports-cons n a _ _
            (connect_each-Reports n host (some (connect_failed host a source)) addrs (inl refl)))
  ]

  connect_checked-Reports :
      (n : ℕ) (host : Text) (addrs : List SocketAddr)
      → let o = connect_checked net nw g n host addrs in Reports n o.result o.tried
  unfolding connect_checked
  connect_checked-Reports n host [] = tt
  connect_checked-Reports n host (a ∷ addrs) =
      elim (Option-cases (first_blocked net g host (a ∷ addrs))) [
        | inl fine ↦
            rw (fine, connect_checked)
              (connect_each-Reports n host none _ (inr (prefer_ipv4-cons a addrs)))
        | inr (e, why) ↦ rw (why, connect_checked) tt
      ]

  -- One attempt reports a socket only if connecting to one of the addresses it tried gave that
  -- socket, and otherwise an error; the `expect` on the last error never panics.
  pub try_connect-Reports :
      (n : ℕ) (to : Authority) → let o = try_connect net nw g n to in Reports n o.result o.tried
  unfolding try_connect
  try_connect-Reports n to = elim (Result-cases (addresses net nw n to)) [
    | inl (addrs, found) ↦ rw (found, try_connect) (connect_checked-Reports n to.host addrs)
    | inr (e, why) ↦ rw (why, try_connect) tt
  ]
