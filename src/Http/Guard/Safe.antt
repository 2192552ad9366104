-- ===== src/Http/Guard/Safe.antt =====
-- No socket is opened to an address that was not checked, and no attempt ends in a panic.
use bot_marshal.Prelude.{
  ℕ, Text, Option, none, Bool, List, [], ◌∷◌, ◌++◌, ◌≡◌, arith, inl, inr, All, Option-cases,
  Result-cases, Bool-cases, keep,
}
use bot_marshal.Core.Request.{SocketAddr, Authority}
use bot_marshal.Core.Hosts.{NetLib}
use bot_marshal.Http.Guard.{
  UpstreamGuard, Network, GuardError, Attempt, prefer_ipv4, check, first_blocked, addresses,
  connect_each, connect_checked, try_connect, second, retries, connect,
}

module _ (P : SocketAddr → Type 0) where
  All-append : (xs ys : List SocketAddr) → All P xs → All P ys → All P (xs ++ ys)
  All-append [] ys h k = k
  All-append (x ∷ xs) ys h k = (h.0, All-append xs ys h.1 k)

  All-keep : (p : SocketAddr → Bool) (xs : List SocketAddr) → All P xs → All P (keep p xs)
  All-keep p [] h = tt
  All-keep p (x ∷ xs) h = elim (Bool-cases (p x)) [
    | inl on ↦ rw on (h.0, All-keep p xs h.1)
    | inr off ↦ rw off (All-keep p xs h.1)
  ]

  All-prefer_ipv4 : (xs : List SocketAddr) → All P xs → All P (prefer_ipv4 xs)
  unfolding prefer_ipv4
  All-prefer_ipv4 xs h = All-append _ _ (All-keep _ xs h) (All-keep _ xs h)

module _ (net : NetLib) (nw : Network) (g : UpstreamGuard net.Net) where
  -- An address that the guard accepts.
  abbrev pub Checked : SocketAddr → Type 0
  Checked a = check net g a.ip ≡ none

  first_blocked-none :
      (host : Text) (addrs : List SocketAddr)
      → first_blocked net g host addrs ≡ none
      → All Checked addrs
  unfolding first_blocked
  first_blocked-none host [] e = tt
  first_blocked-none host (a ∷ addrs) e = elim (Option-cases (check net g a.ip)) [
    | inl fine ↦ (fine, first_blocked-none host addrs (rw (fine, first_blocked) at e))
    | inr (rule, why) ↦ ground (arith, (rw (why, first_blocked) at e))
  ]

  connect_each-All :
      (n : ℕ) (host : Text) (last : Option GuardError) (addrs : List SocketAddr)
      → All Checked addrs
      → All Checked (connect_each net nw n host last addrs).tried
  unfolding connect_each
  connect_each-All n host last [] h = tt
  connect_each-All n host last (a ∷ addrs) h = elim (Result-cases (nw.tcp_connect n a)) [
    | inl (s, up) ↦ rw (up, connect_each, All) (h.0, tt)
    | inr (source, down) ↦ rw (down, connect_each, All) (h.0, connect_each-All n host _ addrs h.1)
  ]

  connect_checked-All :
      (n : ℕ) (host : Text) (addrs : List SocketAddr)
      → All Checked (connect_checked net nw g n host addrs).tried
  unfolding connect_checked
  connect_checked-All n host [] = tt
  connect_checked-All n host (a ∷ addrs) =
      elim (Option-cases (first_blocked net g host (a ∷ addrs))) [
        | inl fine ↦
            rw (fine, connect_checked)
              (connect_each-All n host none _
                (All-prefer_ipv4 Checked (a ∷ addrs) (first_blocked-none host (a ∷ addrs) fine)))
        | inr (e, why) ↦ rw (why, connect_checked) tt
      ]

  try_connect-All : (n : ℕ) (to : Authority) → All Checked (try_connect net nw g n to).tried
  unfolding try_connect
  try_connect-All n to = elim (Result-cases (addresses net nw n to)) [
    | inl (addrs, found) ↦ rw (found, try_connect) (connect_checked-All n to.host addrs)
    | inr (e, why) ↦ rw (why, try_connect) tt
  ]

  second-All :
      (first : Option GuardError) (before : List SocketAddr) (again : Attempt nw.Stream)
      → All Checked before
      → All Checked again.tried
      → All Checked (second net nw first before again).tried
  second-All first before again h k = elim (Result-cases again.result) [
    | inl (s, up) ↦ rw (up, second) (All-append Checked before again.tried h k)
    | inr (e, down) ↦ rw (down, second) (All-append Checked before again.tried h k)
  ]

  -- Every address that `connect` opens a connection to, the retry's included, is one that the guard
  -- accepts.
  pub connect-Checked : (to : Authority) → All Checked (connect net nw g to).tried
  unfolding connect
  connect-Checked to =
      let first = try_connect-All 0 to in
      elim (Result-cases (try_connect net nw g 0 to).result) [
        | inl (s, up) ↦ rw (up, connect) first
        | inr (e, down) ↦ elim (Bool-cases (retries net nw e)) [
          | inl on ↦ rw (down, connect, on) (second-All e _ _ first (try_connect-All 1 to))
          | inr off ↦ rw (down, connect, off) first
        ]
      ]
