-- ===== src/Dns/Answers.antt =====
-- Where the addresses of an answer come from.
use bot_marshal.Prelude.{
  All-keep, All-map, All-weaken, Text, Option, none, some, true, false, List, [], ◌∷◌, ◌≡◌, refl,
  sym, subst, inl, inr, All, Any, Bool-cases, Option-cases, keep, is_some,
}
use bot_marshal.Core.Request.{IpAddr}
use bot_marshal.Core.Hosts.{NetLib, matches}
use bot_marshal.Dns.{
  Answer, proxy, static_records, passthrough, DnsPolicy, RecordType, Record, Query, ttl_seconds,
  dns_normalise, get_records, is_of, is_address, respond, answer, resolve_passthrough, addresses_of,
  handle_request,
}

abbrev Member : IpAddr → List IpAddr → Type 0
Member ip ips = Any (λ other. ip ≡ other) ips

All-Member : (ips : List IpAddr) → All (λ ip. Member ip ips) ips
All-Member ips = go ips ips (λ ip h. h)
  where
    go :
        (all_of ips : List IpAddr)
        → ((ip : IpAddr) → Member ip ips → Member ip all_of)
        → All (λ ip. Member ip all_of) ips
    go all_of [] h = tt
    go all_of (ip ∷ more) h = (h ip (inl refl), go all_of more (λ x k. h x (inr k)))

module _ (net : NetLib) (lookup_ip : Text → Option (List IpAddr)) (policy : DnsPolicy net.Net) where
  -- An address that the name may get: of its static records if it has some, else what the
  -- resolver says if it is to be passed through, else the proxy's own.
  pub data IsAllowed (asked : Text) (ip : IpAddr) : Type 0 where
    fixed :
        (ips : List IpAddr)
        → get_records (dns_normalise asked) policy.records ≡ some ips
        → Member ip ips
        → IsAllowed asked ip
    resolved :
        (ips : List IpAddr)
        → get_records (dns_normalise asked) policy.records ≡ none
        → is_some (matches net policy.passthrough_names (dns_normalise asked)) ≡ true
        → lookup_ip asked ≡ some ips
        → Member ip ips
        → IsAllowed asked ip
    intercepted :
        get_records (dns_normalise asked) policy.records ≡ none
        → is_some (matches net policy.passthrough_names (dns_normalise asked)) ≡ false
        → ip ≡ policy.proxy_ip
        → IsAllowed asked ip

  pub IsAnswer : Text → RecordType → Record → Type 0
  IsAnswer asked want r =
      (r.name ≡ asked)
      × ((r.ttl ≡ ttl_seconds) × ((is_of want r.address ≡ true) × IsAllowed asked r.address))

  All-eq :
      (asked : Text) {xs : List IpAddr} (ys : List IpAddr)
      → xs ≡ ys
      → All (IsAllowed asked) ys
      → All (IsAllowed asked) xs
  All-eq asked ys e h = subst (λ l. All (IsAllowed asked) l) (sym e) h

  resolved-IsAllowed :
      (asked : Text) (want : RecordType)
      → get_records (dns_normalise asked) policy.records ≡ none
      → is_some (matches net policy.passthrough_names (dns_normalise asked)) ≡ true
      → All (IsAllowed asked) (resolve_passthrough net lookup_ip asked want)
  unfolding resolve_passthrough
  resolved-IsAllowed asked want no_record pass = elim (Option-cases (lookup_ip asked)) [
    | inl failed ↦ All-eq asked [] (rw (resolve_passthrough, failed) refl) tt
    | inr (ips, found) ↦
        All-eq asked (keep (is_of want) ips) (rw (resolve_passthrough, found) refl) (
          All-weaken (λ ip. (is_of want ip ≡ true) × Member ip ips) (IsAllowed asked)
            (λ ip h. resolved ips no_record pass found h.1) (keep (is_of want) ips)
            (All-keep (λ ip. Member ip ips) (is_of want) ips (All-Member ips)))
  ]

  answer-IsAllowed :
      (asked : Text) (want : RecordType) (given : Answer)
      → answer net policy asked ≡ given
      → All (IsAllowed asked) (addresses_of net lookup_ip asked want given)
      → All (IsAllowed asked) (addresses_of net lookup_ip asked want (answer net policy asked))
  answer-IsAllowed asked want given e h = rw e h

  addresses_of-IsAllowed :
      (asked : Text) (want : RecordType)
      → All (IsAllowed asked) (addresses_of net lookup_ip asked want (answer net policy asked))
  unfolding answer addresses_of
  addresses_of-IsAllowed asked want =
      elim (Option-cases (get_records (dns_normalise asked) policy.records)) [
        | inr (ips, known) ↦
            answer-IsAllowed asked want (static_records ips) (rw (answer, known) refl) (
              All-weaken (λ ip. Member ip ips) (IsAllowed asked) (λ ip h. fixed ips known h) ips
                (All-Member ips))
        | inl unknown ↦
            elim (Bool-cases
              (is_some (matches net policy.passthrough_names (dns_normalise asked)))) [
                | inl pass ↦
                    answer-IsAllowed asked want passthrough (rw (answer, unknown, pass) refl)
                      (resolved-IsAllowed asked want unknown pass)
                | inr stop ↦
                    answer-IsAllowed asked want (proxy policy.proxy_ip)
                      (rw (answer, unknown, stop) refl) (intercepted unknown stop refl, tt)
              ]
      ]

-- Every record of an answer names what was asked, is of the type that was asked, and holds an address
-- that the policy allows for the name: so an intercepted name resolves to nothing but the proxy.
pub handle_request-IsAnswer :
    (net : NetLib) (lookup_ip : Text → Option (List IpAddr)) (policy : DnsPolicy net.Net)
    (query : Query) (asked : Text) (want : RecordType)
    → query.info ≡ some (asked, want)
    → All
        (IsAnswer net lookup_ip policy asked want)
        (handle_request net lookup_ip policy query).answers
unfolding handle_request respond IsAnswer
handle_request-IsAnswer net lookup_ip policy query asked want e =
    let record_of : IpAddr → Record =
      λ ip. record { name = asked; ttl = ttl_seconds; address = ip } in
    let found = addresses_of net lookup_ip asked want (answer net policy asked) in
    elim (Bool-cases (is_address want)) [
      | inr none_given ↦ rw (e, none_given) tt
      | inl given ↦
          rw (e, given)
            (All-map (λ ip. (is_of want ip ≡ true) × IsAllowed net lookup_ip policy asked ip)
              (IsAnswer net lookup_ip policy asked want) record_of (λ ip h. (refl, (refl, h)))
              (keep (is_of want) found)
              (All-keep (IsAllowed net lookup_ip policy asked) (is_of want) found
                (addresses_of-IsAllowed net lookup_ip policy asked want)))
    ]
