-- ===== src/Dns.antt =====
-- crates/marshal-dns: the answers that send a client to the proxy. `src/policy.rs` decides,
-- `src/server.rs` answers; the resolver and the sending of a packet are parameters.
pub mod Answers
use bot_marshal.Prelude.{
  ℕ, Text, Option, none, some, Bool, true, false, List, [], ◌∷◌, Result, ok, err, ◌>>=◌, keep, map,
  is_some, text_eq, trim, trim_end_by, to_ascii_lowercase, ◌==◌, if◌then◌else◌,
}
use bot_marshal.Core.Request.{IpAddr, v4, v6}
use bot_marshal.Core.Hosts.{NetLib, HostMatcher, PatternError, matches, new}

pub data Answer : Type 0 where
  proxy : IpAddr → Answer
  static_records : List IpAddr → Answer
  passthrough : Answer

-- The map of records, by name.
abbrev pub Records : Type 0
Records = List (Text × List IpAddr)

pub record DnsPolicy (Net : Type 0) : Type 0 where
  pub proxy_ip : IpAddr
  pub passthrough_names : HostMatcher Net
  pub records : Records

unfoldable pub dns_normalise : Text → Text
unfolding trim trim_end_by to_ascii_lowercase
dns_normalise name = to_ascii_lowercase (trim_end_by (λ c. c == b'.') (trim name))

-- `BTreeMap::get`, and the insertion that `collect` makes for each pair.
unfoldable pub get_records : Text → Records → Option (List IpAddr)
get_records name [] = none
get_records name ((n, ips) ∷ rs) = if text_eq n name then some ips else get_records name rs

put_records : Text → List IpAddr → Records → Records
put_records name ips [] = (name, ips) ∷ []
put_records name ips ((n, old) ∷ rs) =
    let later = put_records name ips rs in
    if text_eq n name then (name, ips) ∷ rs else (n, old) ∷ later

collect_records : Records → List (Text × List IpAddr) → Records
unfolding put_records dns_normalise
collect_records done [] = done
collect_records done ((name, ips) ∷ pairs) =
    collect_records (put_records (dns_normalise name) ips done) pairs

pub data RecordType : Type 0 where
  a aaaa : RecordType
  other : ℕ → RecordType

pub data ResponseCode : Type 0 where
  no_error form_err : ResponseCode

-- A record of the answer section, for the name that was asked.
pub record Record : Type 0 where
  pub name : Text
  pub ttl : ℕ
  pub address : IpAddr

-- What `respond` builds.
pub record Response : Type 0 where
  pub id : ℕ
  pub code : ResponseCode
  pub authoritative : Bool
  pub recursion_desired : Bool
  pub recursion_available : Bool
  pub answers : List Record

pub record Query : Type 0 where
  pub id : ℕ
  pub recursion_desired : Bool
  -- `request_info`: the name and the type of the one question, or an error.
  pub info : Option (Text × RecordType)

abbrev pub ttl_seconds : ℕ
ttl_seconds = 30

unfoldable pub is_of : RecordType → IpAddr → Bool
is_of a (v4 x y z w) = true
is_of a (v6 s0 s1 s2 s3 s4 s5 s6 s7) = false
is_of aaaa (v4 x y z w) = false
is_of aaaa (v6 s0 s1 s2 s3 s4 s5 s6 s7) = true
is_of (other n) ip = false

unfoldable pub is_address : RecordType → Bool
is_address a = true
is_address aaaa = true
is_address (other n) = false

unfoldable pub respond : Query → ResponseCode → List Record → Response
respond query code records = record {
  id = query.id;
  code = code;
  authoritative = true;
  recursion_desired = query.recursion_desired;
  recursion_available = true;
  answers = records;
}

module _ (net : NetLib) where
  open net use {Net}

  unfoldable pub dns_new :
      IpAddr → List Text → List (Text × List IpAddr) → Result PatternError (DnsPolicy Net)
  unfolding collect_records
  dns_new proxy_ip names records = new net names [] >>= λ m.
      ok (record {
        proxy_ip = proxy_ip;
        passthrough_names = m;
        records = collect_records [] records;
      })

  unfoldable pub answer : DnsPolicy Net → Text → Answer
  unfolding get_records dns_normalise
  answer policy asked =
      let name = dns_normalise asked in
      elim (get_records name policy.records) [
        | some ips ↦ static_records ips
        | none ↦
            if is_some (matches net policy.passthrough_names name)
            then passthrough
            else proxy policy.proxy_ip
      ]

  module _ (lookup_ip : Text → Option (List IpAddr)) where
    -- A failed lookup gives no addresses.
    unfoldable pub resolve_passthrough : Text → RecordType → List IpAddr
    unfolding is_of
    resolve_passthrough name want = elim (lookup_ip name) [
      | none ↦ []
      | some ips ↦ keep (is_of want) ips
    ]

    unfoldable pub addresses_of : Text → RecordType → Answer → List IpAddr
    unfolding resolve_passthrough
    addresses_of name want (proxy ip) = ip ∷ []
    addresses_of name want (static_records ips) = ips
    addresses_of name want passthrough = resolve_passthrough name want

    unfoldable pub handle_request : DnsPolicy Net → Query → Response
    unfolding is_address respond answer addresses_of is_of
    handle_request policy query = elim query.info [
      | none ↦ respond query form_err []
      | some (name, want) ↦
          let found = keep (is_of want) (addresses_of name want (answer policy name)) in
          if is_address want
          then respond query no_error
              (map (λ ip. record { name = name; ttl = ttl_seconds; address = ip }) found)
          else respond query no_error []
    ]
