-- ===== src/Core/Hosts.antt =====
-- crates/marshal-core/src/hosts.rs. `IpNet` is of the crate ipnet, and a parameter; so is the
-- parser of an `IpAddr`. Texts are ASCII where they are trimmed and lower-cased.
pub mod Subdomain
pub mod Matching
pub mod Normal
pub mod Compiled
use bot_marshal.Prelude.{
  ℕ, ◌-◌, Text, Option, none, some, Bool, true, false, ◌&&◌, ◌||◌, List, [], ◌∷◌, ◌++◌, Result, ok,
  err, ◌>>=◌, length, drop, get_elem?, is_empty, find, lit, text_eq, contains_byte, strip_prefix,
  trim, trim_end_by, to_ascii_lowercase, ltb, leb, ◌==◌, if◌then◌else◌, map_err,
}
use mathlib.Core.Option
use bot_marshal.Core.Request.{IpAddr}

-- What the matcher takes of ipnet, and the parser of an address literal.
pub record NetLib : Type 1 where
  pub Net : Type 0
  pub parse_net : Text → Result Text Net
  pub net_string : Net → Text
  pub net_contains : Net → IpAddr → Bool
  pub parse_ip : Text → Option IpAddr

pub record HostMatcher (Net : Type 0) : Type 0 where
  pub exact : List Text
  pub suffix : List Text
  pub cidrs : List Net

pub data MatchKind : Type 0 where
  exact subdomain cidr : Text → MatchKind

unfoldable pub rule : MatchKind → Text
rule (exact p) = p
rule (subdomain p) = lit "*." ++ p
rule (cidr p) = p

pub data PatternError : Type 0 where
  bad_cidr : (cidr source : Text) → PatternError
  bad_domain : (pattern why : Text) → PatternError

unfoldable pub normalise : Text → Text
unfolding trim_end_by
normalise host = to_ascii_lowercase (trim_end_by (λ c. c == b'.') (trim host))

-- `host.as_bytes()[i] == b`; the caller has checked that the index is in range.
abbrev byte_is : ℕ → Option ℕ → Bool
byte_is b none = false
byte_is b (some c) = c == b

unfoldable pub ends_with : Text → Text → Bool
ends_with base host =
    leb (length base) (length host) && text_eq (drop (length host - length base) host) base

unfoldable pub is_strict_subdomain : Text → Text → Bool
unfolding ends_with
is_strict_subdomain host base =
    ltb (length base) (length host)
    && (ends_with base host && byte_is b'.' (get_elem? host (length host - length base - 1)))

-- The two branches of the loop over the domains: a pattern under `*.`, and any other.
add_suffix : {Net : Type 0} → Text → Text → HostMatcher Net → Result PatternError (HostMatcher Net)
add_suffix raw rest m =
    if is_empty rest || contains_byte b'*' rest
    then err (bad_domain raw (lit "`*.` must be followed by a literal domain"))
    else ok (record m { suffix = m.suffix ++ rest ∷ [] })

add_exact : {Net : Type 0} → Text → Text → HostMatcher Net → Result PatternError (HostMatcher Net)
add_exact raw pattern m =
    if contains_byte b'*' pattern
    then err (bad_domain raw (lit "`*` is only supported as a leading `*.` label"))
    else if is_empty pattern
    then err (bad_domain raw (lit "empty pattern"))
    else ok (record m { exact = m.exact ++ pattern ∷ [] })

-- One round of the loop.
add_domain : {Net : Type 0} → Text → HostMatcher Net → Result PatternError (HostMatcher Net)
unfolding add_suffix add_exact
add_domain raw m =
    let pattern = normalise raw in
    elim (strip_prefix (lit "*.") pattern) [
      | some rest ↦ add_suffix raw rest m
      | none ↦ add_exact raw pattern m
    ]

add_domains : {Net : Type 0} → List Text → HostMatcher Net → Result PatternError (HostMatcher Net)
add_domains [] m = ok m
add_domains (d ∷ ds) m = add_domain d m >>= λ m'. add_domains ds m'

unfoldable pub is_empty_matcher : {Net : Type 0} → HostMatcher Net → Bool
is_empty_matcher m = is_empty m.exact && (is_empty m.suffix && is_empty m.cidrs)

-- The part of `matches` that looks at names, for a host that is no address literal.
unfoldable pub match_name : {Net : Type 0} → HostMatcher Net → Text → Option MatchKind
match_name m host = elim (find (λ p. text_eq p host) m.exact) [
  | some p ↦ some (exact p)
  | none ↦ Option.map subdomain (find (λ base. is_strict_subdomain host base) m.suffix)
]

module _ (net : NetLib) where
  open net use {Net, parse_net, net_string, net_contains, parse_ip}

  add_cidr : Text → HostMatcher Net → Result PatternError (HostMatcher Net)
  add_cidr raw m =
      map_err (bad_cidr raw) (parse_net raw) >>= λ n. ok (record m { cidrs = m.cidrs ++ n ∷ [] })

  add_cidrs : List Text → HostMatcher Net → Result PatternError (HostMatcher Net)
  add_cidrs [] m = ok m
  add_cidrs (c ∷ cs) m = add_cidr c m >>= λ m'. add_cidrs cs m'

  -- `HostMatcher::new`.
  unfoldable pub new : List Text → List Text → Result PatternError (HostMatcher Net)
  unfolding add_domain add_domains add_cidr add_cidrs
  new domains cidrs = add_domains domains (record { exact = []; suffix = []; cidrs = [] }) >>= λ m.
      add_cidrs cidrs m

  -- The rest of `matches`, for a host in normal form.
  unfoldable pub match_host : HostMatcher Net → Text → Option MatchKind
  unfolding match_name
  match_host m host = elim (parse_ip host) [
    | some ip ↦ Option.map (λ n. cidr (net_string n)) (find (λ n. net_contains n ip) m.cidrs)
    | none ↦ match_name m host
  ]

  unfoldable pub matches : HostMatcher Net → Text → Option MatchKind
  unfolding match_host
  matches m written = match_host m (normalise written)
