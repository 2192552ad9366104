-- ===== src/Core/Hosts/Matching.antt =====
-- What a compiled matcher covers.
use bot_marshal.Prelude.{
  Text, Option, none, some, true, ◌||◌, ◌∷◌, ◌++◌, ◌≡◌, refl, sym, ◌∙◌, ◌↔◌, ◌⊎◌, inl, inr, arith,
  any, find, Any, any_iff, is_some, is_some-find, text_eq, text_eq_iff, Option-cases,
}
use mathlib.Core.Option
use bot_marshal.Core.Request.{IpAddr}
use bot_marshal.Core.Hosts.{
  NetLib, HostMatcher, subdomain, cidr, normalise, is_strict_subdomain, match_name, match_host,
  matches,
}
use bot_marshal.Core.Hosts.Subdomain.{is_strict_subdomain_iff}

is_some-map {ℓ κ} :
    {A : Type ℓ} {B : Type κ} (f : A → B) (o : Option A) → is_some (Option.map f o) ≡ is_some o
is_some-map f none = refl
is_some-map f (some a) = refl

-- A name is listed, or lies under a listed domain.
abbrev pub CoversName : {Net : Type 0} → HostMatcher Net → Text → Type 0
CoversName m host =
    Any (λ p. p ≡ host) m.exact
    ⊎ Any (λ base. (labels : Text) × (host ≡ labels ++ b'.' ∷ base)) m.suffix

match_name-any :
    {Net : Type 0} (m : HostMatcher Net) (host : Text)
    → is_some (match_name m host)
      ≡ (any (λ p. text_eq p host) m.exact || any (is_strict_subdomain host) m.suffix)
unfolding match_name
match_name-any m host = ground (
  arith,
  is_some-find (λ p. text_eq p host) m.exact,
  is_some-find (is_strict_subdomain host) m.suffix,
  is_some-map subdomain (find (is_strict_subdomain host) m.suffix),
)

match_name_iff :
    {Net : Type 0} (m : HostMatcher Net) (host : Text)
    → (is_some (match_name m host) ≡ true) ↔ CoversName m host
match_name_iff m host = ground (
  arith,
  match_name-any m host,
  any_iff (λ p. p ≡ host) (λ p. text_eq p host) (λ p. text_eq_iff p host) m.exact,
  any_iff (λ base. (labels : Text) × (host ≡ labels ++ b'.' ∷ base)) (is_strict_subdomain host)
      (is_strict_subdomain_iff host) m.suffix,
)

module _ (net : NetLib) where
  open net use {Net, net_contains, net_string, parse_ip}

  -- An address literal lies in a listed block; any other host is covered as a name.
  abbrev pub Covers : HostMatcher Net → Text → Type 0
  Covers m host =
      ((ip : IpAddr) × (parse_ip host ≡ some ip) × (any (λ n. net_contains n ip) m.cidrs ≡ true))
      ⊎ ((parse_ip host ≡ none) × CoversName m host)

  blocks_iff :
      (m : HostMatcher Net) (ip : IpAddr)
      → is_some (Option.map (λ n. cidr (net_string n)) (find (λ n. net_contains n ip) m.cidrs))
        ≡ any (λ n. net_contains n ip) m.cidrs
  blocks_iff m ip =
      is_some-map (λ n. cidr (net_string n)) (find (λ n. net_contains n ip) m.cidrs)
      ∙ is_some-find (λ n. net_contains n ip) m.cidrs

  -- `matches` answers exactly for the hosts whose normal form is covered: an address literal in a listed
  -- block, or any other host that is listed as it is or is some labels, a dot and a listed domain.
  pub matches_iff :
      (m : HostMatcher Net) (written : Text)
      → (is_some (matches net m written) ≡ true) ↔ Covers m (normalise written)
  unfolding matches
  matches_iff m written = elim (Option-cases (parse_ip (normalise written))) [
    | inl name ↦
        rw (name, match_host)
          (
            λ h. inr (refl, (match_name_iff m _).0 h),
            λ c. elim c [
              | inl literal ↦ cc (literal.1)
              | inr named ↦ (match_name_iff m _).1 named.1
            ],
          )
    | inr (ip, literal) ↦
        rw (literal, match_host)
          (
            λ h. inl (ip, refl, sym (blocks_iff m ip) ∙ h),
            λ c. elim c [
              | inl (other, same, inside) ↦
                  let ip-eq : ip ≡ other = ground arith in rw (blocks_iff m ip, ip-eq) inside
              | inr named ↦ cc (named.0)
            ],
          )
  ]
