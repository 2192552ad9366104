-- ===== src/Core/Hosts/Compiled.antt =====
-- What `HostMatcher::new` guarantees of the patterns it keeps.
use bot_marshal.Prelude.{
  Text, false, List, [], ◌∷◌, ◌++◌, ◌≡◌, ◌≢◌, arith, All, ok, Option-cases, inl, inr, contains_byte,
  strip_prefix, lit, >>=-eq-ok,
}
use bot_marshal.Core.Hosts.{
  NetLib, HostMatcher, normalise, add_suffix, add_exact, add_domain, add_domains, add_cidr,
  add_cidrs, new,
}

-- A name with no star in it, and not the empty one.
abbrev pub IsLiteral : Text → Type 0
IsLiteral p = (p ≢ []) × (contains_byte b'*' p ≡ false)

pub record IsCompiled {Net : Type 0} (m : HostMatcher Net) : Type 0 where
  pub exact_literal : All IsLiteral m.exact
  pub suffix_literal : All IsLiteral m.suffix

All-snoc :
    {A : Type 0} (P : A → Type 0) (xs : List A) (x : A) → All P xs → P x → All P (xs ++ x ∷ [])
All-snoc P [] x h p = (p, tt)
All-snoc P (y ∷ xs) x h p = (h.0, All-snoc P xs x h.1 p)

module _ {Net : Type 0} (raw pattern : Text) (m m' : HostMatcher Net) (c : IsCompiled m) where
  add_suffix-IsCompiled : add_suffix raw pattern m ≡ ok m' → IsCompiled m'
  unfolding add_suffix
  add_suffix-IsCompiled e = ground (arith, All-snoc IsLiteral m.suffix pattern c.suffix_literal)

  add_exact-IsCompiled : add_exact raw pattern m ≡ ok m' → IsCompiled m'
  unfolding add_exact
  add_exact-IsCompiled e = ground (arith, All-snoc IsLiteral m.exact pattern c.exact_literal)

add_domain-IsCompiled :
    {Net : Type 0} (raw : Text) (m m' : HostMatcher Net)
    → IsCompiled m
    → add_domain raw m ≡ ok m'
    → IsCompiled m'
unfolding add_domain
add_domain-IsCompiled raw m m' c e = elim (Option-cases (strip_prefix (lit "*.") (normalise raw))) [
  | inl plain ↦ add_exact-IsCompiled raw (normalise raw) m m' c (rw (plain, add_domain) at e)
  | inr (rest, star) ↦ add_suffix-IsCompiled raw rest m m' c (rw (star, add_domain) at e)
]

add_domains-IsCompiled :
    {Net : Type 0} (ds : List Text) (m m' : HostMatcher Net)
    → IsCompiled m
    → add_domains ds m ≡ ok m'
    → IsCompiled m'
unfolding add_domains
add_domains-IsCompiled [] m m' c e = ground arith
add_domains-IsCompiled (d ∷ ds) m m' c e =
    let (one, added, rest) = >>=-eq-ok (add_domain d m) (add_domains ds) m' e in
    add_domains-IsCompiled ds one m' (add_domain-IsCompiled d m one c added) rest

module _ (net : NetLib) where
  add_cidrs-IsCompiled :
      (cs : List Text) (m m' : HostMatcher net.Net)
      → IsCompiled m
      → add_cidrs net cs m ≡ ok m'
      → IsCompiled m'
  unfolding add_cidrs add_cidr
  add_cidrs-IsCompiled [] m m' c e = ground arith
  add_cidrs-IsCompiled (r ∷ cs) m m' c e =
      let (one, added, rest) = >>=-eq-ok (add_cidr net r m) (add_cidrs net cs) m' e in
      add_cidrs-IsCompiled cs one m' (ground arith) rest

  -- A matcher that was built holds no empty pattern, and no pattern with a star left in it.
  pub new-IsCompiled :
      (domains cidrs : List Text) (m : HostMatcher net.Net)
      → new net domains cidrs ≡ ok m
      → IsCompiled m
  unfolding new
  new-IsCompiled domains cidrs m e =
      let blank : HostMatcher net.Net = record { exact = []; suffix = []; cidrs = [] } in
      let (named, added, rest) = >>=-eq-ok (add_domains domains blank) (add_cidrs net cidrs) m e in
      add_cidrs-IsCompiled cidrs named m
        (add_domains-IsCompiled domains blank named
          (record { exact_literal = tt; suffix_literal = tt }) added)
        rest
