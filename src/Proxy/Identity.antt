-- ===== src/Proxy/Identity.antt =====
-- crates/marshal-core/src/identity.rs and crates/marshal-proxy/src/identity/resolvers.rs: which agent a
-- connection belongs to. ipnet, globset and the lookup of the peer's credentials are parameters.
pub mod ConstantTime
pub mod Attributes
use bot_marshal.Prelude.{
  ℕ, zero, suc, ◌+◌, ◌*◌, ◌/◌, ◌%◌, Text, Option, none, some, Bool, true, false, not, ◌&&◌, ◌||◌,
  List, [], ◌∷◌, Result, ok, err, collect, map, find, length, is_empty, is_some, lit, text_eq, ◌==◌,
  if◌then◌else◌, ◌>>=◌, is_none,
}
use bot_marshal.Core.Request.{IpAddr, SocketAddr, IngressMode}

pub record PeerCred : Type 0 where
  pub uid : Option ℕ
  pub gid : Option ℕ
  pub pid : Option ℕ
  pub cgroup : Option Text
  pub cmdline : Option Text

unfoldable pub is_trusted_for_policy : PeerCred → Bool
is_trusted_for_policy cred = is_some cred.uid || is_some cred.gid

pub record Credential : Type 0 where
  pub user : Text
  pub password : Text

pub record ConnInfo : Type 0 where
  pub ingress : IngressMode
  pub client_addr : SocketAddr
  pub local_addr : SocketAddr
  pub proxy_auth : Option Credential
  pub peer_cred : Option PeerCred

pub record Resolved : Type 0 where
  pub identity : Text
  pub profile : Option Text
  pub attributed : Bool
  pub resolver : Option Text

-- The name that logs give the embedded profile.
unfoldable pub profile_label : Resolved → Text
profile_label r = elim r.profile [ none ↦ lit "default" | some p ↦ p ]

-- What one entry of a resolver matches, with the identity and the profile it stands for.
pub record Entry (K : Type 0) : Type 0 where
  pub key : K
  pub identity : Text
  pub profile : Text

abbrev attribute : {K : Type 0} → Text → Entry K → Resolved
attribute resolver e = record {
  identity = e.identity;
  profile = some e.profile;
  attributed = true;
  resolver = some resolver;
}

-- `entries.iter().find(..).map(..)`.
unfoldable pub first_match : {K : Type 0} → Text → (K → Bool) → List (Entry K) → Option Resolved
first_match resolver p entries = elim (find (λ e. p e.key) entries) [
  | none ↦ none
  | some e ↦ some (attribute resolver e)
]

-- The first of two answers.
abbrev or_else : Option Resolved → Option Resolved → Option Resolved
or_else none later = later
or_else (some r) later = some r

-- `if let Some(k) = key && let Some(entry) = ..`.
match_key : {J K : Type 0} → Text → (J → K → Bool) → Option J → List (Entry K) → Option Resolved
unfolding first_match
match_key resolver p none entries = none
match_key resolver p (some j) entries = first_match resolver (p j) entries

-- The bitwise operations on two numbers of `k` bits, by their lowest bits.
pub bits_with : (ℕ → ℕ → ℕ) → ℕ → ℕ → ℕ → ℕ
bits_with f zero x y = 0
bits_with f (suc k) x y = f (x % 2) (y % 2) + 2 * bits_with f k (x / 2) (y / 2)

abbrev or_bit : ℕ → ℕ → ℕ
or_bit a b = if a == 0 then b else 1

abbrev xor_bit : ℕ → ℕ → ℕ
xor_bit a b = if a == b then 0 else 1

-- `acc | (x ^ y)` over the bytes of both texts.
unfoldable pub fold_bytes : ℕ → Text → Text → ℕ
unfolding bits_with
fold_bytes acc [] t = acc
fold_bytes acc (x ∷ s) [] = acc
fold_bytes acc (x ∷ s) (y ∷ t) = fold_bytes (bits_with or_bit 8 acc (bits_with xor_bit 8 x y)) s t

unfoldable pub constant_time_eq : Text → Text → Bool
unfolding fold_bytes
constant_time_eq a b = if length a == length b then fold_bytes 0 a b == 0 else false

pub record IdentityLib : Type 1 where
  pub Net : Type 0
  pub net_contains : Net → IpAddr → Bool
  pub GlobMatcher : Type 0
  pub is_match : GlobMatcher → Text → Bool
  -- The kernel's credentials for the peer, with a /proc walk if it is asked for.
  pub peer_cred_for_tcp : SocketAddr → Bool → Option PeerCred

-- A user and the password, in the entries for credentials.
abbrev is_credential : Credential → Text × Text → Bool
is_credential cred (user, password) =
    text_eq user cred.user && constant_time_eq password cred.password

module _ (lib : IdentityLib) where
  open lib use {Net, net_contains, GlobMatcher, is_match, peer_cred_for_tcp}

  -- The resolvers, each with its entries.
  pub data IdentityResolver : Type 0 where
    source_ip : List (Entry Net) → IdentityResolver
    peer_cred_resolver :
        (uids gids : List (Entry ℕ)) (cgroups : List (Entry GlobMatcher)) → IdentityResolver
    listener_port : List (Entry ℕ) → IdentityResolver
    proxy_auth_resolver : List (Entry (Text × Text)) → IdentityResolver

  unfoldable pub needs_enrichment : List (Entry GlobMatcher) → Bool
  needs_enrichment cgroups = not (is_empty cgroups)

  -- The user's id decides first, then the group's, then the cgroup.
  unfoldable pub resolve_cred :
      List (Entry ℕ) → List (Entry ℕ) → List (Entry GlobMatcher) → PeerCred → Option Resolved
  unfolding match_key
  resolve_cred uids gids cgroups cred =
      or_else (match_key (lit "peer_cred:uid") (λ uid u. u == uid) cred.uid uids) (
        or_else (match_key (lit "peer_cred:gid") (λ gid g. g == gid) cred.gid gids)
          (match_key (lit "peer_cred:cgroup") (λ path m. is_match m path) cred.cgroup cgroups))

  with_cred :
      List (Entry ℕ) → List (Entry ℕ) → List (Entry GlobMatcher) → Option PeerCred → Option Resolved
  unfolding resolve_cred
  with_cred uids gids cgroups none = none
  with_cred uids gids cgroups (some cred) = resolve_cred uids gids cgroups cred

  unfoldable pub resolve_with : IdentityResolver → ConnInfo → Option Resolved
  unfolding first_match match_key with_cred constant_time_eq
  resolve_with (source_ip entries) conn =
      first_match (lit "source_ip") (λ n. net_contains n conn.client_addr.ip) entries
  resolve_with (peer_cred_resolver uids gids cgroups) conn =
      with_cred uids gids cgroups conn.peer_cred
  resolve_with (listener_port entries) conn =
      first_match (lit "listener_port") (λ p. p == conn.local_addr.port) entries
  resolve_with (proxy_auth_resolver entries) conn =
      match_key (lit "proxy_auth") is_credential conn.proxy_auth entries

  pub record IdentityRegistry : Type 0 where
    pub resolvers : List IdentityResolver
    pub fallback_profile : Option Text
    pub deny_unidentified : Bool
    pub enrich : Bool

  unfoldable pub attach_peer_cred : IdentityRegistry → ConnInfo → ConnInfo
  attach_peer_cred registry conn =
      if is_some conn.peer_cred
      then conn
      else record conn { peer_cred = peer_cred_for_tcp conn.client_addr registry.enrich }

  abbrev pub unidentified : Option Text → Resolved
  unidentified fallback = record {
    identity = lit "unidentified";
    profile = fallback;
    attributed = false;
    resolver = none;
  }

  -- The loop over the resolvers, and what follows it.
  unfoldable pub resolve_first : Option Text → List IdentityResolver → ConnInfo → Resolved
  unfolding resolve_with
  resolve_first fallback [] conn = unidentified fallback
  resolve_first fallback (r ∷ resolvers) conn = elim (resolve_with r conn) [
    | some found ↦ found
    | none ↦ resolve_first fallback resolvers conn
  ]

  unfoldable pub resolve : IdentityRegistry → ConnInfo → Resolved
  unfolding resolve_first
  resolve registry conn = resolve_first registry.fallback_profile registry.resolvers conn
