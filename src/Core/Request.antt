-- ===== src/Core/Request.antt =====
-- crates/marshal-core/src/request.rs and the addresses of std::net.
use bot_marshal.Prelude.{
  ℕ, Text, Option, none, some, List, [], ◌∷◌, ◌++◌, keep, not, text_eq, lit, decimal,
}
use bot_marshal.Core.Evidence.{Evidence}

-- An IPv4 address by its octets, an IPv6 address by its segments.
pub data IpAddr : Type 0 where
  v4 : (a b c d : ℕ) → IpAddr
  v6 : (s0 s1 s2 s3 s4 s5 s6 s7 : ℕ) → IpAddr

pub record SocketAddr : Type 0 where
  pub ip : IpAddr
  pub port : ℕ

pub data IngressMode : Type 0 where
  explicit dns : IngressMode

pub data Phase : Type 0 where
  connect request : Phase

pub record Authority : Type 0 where
  pub host : Text
  pub port : ℕ

-- `Display` of an authority.
unfoldable pub authority_string : Authority → Text
authority_string a = a.host ++ (lit ":" ++ decimal a.port)

pub data BodyHandle : Type 0 where
  empty : BodyHandle
  buffered : List ℕ → BodyHandle
  over_limit : (prefix : List ℕ) (limit observed : ℕ) → BodyHandle
  streaming : BodyHandle

unfoldable pub as_bytes : BodyHandle → Option (List ℕ)
as_bytes (buffered b) = some b
as_bytes empty = none
as_bytes (over_limit p l o) = none
as_bytes streaming = none

-- `http::Uri`, as far as the crates read it.
pub record Uri : Type 0 where
  pub path : Text
  pub query : Option Text

pub record LlmRoute : Type 0 where
  pub client_dialect : Text
  pub origin_dialect : Text
  pub from_model : Text
  pub to_model : Text
  pub to_host : Text

-- Header values are bytes; a name with several values has several entries.
pub record RequestContext : Type 0 where
  pub identity : Text
  pub profile : Text
  pub ingress : IngressMode
  pub phase : Phase
  pub client_addr : SocketAddr
  pub authority : Authority
  pub method : Text
  pub uri : Uri
  pub headers : List (Text × List ℕ)
  pub body : BodyHandle
  pub evidence : Evidence
  pub llm_route : Option LlmRoute

pub record ResponseParts : Type 0 where
  pub status : ℕ
  pub headers : List (Text × List ℕ)
  pub body : BodyHandle

-- `HeaderMap::keys`: each name once.
unfoldable pub header_keys : List (Text × List ℕ) → List Text
header_keys [] = []
header_keys ((name, v) ∷ hs) = name ∷ keep (λ other. not (text_eq other name)) (header_keys hs)
