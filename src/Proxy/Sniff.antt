-- ===== src/Proxy/Sniff.antt =====
-- crates/marshal-proxy/src/sniff.rs: the protocol by its first byte, and the name in a TLS hello.
pub mod Entries
pub mod Hello
pub mod Fuel
use bot_marshal.Prelude.{
  ℕ, zero, suc, Text, Option, none, some, Bool, true, false, List, length, to_ascii_lowercase,
  is_utf8, ltb, ◌==◌, if◌then◌else◌,
}
use bot_marshal.Proxy.Cursor.{
  Reader, Parse, ◌>>=◌, ◌>>◌, pure, give_up, reader_new, remaining, take_bytes, skip, u8, u16, u24,
  inside,
}

pub data Protocol : Type 0 where
  socks5 socks4 http : Protocol

unfoldable pub detect : ℕ → Protocol
detect first_byte = if first_byte == 5 then socks5 else if first_byte == 4 then socks4 else http

abbrev pub expect : ℕ → Parse ℕ → Parse (Unit {0})
expect kind p = do k ← p; if k == kind then pure tt else give_up

-- The handshake message, out of the TLS record.
unfoldable pub tls_record : Parse (List ℕ)
unfolding u8 skip u16 take_bytes
tls_record = do expect 0x16 u8; skip 2; n ← u16; take_bytes n

-- The body of the ClientHello, out of the handshake message.
unfoldable pub handshake_body : Parse (List ℕ)
unfolding u8 u24 take_bytes
handshake_body = do expect 0x01 u8; n ← u24; take_bytes n

-- The extensions, out of the body.
unfoldable pub extensions : Parse (List ℕ)
unfolding u8 skip u16 take_bytes
extensions = do
  skip 2
  skip 32
  session_id_len ← u8
  skip session_id_len
  cipher_suites_len ← u16
  skip cipher_suites_len
  compression_len ← u8
  skip compression_len
  extensions_len ← u16
  take_bytes extensions_len

unfoldable pub named : List ℕ → Option Text
unfolding is_utf8 to_ascii_lowercase
named name = if is_utf8 name then some (to_ascii_lowercase name) else none

-- A type and what it heads: the entries of the name list, and the extensions.
unfoldable pub name_entry : Parse (ℕ × List ℕ)
unfolding u8 u16 take_bytes
name_entry = do kind ← u8; n ← u16; name ← take_bytes n; pure (kind, name)

unfoldable pub extension : Parse (ℕ × List ℕ)
unfolding u16 take_bytes
extension = do kind ← u16; n ← u16; body ← take_bytes n; pure (kind, body)

-- The loop over the name list: the first entry of type 0.
unfoldable pub host_name : ℕ → Reader → Option Text
unfolding remaining name_entry named
host_name zero r = none
host_name (suc fuel) r = if ltb (remaining r) 3 then none else elim (name_entry r) [
  | none ↦ none
  | some ((kind, name), rest) ↦ elim (kind == 0) [ true ↦ named name | false ↦ host_name fuel rest ]
]

-- `?` on an `Option`.
unfoldable pub and_then : {A B : Type 0} → Option A → (A → Option B) → Option B
and_then none f = none
and_then (some a) f = f a

abbrev pub name_list : Parse (List ℕ)
name_list = do n ← u16; take_bytes n

unfoldable pub server_name : List ℕ → Option Text
unfolding and_then inside host_name u16 take_bytes reader_new
server_name body =
    and_then (inside name_list body) (λ names. host_name (length names) (reader_new names))

-- The loop over the extensions: the first server_name decides.
unfoldable pub find_name : ℕ → Reader → Option Text
unfolding remaining extension server_name
find_name zero r = none
find_name (suc fuel) r = if ltb (remaining r) 4 then none else elim (extension r) [
  | none ↦ none
  | some ((kind, body), rest) ↦ elim (kind == 0) [
    | true ↦ server_name body
    | false ↦ find_name fuel rest
  ]
]

-- Every extension has four bytes at least, so the number of bytes is fuel enough.
unfoldable pub sni_from_client_hello : List ℕ → Option Text
unfolding and_then inside tls_record handshake_body extensions find_name reader_new
sni_from_client_hello buf = and_then (inside tls_record buf) (λ message.
    and_then (inside handshake_body message)
      (λ body. and_then (inside extensions body) (λ ext. find_name (length ext) (reader_new ext))))
