-- ===== src/Proxy/Socks5.antt =====
-- crates/marshal-proxy/src/socks5.rs. The connection is what the client still sends and what was
-- written to it; a read past the end and a failing write are I/O errors.
pub mod Runs
pub mod Messages
pub mod Steps
pub mod Handshakes
use bot_marshal.Prelude.{
  ℕ, ◌+◌, ◌*◌, Text, Option, none, some, Bool, true, false, List, [], ◌∷◌, ◌++◌, Result, ok, err,
  any, take, drop, length, leb, is_utf8, ◌==◌, if◌then◌else◌,
}
use bot_marshal.Core.Request.{Authority}
use bot_marshal.Proxy.Identity.{Credential}

pub data Socks5Error : Type 0 where
  io no_acceptable_auth malformed : Socks5Error
  unsupported_command unsupported_address_type : ℕ → Socks5Error

pub data Reply : Type 0 where
  succeeded general_failure not_allowed network_unreachable host_unreachable connection_refused
        command_not_supported address_type_not_supported :
      Reply

unfoldable pub reply_code : Reply → ℕ
reply_code succeeded = 0
reply_code general_failure = 1
reply_code not_allowed = 2
reply_code network_unreachable = 3
reply_code host_unreachable = 4
reply_code connection_refused = 5
reply_code command_not_supported = 7
reply_code address_type_not_supported = 8

pub record Socks5Request : Type 0 where
  pub authority : Authority
  pub credential : Option Credential

pub record Connection : Type 0 where
  pub input : List ℕ
  pub written : List ℕ

abbrev pub Io : Type 0 → Type 0
Io A = Connection → Result Socks5Error A × Connection

abbrev pub proceed :
    {A B : Type 0}
    → (A → Io B)
    → Result Socks5Error A × Connection
    → Result Socks5Error B × Connection
proceed f (ok a, c) = f a c
proceed f (err e, c) = (err e, c)

infixl 5 ◌>>=◌
abbrev pub ◌>>=◌ : {A B : Type 0} → Io A → (A → Io B) → Io B
(p >>= f) c = proceed f (p c)

infixl 5 ◌>>◌
abbrev pub ◌>>◌ : {A B : Type 0} → Io A → Io B → Io B
p >> q = p >>= λ a. q

abbrev pub pure : {A : Type 0} → A → Io A
pure a c = (ok a, c)

abbrev pub throw : {A : Type 0} → Socks5Error → Io A
throw e c = (err e, c)

unfoldable pub read_exact : ℕ → Io (List ℕ)
read_exact n c =
    if leb n (length c.input)
    then (ok (take n c.input), record c { input = drop n c.input })
    else (err io, record c { input = [] })

-- A number of one and of two bytes, the high byte first.
big_endian : ℕ → List ℕ → ℕ
big_endian acc [] = acc
big_endian acc (b ∷ bs) = big_endian (256 * acc + b) bs

unfoldable pub read_number : ℕ → Io ℕ
unfolding read_exact big_endian
read_number n = do b ← read_exact n; pure (big_endian 0 b)

unfoldable pub read_u8 : Io ℕ
unfolding read_number
read_u8 = read_number 1

unfoldable pub read_u16 : Io ℕ
unfolding read_number
read_u16 = read_number 2

-- `String::from_utf8(..).map_err(|_| Malformed)`.
unfoldable pub from_utf8 : List ℕ → Io Text
from_utf8 b = if is_utf8 b then pure b else throw malformed

-- A length byte, and as many bytes.
unfoldable pub counted : Io (List ℕ)
unfolding read_u8 read_exact
counted = do n ← read_u8; read_exact n

abbrev pub contains_method : ℕ → List ℕ → Bool
contains_method m methods = any (λ x. x == m) methods

-- `can_write` tells, by what was written, whether the next write goes through; `ip_to_string` is the
-- `Display` of an address by its 4 or 16 bytes.
module _ (can_write : List ℕ → Bool) (ip_to_string : List ℕ → Text) where
  unfoldable pub write_all : List ℕ → Io (Unit {0})
  write_all bytes c =
      if can_write c.written
      then (ok tt, record c { written = c.written ++ bytes })
      else (err io, c)

  unfoldable pub reply : Reply → Io (Unit {0})
  unfolding write_all reply_code
  reply code = write_all (5 ∷ reply_code code ∷ 0 ∷ 1 ∷ 0 ∷ 0 ∷ 0 ∷ 0 ∷ 0 ∷ 0 ∷ [])

  -- What follows the version of the sub-negotiation. It is always answered with success.
  unfoldable pub read_names : Io Credential
  unfolding counted write_all from_utf8
  read_names = do
    user ← counted
    pass ← counted
    write_all (1 ∷ 0 ∷ [])
    user_text ← from_utf8 user
    pass_text ← from_utf8 pass
    pure (record { user = user_text; password = pass_text })

  unfoldable pub read_userpass : Io Credential
  unfolding read_u8 read_names
  read_userpass = do version ← read_u8; if version == 1 then read_names else throw malformed

  unfoldable pub choose_method : List ℕ → Io (Option Credential)
  unfolding write_all read_userpass
  choose_method methods =
      if contains_method 2 methods
      then (do write_all (5 ∷ 2 ∷ []); credential ← read_userpass; pure (some credential))
      else if contains_method 0 methods
      then (do write_all (5 ∷ 0 ∷ []); pure none)
      else (do write_all (5 ∷ 0xFF ∷ []); throw no_acceptable_auth)

  -- The host, by the type of the address.
  unfoldable pub read_host : ℕ → Io Text
  unfolding read_exact counted from_utf8 reply
  read_host kind =
      if kind == 1
      then (do o ← read_exact 4; pure (ip_to_string o))
      else if kind == 3
      then (do name ← counted; from_utf8 name)
      else if kind == 4
      then (do o ← read_exact 16; pure (ip_to_string o))
      else (do reply address_type_not_supported; throw (unsupported_address_type kind))

  -- The checks of the request's four first bytes; what is left is the type of the address. (The list
  -- has four bytes.)
  unfoldable pub check_head : List ℕ → Io ℕ
  unfolding reply
  check_head (version ∷ command ∷ reserved ∷ kind ∷ []) =
      if version == 5
      then if command == 1
        then pure kind
        else (do reply command_not_supported; throw (unsupported_command command))
      else throw malformed
  check_head _ = throw malformed

  unfoldable pub handshake : Io Socks5Request
  unfolding read_u8 read_exact choose_method check_head read_host read_u16
  handshake = do
    nmethods ← read_u8
    methods ← read_exact nmethods
    credential ← choose_method methods
    head ← read_exact 4
    kind ← check_head head
    host ← read_host kind
    port ← read_u16
    pure (record { authority = record { host = host; port = port }; credential = credential })
