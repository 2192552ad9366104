-- ===== src/Proxy/Socks5/Messages.antt =====
-- The messages of a client, well-formed and faulty, and the answers to them.
use bot_marshal.Prelude.{
  ℕ, Text, Option, none, some, true, false, List, [], ◌∷◌, ◌++◌, ◌≡◌, ◌≢◌, length, is_utf8,
}
use bot_marshal.Proxy.Identity.{Credential}
use bot_marshal.Proxy.Socks5.{
  Socks5Error, no_acceptable_auth, malformed, unsupported_command, unsupported_address_type, Reply,
  command_not_supported, address_type_not_supported, reply_code, Socks5Request, contains_method,
}
use bot_marshal.Proxy.Socks5.Runs.{one_byte, two_bytes}

-- What a client sends first: its methods, and the credential if it is asked for one.
pub record Greeting : Type 0 where
  pub methods : List ℕ
  pub credential : Option Credential

abbrev pub counted_bytes : List ℕ → List ℕ
counted_bytes xs = one_byte (length xs) ++ xs

abbrev pub credential_bytes : Option Credential → List ℕ
credential_bytes none = []
credential_bytes (some c) = one_byte 1 ++ (counted_bytes c.user ++ counted_bytes c.password)

-- The greeting, with what the client sends after it.
abbrev pub greeting_bytes : Greeting → List ℕ → List ℕ
greeting_bytes g rest =
    one_byte (length g.methods) ++ (g.methods ++ (credential_bytes g.credential ++ rest))

abbrev pub greeting_reply : Option Credential → List ℕ
greeting_reply none = 5 ∷ 0 ∷ []
greeting_reply (some c) = 5 ∷ 2 ∷ 1 ∷ 0 ∷ []

-- The client offers a credential and gives one that is text, or offers none and no credential.
unfoldable pub IsGreeting : List ℕ → Option Credential → Type 0
IsGreeting methods none = (contains_method 2 methods ≡ false) × (contains_method 0 methods ≡ true)
IsGreeting methods (some c) =
    (contains_method 2 methods ≡ true) × ((is_utf8 c.user ≡ true) × (is_utf8 c.password ≡ true))

pub data Address : Type 0 where
  ipv4 ipv6 : List ℕ → Address
  domain : Text → Address

abbrev pub kind_of : Address → ℕ
kind_of (ipv4 o) = 1
kind_of (domain name) = 3
kind_of (ipv6 o) = 4

abbrev pub address_bytes : Address → List ℕ
address_bytes (ipv4 o) = o
address_bytes (ipv6 o) = o
address_bytes (domain name) = counted_bytes name

unfoldable pub IsAddress : Address → Type 0
IsAddress (ipv4 o) = length o ≡ 4
IsAddress (ipv6 o) = length o ≡ 16
IsAddress (domain name) = is_utf8 name ≡ true

unfoldable pub host_of : (List ℕ → Text) → Address → Text
host_of ip_to_string (ipv4 o) = ip_to_string o
host_of ip_to_string (ipv6 o) = ip_to_string o
host_of ip_to_string (domain name) = name

abbrev pub request_of : Option Credential → Text → ℕ → Socks5Request
request_of credential host port = record {
  authority = record { host = host; port = port };
  credential = credential;
}

abbrev pub reply_bytes : Reply → List ℕ
reply_bytes code = 5 ∷ reply_code code ∷ 0 ∷ 1 ∷ 0 ∷ 0 ∷ 0 ∷ 0 ∷ 0 ∷ 0 ∷ []

-- A request to connect: the address and the port, after the greeting.
abbrev pub connect_bytes : Greeting → (reserved port : ℕ) → Address → List ℕ
connect_bytes g reserved port a =
    greeting_bytes g ((5 ∷ 1 ∷ reserved ∷ kind_of a ∷ []) ++ (address_bytes a ++ two_bytes port))

-- What a client may do wrong.
pub data Fault : Type 0 where
  no_method : List ℕ → Fault
  bad_version : Greeting → (version command reserved kind : ℕ) → Fault
  bad_command : Greeting → (command reserved kind : ℕ) → Fault
  bad_kind : Greeting → (reserved kind : ℕ) → Fault

unfoldable pub IsFault : Fault → Type 0
IsFault (no_method methods) =
    (contains_method 2 methods ≡ false) × (contains_method 0 methods ≡ false)
IsFault (bad_version g v c r k) = IsGreeting g.methods g.credential × (v ≢ 5)
IsFault (bad_command g c r k) = IsGreeting g.methods g.credential × (c ≢ 1)
IsFault (bad_kind g r k) = IsGreeting g.methods g.credential × ((k ≢ 1) × ((k ≢ 3) × (k ≢ 4)))

unfoldable pub fault_bytes : Fault → List ℕ
fault_bytes (no_method methods) = one_byte (length methods) ++ (methods ++ [])
fault_bytes (bad_version g v c r k) = greeting_bytes g (v ∷ c ∷ r ∷ k ∷ [])
fault_bytes (bad_command g c r k) = greeting_bytes g (5 ∷ c ∷ r ∷ k ∷ [])
fault_bytes (bad_kind g r k) = greeting_bytes g (5 ∷ 1 ∷ r ∷ k ∷ [])

unfoldable pub fault_reply : Fault → List ℕ
fault_reply (no_method methods) = 5 ∷ 0xFF ∷ []
fault_reply (bad_version g v c r k) = greeting_reply g.credential ++ []
fault_reply (bad_command g c r k) = greeting_reply g.credential ++ reply_bytes command_not_supported
fault_reply (bad_kind g r k) = greeting_reply g.credential ++ reply_bytes address_type_not_supported

unfoldable pub fault_error : Fault → Socks5Error
fault_error (no_method methods) = no_acceptable_auth
fault_error (bad_version g v c r k) = malformed
fault_error (bad_command g c r k) = unsupported_command c
fault_error (bad_kind g r k) = unsupported_address_type k
