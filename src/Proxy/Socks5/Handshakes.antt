-- ===== src/Proxy/Socks5/Handshakes.antt =====
-- What the handshake makes of a client's messages.
use bot_marshal.Prelude.{ℕ, Text, Bool, true, List, [], ◌∷◌, ◌++◌, ok, err, ◌≡◌, refl, length}
use bot_marshal.Proxy.Socks5.{handshake}
use bot_marshal.Proxy.Socks5.Runs.{Ends, Ends-bind, Ends-fail, Ends-read_exact, Ends-read_u8}
use bot_marshal.Proxy.Socks5.Messages.{
  Greeting, greeting_reply, IsGreeting, Address, IsAddress, host_of, request_of, connect_bytes,
  Fault, no_method, bad_version, bad_command, bad_kind, IsFault, fault_bytes, fault_reply,
  fault_error,
}
use bot_marshal.Proxy.Socks5.Steps.{
  Ends-greeting, Ends-request, Ends-no_method, Ends-bad_version, Ends-bad_command,
  Ends-bad_kind_request,
}

-- While writes go through, the handshake of a client that greets well and asks to connect gives the
-- host, the port and the credential that the client sent, answers the greeting, and reads no further.
pub handshake-connect :
    (can_write : List ℕ → Bool) (ip_to_string : List ℕ → Text)
    → ((written : List ℕ) → can_write written ≡ true)
    → (g : Greeting) (reserved port : ℕ) (a : Address) → IsGreeting g.methods g.credential
    → IsAddress a
    → Ends
        (handshake can_write ip_to_string)
        (connect_bytes g reserved port a)
        (greeting_reply g.credential ++ [])
        (ok (request_of g.credential (host_of ip_to_string a) port))
unfolding handshake
handshake-connect can_write ip_to_string open_to g reserved port a hg ha =
    Ends-greeting can_write ip_to_string open_to _ g _ [] _ hg
      (Ends-request can_write ip_to_string open_to g.credential reserved port a ha)

-- While writes go through, the handshake refuses a client that offers no method it knows, sends
-- another version, asks for another command, or gives another type of address: with the error for it,
-- after the answer to the greeting and the reply that names the fault, and it reads no further.
pub handshake-fault :
    (can_write : List ℕ → Bool) (ip_to_string : List ℕ → Text)
    → ((written : List ℕ) → can_write written ≡ true)
    → (f : Fault) → IsFault f
    → Ends (handshake can_write ip_to_string) (fault_bytes f) (fault_reply f) (err (fault_error f))
unfolding handshake IsFault fault_bytes fault_reply fault_error
handshake-fault can_write ip_to_string open_to (no_method methods) h =
    Ends-bind _ (Ends-read_u8 (length methods)) (
      Ends-bind _ (Ends-read_exact (length methods) methods refl)
        (Ends-fail _ (Ends-no_method can_write ip_to_string open_to methods h.0 h.1)))
handshake-fault can_write ip_to_string open_to (bad_version g v c r k) h =
    Ends-greeting can_write ip_to_string open_to _ g _ [] _ h.0 (
      Ends-bind _ (Ends-read_exact 4 (v ∷ c ∷ r ∷ k ∷ []) refl)
        (Ends-fail _ (Ends-bad_version can_write ip_to_string open_to v c r k h.1)))
handshake-fault can_write ip_to_string open_to (bad_command g c r k) h =
    Ends-greeting can_write ip_to_string open_to _ g _ _ _ h.0 (
      Ends-bind _ (Ends-read_exact 4 (5 ∷ c ∷ r ∷ k ∷ []) refl)
        (Ends-fail _ (Ends-bad_command can_write ip_to_string open_to c r k h.1)))
handshake-fault can_write ip_to_string open_to (bad_kind g r k) h =
    Ends-greeting can_write ip_to_string open_to _ g _ _ _ h.0
      (Ends-bad_kind_request can_write ip_to_string open_to g.credential r k h.1)
