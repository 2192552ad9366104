-- ===== src/Tests/Handshakes.antt =====
-- The SOCKS5 handshake, with a client that connects and one that does not.
use bot_marshal.Prelude.{
  ℕ, Text, some, Bool, true, List, [], ◌∷◌, ◌++◌, ok, err, refl, arith, lit, is_utf8,
}
use bot_marshal.Proxy.Socks5.{handshake}
use bot_marshal.Proxy.Socks5.Runs.{Ends}
use bot_marshal.Proxy.Socks5.Messages.{
  Greeting, greeting_reply, IsGreeting, domain, IsAddress, host_of, request_of, connect_bytes,
  Fault, bad_command, IsFault, fault_bytes, fault_reply, fault_error,
}
use bot_marshal.Proxy.Socks5.Handshakes.{handshake-connect, handshake-fault}

abbrev hello : Greeting
hello = record {
  methods = 0 ∷ 2 ∷ [];
  credential = some (record { user = lit "ada"; password = lit "pw" });
}

abbrev writable : List ℕ → Bool
writable written = true

abbrev shown : List ℕ → Text
shown octets = lit "1.2.3.4"

hello-IsGreeting : IsGreeting hello.methods hello.credential
unfolding IsGreeting lit is_utf8
hello-IsGreeting = (refl, (refl, refl))

handshake-connect_example :
    Ends
      (handshake writable shown)
      (connect_bytes hello 0 443 (domain (lit "a.b")))
      (greeting_reply hello.credential ++ [])
      (ok (request_of hello.credential (host_of shown (domain (lit "a.b"))) 443))
unfolding IsAddress lit is_utf8
handshake-connect_example =
    handshake-connect writable shown (λ w. refl) hello 0 443 (domain (lit "a.b")) hello-IsGreeting
      refl

abbrev bind_command : Fault
bind_command = bad_command hello 2 0 1

handshake-fault_example :
    Ends
      (handshake writable shown)
      (fault_bytes bind_command)
      (fault_reply bind_command)
      (err (fault_error bind_command))
unfolding IsFault
handshake-fault_example =
    handshake-fault writable shown (λ w. refl) bind_command
      (hello-IsGreeting, (λ e. omega (arith, e)))
