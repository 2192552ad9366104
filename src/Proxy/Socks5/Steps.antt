-- ===== src/Proxy/Socks5/Steps.antt =====
-- The steps of the handshake on such messages, while writes go through.
use bot_marshal.Prelude.{
  ℕ, Text, Option, none, some, Bool, true, false, List, [], ◌∷◌, ◌++◌, Result, ok, err, ◌≡◌, ◌≢◌,
  refl, arith, length, subst, append-nil, is_utf8, ◌==◌,
}
use bot_marshal.Proxy.Identity.{Credential}
use bot_marshal.Proxy.Socks5.{
  Socks5Error, no_acceptable_auth, malformed, unsupported_command, unsupported_address_type, Reply,
  command_not_supported, address_type_not_supported, Io, ◌>>=◌, pure, read_exact, read_u8, read_u16,
  write_all, reply, read_names, read_userpass, choose_method, check_head, read_host,
  contains_method,
}
use bot_marshal.Proxy.Socks5.Runs.{
  Ends, Ends-pure, Ends-throw, Ends-bind, Ends-map, Ends-fail, Ends-read_exact, Ends-read_u8,
  Ends-read_u16, Ends-counted, Ends-from_utf8, Ends-write_all, two_bytes,
}
use bot_marshal.Proxy.Socks5.Messages.{
  Greeting, counted_bytes, credential_bytes, greeting_bytes, greeting_reply, IsGreeting, Address,
  ipv4, ipv6, domain, kind_of, address_bytes, IsAddress, host_of, request_of, reply_bytes,
}

module _ (can_write : List ℕ → Bool) (ip_to_string : List ℕ → Text)
    (open_to : (written : List ℕ) → can_write written ≡ true) where
  pub Ends-write : (ws : List ℕ) → Ends (write_all can_write ip_to_string ws) [] ws (ok tt)
  Ends-write ws = Ends-write_all can_write ip_to_string open_to ws

  pub Ends-read_names :
      (c : Credential)
      → is_utf8 c.user ≡ true
      → is_utf8 c.password ≡ true
      → Ends
          (read_names can_write ip_to_string)
          (counted_bytes c.user ++ (counted_bytes c.password ++ []))
          (1 ∷ 0 ∷ [])
          (ok c)
  unfolding read_names
  Ends-read_names c hu hp = Ends-bind _ (Ends-counted c.user) (
      Ends-bind _ (Ends-counted c.password) (
        Ends-bind _ (Ends-write (1 ∷ 0 ∷ [])) (
          Ends-bind _ (Ends-from_utf8 c.user hu) (
            Ends-map (λ p. record { user = c.user; password = p })
              (Ends-from_utf8 c.password hp)))))

  pub Ends-read_userpass :
      (c : Credential)
      → is_utf8 c.user ≡ true
      → is_utf8 c.password ≡ true
      → Ends (read_userpass can_write ip_to_string) (credential_bytes (some c)) (1 ∷ 0 ∷ []) (ok c)
  unfolding read_userpass
  Ends-read_userpass c hu hp =
      let names =
        subst
          (λ l.
            Ends (read_names can_write ip_to_string) (counted_bytes c.user ++ l) (1 ∷ 0 ∷ [])
              (ok c))
          (append-nil (counted_bytes c.password)) (Ends-read_names c hu hp) in
      Ends-bind _ (Ends-read_u8 1) names

  pub Ends-choose_method :
      (methods : List ℕ) (credential : Option Credential)
      → IsGreeting methods credential
      → Ends
          (choose_method can_write ip_to_string methods)
          (credential_bytes credential)
          (greeting_reply credential)
          (ok credential)
  unfolding choose_method IsGreeting
  Ends-choose_method methods none h =
      rw (h.0, h.1) (Ends-bind _ (Ends-write (5 ∷ 0 ∷ [])) (Ends-pure none))
  Ends-choose_method methods (some c) h =
      rw h.0
        (Ends-bind _ (Ends-write (5 ∷ 2 ∷ [])) (Ends-map some (Ends-read_userpass c h.1.0 h.1.1)))

  -- The greeting is read, and what follows goes on with the credential.
  pub Ends-greeting :
      {B : Type 0} (next : Option Credential → Io B) (g : Greeting) (ys vs : List ℕ)
      (result : Result Socks5Error B)
      → IsGreeting g.methods g.credential
      → Ends (next g.credential) ys vs result
      → Ends
          (read_u8 >>= λ n.
            read_exact n >>= λ methods. choose_method can_write ip_to_string methods >>= next)
          (greeting_bytes g ys)
          (greeting_reply g.credential ++ vs)
          result
  Ends-greeting next g ys vs result h follows = Ends-bind _ (Ends-read_u8 (length g.methods)) (
      Ends-bind _ (Ends-read_exact (length g.methods) g.methods refl)
        (Ends-bind next (Ends-choose_method g.methods g.credential h) follows))

  pub Ends-read_host :
      (a : Address)
      → IsAddress a
      → Ends
          (read_host can_write ip_to_string (kind_of a))
          (address_bytes a)
          []
          (ok (host_of ip_to_string a))
  unfolding read_host IsAddress host_of
  Ends-read_host (ipv4 o) h = Ends-map ip_to_string (Ends-read_exact 4 o h)
  Ends-read_host (ipv6 o) h = Ends-map ip_to_string (Ends-read_exact 16 o h)
  Ends-read_host (domain name) h =
      subst (λ l. Ends (read_host can_write ip_to_string 3) l [] (ok name))
        (append-nil (counted_bytes name)) (Ends-bind _ (Ends-counted name) (Ends-from_utf8 name h))

  pub Ends-head :
      (reserved kind : ℕ)
      → Ends (check_head can_write ip_to_string (5 ∷ 1 ∷ reserved ∷ kind ∷ [])) [] [] (ok kind)
  unfolding check_head
  Ends-head reserved kind = Ends-pure kind

  pub Ends-request :
      (credential : Option Credential) (reserved port : ℕ) (a : Address)
      → IsAddress a
      → Ends
          (read_exact 4 >>= λ head. check_head can_write ip_to_string head >>= λ kind.
            read_host can_write ip_to_string kind >>= λ host.
            read_u16 >>= λ p. pure (request_of credential host p))
          ((5 ∷ 1 ∷ reserved ∷ kind_of a ∷ []) ++ (address_bytes a ++ two_bytes port))
          []
          (ok (request_of credential (host_of ip_to_string a) port))
  Ends-request credential reserved port a h =
      Ends-bind _ (Ends-read_exact 4 (5 ∷ 1 ∷ reserved ∷ kind_of a ∷ []) refl) (
        Ends-bind _ (Ends-head reserved (kind_of a)) (
          Ends-bind _ (Ends-read_host a h)
            (Ends-map (request_of credential (host_of ip_to_string a)) (Ends-read_u16 port))))

  pub Ends-reply :
      (code : Reply) → Ends (reply can_write ip_to_string code) [] (reply_bytes code) (ok tt)
  unfolding reply
  Ends-reply code = Ends-write (reply_bytes code)

  pub Ends-no_method :
      (methods : List ℕ)
      → contains_method 2 methods ≡ false
      → contains_method 0 methods ≡ false
      → Ends
          (choose_method can_write ip_to_string methods)
          []
          (5 ∷ 0xFF ∷ [])
          (err no_acceptable_auth)
  unfolding choose_method
  Ends-no_method methods h2 h0 =
      rw (h2, h0) (Ends-bind _ (Ends-write (5 ∷ 0xFF ∷ [])) (Ends-throw no_acceptable_auth))

  pub Ends-bad_version :
      (version command reserved kind : ℕ)
      → version ≢ 5
      → Ends
          (check_head can_write ip_to_string (version ∷ command ∷ reserved ∷ kind ∷ []))
          []
          []
          (err malformed)
  unfolding check_head
  Ends-bad_version version command reserved kind h =
      let e : (version == 5) ≡ false = ground arith in rw e (Ends-throw malformed)

  pub Ends-bad_command :
      (command reserved kind : ℕ)
      → command ≢ 1
      → Ends
          (check_head can_write ip_to_string (5 ∷ command ∷ reserved ∷ kind ∷ []))
          []
          (reply_bytes command_not_supported)
          (err (unsupported_command command))
  unfolding check_head
  Ends-bad_command command reserved kind h =
      let e : (command == 1) ≡ false = ground arith in
      rw e
        (Ends-bind _ (Ends-reply command_not_supported) (Ends-throw (unsupported_command command)))

  pub Ends-bad_kind :
      (kind : ℕ)
      → (kind ≢ 1) × ((kind ≢ 3) × (kind ≢ 4))
      → Ends
          (read_host can_write ip_to_string kind)
          []
          (reply_bytes address_type_not_supported)
          (err (unsupported_address_type kind))
  unfolding read_host
  Ends-bad_kind kind h =
      let e1 : (kind == 1) ≡ false = let k = h.0 in ground arith in
      let e3 : (kind == 3) ≡ false = let k = h.1.0 in ground arith in
      let e4 : (kind == 4) ≡ false = let k = h.1.1 in ground arith in
      rw (e1, e3, e4)
        (Ends-bind _ (Ends-reply address_type_not_supported)
          (Ends-throw (unsupported_address_type kind)))

  pub Ends-bad_kind_request :
      (credential : Option Credential) (reserved kind : ℕ)
      → (kind ≢ 1) × ((kind ≢ 3) × (kind ≢ 4))
      → Ends
          (read_exact 4 >>= λ head. check_head can_write ip_to_string head >>= λ k.
            read_host can_write ip_to_string k >>= λ host.
            read_u16 >>= λ p. pure (request_of credential host p))
          ((5 ∷ 1 ∷ reserved ∷ kind ∷ []) ++ [])
          (reply_bytes address_type_not_supported)
          (err (unsupported_address_type kind))
  Ends-bad_kind_request credential reserved kind h =
      Ends-bind _ (Ends-read_exact 4 (5 ∷ 1 ∷ reserved ∷ kind ∷ []) refl) (
        Ends-bind
          (λ k. read_host can_write ip_to_string k >>= λ host.
            read_u16 >>= λ p. pure (request_of credential host p))
          (Ends-head reserved kind)
          (Ends-fail (λ host. read_u16 >>= λ p. pure (request_of credential host p))
            (Ends-bad_kind kind h)))
