-- ===== src/Secrets/Oauth/Resolves.antt =====
-- Handing out a token: from the cache while it is live, and from the provider otherwise.
use bot_marshal.Prelude.{
  ℕ, ◌+◌, ◌-◌, ◌<◌, ◌≤◌, Text, Option, none, some, ok, ◌≡◌, refl, sym, ap, ◌∙◌, inl, inr, arith,
  true, Bool-cases, Option-cases, ltb, find_entry, find_entry_put,
}
use bot_marshal.Secrets.Oauth.Token.{WireLib, TokenResponse, CachedToken}
use bot_marshal.Secrets.Oauth.Jwt.{KeyLib}
use bot_marshal.Secrets.Oauth.World.{Os, World, Io}
use bot_marshal.Secrets.Oauth.Store.{
  cached_access, put_access, with_id_token, is_live, instant_limit,
}
use bot_marshal.Secrets.Oauth.Client.{Oauth2Source}
use bot_marshal.Secrets.Oauth.Mint.{cache_token, resolve_access}

lt→ltb : (a b : ℕ) → a < b → ltb a b ≡ true
lt→ltb a b h = ground (arith, h)

ltb→lt : (a b : ℕ) → ltb a b ≡ true → a < b
ltb→lt a b h = ground (arith, h)

module _ {S : Type 0} (os : Os S) where
  -- The entry of the swap, with the instant at which it stops being good and what the clock says.
  pub record IsLive (swap : Text) (token : CachedToken) (w : World S) : Type 0 where
    pub deadline : ℕ
    pub cached : find_entry swap w.store.access ≡ some token
    pub expires : token.expires_at ≡ some deadline
    pub in_time : (os.instant w.outside).0 < deadline

  -- The world after one look at the clock.
  abbrev pub ticked : World S → World S
  ticked w = record w { outside = (os.instant w.outside).1 }

  pub cached_access-live :
      (swap : Text) (token : CachedToken) (w : World S)
      → IsLive swap token w
      → cached_access os swap w ≡ (ok (some token), ticked w)
  unfolding cached_access is_live
  cached_access-live swap token w h =
      rw (h.cached, h.expires, lt→ltb (os.instant w.outside).0 h.deadline h.in_time) refl

  IsLive-entry :
      (token t : CachedToken) (w w' : World S)
      → (swap : Text) → find_entry swap w.store.access ≡ some t
      → (e : Option ℕ) → t.expires_at ≡ e
      → cached_access os swap w ≡ (ok (some token), w')
      → IsLive swap token w
  unfolding cached_access is_live
  IsLive-entry token t w w' swap found none e run =
      absurd (cc (rw (found, e, cached_access, is_live) at run))
  IsLive-entry token t w w' swap found (some at) e run =
      elim (Bool-cases (ltb (os.instant w.outside).0 at)) [
        | inl early ↦
            let same : t ≡ token = cc (rw (found, e, early, cached_access, is_live) at run) in
            rw (← same) (record {
              deadline = at;
              cached = found;
              expires = e;
              in_time = ltb→lt (os.instant w.outside).0 at early;
            })
        | inr late ↦ absurd (cc (rw (found, e, late, cached_access, is_live) at run))
      ]

  -- A token comes out of the cache only while it is live.
  pub cached_access-IsLive :
      (swap : Text) (token : CachedToken) (w w' : World S)
      → cached_access os swap w ≡ (ok (some token), w')
      → IsLive swap token w
  unfolding cached_access
  cached_access-IsLive swap token w w' run = elim (Option-cases (find_entry swap w.store.access)) [
    | inl absent ↦ absurd (cc (rw (absent, cached_access) at run))
    | inr (t, found) ↦ IsLive-entry token t w w' swap found t.expires_at refl run
  ]

module _ {S : Type 0} (os : Os S) (lib : WireLib) (keys : KeyLib) (o : Oauth2Source S) where
  -- A live token is handed out as it is, and nothing but the clock is asked.
  pub resolve_access-live :
      (wait : Io S (Unit {0})) (token : CachedToken) (w : World S)
      → IsLive os o.name token w
      → resolve_access os lib keys o wait w ≡ (ok token.value, ticked os w)
  unfolding resolve_access
  resolve_access-live wait token w h = rw (cached_access-live os o.name token w h) refl

  -- A token that was just kept is handed out again while its life, less the margin, is not over.
  pub resolve_access-cache_token :
      (wait : Io S (Unit {0})) (r : TokenResponse) (ttl : ℕ) (w w' : World S)
      → r.expires_in ≡ some ttl
      → cache_token os lib keys o r w ≡ (ok tt, w')
      → (os.instant (os.instant w.outside).1).0 ≤ (os.instant w'.outside).0
      → (os.instant w'.outside).0 < (os.instant w.outside).0 + (ttl - o.cfg.expiry_skew)
      → resolve_access os lib keys o wait w' ≡ (ok r.access_token, ticked os w')
  unfolding cache_token with_id_token put_access is_live
  resolve_access-cache_token wait r ttl w w' lives run monotone early =
      elim (Bool-cases (ltb ((os.instant w.outside).0 + (ttl - o.cfg.expiry_skew)) instant_limit)) [
        | inl fits ↦
            let at = (os.instant w.outside).0 + (ttl - o.cfg.expiry_skew) in
            let before =
              lt→ltb (os.instant (os.instant w.outside).1).0 at (omega (arith, monotone, early)) in
            let done =
              rw (lives, fits, before, cache_token, with_id_token, put_access, is_live) at run in
            resolve_access-live wait
              (record { value = r.access_token; expires_at = some at; id_token = r.id_token }) w'
              (record {
                deadline = at;
                cached =
                    ap (λ p. find_entry o.name p.1.store.access) (sym done)
                    ∙ find_entry_put o.name
                        (record {
                          value = r.access_token;
                          expires_at = some at;
                          id_token = r.id_token;
                        })
                        w.store.access;
                expires = refl;
                in_time = early;
              })
        | inr over ↦
            absurd (cc (rw (lives, over, cache_token, with_id_token, put_access, is_live) at run))
      ]
