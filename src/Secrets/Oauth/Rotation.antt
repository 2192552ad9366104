-- ===== src/Secrets/Oauth/Rotation.antt =====
-- A refresh token that the provider rotates: it is kept before anything else, and presented next.
use bot_marshal.Prelude.{
  Text, Option, some, true, ◌++◌, ok, err, ◌≡◌, refl, sym, ap, ◌∙◌, inl, inr, Option-cases, lit,
  find_entry, find_entry_put,
}
use bot_marshal.Core.Json.{Number}
use bot_marshal.Secrets.Oauth.Token.{WireLib, TokenResponse}
use bot_marshal.Secrets.Oauth.Jwt.{KeyLib}
use bot_marshal.Secrets.Oauth.World.{Os, StoredGrant, World, Fault, ◌>>◌, perform}
use bot_marshal.Secrets.Oauth.Store.{
  path_for, stored_grant, put_grant, save_grant, remember_grant, now_unix, create_private_dir,
  write_private, tmp_path, on_path, to_json,
}
use bot_marshal.Secrets.Oauth.Runs.{bind-eq-ok}
use bot_marshal.Secrets.Oauth.Client.{
  Params, push_some, scope_params, refresh_params, Oauth2Source, enrolled, params_of,
  refresh_token_for, enrolled_token,
}
use bot_marshal.Secrets.Oauth.Mint.{persist_rotation, save_rotation, mint, post_token}

module _ {S : Type 0} (os : Os S) (lib : WireLib) where
  -- After it was saved, a grant is the one in memory.
  pub put_grant-remembered :
      (swap : Text) (g : StoredGrant) (w w' : World S)
      → put_grant os lib swap g w ≡ (ok tt, w')
      → find_entry swap w'.store.grants ≡ some g
  unfolding put_grant save_grant remember_grant
  put_grant-remembered swap g w w' run = elim (Option-cases (path_for w.store swap)) [
    | inl nowhere ↦ absurd (cc (rw (nowhere, put_grant) at run))
    | inr (path, somewhere) ↦
        let creates = create_private_dir os path.dir in
        let writes = write_private os (tmp_path path) (lib.to_vec_pretty (to_json g)) in
        let renames = perform (on_path path) (os.rename (tmp_path path) path) in
        let (u, w1, before, last) =
          bind-eq-ok (creates >> writes >> renames) (λ _. remember_grant swap g) w w' tt
            (rw (somewhere, put_grant) at run) in
        ap (λ p. find_entry swap p.1.store.grants) (sym last)
        ∙ find_entry_put swap g w1.store.grants
  ]

  stored_grant-remembered :
      (swap : Text) (g : StoredGrant) (w : World S)
      → find_entry swap w.store.grants ≡ some g
      → stored_grant os lib swap w ≡ (ok (some g), w)
  unfolding stored_grant
  stored_grant-remembered swap g w found = rw (found, stored_grant) refl

module _ {S : Type 0} (os : Os S) (lib : WireLib) (keys : KeyLib) (o : Oauth2Source S) where
  save_rotation-kept :
      (token : Text) (scope : Option Text) (w w' : World S)
      → save_rotation os lib keys o enrolled token scope w ≡ (ok tt, w')
      → (at : Number) × (find_entry o.name w'.store.grants
          ≡ some (record { refresh_token = token; obtained_at = at; scope = scope }))
  unfolding save_rotation
  save_rotation-kept token scope w w' run =
      let (at, w1, stamped, put) =
        bind-eq-ok (now_unix os)
          (λ at.
            put_grant os lib o.name
              (record { refresh_token = token; obtained_at = at; scope = scope }))
          w w' tt run in
      (
        at,
        put_grant-remembered os lib o.name
            (record { refresh_token = token; obtained_at = at; scope = scope }) w1 w' put,
      )

  -- The parameters of the next request of an enrolled credential.
  params_of-enrolled :
      (g : StoredGrant) (w : World S)
      → o.cfg.grant ≡ enrolled
      → find_entry o.name w.store.grants ≡ some g
      → (params_of os lib keys o o.cfg.grant w).0
        ≡ ok (
            refresh_params (some (g.refresh_token, true, g.scope))
            ++ (scope_params o.cfg.scope g.scope ++ push_some (lit "audience") o.cfg.audience))
  unfolding params_of refresh_token_for enrolled_token
  params_of-enrolled g w kept found =
      rw (kept, stored_grant-remembered os lib o.name g w found) refl

  -- Once a rotation is saved, the next request presents the new refresh token, and asks for the scope of
  -- the configuration or else the one that the response named: none, if the response named none.
  pub params_of-rotated :
      (r : TokenResponse) (token : Text) (w w' : World S)
      → o.cfg.grant ≡ enrolled
      → r.refresh_token ≡ some token
      → persist_rotation os lib keys o r w ≡ (ok tt, w')
      → (params_of os lib keys o o.cfg.grant w').0
        ≡ ok (
            refresh_params (some (token, true, r.scope))
            ++ (scope_params o.cfg.scope r.scope ++ push_some (lit "audience") o.cfg.audience))
  unfolding persist_rotation
  params_of-rotated r token w w' kept rotated run =
      let (at, found) =
        save_rotation-kept token r.scope w w' (rw (rotated, kept, persist_rotation) at run) in
      params_of-enrolled (record { refresh_token = token; obtained_at = at; scope = r.scope }) w'
        kept found

  -- If a rotated refresh token cannot be saved, no token is handed out, and nothing is cached.
  pub mint-unsaved :
      (r : TokenResponse) (params : Params) (e : Fault) (w w1 w2 w' : World S)
      → params_of os lib keys o o.cfg.grant w ≡ (ok params, w1)
      → post_token os lib keys o (lit "requesting") params w1 ≡ (ok r, w2)
      → persist_rotation os lib keys o r w2 ≡ (err e, w')
      → mint os lib keys o w ≡ (err e, w')
  unfolding mint
  mint-unsaved r params e w w1 w2 w' asked answered unsaved = rw (asked, answered, unsaved) refl
