-- ===== src/Tests/Tokens.antt =====
-- The token store and the OAuth flows on the test machine.
use bot_marshal.Prelude.{
  ℕ, Text, none, some, true, [], ◌∷◌, ok, err, lit, ◌≡◌, refl, arith, text_eq, is_utf8, rsplit_once,
  put_entry, drop_entry, if◌then◌else◌,
}
use bot_marshal.Core.Error.{Error, config}
use bot_marshal.Core.Json.{pos_int}
use bot_marshal.Core.Encoding.{percent_encode, unreserved}
use bot_marshal.Core.Redact.{redact, Redactor}
use bot_marshal.Core.Redact
use bot_marshal.Secrets.Oauth.Token.{WireLib, TokenResponse}
use bot_marshal.Secrets.Oauth.Jwt.{KeyLib, no_items_found}
use bot_marshal.Secrets.Oauth.World.{Os, StoredGrant, TokenStore, World, failed, pure}
use bot_marshal.Secrets.Oauth.Store.{
  to_json, put_grant, stored_grant, path_in, path_for, save_grant, create_private_dir,
  write_private, remember_grant, tmp_path, with_extension, put_access, with_id_token, is_live,
  now_unix,
}
use bot_marshal.Secrets.Oauth.Disk.{IsDisk}
use bot_marshal.Secrets.Oauth.Persist.{put_grant-failed}
use bot_marshal.Secrets.Oauth.Restart.{stored_grant-put_grant}
use bot_marshal.Secrets.Oauth.Client.{
  Oauth2Config, Oauth2Source, Grant, client_credentials, enrolled, no_auth, params_of,
  refresh_params, scope_params,
}
use bot_marshal.Secrets.Oauth.Mint.{resolve_access, persist_rotation, save_rotation, cache_token}
use bot_marshal.Secrets.Oauth.Resolves.{ticked, resolve_access-cache_token}
use bot_marshal.Secrets.Oauth.Rotation.{params_of-rotated}
use bot_marshal.Tests.Machine.{Machine, machine_os, machine_os-IsDisk}

abbrev pub g0 : StoredGrant
g0 = record { refresh_token = lit "rt-1"; obtained_at = pos_int 1000; scope = some (lit "read") }

abbrev pub printed : Text
printed = lit "{grant}"

abbrev pub wire : WireLib
wire = record {
  from_slice = λ s. if text_eq s printed then ok (to_json g0) else err (lit "expected value");
  to_vec = λ v. printed;
  to_vec_pretty = λ v. printed;
  status_string = λ n. lit "200 OK";
  is_success = λ n. text_eq (n ∷ []) (200 ∷ []);
  debug_char = λ c. c ∷ [];
  debug_duration = λ d. lit "10s";
}

abbrev pub no_keys : KeyLib
no_keys = record {
  Rsa = ℕ;
  Ecdsa = ℕ;
  from_pem = λ t. err no_items_found;
  rsa_from_pkcs8 = λ d. err (lit "invalid");
  rsa_from_der = λ d. err (lit "invalid");
  rsa_sign = λ k m. none;
  ecdsa_from_pkcs8 = λ d. none;
  ecdsa_sign = λ k m. none;
  sha256 = λ m. m;
}

abbrev pub empty_store : TokenStore
empty_store = record { dir = some (lit "/s/oauth"); access = []; grants = [] }

abbrev pub world_of : TokenStore → World Machine
world_of store = record {
  store = store;
  redactor = Redact.new [];
  outside = record { clock = 5; files = [] };
}

abbrev pub world : World Machine
world = world_of empty_store

abbrev saved : World Machine
saved = (put_grant machine_os wire (lit "svc") g0 world).1

stored_grant-put_grant_example :
    (stored_grant machine_os wire (lit "svc") (record saved { store = empty_store })).0
    ≡ ok (some g0)
unfolding put_grant save_grant path_for path_in create_private_dir write_private remember_grant
    to_json tmp_path with_extension rsplit_once percent_encode unreserved put_entry drop_entry lit
    is_utf8 text_eq
stored_grant-put_grant_example =
    stored_grant-put_grant machine_os machine_os-IsDisk wire (lit "/s/oauth") (lit "svc") g0 world
      saved (record saved { store = empty_store }) refl (λ e. cc) (omega arith) refl refl refl refl
      refl

-- The same machine with a disk that cannot be synced.
abbrev full_os : Os Machine
full_os = record machine_os { sync_all = λ p m. (err (lit "no space left"), m) }

full_os-IsDisk : IsDisk full_os
full_os-IsDisk = record {
  open_empties = machine_os-IsDisk.open_empties;
  write_adds = machine_os-IsDisk.write_adds;
  rename_moves = machine_os-IsDisk.rename_moves;
  rename_fails = machine_os-IsDisk.rename_fails;
  create_keeps = machine_os-IsDisk.create_keeps;
  open_keeps = machine_os-IsDisk.open_keeps;
  write_keeps = machine_os-IsDisk.write_keeps;
  sync_keeps = λ p q s. refl;
}

abbrev lost : World Machine
lost = (put_grant full_os wire (lit "svc") g0 saved).1

abbrev lost_with : Error
lost_with = config (lit "/s/oauth/svc.json.tmp: no space left")

put_grant-failed_example :
    (lost.store ≡ saved.store)
    × (full_os.read_to_string (path_in (lit "/s/oauth") (lit "svc")) lost.outside
        ≡ full_os.read_to_string (path_in (lit "/s/oauth") (lit "svc")) saved.outside)
unfolding put_grant save_grant path_for path_in create_private_dir write_private remember_grant
    to_json tmp_path with_extension rsplit_once percent_encode unreserved put_entry drop_entry lit
    is_utf8 text_eq
put_grant-failed_example =
    put_grant-failed full_os full_os-IsDisk wire (lit "/s/oauth") (lit "svc") (lit "svc") g0 saved
      lost (failed lost_with) refl

abbrev pub config_of : Grant Machine → Oauth2Config Machine
config_of g = record {
  token_endpoint = lit "https://id.example/token";
  client_id = lit "me";
  client_auth = no_auth;
  grant = g;
  scope = [];
  audience = none;
  extra_params = [];
  expiry_skew = 60;
  timeout = 10;
  authorization_endpoint = some (lit "https://id.example/authorize");
  redirect_uri = some (lit "http://localhost:7777/cb");
  device_authorization_endpoint = none;
  token_exchange = none;
}

abbrev pub source_of : Grant Machine → Oauth2Source Machine
source_of g = record {
  name = lit "svc";
  cfg = config_of g;
  endpoint = record { https = true; host = lit "id.example"; port = 443 };
  path = lit "/token";
}

abbrev pub machine_source : Oauth2Source Machine
machine_source = source_of client_credentials

abbrev response : TokenResponse
response = record {
  access_token = lit "at-1";
  expires_in = some 3600000000000;
  refresh_token = none;
  scope = none;
  id_token = none;
}

abbrev cached_world : World Machine
cached_world = (cache_token machine_os wire no_keys machine_source response world).1

resolve_access-cache_example :
    resolve_access machine_os wire no_keys machine_source (pure tt) cached_world
    ≡ (ok (lit "at-1"), ticked machine_os cached_world)
unfolding cache_token with_id_token put_access is_live put_entry drop_entry
resolve_access-cache_example =
    resolve_access-cache_token machine_os wire no_keys machine_source (pure tt) response
      3600000000000 world cached_world refl refl (omega arith) (omega arith)

abbrev rotated : TokenResponse
rotated = record response { refresh_token = some (lit "rt-2") }

abbrev rotated_world : World Machine
rotated_world = (persist_rotation machine_os wire no_keys (source_of enrolled) rotated saved).1

params_of-rotated_example :
    (params_of machine_os wire no_keys (source_of enrolled) enrolled rotated_world).0
    ≡ ok ((lit "grant_type", lit "refresh_token") ∷ (lit "refresh_token", lit "rt-2") ∷ [])
unfolding persist_rotation save_rotation now_unix put_grant save_grant path_for path_in
    create_private_dir write_private remember_grant to_json tmp_path with_extension rsplit_once
    percent_encode unreserved put_entry drop_entry lit is_utf8 text_eq refresh_params scope_params
params_of-rotated_example =
    params_of-rotated machine_os wire no_keys (source_of enrolled) rotated (lit "rt-2") saved
      rotated_world refl refl refl
