-- ===== src/Secrets/Oauth/Store.antt =====
-- crates/marshal-secrets/src/oauth/store.rs, and the cached tokens of token.rs: where minted
-- credentials live. Each operation takes its locks for itself.
use bot_marshal.Prelude.{
  ℕ, ◌+◌, ◌-◌, ◌*◌, ◌/◌, ◌%◌, ◌^◌, Text, Option, none, some, Bool, true, false, List, [], ◌∷◌, ◌++◌,
  Result, ok, err, find_entry, put_entry, drop_entry, rsplit_once, is_some, lit, format, ltb, ◌==◌,
  if◌then◌else◌,
}
use bot_marshal.Core.Error.{Error, config}
use bot_marshal.Core.Json.{
  Json, null, string, number, object, end, field, get, Number, pos_int, neg_int,
}
use bot_marshal.Core.Encoding.{percent_encode}
use bot_marshal.Secrets.Oauth.Token.{
  WireLib, CachedToken, value_as_i64, str_field, secret_field, nanos_per_sec,
}
use bot_marshal.Secrets.Oauth.World.{
  Os, FilePath, ReadError, not_found, other, StoredGrant, TokenStore, World, Fault, failed,
  panicked, Io, ◌>>=◌, ◌>>◌, pure, throw, of_result, perform, modify_store, now,
}

abbrev pub display : FilePath → Text
display p = p.dir ++ (b'/' ∷ p.file)

abbrev or_null : Option Text → Json
or_null none = null
or_null (some s) = string s

unfoldable pub to_json : StoredGrant → Json
to_json g = object (
    field (lit "obtained_at") (number g.obtained_at) (
      field (lit "refresh_token") (string g.refresh_token)
        (field (lit "scope") (or_null g.scope) end)))

abbrev i64_or_zero : Option Number → Number
i64_or_zero none = pos_int 0
i64_or_zero (some n) = n

abbrev obtained_of : Option Json → Number
obtained_of none = pos_int 0
obtained_of (some v) = i64_or_zero (value_as_i64 v)

unfoldable pub from_json : Json → FilePath → Result Error StoredGrant
unfolding secret_field str_field value_as_i64 get
from_json doc path = elim (secret_field (lit "refresh_token") doc) [
  | none ↦ err (config (display path ++ lit ": no `refresh_token` field"))
  | some token ↦ ok (record {
    refresh_token = token;
    obtained_at = obtained_of (get (lit "obtained_at") doc);
    scope = str_field (lit "scope") doc;
  })
]

-- `state_dir.join("oauth")`.
unfoldable pub new_store : Option Text → TokenStore
new_store none = record { dir = none; access = []; grants = [] }
new_store (some state_dir) = record {
  dir = some (state_dir ++ lit "/oauth");
  access = [];
  grants = [];
}

unfoldable pub persists : TokenStore → Bool
persists store = is_some store.dir

unfoldable pub path_in : Text → Text → FilePath
unfolding percent_encode
path_in dir swap = record { dir = dir; file = percent_encode swap ++ lit ".json" }

unfoldable pub path_for : TokenStore → Text → Option FilePath
unfolding path_in
path_for store swap = elim store.dir [ none ↦ none | some dir ↦ some (path_in dir swap) ]

-- `Path::file_stem`: a name that only starts with a dot is its own stem.
abbrev pub stem_of : Text → Option (Text × Text) → Text
stem_of file none = file
stem_of file (some ([], extension)) = file
stem_of file (some (c ∷ stem, extension)) = c ∷ stem

unfoldable pub with_extension : Text → FilePath → FilePath
unfolding rsplit_once
with_extension extension p = record p {
  file = stem_of p.file (rsplit_once b'.' p.file) ++ (b'.' ∷ extension);
}

-- The seconds since 1970 as an i64, or 0 for a clock that stands before.
abbrev as_i64 : ℕ → Number
as_i64 n = if ltb n (2 ^ 63) then pos_int n else neg_int (2 ^ 64 - 1 - n)

abbrev stamp_of : {S : Type 0} → Result Text ℕ × S → World S → Result Fault Number × World S
stamp_of (ok n, s) w = (ok (as_i64 n), record w { outside = s })
stamp_of (err e, s) w = (ok (pos_int 0), record w { outside = s })

-- `now + ttl` panics when the seconds leave an i64.
abbrev pub instant_limit : ℕ
instant_limit = 2 ^ 63 * nanos_per_sec

-- `{mode:o}` of nine bits.
octal_digits : ℕ → Text
octal_digits mode =
    if ltb mode 8
    then (48 + mode) ∷ []
    else if ltb mode 64
    then (48 + mode / 8) ∷ (48 + mode % 8) ∷ []
    else (48 + mode / 64) ∷ (48 + mode / 8 % 8) ∷ (48 + mode % 8) ∷ []

-- A failure on a path, with its message.
abbrev pub on_path : FilePath → Text → Error
on_path path e = config (display path ++ (lit ": " ++ e))

unfoldable pub no_state_dir : Text → Error
no_state_dir swap = config (
    format (
      lit "cannot persist the `"
      ∷ swap
      ∷ lit "` grant: no `state_dir` is configured, so marshal has nowhere to keep a refresh token "
      ∷ lit "across restarts"
      ∷ []))

unfoldable pub tmp_path : FilePath → FilePath
unfolding with_extension
tmp_path path = with_extension (lit "json.tmp") path

abbrev pub creating : Text → Text → Error
creating dir e = config (format (lit "creating " ∷ dir ∷ lit ": " ∷ e ∷ []))

-- A directory that others can read is refused.
unfoldable pub check_mode : Text → Result Text ℕ → Result Error (Unit {0})
unfolding octal_digits
check_mode dir (err e) = err (config (dir ++ (lit ": " ++ e)))
check_mode dir (ok mode) =
    if mode % 64 == 0
    then ok tt
    else err (
        config (
          format (
            dir
            ∷ lit " is mode "
            ∷ octal_digits (mode % 512)
            ∷ lit ", which lets other local users read stored credentials; it must be 0700"
            ∷ [])))

module _ {S : Type 0} where
  unfoldable pub forget_access : Text → Io S (Unit {0})
  unfolding drop_entry
  forget_access swap = modify_store (λ s. record s { access = drop_entry swap s.access })

  unfoldable pub remember_grant : Text → StoredGrant → Io S (Unit {0})
  unfolding put_entry
  remember_grant swap g = modify_store (λ s. record s { grants = put_entry swap g s.grants })

  unfoldable pub forget_grant : Text → Io S (Unit {0})
  unfolding drop_entry
  forget_grant swap = modify_store (λ s. record s { grants = drop_entry swap s.grants })

module _ {S : Type 0} (os : Os S) where
  unfoldable pub now_unix : Io S Number
  now_unix w = stamp_of (os.epoch_secs w.outside) w

  unfoldable pub with_id_token : Text → Option ℕ → ℕ → Option Text → Io S CachedToken
  with_id_token value none skew id_token =
      pure (record { value = value; expires_at = none; id_token = id_token })
  with_id_token value (some ttl) skew id_token = now os >>= λ t w.
      if ltb (t + (ttl - skew)) instant_limit
      then (
        ok (record { value = value; expires_at = some (t + (ttl - skew)); id_token = id_token }),
        w,
      )
      else (err panicked, w)

  unfoldable pub is_live : CachedToken → Io S Bool
  is_live token = elim token.expires_at [
    | none ↦ pure false
    | some at ↦ now os >>= λ t. pure (ltb t at)
  ]

  abbrev if_live : CachedToken → Bool → Io S (Option CachedToken)
  if_live token true = pure (some token)
  if_live token false = pure none

  abbrev check_entry : Option CachedToken → Io S (Option CachedToken)
  unfolding is_live
  check_entry none = pure none
  check_entry (some token) = is_live token >>= if_live token

  unfoldable pub cached_access : Text → Io S (Option CachedToken)
  unfolding is_live find_entry
  cached_access swap w = check_entry (find_entry swap w.store.access) w

  abbrev insert_live : Text → CachedToken → Bool → Io S (Unit {0})
  insert_live swap token true =
      modify_store (λ s. record s { access = put_entry swap token s.access })
  insert_live swap token false = pure tt

  unfoldable pub put_access : Text → CachedToken → Io S (Unit {0})
  unfolding is_live put_entry
  put_access swap token = is_live token >>= insert_live swap token

  unfoldable pub create_private_dir : Text → Io S (Unit {0})
  unfolding check_mode
  create_private_dir dir w =
      if os.exists dir w.outside
      then of_result (check_mode dir (os.dir_mode dir w.outside)) w
      else perform (creating dir) (os.create_dir dir) w

  unfoldable pub write_private : FilePath → List ℕ → Io S (Unit {0})
  write_private path bytes =
      perform (on_path path) (os.open_private path)
      >> perform (on_path path) (os.write_all path bytes)
      >> perform (on_path path) (os.sync_all path)

  module _ (lib : WireLib) where
    unfoldable pub parse_grant : FilePath → Text → Result Error StoredGrant
    unfolding from_json
    parse_grant path text = elim (lib.from_slice text) [
      | err e ↦ err (on_path path e)
      | ok doc ↦ from_json doc path
    ]

    unfoldable pub read_grant : Text → FilePath → Result ReadError Text → Io S (Option StoredGrant)
    unfolding remember_grant parse_grant
    read_grant swap path (err not_found) = pure none
    read_grant swap path (err (other e)) = throw (on_path path e)
    read_grant swap path (ok text) =
        of_result (parse_grant path text) >>= λ g. remember_grant swap g >> pure (some g)

    -- The grant in memory, or on disk.
    unfoldable pub stored_grant : Text → Io S (Option StoredGrant)
    unfolding find_entry path_for read_grant
    stored_grant swap w = elim (find_entry swap w.store.grants) [
      | some g ↦ (ok (some g), w)
      | none ↦ elim (path_for w.store swap) [
        | none ↦ (ok none, w)
        | some path ↦ read_grant swap path (os.read_to_string path w.outside) w
      ]
    ]

    -- The file is written beside, renamed, and only then remembered.
    unfoldable pub save_grant : Text → StoredGrant → FilePath → Io S (Unit {0})
    unfolding create_private_dir write_private remember_grant to_json tmp_path
    save_grant swap g path =
        create_private_dir path.dir
        >> write_private (tmp_path path) (lib.to_vec_pretty (to_json g))
        >> perform (on_path path) (os.rename (tmp_path path) path)
        >> remember_grant swap g

    unfoldable pub put_grant : Text → StoredGrant → Io S (Unit {0})
    unfolding save_grant path_for no_state_dir
    put_grant swap g w = elim (path_for w.store swap) [
      | none ↦ (err (failed (no_state_dir swap)), w)
      | some path ↦ save_grant swap g path w
    ]

  abbrev removed :
      FilePath → Result ReadError (Unit {0}) × S → World S → Result Fault Bool × World S
  removed path (ok u, s) w = (ok true, record w { outside = s })
  removed path (err not_found, s) w = (ok false, record w { outside = s })
  removed path (err (other e), s) w = (err (failed (on_path path e)), record w { outside = s })

  abbrev remove_file_of : Option FilePath → Io S Bool
  remove_file_of none w = (ok false, w)
  remove_file_of (some path) w = removed path (os.remove_file path w.outside) w

  unfoldable pub remove_grant : Text → Io S Bool
  unfolding forget_access forget_grant path_for
  remove_grant swap =
      forget_access swap >> forget_grant swap >> λ w. remove_file_of (path_for w.store swap) w
