-- ===== src/Secrets/Sources.antt =====
-- crates/marshal-secrets/src/source.rs and crates/marshal-core/src/env.rs: secrets out of the environment
-- and out of files. The process environment, the clock and the files are parameters.
pub mod Ttl
use bot_marshal.Prelude.{
  ℕ, ◌+◌, ◌-◌, Text, Option, none, some, Bool, true, false, List, [], ◌∷◌, ◌++◌, Result, ok, err,
  find_entry, is_some, lit, format, ltb, trim, if◌then◌else◌,
}
use bot_marshal.Core.Error.{Error, config, io}
use bot_marshal.Core.Json.{Json}
use bot_marshal.Secrets.Oauth.Token.{str_field}

-- `std::env::var`.
pub data EnvVar : Type 0 where
  set : Text → EnvVar
  not_unicode not_present : EnvVar

-- The overlay is installed once; a second one is refused.
unfoldable pub install_overlay :
    Option (List (Text × Text)) → List (Text × Text) → Bool × Option (List (Text × Text))
install_overlay none vars = (true, some vars)
install_overlay (some overlay) vars = (false, some overlay)

abbrev in_overlay : Text → Option (List (Text × Text)) → Option Text
unfolding find_entry
in_overlay name none = none
in_overlay name (some overlay) = find_entry name overlay

unfoldable pub or_overlay : Text → Option (List (Text × Text)) → EnvVar → Option Text
unfolding find_entry
or_overlay name overlay (set v) = some v
or_overlay name overlay not_unicode = none
or_overlay name overlay not_present = in_overlay name overlay

module _ (process : Text → EnvVar) (overlay : Option (List (Text × Text))) where
  unfoldable pub var : Text → Option Text
  unfolding or_overlay
  var name = or_overlay name overlay (process name)

  unfoldable pub is_set : Text → Bool
  unfolding var
  is_set name = is_some (var name)

  unfoldable pub resolve_env : Text → Result Error Text
  unfolding var
  resolve_env name = elim (var name) [
    | none ↦ err (config (format (lit "environment variable `" ∷ name ∷ lit "` is not set" ∷ [])))
    | some v ↦ ok v
  ]

-- A file source. The cached value stands with the instant that was noted for it.
pub record FileSource : Type 0 where
  pub path : Text
  pub ttl : ℕ
  pub json_key : Option Text
  pub kept : Option (ℕ × Text)

unfoldable pub new_file_source : Text → ℕ → Option Text → FileSource
new_file_source path ttl json_key = record {
  path = path;
  ttl = ttl;
  json_key = json_key;
  kept = none;
}

module _ (from_str : Text → Result Text Json) where
  unfoldable pub json_secret : Text → Text → Result Text Json → Result Error Text
  unfolding str_field
  json_secret path key (err e) = err (config (path ++ (lit ": " ++ e)))
  json_secret path key (ok doc) = elim (str_field key doc) [
    | none ↦ err (config (format (path ∷ lit " has no string field `" ∷ key ∷ lit "`" ∷ [])))
    | some v ↦ ok v
  ]

  unfoldable pub secret_of : Text → Option Text → Text → Result Error Text
  unfolding json_secret trim
  secret_of path none text = ok (trim text)
  secret_of path (some key) text = json_secret path key (from_str text)

  -- `read`, of what `read_to_string` gives.
  unfoldable pub read_secret : FileSource → Result Text Text → Result Error Text
  unfolding secret_of
  read_secret f (err e) = err (io e)
  read_secret f (ok text) = secret_of f.path f.json_key text

  abbrev pub keep_fresh : FileSource → ℕ → Result Error Text → Result Error Text × FileSource
  keep_fresh f at (ok v) = (ok v, record f { kept = some (at, v) })
  keep_fresh f at (err e) = (err e, f)

  -- What is still fresh; `elapsed` is 0 for an instant to come.
  abbrev fresh_at : ℕ → ℕ → Option (ℕ × Text) → Option Text
  fresh_at now ttl none = none
  fresh_at now ttl (some (at, v)) = if ltb (now - at) ttl then some v else none

  -- `resolve`: `now` is the clock when it starts, and `noted` when the value is put into the cache, which is
  -- after `file` was read and the lock was taken.
  unfoldable pub resolve_file :
      (now noted : ℕ) → Result Text Text → FileSource → Result Error Text × FileSource
  unfolding read_secret
  resolve_file now noted file f = elim (fresh_at now f.ttl f.kept) [
    | some v ↦ (ok v, f)
    | none ↦ keep_fresh f noted (read_secret f file)
  ]
