-- ===== src/Secrets/Oauth/Claim.antt =====
-- crates/marshal-secrets/src/oauth/claim.rs: a secret read out of the claims of another swap's ID token.
use bot_marshal.Prelude.{
  Text, Option, none, some, List, [], ◌∷◌, ◌++◌, Result, ok, err, map_err, join, lit, format,
}
use bot_marshal.Core.Error.{Error, config, to_string}
use bot_marshal.Core.Json.{Json, get, as_str}
use bot_marshal.Secrets.Oauth.Token.{WireLib}
use bot_marshal.Secrets.Oauth.Jwt.{KeyLib}
use bot_marshal.Secrets.Oauth.World.{Os, Io, ◌>>=◌, ◌>>◌, pure, throw, of_result, learn_as}
use bot_marshal.Secrets.Oauth.Client.{Oauth2Source}
use bot_marshal.Secrets.Oauth.Mint.{id_token_claim, cached_id_token_claim}

unfoldable pub no_claim : Text → List Text → Error
no_claim of walked = config (
    format
      (lit "`" ∷ of ∷ lit "`'s ID token has no claim at `" ∷ join (lit ".") walked ∷ lit "`" ∷ []))

-- The loop of `walk`; `walked` is the path so far.
unfoldable pub walk_from : Text → List Text → List Text → Json → Result Error Json
unfolding no_claim
walk_from of walked [] value = ok value
walk_from of walked (key ∷ path) value = elim (get key value) [
  | none ↦ err (no_claim of (walked ++ key ∷ []))
  | some v ↦ walk_from of (walked ++ key ∷ []) path v
]

unfoldable pub walk : Json → Text → List Text → Result Error Json
unfolding walk_from
walk claims of path = walk_from of [] path claims

pub record OauthClaimSource (S : Type 0) : Type 0 where
  pub claim_name : Text
  pub of : Oauth2Source S
  pub claim_path : List Text

unfoldable pub not_a_string : Text → List Text → Text → Error
not_a_string name path of = config (
    format (
      lit "`"
      ∷ name
      ∷ lit "`: the claim at `"
      ∷ join (lit ".") path
      ∷ lit "` in `"
      ∷ of
      ∷ lit "`'s ID token is not a string"
      ∷ []))

abbrev string_claim : Error → Option Text → Result Error Text
string_claim e none = err e
string_claim e (some s) = ok s

module _ {S : Type 0} (c : OauthClaimSource S) where
  abbrev in_walk : Error → Error
  in_walk e = config (format (lit "`" ∷ c.claim_name ∷ lit "`: " ∷ to_string e ∷ []))

  unfoldable pub extract : Json → Io S Text
  unfolding walk not_a_string
  extract claims = of_result (map_err in_walk (walk claims c.of.name c.claim_path)) >>= λ value.
      of_result (string_claim (not_a_string c.claim_name c.claim_path c.of.name) (as_str value))
      >>= λ found. learn_as c.claim_name found >> pure found

  module _ (os : Os S) (lib : WireLib) (keys : KeyLib) where
    abbrev extract_some : Option Json → Io S (Option Text)
    unfolding extract
    extract_some none = pure none
    extract_some (some claims) = extract claims >>= λ v. pure (some v)

    unfoldable pub preload_claim : Io S (Option Text)
    unfolding extract cached_id_token_claim
    preload_claim = cached_id_token_claim os lib keys c.of >>= extract_some

    unfoldable pub no_claims : Error
    no_claims = config (
        format (
          lit "`"
          ∷ c.claim_name
          ∷ lit "` reads a claim from `"
          ∷ c.of.name
          ∷ lit
              "`'s ID token, but that swap's provider issued no `id_token` alongside its access token"
          ∷ []))

    abbrev extract_claims : Option Json → Io S Text
    unfolding extract no_claims
    extract_claims none = throw no_claims
    extract_claims (some claims) = extract claims

    unfoldable pub resolve_claim : Io S (Unit {0}) → Io S Text
    unfolding extract no_claims id_token_claim
    resolve_claim wait = id_token_claim os lib keys c.of wait >>= extract_claims
