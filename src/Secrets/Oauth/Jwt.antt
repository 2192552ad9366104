-- ===== src/Secrets/Oauth/Jwt.antt =====
-- crates/marshal-secrets/src/oauth/jwt.rs: signed assertions. The PEM reader and the keys of ring are
-- parameters; a signature is the one that ring makes at the moment.
use bot_marshal.Prelude.{
  ℕ, ◌+◌, ◌%◌, ◌^◌, Text, Option, none, some, List, [], ◌∷◌, ◌++◌, Result, ok, err, ◌>>=◌, map_err,
  lit, format, text_eq, text_lt, dash, if◌then◌else◌,
}
use bot_marshal.Core.Error.{Error, config}
use bot_marshal.Core.Json.{Json, string, number, object, Fields, end, field, pos_int}
use bot_marshal.Core.Encoding.{base64url_encode}
use bot_marshal.Secrets.Oauth.Token.{WireLib}

pub data Algorithm : Type 0 where
  rs256 es256 : Algorithm

unfoldable pub algorithm_name : Algorithm → Text
algorithm_name rs256 = lit "RS256"
algorithm_name es256 = lit "ES256"

unfoldable pub parse_algorithm : Text → Result Error Algorithm
parse_algorithm s =
    if text_eq s (lit "RS256")
    then ok rs256
    else if text_eq s (lit "ES256")
    then ok es256
    else err (
        config (
          format (
            lit "unsupported JWT algorithm `"
            ∷ s
            ∷ lit "` "
            ∷ dash
            ∷ lit " expected RS256 or ES256"
            ∷ [])))

pub record Claims : Type 0 where
  pub issuer : Text
  pub subject : Text
  pub audience : Text
  pub scope : Option Text
  pub jti : Option Text
  pub lifetime_secs : ℕ
  pub extra : List (Text × Json)

pub data KeyKind : Type 0 where
  pkcs8 pkcs1 sec1 : KeyKind

pub data PemError : Type 0 where
  no_items_found : PemError
  other : Text → PemError

-- What a PEM text holds: a key in a form that is known, or in another.
pub data PrivateKeyDer : Type 0 where
  known : KeyKind → List ℕ → PrivateKeyDer
  unrecognised : PrivateKeyDer

pub record KeyLib : Type 1 where
  pub Rsa : Type 0
  pub Ecdsa : Type 0
  pub from_pem : Text → Result PemError PrivateKeyDer
  pub rsa_from_pkcs8 : List ℕ → Result Text Rsa
  pub rsa_from_der : List ℕ → Result Text Rsa
  pub rsa_sign : Rsa → List ℕ → Option (List ℕ)
  pub ecdsa_from_pkcs8 : List ℕ → Option Ecdsa
  pub ecdsa_sign : Ecdsa → List ℕ → Option (List ℕ)
  -- `Sha256::digest`.
  pub sha256 : List ℕ → List ℕ

-- `map[key] = value` in a map that is sorted by its keys.
unfoldable pub set_key : Text → Json → Fields → Fields
set_key k v end = field k v end
set_key k v (field j u fs) =
    let later = field j u (set_key k v fs) in
    if text_eq k j then field k v fs else if text_lt k j then field k v (field j u fs) else later

unfoldable pub set_text : Text → Option Text → Fields → Fields
unfolding set_key
set_text k none fs = fs
set_text k (some s) fs = set_key k (string s) fs

unfoldable pub set_all : List (Text × Json) → Fields → Fields
unfolding set_key
set_all [] fs = fs
set_all ((k, v) ∷ more) fs = set_all more (set_key k v fs)

unfoldable pub jwt_header : Algorithm → Option Text → Json
unfolding algorithm_name set_text
jwt_header algorithm key_id = object (
    set_text (lit "kid") key_id (
      field (lit "alg") (string (algorithm_name algorithm))
        (field (lit "typ") (string (lit "JWT")) end)))

unfoldable pub jwt_payload : ℕ → Claims → Json
unfolding set_text set_all
jwt_payload now claims = object (
    set_all claims.extra (
      set_text (lit "jti") claims.jti (
        set_text (lit "scope") claims.scope (
          field (lit "aud") (string claims.audience) (
            field (lit "exp") (number (pos_int ((now + claims.lifetime_secs) % 2 ^ 64))) (
              field (lit "iat") (number (pos_int now)) (
                field (lit "iss") (string claims.issuer)
                  (field (lit "sub") (string claims.subject) end))))))))

module _ (keys : KeyLib) where
  abbrev pem_error : PemError → Error
  pem_error no_items_found = config (
      format (
        lit "no PRIVATE KEY block in the configured `private_key` source "
        ∷ dash
        ∷ lit " it must be a PEM file, not a base64 blob or a JSON document"
        ∷ []))
  pem_error (other e) = config (lit "reading the private key: " ++ e)

  abbrev known_key : PrivateKeyDer → Result Error (KeyKind × List ℕ)
  known_key (known kind bytes) = ok (kind, bytes)
  known_key unrecognised = err (config (lit "unrecognised private key format"))

  unfoldable pub private_key_der : Text → Result Error (KeyKind × List ℕ)
  private_key_der pem = map_err pem_error (keys.from_pem pem) >>= known_key

  abbrev not_rsa : Text → Error
  not_rsa e = config (
      format (
        lit "the private key is not a usable RSA key ("
        ∷ e
        ∷ lit ") "
        ∷ dash
        ∷ lit " if it is an EC key, set `algorithm: ES256`"
        ∷ []))

  unfoldable pub rsa_key : KeyKind → List ℕ → Result Error keys.Rsa
  rsa_key pkcs8 der = map_err not_rsa (keys.rsa_from_pkcs8 der)
  rsa_key pkcs1 der = map_err not_rsa (keys.rsa_from_der der)
  rsa_key sec1 der = err (
      config (
        format (
          lit "the private key is an EC key, but `algorithm: RS256` was configured "
          ∷ dash
          ∷ lit " use `algorithm: ES256`"
          ∷ [])))

  abbrev signed : Text → Option (List ℕ) → Result Error (List ℕ)
  signed message none = err (config message)
  signed message (some signature) = ok signature

  abbrev ecdsa_key : Option keys.Ecdsa → Result Error keys.Ecdsa
  ecdsa_key none =
      err (
        config (lit "the private key is not a PKCS#8 P-256 key, which `algorithm: ES256` requires"))
  ecdsa_key (some key) = ok key

  unfoldable pub sign_der : Algorithm → List ℕ → KeyKind × List ℕ → Result Error (List ℕ)
  unfolding rsa_key
  sign_der rs256 message (kind, der) = rsa_key kind der >>= λ key.
      signed
        (format (
          lit "signing the JWT assertion failed "
          ∷ dash
          ∷ lit " the RSA key may be too small (2048 bits is the minimum)"
          ∷ []))
        (keys.rsa_sign key message)
  sign_der es256 message (kind, der) = ecdsa_key (keys.ecdsa_from_pkcs8 der) >>= λ key.
      signed (lit "signing the JWT assertion failed") (keys.ecdsa_sign key message)

  unfoldable pub raw_sign : Text → Algorithm → List ℕ → Result Error (List ℕ)
  unfolding private_key_der sign_der
  raw_sign pem algorithm message = private_key_der pem >>= sign_der algorithm message

  unfoldable pub signing_input : WireLib → Json → Json → Text
  signing_input lib header payload =
      base64url_encode (lib.to_vec header) ++ (b'.' ∷ base64url_encode (lib.to_vec payload))

  -- `sign`, at a time in seconds since the epoch.
  unfoldable pub sign_at : WireLib → ℕ → Text → Algorithm → Option Text → Claims → Result Error Text
  unfolding raw_sign jwt_header jwt_payload signing_input
  sign_at lib now pem algorithm key_id claims =
      let input = signing_input lib (jwt_header algorithm key_id) (jwt_payload now claims) in
      raw_sign pem algorithm input >>= λ signature.
      ok (input ++ (b'.' ∷ base64url_encode signature))
