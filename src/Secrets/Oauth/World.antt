-- ===== src/Secrets/Oauth/World.antt =====
-- What the OAuth code acts on: the token store, the redactor, and what is outside the process, which is
-- a parameter `S` that the operating system and the network change. An operation is an action that
-- keeps the state it reached beside its error.
use bot_marshal.Prelude.{ℕ, Text, Option, Bool, List, Result, ok, err, ◌≡◌, refl}
use bot_marshal.Core.Error.{Error}
use bot_marshal.Core.Json.{Json, Number}
use bot_marshal.Core.Redact.{Redactor, learn}
use bot_marshal.Http.Endpoint.{Endpoint}
use bot_marshal.Secrets.Oauth.Token.{CachedToken}

-- A file in a directory.
pub record FilePath : Type 0 where
  pub dir : Text
  pub file : Text

pub data ReadError : Type 0 where
  not_found : ReadError
  other : Text → ReadError

pub record PostRequest : Type 0 where
  pub endpoint : Endpoint
  pub path : Text
  pub headers : List (Text × Text)
  pub form : Text

-- The functions of the standard library and of other crates that act outside the process. Those that
-- may fail answer with the message of their error.
pub record Os (S : Type 0) : Type 0 where
  -- `Instant::now`, and the seconds of `SystemTime::now` since the epoch.
  pub instant : S → ℕ × S
  pub epoch_secs : S → Result Text ℕ × S
  -- `getrandom::fill` for so many bytes.
  pub fill : ℕ → S → Result Text (List ℕ) × S
  -- std::fs. A directory that is made is 0700, a file that is opened for writing 0600 and emptied.
  pub exists : Text → S → Bool
  pub create_dir : Text → S → Result Text (Unit {0}) × S
  pub dir_mode : Text → S → Result Text ℕ
  pub open_private : FilePath → S → Result Text (Unit {0}) × S
  pub write_all : FilePath → List ℕ → S → Result Text (Unit {0}) × S
  pub sync_all : FilePath → S → Result Text (Unit {0}) × S
  pub rename : FilePath → FilePath → S → Result Text (Unit {0}) × S
  pub read_to_string : FilePath → S → Result ReadError Text
  pub remove_file : FilePath → S → Result ReadError (Unit {0}) × S
  -- `marshal_http::post_form` under `tokio::time::timeout`: nothing, when the limit was reached.
  pub post_form : (limit : ℕ) → PostRequest → S → Option (Result Text (ℕ × Json)) × S

-- What survives a restart.
pub record StoredGrant : Type 0 where
  pub refresh_token : Text
  pub obtained_at : Number
  pub scope : Option Text

pub record TokenStore : Type 0 where
  pub dir : Option Text
  pub access : List (Text × CachedToken)
  pub grants : List (Text × StoredGrant)

pub record World (S : Type 0) : Type 0 where
  pub store : TokenStore
  pub redactor : Redactor
  pub outside : S

-- An error, or the panic of an addition to an instant that does not fit.
pub data Fault : Type 0 where
  failed : Error → Fault
  panicked : Fault

abbrev pub Io : Type 0 → Type 0 → Type 0
Io S A = World S → Result Fault A × World S

module _ {S A B : Type 0} where
  abbrev pub continue : Result Fault A × World S → (A → Io S B) → Result Fault B × World S
  continue (ok a, w) f = f a w
  continue (err e, w) f = (err e, w)

  infixl 5 ◌>>=◌ ◌>>◌
  abbrev pub ◌>>=◌ : Io S A → (A → Io S B) → Io S B
  (m >>= f) w = continue (m w) f

  abbrev pub ◌>>◌ : Io S A → Io S B → Io S B
  m >> n = m >>= λ _. n

  -- An action that ended well is followed by the next, in the state that it left.
  pub bind-ok :
      (m : Io S A) (f : A → Io S B) (w w' : World S) (a : A)
      → m w ≡ (ok a, w')
      → (m >>= f) w ≡ f a w'
  bind-ok m f w w' a e = rw e refl

  pub bind-err :
      (m : Io S A) (f : A → Io S B) (w w' : World S) (x : Fault)
      → m w ≡ (err x, w')
      → (m >>= f) w ≡ (err x, w')
  bind-err m f w w' x e = rw e refl

module _ {S A : Type 0} where
  abbrev pub pure : A → Io S A
  pure a w = (ok a, w)

  abbrev pub throw : Error → Io S A
  throw e w = (err (failed e), w)

  abbrev pub of_result : Result Error A → Io S A
  of_result (ok a) w = (ok a, w)
  of_result (err e) w = (err (failed e), w)

  -- What the operating system does, with `map_err` on its message.
  abbrev relay : (Text → Error) → Result Text A × S → World S → Result Fault A × World S
  relay f (ok a, s) w = (ok a, record w { outside = s })
  relay f (err e, s) w = (err (failed (f e)), record w { outside = s })

  abbrev pub perform : (Text → Error) → (S → Result Text A × S) → Io S A
  perform f op w = relay f (op w.outside) w

module _ {S : Type 0} where
  abbrev pub modify_store : (TokenStore → TokenStore) → Io S (Unit {0})
  modify_store f w = (ok tt, record w { store = f w.store })

  -- `self.redactor.learn(label, value)`.
  abbrev pub learn_as : Text → Text → Io S (Unit {0})
  learn_as label value w = (ok tt, record w { redactor = learn label value w.redactor })

  abbrev pub now : Os S → Io S ℕ
  now os w = let (t, s) = os.instant w.outside in (ok t, record w { outside = s })
