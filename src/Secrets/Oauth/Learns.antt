-- ===== src/Secrets/Oauth/Learns.antt =====
-- A value that is presented to a provider is learned, and how long it is redacted then.
use bot_marshal.Prelude.{◌≤◌, Text, List, ◌∷◌, ◌++◌, ok, ◌≡◌, false, any, contains, length, text_eq}
use bot_marshal.Core.Redact.{redact, ring_of, min_length}
use bot_marshal.Core.Redact.Replaces.{IsSecret}
use bot_marshal.Core.Redact.Rings.{IsSound}
use bot_marshal.Core.Redact.Lasting.{learn_all, redact-learn_lasting}
use bot_marshal.Secrets.Oauth.World.{Os, World}
use bot_marshal.Secrets.Oauth.Token.{WireLib}
use bot_marshal.Secrets.Oauth.Jwt.{KeyLib}
use bot_marshal.Secrets.Oauth.Client.{Source, Oauth2Source, present}

module _ {S : Type 0} (os : Os S) (lib : WireLib) (keys : KeyLib) (o : Oauth2Source S) where
  -- The label that a source presents under.
  abbrev pub label_of : Text → Text
  label_of purpose = o.name ++ (46 ∷ purpose)

  -- A secret that its source gives to be presented, of at least four bytes, with no byte of the
  -- placeholder's quotation marks, no part of its word, and new to the ring of its label: from the moment it
  -- is presented it is in no redacted text, until a fourth value is learned after it.
  pub present-redacted :
      (source : Source S) (purpose value s : Text) (more : List (Text × Text)) (w w1 : World S)
      → source.resolve w ≡ (ok value, w1)
      → IsSound w1.redactor
      → IsSecret value
      → min_length ≤ length value
      → any (λ v. text_eq v value) (ring_of (label_of purpose) w1.redactor.learned) ≡ false
      → length more ≤ 3
      → contains value
          (redact (learn_all more (present os lib keys o source purpose w).1.redactor) s)
        ≡ false
  unfolding present
  present-redacted source purpose value s more w w1 resolved sound secret enough fresh few =
      rw (resolved, present)
        (redact-learn_lasting (label_of purpose) value s more w1.redactor sound secret enough fresh
          few)
