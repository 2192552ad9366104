-- ===== src/Tests/Redaction.antt =====
-- The redactor, with one pinned secret and one that it learns.
use bot_marshal.Prelude.{Text, false, [], ◌∷◌, ◌≡◌, refl, arith, contains, lit}
use bot_marshal.Core.Json.{Json, field, end, item, nil}
use bot_marshal.Core.Redact.{Redactor, new, learn, redact, redact_json}
use bot_marshal.Core.Redact.Replaces.{IsSecret}
use bot_marshal.Core.Redact.Rings.{IsSound, new-IsSound, learn-IsSound, redact-learn, Holds-learn}
use bot_marshal.Core.Redact.Documents.{IsFree, redact_json-IsFree}

abbrev token : Text
token = b's' ∷ b'3' ∷ b'c' ∷ b'r' ∷ []

abbrev pinned : Redactor
pinned = new (lit "hunter22" ∷ [])

token-IsSecret : IsSecret token
unfolding contains lit
token-IsSecret = record {
  nonempty = λ e. cc;
  unmarked =
      ((refl, refl, refl), ((refl, refl, refl), ((refl, refl, refl), ((refl, refl, refl), tt))));
  unlike = refl;
}

learn-IsSound_example : IsSound (learn (lit "api") token pinned)
learn-IsSound_example = learn-IsSound (lit "api") token pinned (new-IsSound (lit "hunter22" ∷ []))

redact-learn_example :
    contains token (redact (learn (lit "api") token pinned) (lit "Bearer s3cr")) ≡ false
redact-learn_example =
    redact-learn (lit "api") token (lit "Bearer s3cr") pinned (new-IsSound (lit "hunter22" ∷ []))
      token-IsSecret (omega arith)

abbrev document : Json
document =
    Json.object (field (lit "s3cr") (Json.array (item (Json.string (lit "a s3cr b")) nil)) end)

redact_json-IsFree_example : IsFree token (redact_json (learn (lit "api") token pinned) document)
redact_json-IsFree_example =
    redact_json-IsFree (learn (lit "api") token pinned) token document token-IsSecret
      (Holds-learn (lit "api") token pinned (new-IsSound (lit "hunter22" ∷ [])) (omega arith))
