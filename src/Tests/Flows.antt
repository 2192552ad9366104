-- ===== src/Tests/Flows.antt =====
-- The parts of the OAuth flows that a human or a provider takes part in, on the test machine.
use bot_marshal.Prelude.{
  true, ◌↔◌, List, ◌∷◌, inr, ℕ, Text, none, some, false, [], Result, ok, err, lit, ◌≡◌, refl, arith,
  contains, rsplit_once, split_once_text, break_at, strip_prefix, text_eq, ltb, trim, if◌then◌else◌,
}
use bot_marshal.Core.Json.{Json, string, object, field, end, get, get_field, as_str}
use bot_marshal.Core.Redact
use bot_marshal.Core.Redact.{redact, ring_of}
use bot_marshal.Core.Redact.Lasting.{learn_all}
use bot_marshal.Core.Redact.Replaces.{IsSecret}
use bot_marshal.Core.Redact.Rings.{new-IsSound}
use bot_marshal.Secrets.Form.{split_once}
use bot_marshal.Secrets.Sources.{FileSource, new_file_source, resolve_file, read_secret, secret_of}
use bot_marshal.Secrets.Sources.Ttl.{IsRecent, IsTimely, resolve_file-IsTimely}
use bot_marshal.Secrets.Oauth.Token.{str_field}
use bot_marshal.Secrets.Oauth.World.{World, pure}
use bot_marshal.Secrets.Oauth.Client.{Source, present}
use bot_marshal.Secrets.Oauth.Learns.{present-redacted}
use bot_marshal.Secrets.Oauth.Accepts.{state_matches_iff}
use bot_marshal.Secrets.Oauth.Enrol.{AuthCodeFlow, state_matches, split_redirect, redirect_host}
use bot_marshal.Secrets.Oauth.Device.{pending, read_poll}
use bot_marshal.Secrets.Oauth.Polls.{Means, IsRead, read_poll-IsRead}
use bot_marshal.Tests.Machine.{Machine, machine_os}
use bot_marshal.Tests.Tokens.{wire, no_keys, machine_source, world}

abbrev client_secret : Text
client_secret = lit "s3cr"

abbrev fixed : Source Machine
fixed = record { source_name = lit "fixed"; resolve = pure client_secret }

client_secret-IsSecret : IsSecret client_secret
unfolding contains lit
client_secret-IsSecret = record {
  nonempty = λ e. cc;
  unmarked =
      ((refl, refl, refl), ((refl, refl, refl), ((refl, refl, refl), ((refl, refl, refl), tt))));
  unlike = refl;
}

abbrev presented : World Machine
presented = (present machine_os wire no_keys machine_source fixed (lit "client_secret") world).1

abbrev later_values : List (Text × Text)
later_values = (lit "a", lit "first") ∷ (lit "a", lit "second") ∷ []

present-redacted_example :
    contains client_secret (redact (learn_all later_values presented.redactor) (lit "id:s3cr"))
    ≡ false
unfolding lit ring_of Redact.new
present-redacted_example =
    present-redacted machine_os wire no_keys machine_source fixed (lit "client_secret")
      client_secret (lit "id:s3cr") later_values world world refl (new-IsSound [])
      client_secret-IsSecret (omega arith) refl (omega arith)

-- The host of this redirect is evil.com, with a user and a password in front of it.
split_redirect_test :
    split_redirect (lit "http://127.0.0.1:80@evil.com/cb") ≡ some (lit "http", lit "127.0.0.1")
unfolding split_redirect redirect_host split_once_text strip_prefix break_at split_once rsplit_once
    lit
split_redirect_test = refl

abbrev waiting_body : Json
waiting_body = object (field (lit "error") (string (lit "authorization_pending")) end)

read_poll-IsRead_example :
    IsRead world
      (some pending)
      (read_poll machine_os wire no_keys machine_source (400, waiting_body) world)
unfolding str_field get get_field as_str text_eq lit
read_poll-IsRead_example =
    read_poll-IsRead machine_os wire no_keys machine_source 400 waiting_body (some pending) world
      refl Means.waiting

abbrev file_source : FileSource
file_source = record (new_file_source (lit "/run/secret") 10 none) { kept = some (3, lit "old") }

abbrev contents : ℕ → Result Text Text
contents n = if ltb n 4 then ok (lit " old\n") else ok (lit "new")

abbrev no_json : Text → Result Text Json
no_json s = err (lit "expected value")

file_source-IsRecent : IsRecent no_json contents file_source
unfolding read_secret secret_of trim lit new_file_source
file_source-IsRecent = inr (3, lit "old", 2, refl, omega arith, refl)

resolve_file-IsTimely_example :
    IsTimely no_json contents file_source 12 13 (lit "old") × IsRecent no_json contents file_source
unfolding resolve_file new_file_source
resolve_file-IsTimely_example =
    resolve_file-IsTimely no_json contents file_source file_source 12 13 14 (lit "old")
      (omega arith) file_source-IsRecent refl

abbrev begun : AuthCodeFlow
begun = record { url = []; state = 97 ∷ 98 ∷ []; verifier = []; redirect = [] }

abbrev candidate_state : Text
candidate_state = 97 ∷ 99 ∷ []

state_matches_iff_example :
    (state_matches begun candidate_state ≡ true) ↔ (begun.state ≡ candidate_state)
state_matches_iff_example =
    state_matches_iff begun candidate_state (omega arith, (omega arith, tt))
      (omega arith, (omega arith, tt))
