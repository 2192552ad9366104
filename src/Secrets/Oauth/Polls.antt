-- ===== src/Secrets/Oauth/Polls.antt =====
-- What one poll of the device flow means.
use bot_marshal.Prelude.{
  ℕ, Text, Option, none, some, Result, ok, err, ◌≡◌, ◌≢◌, refl, inl, inr, false, Bool-cases, lit,
  text_eq, text_eq_iff, text_eq_refl,
}
use bot_marshal.Core.Error.{Error}
use bot_marshal.Core.Json.{Json}
use bot_marshal.Secrets.Oauth.Token.{WireLib, str_field}
use bot_marshal.Secrets.Oauth.Jwt.{KeyLib}
use bot_marshal.Secrets.Oauth.World.{Os, World, Fault, failed}
use bot_marshal.Secrets.Oauth.Client.{Oauth2Source}
use bot_marshal.Secrets.Oauth.Device.{DevicePoll, pending, slow_down, poll_refused, read_poll}

-- What the answer to a poll that was refused means, by the error code.
pub data Means : Option Text → Option DevicePoll → Type 0 where
  waiting : Means (some (lit "authorization_pending")) (some pending)
  too_fast : Means (some (lit "slow_down")) (some slow_down)
  no_code : Means none none
  other_code :
      (code : Text)
      → code ≢ lit "authorization_pending"
      → code ≢ lit "slow_down"
      → Means (some code) none

-- A poll that was read: its outcome, or a failure; the world is as it was.
pub data IsRead {S : Type 0} (w : World S)
    : Option DevicePoll → Result Fault DevicePoll × World S → Type 0 where
  read_ok : (p : DevicePoll) → IsRead w (some p) (ok p, w)
  read_failed : (e : Error) → IsRead w none (err (failed e), w)

lit-differs : text_eq (lit "slow_down") (lit "authorization_pending") ≡ false
unfolding text_eq lit
lit-differs = refl

module _ {S : Type 0} (os : Os S) (lib : WireLib) (keys : KeyLib) (o : Oauth2Source S) where
  poll_refused-IsRead :
      (status : ℕ) (body : Json) (code : Option Text) (means : Option DevicePoll) (w : World S)
      → Means code means
      → IsRead w means (poll_refused os lib keys o status body code w)
  unfolding poll_refused
  poll_refused-IsRead status body code means w Means.waiting =
      rw (text_eq_refl (lit "authorization_pending")) (IsRead.read_ok pending)
  poll_refused-IsRead status body code means w Means.too_fast =
      rw (lit-differs, text_eq_refl (lit "slow_down")) (IsRead.read_ok slow_down)
  poll_refused-IsRead status body code means w Means.no_code = IsRead.read_failed _
  poll_refused-IsRead status body code means w (Means.other_code c p q) =
      rw (differs c (lit "authorization_pending") p, differs c (lit "slow_down") q)
        (IsRead.read_failed _)
    where
      differs : (s t : Text) → s ≢ t → text_eq s t ≡ false
      differs s t h = elim (Bool-cases (text_eq s t)) [
        | inl e ↦ absurd (h ((text_eq_iff s t).0 e))
        | inr e ↦ e
      ]

  -- A poll that the endpoint refuses is pending or too fast exactly by the two codes that say so, and any
  -- other is a failure; either way nothing is kept.
  pub read_poll-IsRead :
      (status : ℕ) (body : Json) (means : Option DevicePoll) (w : World S)
      → lib.is_success status ≡ false
      → Means (str_field (lit "error") body) means
      → IsRead w means (read_poll os lib keys o (status, body) w)
  unfolding read_poll
  read_poll-IsRead status body means w refused code =
      rw refused (poll_refused-IsRead status body (str_field (lit "error") body) means w code)
