-- ===== src/Secrets/Oauth/Accepts.antt =====
-- What enrolment accepts: the state that it issued, and a response with a refresh token.
use bot_marshal.Prelude.{Text, none, err, ◌≡◌, ◌↔◌, refl, true, All}
use bot_marshal.Proxy.Identity.{constant_time_eq}
use bot_marshal.Proxy.Identity.ConstantTime.{IsByte, constant_time_eq_iff}
use bot_marshal.Secrets.Oauth.Token.{WireLib, TokenResponse}
use bot_marshal.Secrets.Oauth.Jwt.{KeyLib}
use bot_marshal.Secrets.Oauth.World.{Os, World, failed}
use bot_marshal.Secrets.Oauth.Client.{Oauth2Source}
use bot_marshal.Secrets.Oauth.Enrol.{AuthCodeFlow, state_matches, store_enrolment, no_refresh_token}

-- For a state and a candidate of bytes, the callback is taken exactly when the candidate is the state.
pub state_matches_iff :
    (flow : AuthCodeFlow) (candidate : Text)
    → All IsByte flow.state
    → All IsByte candidate
    → (state_matches flow candidate ≡ true) ↔ (flow.state ≡ candidate)
unfolding state_matches constant_time_eq
state_matches_iff flow candidate h k = constant_time_eq_iff flow.state candidate h k

module _ {S : Type 0} (os : Os S) (lib : WireLib) (keys : KeyLib) (o : Oauth2Source S) where
  -- An enrolment without a refresh token keeps nothing.
  pub store_enrolment-refused :
      (r : TokenResponse) (w : World S)
      → r.refresh_token ≡ none
      → store_enrolment os lib keys o r w ≡ (err (failed (no_refresh_token os lib keys o)), w)
  unfolding store_enrolment
  store_enrolment-refused r w absent = rw absent refl
