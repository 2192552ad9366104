-- ===== src/Policy/Chain.antt =====
-- crates/marshal-policy/src/chain.rs. `elapsed i` is what the clock shows, in microseconds, for the
-- i-th evaluation of a layer; logging is left out.
pub mod Rules
pub mod Explains
pub mod Steps
pub mod Runs
pub mod Allows
pub mod Warn
pub mod Connect
use bot_marshal.Prelude.{
  ℕ, suc, ◌%◌, ◌^◌, Text, Option, none, some, Bool, true, false, ◌&&◌, List, [], ◌∷◌, ◌++◌, map,
  lit, Result, ok, err, keep, if◌then◌else◌,
}
use bot_marshal.Core.Error.{Error, to_string}
use bot_marshal.Core.Evidence.{Evidence, LayerOutcome, push_outcome}
use bot_marshal.Core.Layer.{PolicyLayer, FailureMode, BodyRequirement, streaming, combine}
use bot_marshal.Core.Request.{RequestContext, Phase, connect, request}
use bot_marshal.Core.Verdict.{Action, Decision, Reason, reason, Verdict, Decider}

pub record Outcome : Type 0 where
  pub action : Action
  pub reason : Reason
  pub evidence : Evidence
  pub would_deny : Bool

pub record Chain : Type 0 where
  pub profile : Text
  pub layers : List PolicyLayer
  pub default_action : Decision
  pub decider : Decider
  pub warn_only : Bool

-- `Chain::new`, and the builder that sets warn mode.
unfoldable pub new : Text → List PolicyLayer → Decision → Decider → Chain
new profile layers default_action decider = record {
  profile = profile;
  layers = layers;
  default_action = default_action;
  decider = decider;
  warn_only = false;
}

abbrev pub set_warn_only : Bool → Chain → Chain
set_warn_only warn c = record c { warn_only = warn }

unfoldable pub layer_names : Chain → List Text
layer_names c = map (λ l. l.name) c.layers

unfoldable pub request_only_layers : Chain → List Text
request_only_layers c = map (λ l. l.name) (keep (λ l. l.needs_request) c.layers)

fold_requirement : BodyRequirement → List PolicyLayer → BodyRequirement
fold_requirement acc [] = acc
fold_requirement acc (l ∷ ls) = fold_requirement (combine acc l.body_requirement) ls

-- `Chain::body_requirement`.
unfoldable pub body_requirement : Chain → BodyRequirement
unfolding fold_requirement
body_requirement c = fold_requirement streaming c.layers

unfoldable pub outcome_of : Text → Text → ℕ → Reason → LayerOutcome
outcome_of layer verdict duration_us r = record {
  layer = layer;
  verdict = verdict;
  duration_us = duration_us;
  detail = some r.code;
  cached = r.cached;
}

abbrev plain_outcome : Text → Text → ℕ → Option Text → LayerOutcome
plain_outcome layer verdict duration_us detail = record {
  layer = layer;
  verdict = verdict;
  duration_us = duration_us;
  detail = detail;
  cached = false;
}

-- Warn mode is applied here, where every verdict passes.
unfoldable pub terminate : Bool → Action → Reason → Evidence → Outcome
terminate true Action.deny r ev = record {
  action = Action.allow;
  reason = r;
  evidence = ev;
  would_deny = true;
}
terminate false Action.deny r ev = record {
  action = Action.deny;
  reason = r;
  evidence = ev;
  would_deny = false;
}
terminate warn Action.allow r ev = record {
  action = Action.allow;
  reason = r;
  evidence = ev;
  would_deny = false;
}

-- What one layer does to the walk: it ends it, hands on evidence, or is not run at all.
pub data Step : Type 0 where
  stop : Outcome → Step
  go : Evidence → Step
  skip : Step

failure_reason : Text → Text → Reason
failure_reason name mode =
    reason name (lit "layer_error") (name ++ (lit " failed and its failure mode is " ++ mode))

-- The layer's failure mode, once its error is in the trail.
on_failure : Bool → PolicyLayer → Evidence → Step
unfolding failure_reason
on_failure warn l ev = elim l.on_error [
  | FailureMode.deny ↦ stop (terminate warn Action.deny (failure_reason l.name (lit "deny")) ev)
  | FailureMode.allow ↦ stop (terminate warn Action.allow (failure_reason l.name (lit "allow")) ev)
  | FailureMode.pass ↦ go ev
]

-- What the decider's answer to a deferred request comes to.
settle : Bool → Text → Verdict → Evidence → Outcome
settle warn name (Verdict.allow r) ev = terminate warn Action.allow r ev
settle warn name (Verdict.deny r) ev = terminate warn Action.deny r ev
settle warn name (Verdict.pass ev') ev =
    terminate warn Action.deny
      (reason name (lit "approval_indeterminate")
        (lit "the approval decider returned no terminal verdict"))
      ev
settle warn name (Verdict.defer req) ev =
    terminate warn Action.deny
      (reason name (lit "approval_indeterminate")
        (lit "the approval decider returned no terminal verdict"))
      ev

-- The match on what the layer answered.
on_answer : Chain → RequestContext → PolicyLayer → ℕ → Evidence → Result Error Verdict → Step
unfolding on_failure settle
on_answer c cx l us ev (err e) =
    on_failure c.warn_only l
      (push_outcome (plain_outcome l.name (lit "error") us (some (to_string e))) ev)
on_answer c cx l us ev (ok (Verdict.allow r)) =
    stop (
      terminate c.warn_only Action.allow r (push_outcome (outcome_of l.name (lit "allow") us r) ev))
on_answer c cx l us ev (ok (Verdict.deny r)) =
    stop
      (terminate c.warn_only Action.deny r (push_outcome (outcome_of l.name (lit "deny") us r) ev))
on_answer c cx l us ev (ok (Verdict.pass next)) =
    go (push_outcome (plain_outcome l.name (lit "pass") us none) next)
on_answer c cx l us ev (ok (Verdict.defer req)) = stop (
    settle c.warn_only l.name (c.decider cx req)
      (push_outcome (plain_outcome l.name (lit "defer") us (some req.summary)) ev))

abbrev is_connect : Phase → Bool
is_connect connect = true
is_connect request = false

-- A layer that needs a request is not run on a CONNECT.
abbrev pub skipped : RequestContext → PolicyLayer → Bool
skipped cx l = l.needs_request && is_connect cx.phase

-- `as u64` of the clock's reading.
abbrev as_u64 : ℕ → ℕ
as_u64 n = n % 2 ^ 64

-- One round of the loop over the layers.
unfoldable pub layer_step : Chain → RequestContext → ℕ → PolicyLayer → Evidence → Step
unfolding on_answer
layer_step c cx us l ev =
    if skipped cx l then skip else on_answer c cx l (as_u64 us) ev (l.evaluate cx ev)

-- What holds when every layer passed.
unfoldable pub finish : Chain → Evidence → Outcome
finish c ev = elim c.default_action [
  | Decision.deny ↦
      terminate c.warn_only Action.deny
        (reason (lit "default_action") (lit "default_deny") (
          lit "no policy layer in profile `"
          ++ (c.profile ++ lit "` permitted this request, and the profile defaults to deny")))
        ev
  | Decision.allow ↦
      terminate c.warn_only Action.allow
        (reason (lit "default_action") (lit "default_allow")
          (lit "profile `" ++ (c.profile ++ lit "` defaults to allow")))
        ev
]

-- The loop, from the i-th evaluation on.
unfoldable pub run : Chain → RequestContext → (ℕ → ℕ) → ℕ → Evidence → List PolicyLayer → Outcome
run c cx elapsed i ev [] = finish c ev
run c cx elapsed i ev (l ∷ ls) = elim (layer_step c cx (elapsed i) l ev) [
  | stop o ↦ o
  | go next ↦ run c cx elapsed (suc i) next ls
  | skip ↦ run c cx elapsed i ev ls
]

unfoldable pub evaluate : Chain → RequestContext → (ℕ → ℕ) → Outcome
unfolding run
evaluate c cx elapsed = run c cx elapsed 0 cx.evidence c.layers
