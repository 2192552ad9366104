-- ===== src/Policy/Chain/Rules.antt =====
-- The meaning of a layer's answer, independent of the loop: what hands on, what rules, and what a
-- ruling looks like to the caller.
use bot_marshal.Prelude.{
  ℕ, ◌%◌, ◌^◌, Text, Option, none, some, Bool, true, false, ◌++◌, ok, err, lit, ◌≡◌, ◌⊎◌,
}
use bot_marshal.Core.Error.{Error, to_string}
use bot_marshal.Core.Evidence.{Evidence, LayerOutcome, push_outcome}
use bot_marshal.Core.Layer.{PolicyLayer, FailureMode}
use bot_marshal.Core.Request.{RequestContext, connect, request}
use bot_marshal.Core.Verdict.{Action, Decision, Reason, reason, ApprovalRequest, Verdict}
use bot_marshal.Policy.Chain.{Chain, Outcome, Step, stop, go, skip, skipped}

-- The entry of the trail for a layer that ran.
abbrev pub entry : PolicyLayer → Text → ℕ → Option Text → Bool → LayerOutcome
entry l verdict us detail cached = record {
  layer = l.name;
  verdict = verdict;
  duration_us = us % 2 ^ 64;
  detail = detail;
  cached = cached;
}

-- A ruling as the caller sees it: in warn mode a refusal is an allow that is marked.
abbrev pub shown : Bool → Action → Reason → Evidence → Outcome
shown false a r ev = record { action = a; reason = r; evidence = ev; would_deny = false }
shown true Action.allow r ev = record {
  action = Action.allow;
  reason = r;
  evidence = ev;
  would_deny = false;
}
shown true Action.deny r ev = record {
  action = Action.allow;
  reason = r;
  evidence = ev;
  would_deny = true;
}

module _ (c : Chain) (cx : RequestContext) where
  -- A layer that needs a request is not run on a CONNECT; every other layer is run.
  abbrev pub IsSkipped : PolicyLayer → Type 0
  IsSkipped l = (l.needs_request ≡ true) × (cx.phase ≡ connect)

  abbrev pub IsRun : PolicyLayer → Type 0
  IsRun l = (l.needs_request ≡ false) ⊎ (cx.phase ≡ request)

  -- A layer hands on: it passes, or it fails and is configured to be passed over.
  pub data HandsOn (l : PolicyLayer) (us : ℕ) (ev : Evidence) : Evidence → Type 0 where
    passes :
        {next : Evidence}
        → l.evaluate cx ev ≡ ok (Verdict.pass next)
        → HandsOn l us ev (push_outcome (entry l (lit "pass") us none false) next)
    tolerated :
        {e : Error}
        → l.evaluate cx ev ≡ err e
        → l.on_error ≡ FailureMode.pass
        → HandsOn l us ev (push_outcome (entry l (lit "error") us (some (to_string e)) false) ev)

  -- A layer rules: by its verdict, by failing, or by what the decider says of what it deferred.
  pub data Rules (l : PolicyLayer) (us : ℕ) (ev : Evidence)
      : Action → Reason → Evidence → Type 0 where
    allows :
        {r : Reason}
        → l.evaluate cx ev ≡ ok (Verdict.allow r)
        → Rules l us ev Action.allow r
            (push_outcome (entry l (lit "allow") us (some r.code) r.cached) ev)
    denies :
        {r : Reason}
        → l.evaluate cx ev ≡ ok (Verdict.deny r)
        → Rules l us ev Action.deny r
            (push_outcome (entry l (lit "deny") us (some r.code) r.cached) ev)
    fails_closed :
        {e : Error}
        → l.evaluate cx ev ≡ err e
        → l.on_error ≡ FailureMode.deny
        → Rules l us ev Action.deny
            (reason l.name
              (lit "layer_error")
              (l.name ++ (lit " failed and its failure mode is " ++ lit "deny")))
            (push_outcome (entry l (lit "error") us (some (to_string e)) false) ev)
    fails_open :
        {e : Error}
        → l.evaluate cx ev ≡ err e
        → l.on_error ≡ FailureMode.allow
        → Rules l us ev Action.allow
            (reason l.name
              (lit "layer_error")
              (l.name ++ (lit " failed and its failure mode is " ++ lit "allow")))
            (push_outcome (entry l (lit "error") us (some (to_string e)) false) ev)
    approved :
        {req : ApprovalRequest} {r : Reason}
        → l.evaluate cx ev ≡ ok (Verdict.defer req)
        → c.decider cx req ≡ Verdict.allow r
        → Rules l us ev Action.allow r
            (push_outcome (entry l (lit "defer") us (some req.summary) false) ev)
    refused :
        {req : ApprovalRequest} {r : Reason}
        → l.evaluate cx ev ≡ ok (Verdict.defer req)
        → c.decider cx req ≡ Verdict.deny r
        → Rules l us ev Action.deny r
            (push_outcome (entry l (lit "defer") us (some req.summary) false) ev)
    undecided :
        {req : ApprovalRequest} {next : Evidence}
        → l.evaluate cx ev ≡ ok (Verdict.defer req)
        → c.decider cx req ≡ Verdict.pass next
        → Rules l us ev Action.deny
            (reason l.name
              (lit "approval_indeterminate")
              (lit "the approval decider returned no terminal verdict"))
            (push_outcome (entry l (lit "defer") us (some req.summary) false) ev)
    deferred_again :
        {req other : ApprovalRequest}
        → l.evaluate cx ev ≡ ok (Verdict.defer req)
        → c.decider cx req ≡ Verdict.defer other
        → Rules l us ev Action.deny
            (reason l.name
              (lit "approval_indeterminate")
              (lit "the approval decider returned no terminal verdict"))
            (push_outcome (entry l (lit "defer") us (some req.summary) false) ev)

  -- The default rules, with the profile in the reason.
  pub data RulesByDefault : Action → Reason → Type 0 where
    refuses :
        c.default_action ≡ Decision.deny
        → RulesByDefault Action.deny (
            reason (lit "default_action") (lit "default_deny") (
              lit "no policy layer in profile `"
              ++ (c.profile ++ lit "` permitted this request, and the profile defaults to deny")))
    permits :
        c.default_action ≡ Decision.allow
        → RulesByDefault Action.allow (
            reason
              (lit "default_action")
              (lit "default_allow")
              (lit "profile `" ++ (c.profile ++ lit "` defaults to allow")))

  -- What a step of the loop says of the layer.
  abbrev pub Explained : ℕ → PolicyLayer → Evidence → Step → Type 0
  Explained us l ev (stop o) =
      (skipped cx l ≡ false)
      × (a : Action) × (r : Reason) × (last : Evidence) × Rules l us ev a r last
      × (shown c.warn_only a r last ≡ o)
  Explained us l ev (go next) = (skipped cx l ≡ false) × HandsOn l us ev next
  Explained us l ev skip = skipped cx l ≡ true
