-- ===== src/Policy/Chain/Explains.antt =====
-- Each step of the loop over the layers is what the answer of the layer means.
use bot_marshal.Prelude.{
  ℕ, ◌%◌, ◌^◌, some, Bool, true, false, Result, ok, err, lit, ◌≡◌, refl, sym, ap, arith, inl, inr,
  Bool-cases,
}
use bot_marshal.Core.Error.{Error, to_string}
use bot_marshal.Core.Evidence.{Evidence, push_outcome}
use bot_marshal.Core.Layer.{PolicyLayer, FailureMode}
use bot_marshal.Core.Request.{RequestContext}
use bot_marshal.Core.Verdict.{Action, Decision, Reason, ApprovalRequest, Verdict}
use bot_marshal.Policy.Chain.{
  Chain, stop, go, skipped, on_answer, on_failure, settle, terminate, layer_step, finish,
  outcome_of, failure_reason,
}
use bot_marshal.Policy.Chain.Rules.{
  entry, shown, IsSkipped, IsRun, HandsOn, passes, tolerated, Rules, allows, denies, fails_closed,
  fails_open, approved, refused, undecided, deferred_again, RulesByDefault, refuses, permits,
  Explained,
}

terminate-shown :
    (warn : Bool) (a : Action) (r : Reason) (ev : Evidence)
    → terminate warn a r ev ≡ shown warn a r ev
unfolding terminate
terminate-shown true Action.deny r ev = refl
terminate-shown false Action.deny r ev = refl
terminate-shown true Action.allow r ev = refl
terminate-shown false Action.allow r ev = refl

module _ (c : Chain) (cx : RequestContext) where
  pub skipped-IsSkipped : (l : PolicyLayer) → skipped cx l ≡ true → IsSkipped c cx l
  skipped-IsSkipped l h = ground arith

  pub IsSkipped-skipped : (l : PolicyLayer) → IsSkipped c cx l → skipped cx l ≡ true
  IsSkipped-skipped l h = ground (arith, h.0, h.1)

  pub skipped-IsRun : (l : PolicyLayer) → skipped cx l ≡ false → IsRun c cx l
  skipped-IsRun l h = ground arith

  pub IsRun-skipped : (l : PolicyLayer) → IsRun c cx l → skipped cx l ≡ false
  IsRun-skipped l (inl h) = ground (arith, h)
  IsRun-skipped l (inr h) = ground (arith, h)

  ruled :
      (us : ℕ) (l : PolicyLayer) (ev last : Evidence) (a : Action) (r : Reason)
      → skipped cx l ≡ false
      → Rules c cx l us ev a r last
      → Explained c cx us l ev (stop (terminate c.warn_only a r last))
  ruled us l ev last a r on rule =
      (on, a, r, last, rule, sym (terminate-shown c.warn_only a r last))

  on_failure-Explained :
      (us : ℕ) (l : PolicyLayer) (ev : Evidence) (e : Error) (mode : FailureMode)
      → skipped cx l ≡ false
      → l.evaluate cx ev ≡ err e
      → l.on_error ≡ mode
      → Explained c cx us l ev (
          on_failure c.warn_only l
            (push_outcome (entry l (lit "error") us (some (to_string e)) false) ev))
  unfolding on_failure failure_reason
  on_failure-Explained us l ev e FailureMode.deny on at m =
      simp (m, on_failure) (ruled us l ev _ _ _ on (fails_closed at m))
  on_failure-Explained us l ev e FailureMode.allow on at m =
      simp (m, on_failure) (ruled us l ev _ _ _ on (fails_open at m))
  on_failure-Explained us l ev e FailureMode.pass on at m =
      simp (m, on_failure) (on, tolerated at m)

  settle-Explained :
      (us : ℕ) (l : PolicyLayer) (ev : Evidence) (req : ApprovalRequest) (v : Verdict)
      → skipped cx l ≡ false
      → l.evaluate cx ev ≡ ok (Verdict.defer req)
      → c.decider cx req ≡ v
      → Explained c cx us l ev (
          stop (
            settle c.warn_only l.name v
              (push_outcome (entry l (lit "defer") us (some req.summary) false) ev)))
  unfolding settle
  settle-Explained us l ev req (Verdict.allow r) on at d = ruled us l ev _ _ _ on (approved at d)
  settle-Explained us l ev req (Verdict.deny r) on at d = ruled us l ev _ _ _ on (refused at d)
  settle-Explained us l ev req (Verdict.pass next) on at d = ruled us l ev _ _ _ on (undecided at d)
  settle-Explained us l ev req (Verdict.defer other) on at d =
      ruled us l ev _ _ _ on (deferred_again at d)

  on_answer-Explained :
      (us : ℕ) (l : PolicyLayer) (ev : Evidence) (answer : Result Error Verdict)
      → skipped cx l ≡ false
      → l.evaluate cx ev ≡ answer
      → Explained c cx us l ev (on_answer c cx l (us % 2 ^ 64) ev answer)
  unfolding on_answer outcome_of
  on_answer-Explained us l ev (err e) on at = on_failure-Explained us l ev e l.on_error on at refl
  on_answer-Explained us l ev (ok (Verdict.allow r)) on at = ruled us l ev _ _ _ on (allows at)
  on_answer-Explained us l ev (ok (Verdict.deny r)) on at = ruled us l ev _ _ _ on (denies at)
  on_answer-Explained us l ev (ok (Verdict.pass next)) on at = (on, passes at)
  on_answer-Explained us l ev (ok (Verdict.defer req)) on at =
      settle-Explained us l ev req (c.decider cx req) on at refl

  -- Each step of the loop is what the layer's answer means.
  pub layer_step-Explained :
      (us : ℕ) (l : PolicyLayer) (ev : Evidence) → Explained c cx us l ev (layer_step c cx us l ev)
  unfolding layer_step
  layer_step-Explained us l ev = elim (Bool-cases (skipped cx l)) [
    | inl off ↦ rw (off, layer_step) off
    | inr on ↦ rw (on, layer_step) (on_answer-Explained us l ev (l.evaluate cx ev) on refl)
  ]

  -- The other direction.
  pub layer_step-Rules :
      (us : ℕ) (l : PolicyLayer) (ev : Evidence) (a : Action) (r : Reason) (last : Evidence)
      → skipped cx l ≡ false
      → Rules c cx l us ev a r last
      → layer_step c cx us l ev ≡ stop (shown c.warn_only a r last)
  unfolding layer_step on_answer on_failure settle failure_reason outcome_of
  layer_step-Rules us l ev _ _ _ on (allows at) =
      rw (on, at, layer_step) (ap stop (terminate-shown c.warn_only _ _ _))
  layer_step-Rules us l ev _ _ _ on (denies at) =
      rw (on, at, layer_step) (ap stop (terminate-shown c.warn_only _ _ _))
  layer_step-Rules us l ev _ _ _ on (fails_closed at m) =
      rw (on, at, layer_step, m) (ap stop (terminate-shown c.warn_only _ _ _))
  layer_step-Rules us l ev _ _ _ on (fails_open at m) =
      rw (on, at, layer_step, m) (ap stop (terminate-shown c.warn_only _ _ _))
  layer_step-Rules us l ev _ _ _ on (approved at d) =
      rw (on, at, layer_step, d) (ap stop (terminate-shown c.warn_only _ _ _))
  layer_step-Rules us l ev _ _ _ on (refused at d) =
      rw (on, at, layer_step, d) (ap stop (terminate-shown c.warn_only _ _ _))
  layer_step-Rules us l ev _ _ _ on (undecided at d) =
      rw (on, at, layer_step, d) (ap stop (terminate-shown c.warn_only _ _ _))
  layer_step-Rules us l ev _ _ _ on (deferred_again at d) =
      rw (on, at, layer_step, d) (ap stop (terminate-shown c.warn_only _ _ _))

  pub layer_step-HandsOn :
      (us : ℕ) (l : PolicyLayer) (ev next : Evidence)
      → skipped cx l ≡ false
      → HandsOn c cx l us ev next
      → layer_step c cx us l ev ≡ go next
  unfolding layer_step on_answer on_failure
  layer_step-HandsOn us l ev _ on (passes at) = rw (on, at, layer_step) refl
  layer_step-HandsOn us l ev _ on (tolerated at m) = rw (on, at, layer_step, m) refl

  pub finish-RulesByDefault :
      (ev : Evidence) (a : Action) (r : Reason)
      → RulesByDefault c cx a r
      → finish c ev ≡ shown c.warn_only a r ev
  unfolding finish
  finish-RulesByDefault ev _ _ (refuses d) = rw (d, finish) (terminate-shown c.warn_only _ _ _)
  finish-RulesByDefault ev _ _ (permits d) = rw (d, finish) (terminate-shown c.warn_only _ _ _)

  default_rules :
      (d : Decision) → c.default_action ≡ d → (a : Action) × (r : Reason) × RulesByDefault c cx a r
  default_rules Decision.deny e = (Action.deny, _, refuses e)
  default_rules Decision.allow e = (Action.allow, _, permits e)

  pub finish-Explained :
      (ev : Evidence)
      → (a : Action) × (r : Reason) × RulesByDefault c cx a r
        × (shown c.warn_only a r ev ≡ finish c ev)
  finish-Explained ev =
      let (a, r, rule) = default_rules c.default_action refl in
      (a, r, rule, sym (finish-RulesByDefault ev a r rule))
