-- ===== src/Policy/Chain/Allows.antt =====
-- Where an allow of the chain comes from.
use bot_marshal.Prelude.{
  ℕ, List, ◌∷◌, ◌++◌, Bool, true, false, ok, err, ◌≡◌, refl, ap, ◌∙◌, subst, ◌⊎◌, inl, inr,
}
use bot_marshal.Core.Error.{Error}
use bot_marshal.Core.Evidence.{Evidence}
use bot_marshal.Core.Layer.{PolicyLayer, FailureMode}
use bot_marshal.Core.Request.{RequestContext}
use bot_marshal.Core.Verdict.{Action, Decision, Reason, ApprovalRequest, Verdict}
use bot_marshal.Policy.Chain.Rules.{
  shown, IsRun, Rules, allows, denies, fails_closed, fails_open, approved, refused, undecided,
  deferred_again, RulesByDefault, refuses, permits,
}
use bot_marshal.Policy.Chain.Runs.{Through, Ruled, run-Shows}
use bot_marshal.Policy.Chain.{Chain, Outcome, evaluate}

-- How a layer that is given some evidence can let a request through: its own verdict, a failure that its
-- configuration lets pass as an allow, or the approval of what it deferred.
pub data Grants (c : Chain) (cx : RequestContext) (l : PolicyLayer) (ev : Evidence) : Type 0 where
  verdict : (r : Reason) → l.evaluate cx ev ≡ ok (Verdict.allow r) → Grants c cx l ev
  failure :
      (e : Error) → l.evaluate cx ev ≡ err e → l.on_error ≡ FailureMode.allow → Grants c cx l ev
  approval :
      (req : ApprovalRequest) (r : Reason)
      → l.evaluate cx ev ≡ ok (Verdict.defer req)
      → c.decider cx req ≡ Verdict.allow r
      → Grants c cx l ev

-- A layer is reached with the evidence that all before it left, and grants.
pub record GrantedBy (c : Chain) (cx : RequestContext) (elapsed : ℕ → ℕ) : Type 0 where
  pub before : List PolicyLayer
  pub granter : PolicyLayer
  pub behind : List PolicyLayer
  pub at : ℕ
  pub seen : Evidence
  pub split : c.layers ≡ before ++ granter ∷ behind
  pub reached : Through c cx elapsed 0 cx.evidence before at seen
  pub runs : IsRun c cx granter
  pub grants : Grants c cx granter seen

-- Where an allow comes from.
pub data Authorised (c : Chain) (cx : RequestContext) (elapsed : ℕ → ℕ) (o : Outcome) : Type 0 where
  warned : c.warn_only ≡ true → o.would_deny ≡ true → Authorised c cx elapsed o
  default :
      (at : ℕ) (last : Evidence)
      → Through c cx elapsed 0 cx.evidence c.layers at last
      → c.default_action ≡ Decision.allow
      → Authorised c cx elapsed o
  granted : GrantedBy c cx elapsed → Authorised c cx elapsed o

shown-deny :
    (warn : Bool) (r : Reason) (ev : Evidence)
    → (shown warn Action.deny r ev).action ≡ Action.allow
    → (warn ≡ true) × ((shown warn Action.deny r ev).would_deny ≡ true)
shown-deny true r ev h = (refl, refl)
shown-deny false r ev h = cc

Rules-Grants :
    (c : Chain) (cx : RequestContext) (l : PolicyLayer) (us : ℕ) (ev : Evidence) (a : Action)
    (r : Reason) (last : Evidence)
    → Rules c cx l us ev a r last
    → (a ≡ Action.deny) ⊎ Grants c cx l ev
Rules-Grants c cx l us ev _ _ _ (allows at) = inr (verdict _ at)
Rules-Grants c cx l us ev _ _ _ (denies at) = inl refl
Rules-Grants c cx l us ev _ _ _ (fails_closed at m) = inl refl
Rules-Grants c cx l us ev _ _ _ (fails_open at m) = inr (failure _ at m)
Rules-Grants c cx l us ev _ _ _ (approved at d) = inr (approval _ _ at d)
Rules-Grants c cx l us ev _ _ _ (refused at d) = inl refl
Rules-Grants c cx l us ev _ _ _ (undecided at d) = inl refl
Rules-Grants c cx l us ev _ _ _ (deferred_again at d) = inl refl

RulesByDefault-allow :
    (c : Chain) (cx : RequestContext) (a : Action) (r : Reason)
    → RulesByDefault c cx a r
    → (a ≡ Action.deny) ⊎ (c.default_action ≡ Decision.allow)
RulesByDefault-allow c cx _ _ (refuses d) = inl refl
RulesByDefault-allow c cx _ _ (permits d) = inr d

module _ (c : Chain) (cx : RequestContext) (elapsed : ℕ → ℕ) where
  denied-Authorised :
      (a : Action) (r : Reason) (last : Evidence)
      → a ≡ Action.deny
      → (shown c.warn_only a r last).action ≡ Action.allow
      → Authorised c cx elapsed (shown c.warn_only a r last)
  denied-Authorised Action.allow r last e h = cc
  denied-Authorised Action.deny r last e h =
      let (warn, marked) = shown-deny c.warn_only r last h in warned warn marked

  shown-Authorised :
      (a : Action) (r : Reason) (last : Evidence)
      → Ruled c cx elapsed 0 cx.evidence c.layers a r last
      → (shown c.warn_only a r last).action ≡ Action.allow
      → Authorised c cx elapsed (shown c.warn_only a r last)
  shown-Authorised a r last (inl d) h =
      elim (Rules-Grants c cx d.decider (elapsed d.at) d.seen a r last d.rules) [
        | inl denied ↦ denied-Authorised a r last denied h
        | inr g ↦ granted (record {
          before = d.before;
          granter = d.decider;
          behind = d.behind;
          at = d.at;
          seen = d.seen;
          split = d.split;
          reached = d.through;
          runs = d.runs;
          grants = g;
        })
      ]
  shown-Authorised a r last (inr x) h = elim (RulesByDefault-allow c cx a r x.default) [
    | inl denied ↦ denied-Authorised a r last denied h
    | inr d ↦ default x.at last x.through d
  ]

  -- An allowed request has a source: warn mode, which marks it; a default of allow, every layer having passed,
  -- been skipped or been passed over; or a layer that the walk reached so, and that, given the evidence left
  -- by those before it, allowed it, failed under the failure mode allow, or had it approved.
  pub evaluate-Authorised :
      (evaluate c cx elapsed).action ≡ Action.allow
      → Authorised c cx elapsed (evaluate c cx elapsed)
  unfolding evaluate
  evaluate-Authorised h =
      let (a, r, last, ruling, same) = run-Shows c cx elapsed 0 cx.evidence c.layers in
      subst (Authorised c cx elapsed) same
        (shown-Authorised a r last ruling (ap (λ (o : Outcome). o.action) same ∙ h))
