-- ===== src/Policy/Chain/Warn.antt =====
-- Warn mode overrides the action of a refusal, and nothing else.
use bot_marshal.Prelude.{
  ℕ, suc, ◌%◌, ◌^◌, Bool, true, false, List, [], ◌∷◌, ◌≡◌, refl, sym, ap, ◌∙◌, inl, inr, arith,
  Result, ok, err,
}
use bot_marshal.Core.Error.{Error}
use bot_marshal.Core.Evidence.{Evidence}
use bot_marshal.Core.Layer.{PolicyLayer}
use bot_marshal.Core.Request.{RequestContext}
use bot_marshal.Core.Verdict.{Action, Verdict}
use bot_marshal.Policy.Chain.Steps.{Step-cases, run-stop, run-go, run-skip}
use bot_marshal.Policy.Chain.{
  Chain, Outcome, Step, stop, go, skip, set_warn_only, on_answer, on_failure, settle, terminate,
  layer_step, finish, run, evaluate,
}

abbrev pub is_deny : Action → Bool
is_deny Action.deny = true
is_deny Action.allow = false

-- The outcome that warn mode makes of an enforced one.
abbrev pub overridden : Outcome → Outcome
overridden o = record o { action = Action.allow; would_deny = is_deny o.action }

abbrev overridden_step : Step → Step
overridden_step (stop o) = stop (overridden o)
overridden_step (go ev) = go ev
overridden_step skip = skip

module _ (c : Chain) (cx : RequestContext) where
  on_failure-warn :
      (l : PolicyLayer) (ev : Evidence)
      → on_failure true l ev ≡ overridden_step (on_failure false l ev)
  unfolding on_failure terminate
  on_failure-warn l ev = ground arith

  settle-warn :
      (l : PolicyLayer) (v : Verdict) (ev : Evidence)
      → settle true l.name v ev ≡ overridden (settle false l.name v ev)
  unfolding settle terminate
  settle-warn l (Verdict.allow r) ev = refl
  settle-warn l (Verdict.deny r) ev = refl
  settle-warn l (Verdict.pass r) ev = refl
  settle-warn l (Verdict.defer r) ev = refl

  on_answer-warn :
      (us : ℕ) (l : PolicyLayer) (ev : Evidence) (r : Result Error Verdict)
      → on_answer (set_warn_only true c) cx l us ev r
        ≡ overridden_step (on_answer (set_warn_only false c) cx l us ev r)
  unfolding on_answer terminate
  on_answer-warn us l ev (err e) = on_failure-warn l _
  on_answer-warn us l ev (ok (Verdict.allow r)) = refl
  on_answer-warn us l ev (ok (Verdict.deny r)) = refl
  on_answer-warn us l ev (ok (Verdict.pass r)) = refl
  on_answer-warn us l ev (ok (Verdict.defer r)) = ap stop (settle-warn l (c.decider cx r) _)

  layer_step-warn :
      (us : ℕ) (l : PolicyLayer) (ev : Evidence)
      → layer_step (set_warn_only true c) cx us l ev
        ≡ overridden_step (layer_step (set_warn_only false c) cx us l ev)
  unfolding layer_step
  layer_step-warn us l ev = ground (arith, on_answer-warn (us % 2 ^ 64) l ev (l.evaluate cx ev))

  finish-warn :
      (ev : Evidence)
      → finish (set_warn_only true c) ev ≡ overridden (finish (set_warn_only false c) ev)
  unfolding finish terminate
  finish-warn ev = ground arith

  run-warn :
      (elapsed : ℕ → ℕ) (i : ℕ) (ev : Evidence) (ls : List PolicyLayer)
      → run (set_warn_only true c) cx elapsed i ev ls
        ≡ overridden (run (set_warn_only false c) cx elapsed i ev ls)
  unfolding run
  run-warn elapsed i ev [] = finish-warn ev
  run-warn elapsed i ev (l ∷ ls) =
      let off = set_warn_only false c in
      let on = set_warn_only true c in
      let step = layer_step-warn (elapsed i) l ev in
      elim (Step-cases (layer_step off cx (elapsed i) l ev)) [
        | inl (o, e) ↦
            run-stop on cx elapsed i ev l ls (overridden o) (step ∙ ap overridden_step e)
            ∙ sym (ap overridden (run-stop off cx elapsed i ev l ls o e))
        | inr (inl (next, e)) ↦
            run-go on cx elapsed i ev l ls next (step ∙ ap overridden_step e)
            ∙ (run-warn elapsed (suc i) next ls
                ∙ sym (ap overridden (run-go off cx elapsed i ev l ls next e)))
        | inr (inr e) ↦
            run-skip on cx elapsed i ev l ls (step ∙ ap overridden_step e)
            ∙ (run-warn elapsed i ev ls ∙ sym (ap overridden (run-skip off cx elapsed i ev l ls e)))
      ]

-- A profile in warn mode keeps the reason and the evidence of each outcome, forwards every request,
-- and marks exactly those that it would have refused.
pub evaluate-warn :
    (c : Chain) (cx : RequestContext) (elapsed : ℕ → ℕ)
    → evaluate (set_warn_only true c) cx elapsed
      ≡ overridden (evaluate (set_warn_only false c) cx elapsed)
unfolding evaluate
evaluate-warn c cx elapsed = run-warn c cx elapsed 0 cx.evidence c.layers
