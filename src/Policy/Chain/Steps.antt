-- ===== src/Policy/Chain/Steps.antt =====
-- One round of the walk over the layers, by what the layer's step is.
use bot_marshal.Prelude.{
  ℕ, suc, ◌%◌, ◌^◌, true, false, lit, ok, List, ◌∷◌, ◌≡◌, refl, sym, ◌∙◌, ◌⊎◌, inl, inr,
}
use bot_marshal.Core.Evidence.{Evidence, push_outcome}
use bot_marshal.Core.Layer.{PolicyLayer}
use bot_marshal.Core.Request.{RequestContext}
use bot_marshal.Core.Verdict.{Action, Reason, Verdict}
use bot_marshal.Policy.Chain.{
  Chain, Outcome, Step, stop, go, skip, skipped, on_answer, outcome_of, terminate, layer_step, run,
}

pub Step-cases :
    (s : Step) → ((o : Outcome) × (s ≡ stop o)) ⊎ (((ev : Evidence) × (s ≡ go ev)) ⊎ (s ≡ skip))
Step-cases (stop o) = inl (o, refl)
Step-cases (go ev) = inr (inl (ev, refl))
Step-cases skip = inr (inr refl)

module _ (c : Chain) (cx : RequestContext) (elapsed : ℕ → ℕ) (i : ℕ) (ev : Evidence)
    (l : PolicyLayer) (ls : List PolicyLayer) where
  pub run-stop :
      (o : Outcome) → layer_step c cx (elapsed i) l ev ≡ stop o → run c cx elapsed i ev (l ∷ ls) ≡ o
  unfolding run
  run-stop o e = rw (e, run) refl

  pub run-go :
      (next : Evidence)
      → layer_step c cx (elapsed i) l ev ≡ go next
      → run c cx elapsed i ev (l ∷ ls) ≡ run c cx elapsed (suc i) next ls
  unfolding run
  run-go next e = rw (e, run) refl

  pub run-skip :
      layer_step c cx (elapsed i) l ev ≡ skip
      → run c cx elapsed i ev (l ∷ ls) ≡ run c cx elapsed i ev ls
  unfolding run
  run-skip e = rw (e, run) refl

-- What stands behind a layer counts only through its own walk.
pub run-cong :
    (c : Chain) (cx : RequestContext) (elapsed : ℕ → ℕ) (i : ℕ) (ev : Evidence) (l : PolicyLayer)
    (ls ms : List PolicyLayer)
    → ((j : ℕ) (seen : Evidence) → run c cx elapsed j seen ls ≡ run c cx elapsed j seen ms)
    → run c cx elapsed i ev (l ∷ ls) ≡ run c cx elapsed i ev (l ∷ ms)
run-cong c cx elapsed i ev l ls ms same = elim (Step-cases (layer_step c cx (elapsed i) l ev)) [
  | inl (o, e) ↦ run-stop c cx elapsed i ev l ls o e ∙ sym (run-stop c cx elapsed i ev l ms o e)
  | inr (inl (next, e)) ↦
      run-go c cx elapsed i ev l ls next e
      ∙ (same (suc i) next ∙ sym (run-go c cx elapsed i ev l ms next e))
  | inr (inr e) ↦
      run-skip c cx elapsed i ev l ls e ∙ (same i ev ∙ sym (run-skip c cx elapsed i ev l ms e))
]

-- A refusal ends the walk, in warn mode too.
pub layer_step-deny :
    (c : Chain) (cx : RequestContext) (us : ℕ) (l : PolicyLayer) (ev : Evidence) (r : Reason)
    → skipped cx l ≡ false
    → l.evaluate cx ev ≡ ok (Verdict.deny r)
    → layer_step c cx us l ev
      ≡ stop (
          terminate c.warn_only Action.deny r
            (push_outcome (outcome_of l.name (lit "deny") (us % 2 ^ 64) r) ev))
unfolding layer_step on_answer
layer_step-deny c cx us l ev r runs answer = simp (runs, answer)

pub layer_step-skip :
    (c : Chain) (cx : RequestContext) (us : ℕ) (l : PolicyLayer) (ev : Evidence)
    → skipped cx l ≡ true
    → layer_step c cx us l ev ≡ skip
unfolding layer_step
layer_step-skip c cx us l ev off = rw (off, layer_step) refl
