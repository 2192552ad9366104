-- ===== src/Policy/Chain/Connect.antt =====
-- A CONNECT is decided by the layers that need no request.
use bot_marshal.Prelude.{
  ℕ, suc, ◌%◌, ◌^◌, Result, ok, err, Bool, true, List, [], ◌∷◌, ◌≡◌, refl, sym, ap, ◌∙◌, inl, inr,
  keep, keep-accepted, keep-refused, not, Bool-cases,
}
use bot_marshal.Core.Error.{Error}
use bot_marshal.Core.Evidence.{Evidence}
use bot_marshal.Core.Verdict.{Verdict}
use bot_marshal.Core.Layer.{PolicyLayer}
use bot_marshal.Core.Request.{RequestContext, connect}
use bot_marshal.Policy.Chain.Steps.{Step-cases, run-stop, run-go, run-skip, run-cong}
use bot_marshal.Policy.Chain.{Chain, skip, on_answer, layer_step, finish, run, evaluate}

abbrev pub destination_only : PolicyLayer → Bool
destination_only l = not l.needs_request

-- The chain with every layer that needs a request taken out.
abbrev pub without_request_layers : Chain → Chain
without_request_layers c = record c { layers = keep destination_only c.layers }

module _ (c : Chain) (cx : RequestContext) (elapsed : ℕ → ℕ) (connecting : cx.phase ≡ connect) where
  layer_step-needs_request :
      (us : ℕ) (l : PolicyLayer) (ev : Evidence)
      → l.needs_request ≡ true
      → layer_step c cx us l ev ≡ skip
  unfolding layer_step
  layer_step-needs_request us l ev e = rw (e, connecting) refl

  run-connect :
      (i : ℕ) (ev : Evidence) (ls : List PolicyLayer)
      → run c cx elapsed i ev ls ≡ run c cx elapsed i ev (keep destination_only ls)
  run-connect i ev [] = refl
  run-connect i ev (l ∷ ls) = elim (Bool-cases l.needs_request) [
    | inl e ↦
        run-skip c cx elapsed i ev l ls (layer_step-needs_request (elapsed i) l ev e)
        ∙ (run-connect i ev ls
            ∙ ap (run c cx elapsed i ev) (sym (keep-refused destination_only l ls (ap not e))))
    | inr e ↦
        run-cong c cx elapsed i ev l ls (keep destination_only ls) (λ j seen. run-connect j seen ls)
        ∙ ap (run c cx elapsed i ev) (sym (keep-accepted destination_only l ls (ap not e)))
  ]

on_answer-layers :
    (c : Chain) (cx : RequestContext) (l : PolicyLayer) (us : ℕ) (ev : Evidence)
    (r : Result Error Verdict)
    → on_answer (without_request_layers c) cx l us ev r ≡ on_answer c cx l us ev r
unfolding on_answer
on_answer-layers c cx l us ev (err e) = refl
on_answer-layers c cx l us ev (ok (Verdict.allow r)) = refl
on_answer-layers c cx l us ev (ok (Verdict.deny r)) = refl
on_answer-layers c cx l us ev (ok (Verdict.pass next)) = refl
on_answer-layers c cx l us ev (ok (Verdict.defer req)) = refl

layer_step-layers :
    (c : Chain) (cx : RequestContext) (us : ℕ) (l : PolicyLayer) (ev : Evidence)
    → layer_step (without_request_layers c) cx us l ev ≡ layer_step c cx us l ev
unfolding layer_step
layer_step-layers c cx us l ev =
    rw (on_answer-layers c cx l (us % 2 ^ 64) ev (l.evaluate cx ev)) refl

-- The walk takes its layers from its list, not from the chain.
run-layers :
    (c : Chain) (cx : RequestContext) (elapsed : ℕ → ℕ) (i : ℕ) (ev : Evidence)
    (ls : List PolicyLayer)
    → run (without_request_layers c) cx elapsed i ev ls ≡ run c cx elapsed i ev ls
unfolding run finish
run-layers c cx elapsed i ev [] = refl
run-layers c cx elapsed i ev (l ∷ ls) =
    let d = without_request_layers c in
    let same = layer_step-layers c cx (elapsed i) l ev in
    elim (Step-cases (layer_step c cx (elapsed i) l ev)) [
      | inl (o, e) ↦
          run-stop d cx elapsed i ev l ls o (same ∙ e) ∙ sym (run-stop c cx elapsed i ev l ls o e)
      | inr (inl (next, e)) ↦
          run-go d cx elapsed i ev l ls next (same ∙ e)
          ∙ (run-layers c cx elapsed (suc i) next ls ∙ sym (run-go c cx elapsed i ev l ls next e))
      | inr (inr e) ↦
          run-skip d cx elapsed i ev l ls (same ∙ e)
          ∙ (run-layers c cx elapsed i ev ls ∙ sym (run-skip c cx elapsed i ev l ls e))
    ]

-- On a CONNECT the layers that need a request have no effect: the outcome is that of the chain
-- without them.
pub evaluate-connect :
    (c : Chain) (cx : RequestContext) (elapsed : ℕ → ℕ)
    → cx.phase ≡ connect
    → evaluate c cx elapsed ≡ evaluate (without_request_layers c) cx elapsed
unfolding evaluate
evaluate-connect c cx elapsed connecting =
    run-connect c cx elapsed connecting 0 cx.evidence c.layers
    ∙ sym (run-layers c cx elapsed 0 cx.evidence (keep destination_only c.layers))
