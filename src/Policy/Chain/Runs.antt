-- ===== src/Policy/Chain/Runs.antt =====
-- The walk over the layers: the first layer that rules decides, else the default does.
use bot_marshal.Prelude.{
  ℕ, suc, List, [], ◌∷◌, ◌++◌, ◌≡◌, refl, sym, ap, ◌∙◌, append-nil, ◌↔◌, ◌⊎◌, inl, inr, subst,
}
use bot_marshal.Core.Evidence.{Evidence}
use bot_marshal.Core.Layer.{PolicyLayer}
use bot_marshal.Core.Request.{RequestContext}
use bot_marshal.Core.Verdict.{Action, Reason}
use bot_marshal.Policy.Chain.Rules.{
  shown, HandsOn, Rules, RulesByDefault, IsRun, IsSkipped, Explained,
}
use bot_marshal.Policy.Chain.Explains.{
  layer_step-Explained, layer_step-Rules, layer_step-HandsOn, finish-RulesByDefault,
  finish-Explained, skipped-IsRun, IsRun-skipped, skipped-IsSkipped, IsSkipped-skipped,
}
use bot_marshal.Policy.Chain.Steps.{Step-cases, run-stop, run-go, run-skip, layer_step-skip}
use bot_marshal.Policy.Chain.{Chain, Outcome, layer_step, run, evaluate}

module _ (c : Chain) (cx : RequestContext) (elapsed : ℕ → ℕ) where
  -- The layers of a list all hand on or are skipped: from evaluation `i` with some evidence to `j`
  -- with other.
  pub data Through : ℕ → Evidence → List PolicyLayer → ℕ → Evidence → Type 0 where
    here : {i : ℕ} {ev : Evidence} → Through i ev [] i ev
    passing :
        {i j : ℕ} {ev next last : Evidence} {l : PolicyLayer} {ls : List PolicyLayer}
        → IsRun c cx l
        → HandsOn c cx l (elapsed i) ev next
        → Through (suc i) next ls j last
        → Through i ev (l ∷ ls) j last
    skipping :
        {i j : ℕ} {ev last : Evidence} {l : PolicyLayer} {ls : List PolicyLayer}
        → IsSkipped c cx l
        → Through i ev ls j last
        → Through i ev (l ∷ ls) j last

  -- A layer that is run rules, after all before it handed on.
  pub record Decided (i : ℕ) (ev : Evidence) (ls : List PolicyLayer) (a : Action) (r : Reason)
      (last : Evidence) : Type 0 where
    pub before : List PolicyLayer
    pub decider : PolicyLayer
    pub behind : List PolicyLayer
    pub at : ℕ
    pub seen : Evidence
    pub split : ls ≡ before ++ decider ∷ behind
    pub through : Through i ev before at seen
    pub runs : IsRun c cx decider
    pub rules : Rules c cx decider (elapsed at) seen a r last

  -- Every layer hands on, and the default rules.
  pub record Exhausted (i : ℕ) (ev : Evidence) (ls : List PolicyLayer) (a : Action) (r : Reason)
      (last : Evidence) : Type 0 where
    pub at : ℕ
    pub through : Through i ev ls at last
    pub default : RulesByDefault c cx a r

  abbrev pub Ruled : ℕ → Evidence → List PolicyLayer → Action → Reason → Evidence → Type 0
  Ruled i ev ls a r last = Decided i ev ls a r last ⊎ Exhausted i ev ls a r last

  run-Through :
      {i j : ℕ} {ev last : Evidence} {before : List PolicyLayer} (rest : List PolicyLayer)
      → Through i ev before j last
      → run c cx elapsed i ev (before ++ rest) ≡ run c cx elapsed j last rest
  run-Through rest here = refl
  run-Through rest (passing {l} on h t) =
      run-go c cx elapsed _ _ _ _ _ (layer_step-HandsOn c cx _ _ _ _ (IsRun-skipped c cx l on) h)
      ∙ run-Through rest t
  run-Through rest (skipping {l} off t) =
      run-skip c cx elapsed _ _ _ _ (layer_step-skip c cx _ _ _ (IsSkipped-skipped c cx l off))
      ∙ run-Through rest t

  Ruled-passing :
      {i : ℕ} {ev next last : Evidence} {l : PolicyLayer} {ls : List PolicyLayer} {a : Action}
      {r : Reason}
      → IsRun c cx l
      → HandsOn c cx l (elapsed i) ev next
      → Ruled (suc i) next ls a r last
      → Ruled i ev (l ∷ ls) a r last
  Ruled-passing {l} on h (inl d) = inl (record {
    before = l ∷ d.before;
    decider = d.decider;
    behind = d.behind;
    at = d.at;
    seen = d.seen;
    split = ap (λ (r : List PolicyLayer). l ∷ r) d.split;
    through = passing on h d.through;
    runs = d.runs;
    rules = d.rules;
  })
  Ruled-passing on h (inr x) =
      inr (record { at = x.at; through = passing on h x.through; default = x.default })

  Ruled-skipping :
      {i : ℕ} {ev last : Evidence} {l : PolicyLayer} {ls : List PolicyLayer} {a : Action}
      {r : Reason}
      → IsSkipped c cx l
      → Ruled i ev ls a r last
      → Ruled i ev (l ∷ ls) a r last
  Ruled-skipping {l} off (inl d) = inl (record {
    before = l ∷ d.before;
    decider = d.decider;
    behind = d.behind;
    at = d.at;
    seen = d.seen;
    split = ap (λ (r : List PolicyLayer). l ∷ r) d.split;
    through = skipping off d.through;
    runs = d.runs;
    rules = d.rules;
  })
  Ruled-skipping off (inr x) =
      inr (record { at = x.at; through = skipping off x.through; default = x.default })

  -- An outcome shows a ruling of the layers or of the default.
  abbrev pub Shows : ℕ → Evidence → List PolicyLayer → Outcome → Type 0
  Shows i ev ls o =
      (a : Action) × (r : Reason) × (last : Evidence) × Ruled i ev ls a r last
      × (shown c.warn_only a r last ≡ o)

  pub run-Shows :
      (i : ℕ) (ev : Evidence) (ls : List PolicyLayer) → Shows i ev ls (run c cx elapsed i ev ls)
  unfolding run
  run-Shows i ev [] =
      let (a, r, rule, same) = finish-Explained c cx ev in
      (a, r, ev, inr (record { at = i; through = here; default = rule }), same)
  run-Shows i ev (l ∷ ls) =
      let told = layer_step-Explained c cx (elapsed i) l ev in
      elim (Step-cases (layer_step c cx (elapsed i) l ev)) [
        | inl (o, e) ↦
            let (on, a, r, last, rule, same) = subst (Explained c cx (elapsed i) l ev) e told in
            (
              a,
              r,
              last,
              inl (record {
                before = [];
                decider = l;
                behind = ls;
                at = i;
                seen = ev;
                split = refl;
                through = here;
                runs = skipped-IsRun c cx l on;
                rules = rule;
              }),
              same ∙ sym (run-stop c cx elapsed i ev l ls o e),
            )
        | inr (inl (next, e)) ↦
            let (on, h) = subst (Explained c cx (elapsed i) l ev) e told in
            let (a, r, last, ruling, same) = run-Shows (suc i) next ls in
            (
              a,
              r,
              last,
              Ruled-passing (skipped-IsRun c cx l on) h ruling,
              same ∙ sym (run-go c cx elapsed i ev l ls next e),
            )
        | inr (inr e) ↦
            let off = subst (Explained c cx (elapsed i) l ev) e told in
            let (a, r, last, ruling, same) = run-Shows i ev ls in
            (
              a,
              r,
              last,
              Ruled-skipping (skipped-IsSkipped c cx l off) ruling,
              same ∙ sym (run-skip c cx elapsed i ev l ls e),
            )
      ]

  run-end :
      (j : ℕ) (last : Evidence) (a : Action) (r : Reason)
      → RulesByDefault c cx a r
      → run c cx elapsed j last [] ≡ shown c.warn_only a r last
  unfolding run
  run-end j last a r rule = finish-RulesByDefault c cx last a r rule

  run-Ruled :
      (i : ℕ) (ev : Evidence) (ls : List PolicyLayer) (a : Action) (r : Reason) (last : Evidence)
      → Ruled i ev ls a r last
      → run c cx elapsed i ev ls ≡ shown c.warn_only a r last
  run-Ruled i ev ls a r last (inl d) =
      ap (run c cx elapsed i ev) d.split
      ∙ run-Through (d.decider ∷ d.behind) d.through
      ∙ run-stop c cx elapsed d.at d.seen d.decider d.behind _ (
          layer_step-Rules c cx (elapsed d.at) d.decider d.seen a r last
            (IsRun-skipped c cx d.decider d.runs) d.rules)
  run-Ruled i ev ls a r last (inr x) =
      ap (run c cx elapsed i ev) (sym (append-nil ls))
      ∙ run-Through [] x.through
      ∙ run-end x.at last a r x.default

-- The outcome is what the first layer that rules says, by its verdict, its failure mode or the decider, after
-- every layer before it was skipped, passed, or failed and was to be passed over; or what the default
-- says, if no layer rules. In warn mode a refusal is shown as an allow that is marked. That determines it.
pub evaluate_iff :
    (c : Chain) (cx : RequestContext) (elapsed : ℕ → ℕ) (o : Outcome)
    → (evaluate c cx elapsed ≡ o) ↔ Shows c cx elapsed 0 cx.evidence c.layers o
unfolding evaluate
evaluate_iff c cx elapsed o = (
  λ e.
      subst (Shows c cx elapsed 0 cx.evidence c.layers) e
        (run-Shows c cx elapsed 0 cx.evidence c.layers),
  λ (a, r, last, ruling, same).
      run-Ruled c cx elapsed 0 cx.evidence c.layers a r last ruling ∙ same,
)
