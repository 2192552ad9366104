-- ===== src/Judge/Layer/Asks.antt =====
-- Who is shown a request, and who can let it through.
use bot_marshal.Prelude.{
  ℕ, Text, none, some, Bool, true, false, ◌&&◌, [], ◌∷◌, ◌≡◌, refl, ◌⊎◌, inl, inr, is_none,
  Bool-cases, Option-cases, Result, ok, err, if◌then◌else◌,
}
use bot_marshal.Core.Evidence.{Evidence}
use bot_marshal.Core.Hosts.{NetLib}
use bot_marshal.Core.Layer.{FailureMode}
use bot_marshal.Core.Request.{RequestContext}
use bot_marshal.Core.Verdict.{Reason, Verdict}
use bot_marshal.Judge.Breaker.{allows_call}
use bot_marshal.Judge.Scope.{governs}
use bot_marshal.Judge.Layer.{
  Decision, JudgeVerdict, JudgeRequest, JudgeLib, Judge, State, cache_key, to_verdict,
  apply_failure, judge_request, conclude, call_provider, ask, judge_evaluate,
}

Decision-to_verdict :
    (d : Decision) (why : Text) (ev : Evidence) (cached : Bool) (r : Reason)
    → to_verdict (record { decision = d; reason = why }) ev cached ≡ Verdict.allow r
    → d ≡ Decision.allow
unfolding to_verdict
Decision-to_verdict Decision.allow why ev cached r e = refl
Decision-to_verdict Decision.deny why ev cached r e = cc
Decision-to_verdict Decision.pass why ev cached r e = cc

FailureMode-apply_failure :
    (mode : FailureMode) (ev : Evidence) (why : Text) (r : Reason)
    → apply_failure mode ev why ≡ Verdict.allow r
    → mode ≡ FailureMode.allow
unfolding apply_failure
FailureMode-apply_failure FailureMode.allow ev why r e = refl
FailureMode-apply_failure FailureMode.deny ev why r e = cc
FailureMode-apply_failure FailureMode.pass ev why r e = cc

module _ (net : NetLib) (jl : JudgeLib) (j : Judge net.Net) where
  -- The provider, asked with the configured limit, answers with this verdict.
  abbrev pub Responds : JudgeRequest → JudgeVerdict → Type 0
  Responds request v = elim j.timeout [
    | none ↦ jl.judge request j.prompt ≡ ok v
    | some t ↦ jl.judge_within t request j.prompt ≡ some (ok v)
  ]

  -- What an allowed request rests on: the provider's answer or the configuration.
  abbrev pub Permitted : JudgeRequest → Type 0
  Permitted request =
      ((v : JudgeVerdict) × (v.decision ≡ Decision.allow) × Responds request v)
      ⊎ ((j.on_error ≡ FailureMode.allow) ⊎ (j.on_timeout ≡ FailureMode.allow))

  conclude-allow :
      (done : ℕ) (ev : Evidence) (request : JudgeRequest) (o : Result Text JudgeVerdict)
      (s : State jl.Cache) (r : Reason)
      → (conclude net jl j done ev request o s).0 ≡ Verdict.allow r
      → ((v : JudgeVerdict) × (v.decision ≡ Decision.allow) × (o ≡ ok v))
        ⊎ (j.on_error ≡ FailureMode.allow)
  unfolding conclude
  conclude-allow done ev request (ok v) s r e =
      inl (v, Decision-to_verdict v.decision v.reason ev false r e, refl)
  conclude-allow done ev request (err why) s r e =
      inr (FailureMode-apply_failure j.on_error ev why r e)

  call_provider-allow :
      (done : ℕ) (ev : Evidence) (request : JudgeRequest) (s : State jl.Cache) (r : Reason)
      → (call_provider net jl j done ev request s).0 ≡ Verdict.allow r
      → Permitted request
  unfolding call_provider
  call_provider-allow done ev request s r e = elim (Option-cases j.timeout) [
    | inl unlimited ↦
        elim (conclude-allow done ev request _ s r (rw (unlimited, call_provider) at e)) [
          | inl (v, good, told) ↦ inl (v, good, rw unlimited told)
          | inr lenient ↦ inr (inl lenient)
        ]
    | inr (t, limited) ↦ elim (Option-cases (jl.judge_within t request j.prompt)) [
      | inl late ↦ inr (
          inr (
            FailureMode-apply_failure j.on_timeout ev _ r (rw (limited, call_provider, late) at e)))
      | inr (o, told) ↦
          elim (conclude-allow done ev request o s r (rw (limited, call_provider, told) at e)) [
            | inl (v, good, same) ↦ inl (v, good, rw limited (rw same at told))
            | inr lenient ↦ inr (inl lenient)
          ]
    ]
  ]

  ask-allow :
      (now done : ℕ) (ev : Evidence) (request : JudgeRequest) (s : State jl.Cache) (r : Reason)
      → (ask net jl j now done ev request s).answer ≡ Verdict.allow r
      → Permitted request
  unfolding ask
  ask-allow now done ev request s r e = elim (Bool-cases (allows_call now s.breaker).0) [
    | inl closed ↦ call_provider-allow done ev request _ r (rw (closed, ask) at e)
    | inr shut ↦ inr (inl (FailureMode-apply_failure j.on_error ev _ r (rw (shut, ask) at e)))
  ]

  -- If the judge lets a request through, then it is in scope and either a cached verdict or the
  -- provider's own answer says allow, or a failure mode is configured to allow.
  pub judge_evaluate-allow :
      (now done : ℕ) (cx : RequestContext) (ev : Evidence) (s : State jl.Cache) (r : Reason)
      → (judge_evaluate net jl j now done cx ev s).answer ≡ Verdict.allow r
      → (governs net j.scope cx.authority.host cx.method ≡ true)
        × (((v : JudgeVerdict) × (v.decision ≡ Decision.allow)
              × (jl.cache_get now (cache_key (judge_request cx)) s.cache ≡ some v))
            ⊎ Permitted (judge_request cx))
  unfolding judge_evaluate
  judge_evaluate-allow now done cx ev s r e =
      elim (Bool-cases (governs net j.scope cx.authority.host cx.method)) [
        | inl covered ↦
            elim (Option-cases (jl.cache_get now (cache_key (judge_request cx)) s.cache)) [
              | inl miss ↦ (
                covered,
                inr (
                    ask-allow now done ev (judge_request cx) s r
                      (rw (covered, judge_evaluate, miss) at e)),
              )
              | inr (v, hit) ↦ (
                covered,
                inl (
                  v,
                  Decision-to_verdict v.decision v.reason ev true r
                      (rw (covered, judge_evaluate, hit) at e),
                  hit,
                ),
              )
            ]
        | inr outside ↦ let f = rw (outside, judge_evaluate) at e in cc
      ]

  -- The provider is shown a request exactly when it is in scope, not in the cache, and the breaker
  -- allows a call; it is then shown that request, once.
  pub judge_evaluate-asked :
      (now done : ℕ) (cx : RequestContext) (ev : Evidence) (s : State jl.Cache)
      → (judge_evaluate net jl j now done cx ev s).asked ≡ (
          if governs net j.scope cx.authority.host cx.method
            && (is_none (jl.cache_get now (cache_key (judge_request cx)) s.cache)
                && (allows_call now s.breaker).0)
          then judge_request cx ∷ []
          else [])
  unfolding judge_evaluate ask
  judge_evaluate-asked now done cx ev s =
      elim (Bool-cases (governs net j.scope cx.authority.host cx.method)) [
        | inl covered ↦
            elim (Option-cases (jl.cache_get now (cache_key (judge_request cx)) s.cache)) [
              | inl miss ↦ elim (Bool-cases (allows_call now s.breaker).0) [
                | inl closed ↦ rw (covered, judge_evaluate, miss, ask, closed) refl
                | inr shut ↦ rw (covered, judge_evaluate, miss, ask, shut) refl
              ]
              | inr (v, hit) ↦ rw (covered, judge_evaluate, hit) refl
            ]
        | inr outside ↦ rw (outside, judge_evaluate) refl
      ]
