-- ===== src/Judge/Layer/Caches.antt =====
-- A verdict that the provider gave is not asked for again while the cache holds it.
use bot_marshal.Prelude.{
  ℕ, none, some, true, false, [], ◌∷◌, ◌≡◌, refl, ap, ◌∙◌, inl, inr, Option-cases,
}
use bot_marshal.Core.Evidence.{Evidence}
use bot_marshal.Core.Hosts.{NetLib}
use bot_marshal.Core.Request.{RequestContext}
use bot_marshal.Judge.Breaker.{record_success, allows_call}
use bot_marshal.Judge.Scope.{governs}
use bot_marshal.Judge.Layer.{
  JudgeVerdict, JudgeRequest, JudgeLib, Judge, State, Answer, cache_key, to_verdict, judge_request,
  conclude, call_provider, ask, judge_evaluate,
}
use bot_marshal.Judge.Layer.Asks.{Responds}

module _ (net : NetLib) (jl : JudgeLib) (j : Judge net.Net) where
  call_provider-Responds :
      (done : ℕ) (ev : Evidence) (request : JudgeRequest) (s : State jl.Cache) (v : JudgeVerdict)
      → Responds net jl j request v
      → call_provider net jl j done ev request s ≡ (
        to_verdict v ev false,
        record {
          cache = jl.cache_insert done (cache_key request) v s.cache;
          breaker = record_success s.breaker;
        },
      )
  unfolding call_provider conclude
  call_provider-Responds done ev request s v told = elim (Option-cases j.timeout) [
    | inl unlimited ↦ rw (unlimited, call_provider, (rw unlimited at told)) refl
    | inr (t, limited) ↦ rw (limited, call_provider, (rw limited at told)) refl
  ]

  judge_evaluate-hit :
      (now done : ℕ) (cx : RequestContext) (ev : Evidence) (s : State jl.Cache) (v : JudgeVerdict)
      → governs net j.scope cx.authority.host cx.method ≡ true
      → jl.cache_get now (cache_key (judge_request cx)) s.cache ≡ some v
      → judge_evaluate net jl j now done cx ev s
        ≡ record { answer = to_verdict v ev true; state = s; asked = [] }
  unfolding judge_evaluate
  judge_evaluate-hit now done cx ev s v covered hit = rw (covered, judge_evaluate, hit) refl

  -- When the provider answers a request that is in scope, was not cached and may be asked for, and the cache
  -- that the verdict was put into still has it under the request's key later, the first answer is that
  -- verdict, and the same request gets it again, marked as cached, with nobody asked and the state as it was.
  pub judge_evaluate-again :
      (now done later done' : ℕ) (cx : RequestContext) (ev ev' : Evidence) (s : State jl.Cache)
      (v : JudgeVerdict)
      → governs net j.scope cx.authority.host cx.method ≡ true
      → jl.cache_get now (cache_key (judge_request cx)) s.cache ≡ none
      → (allows_call now s.breaker).0 ≡ true
      → Responds net jl j (judge_request cx) v
      → jl.cache_get later
          (cache_key (judge_request cx))
          (jl.cache_insert done (cache_key (judge_request cx)) v s.cache)
        ≡ some v
      → let first = judge_evaluate net jl j now done cx ev s in
        let again = judge_evaluate net jl j later done' cx ev' first.state in
        (first.answer ≡ to_verdict v ev false)
        × (again.answer ≡ to_verdict v ev' true)
        × (again.asked ≡ [])
        × (again.state ≡ first.state)
  unfolding judge_evaluate ask
  judge_evaluate-again now done later done' cx ev ev' s v covered miss closed told held =
      let called =
        call_provider-Responds done ev (judge_request cx)
          (record s { breaker = (allows_call now s.breaker).1 }) v told in
      let first : judge_evaluate net jl j now done cx ev s ≡ record {
        answer = to_verdict v ev false;
        state = record {
          cache = jl.cache_insert done (cache_key (judge_request cx)) v s.cache;
          breaker = record_success (allows_call now s.breaker).1;
        };
        asked = judge_request cx ∷ [];
      } =
        rw (covered, judge_evaluate, miss, ask, closed) (rw called refl) in
      let hit =
        ap
          (λ (a : Answer jl.Cache). jl.cache_get later (cache_key (judge_request cx)) a.state.cache)
          first
        ∙ held in
      let again =
        judge_evaluate-hit later done' cx ev' (judge_evaluate net jl j now done cx ev s).state v
          covered hit in
      (
        ap (λ (a : Answer jl.Cache). a.answer) first,
        ap (λ (a : Answer jl.Cache). a.answer) again,
        ap (λ (a : Answer jl.Cache). a.asked) again,
        ap (λ (a : Answer jl.Cache). a.state) again,
      )
