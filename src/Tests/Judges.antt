-- ===== src/Tests/Judges.antt =====
-- The judge and its breaker, at concrete inputs.
use bot_marshal.Prelude.{
  ℕ, suc, ◌-◌, ◌≤◌, ◌<◌, max, Option, none, some, true, false, [], ◌∷◌, ◌≡◌, refl, ◌↔◌, ◌⊎◌, arith,
  ok, lit, text_eq, to_ascii_lowercase, trim, lower,
}
use bot_marshal.Core.Evidence.{empty}
use bot_marshal.Core.Hosts.{matches, normalise}
use bot_marshal.Core.Layer.{FailureMode}
use bot_marshal.Core.Verdict.{reason}
use bot_marshal.Judge.Breaker.{new, allows_call, failed, after}
use bot_marshal.Judge.Breaker.Opens.{failures_in_a_row, refused_iff}
use bot_marshal.Judge.Scope.{governs}
use bot_marshal.Judge.Layer.{
  Decision, JudgeVerdict, JudgeLib, Judge, State, cache_key, to_verdict, judge_request,
  judge_evaluate,
}
use bot_marshal.Judge.Layer.Asks.{Permitted, judge_evaluate-allow}
use bot_marshal.Judge.Layer.Caches.{judge_evaluate-again}
use bot_marshal.Tests.Data.{test_net, hosts, to_host}

refused_iff_example :
    ((allows_call 8 (after (failed 5 ∷ failed 3 ∷ []) (new 2 10))).0 ≡ false)
    ↔ ((max 2 1 ≤ suc (failures_in_a_row (failed 3 ∷ []))) × (8 - 5 < 10))
refused_iff_example = refused_iff 2 10 8 5 (failed 3 ∷ []) (omega arith)

abbrev yes_verdict : JudgeVerdict
yes_verdict = record { decision = Decision.allow; reason = lit "fine" }

-- A cache that holds the last verdict, and a provider that allows everything.
abbrev judge_lib : JudgeLib
judge_lib = record {
  judge = λ request prompt. ok yes_verdict;
  judge_within = λ t request prompt. some (ok yes_verdict);
  debug_duration = λ t. lit "2s";
  Cache = Option JudgeVerdict;
  cache_get = λ now key c. c;
  cache_insert = λ now key v c. some v;
}

abbrev judge_layer : Judge ℕ
judge_layer = record {
  scope = record { hosts = hosts; methods = [] } ∷ [];
  prompt = lit "prompt";
  timeout = some 2;
  on_error = FailureMode.deny;
  on_timeout = FailureMode.deny;
}

abbrev fresh : State (Option JudgeVerdict)
fresh = record { cache = none; breaker = new 2 10 }

judge_evaluate-allow_example :
    (governs test_net judge_layer.scope (lit "a.b") (lit "GET") ≡ true)
    × (((v : JudgeVerdict) × (v.decision ≡ Decision.allow)
          × (judge_lib.cache_get 1 (cache_key (judge_request (to_host (lit "a.b")))) none ≡ some v))
        ⊎ Permitted test_net judge_lib judge_layer (judge_request (to_host (lit "a.b"))))
unfolding judge_evaluate governs allows_call new matches normalise text_eq to_ascii_lowercase trim
    lit lower
judge_evaluate-allow_example =
    judge_evaluate-allow test_net judge_lib judge_layer 1 2 (to_host (lit "a.b")) empty fresh
      (reason (lit "judge") (lit "judge_allowed") (lit "fine")) refl

judge_evaluate-again_example :
    let first =
      judge_evaluate test_net judge_lib judge_layer 1 2 (to_host (lit "a.b")) empty fresh in
    let again =
      judge_evaluate test_net judge_lib judge_layer 3 4 (to_host (lit "a.b")) empty first.state in
    (first.answer ≡ to_verdict yes_verdict empty false)
    × (again.answer ≡ to_verdict yes_verdict empty true)
    × (again.asked ≡ [])
    × (again.state ≡ first.state)
unfolding governs allows_call new matches normalise text_eq to_ascii_lowercase trim lit lower
judge_evaluate-again_example =
    judge_evaluate-again test_net judge_lib judge_layer 1 2 3 4 (to_host (lit "a.b")) empty empty
      fresh yes_verdict refl refl refl refl refl
