-- ===== src/Judge/Layer.antt =====
-- crates/marshal-judge/src/judge.rs and request.rs. The provider, its time limit and the cache (the
-- crate moka) are parameters. Waiting for a permit of the semaphore changes no result and is left out.
pub mod Asks
pub mod Caches
use bot_marshal.Prelude.{
  ℕ, Text, Option, none, some, Bool, true, false, List, [], ◌∷◌, ◌++◌, map, Result, ok, err, lit,
  join, text_eq, text_lt, to_ascii_lowercase, if◌then◌else◌,
}
use bot_marshal.Core.Error.{Error}
use bot_marshal.Core.Json.{Json, string}
use bot_marshal.Core.Evidence.{Evidence, record_fact}
use bot_marshal.Core.Hosts.{NetLib}
use bot_marshal.Core.Layer.{FailureMode}
use bot_marshal.Core.Request.{RequestContext, header_keys}
use bot_marshal.Core.Verdict.{Reason, reason, mark_cached, Verdict}
use bot_marshal.Judge.Breaker.{CircuitBreaker, allows_call, record_success, record_failure}
use bot_marshal.Judge.Scope.{CompiledScope, governs}

pub data Decision : Type 0 where
  allow deny pass : Decision

pub record JudgeVerdict : Type 0 where
  pub decision : Decision
  pub reason : Text

pub record JudgeRequest : Type 0 where
  pub method : Text
  pub host : Text
  pub path : Text
  pub header_names : List Text

unfoldable pub cache_key : JudgeRequest → Text
cache_key r =
    r.method
    ++ (lit " "
        ++ (r.host
            ++ (lit " " ++ (r.path ++ (lit " [" ++ (join (lit ",") r.header_names ++ lit "]"))))))

-- `judge` is `Provider::judge`, awaited; `judge_within` is the same under `tokio::time::timeout`, and
-- none when the time runs out. An error is its text.
pub record JudgeLib : Type 1 where
  pub judge : JudgeRequest → Text → Result Text JudgeVerdict
  pub judge_within : ℕ → JudgeRequest → Text → Option (Result Text JudgeVerdict)
  pub debug_duration : ℕ → Text
  pub Cache : Type 0
  pub cache_get : ℕ → Text → Cache → Option JudgeVerdict
  pub cache_insert : ℕ → Text → JudgeVerdict → Cache → Cache

-- The fields that no call changes, and those that a call may change.
pub record Judge (Net : Type 0) : Type 0 where
  pub scope : List (CompiledScope Net)
  pub prompt : Text
  pub timeout : Option ℕ
  pub on_error : FailureMode
  pub on_timeout : FailureMode

pub record State (Cache : Type 0) : Type 0 where
  pub cache : Cache
  pub breaker : CircuitBreaker

-- A call's answer, the state after it, and the requests that the provider was shown.
pub record Answer (Cache : Type 0) : Type 0 where
  pub answer : Verdict
  pub state : State Cache
  pub asked : List JudgeRequest

abbrev decision_code : Decision → Text
decision_code allow = lit "judge_allowed"
decision_code deny = lit "judge_denied"
decision_code pass = lit "judge_uncertain"

unfoldable pub to_verdict : JudgeVerdict → Evidence → Bool → Verdict
to_verdict verdict ev cached =
    let fresh = reason (lit "judge") (decision_code verdict.decision) verdict.reason in
    let r = if cached then mark_cached fresh else fresh in
    elim verdict.decision [
      | allow ↦ Verdict.allow r
      | deny ↦ Verdict.deny r
      | pass ↦ Verdict.pass (record_fact (lit "judge.pass_reason") (string verdict.reason) ev).0
    ]

unfoldable pub apply_failure : FailureMode → Evidence → Text → Verdict
apply_failure mode ev why = elim mode [
  | FailureMode.deny ↦ Verdict.deny (reason (lit "judge") (lit "judge_unavailable") why)
  | FailureMode.allow ↦ Verdict.allow (reason (lit "judge") (lit "judge_unavailable") why)
  | FailureMode.pass ↦ Verdict.pass ev
]

-- `sort` and `dedup` of the names.
insert_sorted : Text → List Text → List Text
insert_sorted t [] = t ∷ []
insert_sorted t (u ∷ us) =
    let rest = insert_sorted t us in if text_lt u t then u ∷ rest else t ∷ u ∷ us

sort : List Text → List Text
unfolding insert_sorted
sort [] = []
sort (t ∷ ts) = insert_sorted t (sort ts)

dedup : List Text → List Text
dedup [] = []
dedup (t ∷ []) = t ∷ []
dedup (t ∷ u ∷ us) = let rest = dedup (u ∷ us) in if text_eq t u then rest else t ∷ rest

unfoldable pub judge_request : RequestContext → JudgeRequest
unfolding sort dedup
judge_request cx = record {
  method = cx.method;
  host = cx.authority.host;
  path = cx.uri.path;
  header_names = dedup (sort (map to_ascii_lowercase (header_keys cx.headers)));
}

module _ (net : NetLib) (jl : JudgeLib) where
  open jl use {Cache, judge, judge_within, debug_duration, cache_get, cache_insert}

  -- Once the provider has answered.
  unfoldable pub conclude :
      Judge net.Net
      → (done : ℕ) → Evidence
      → JudgeRequest
      → Result Text JudgeVerdict
      → State Cache
      → Verdict × State Cache
  unfolding to_verdict apply_failure
  conclude j done ev request (ok verdict) s = (
    to_verdict verdict ev false,
    record {
      cache = cache_insert done (cache_key request) verdict s.cache;
      breaker = record_success s.breaker;
    },
  )
  conclude j done ev request (err e) s =
      (apply_failure j.on_error ev e, record s { breaker = record_failure done s.breaker })

  -- `match self.timeout`, and what follows.
  unfoldable pub call_provider :
      Judge net.Net → (done : ℕ) → Evidence → JudgeRequest → State Cache → Verdict × State Cache
  unfolding conclude
  call_provider j done ev request s = elim j.timeout [
    | none ↦ conclude j done ev request (judge request j.prompt) s
    | some t ↦ elim (judge_within t request j.prompt) [
      | some outcome ↦ conclude j done ev request outcome s
      | none ↦ (
        apply_failure j.on_timeout ev (lit "the judge did not respond within " ++ debug_duration t),
        record s { breaker = record_failure done s.breaker },
      )
    ]
  ]

  -- From the breaker's test on, for a request that is not in the cache.
  unfoldable pub ask :
      Judge net.Net → (now done : ℕ) → Evidence → JudgeRequest → State Cache → Answer Cache
  unfolding call_provider
  ask j now done ev request s =
      let tested = allows_call now s.breaker in
      let after : State Cache = record s { breaker = tested.1 } in
      if tested.0
      then (let called = call_provider j done ev request after in
          record { answer = called.0; state = called.1; asked = request ∷ [] })
      else record {
        answer =
            apply_failure j.on_error ev
              (lit "the judge's circuit breaker is open after repeated provider failures");
        state = after;
        asked = [];
      }

  -- `evaluate`, called at `now`; the provider's call is over at `done`.
  unfoldable pub judge_evaluate :
      Judge net.Net → (now done : ℕ) → RequestContext → Evidence → State Cache → Answer Cache
  unfolding ask
  judge_evaluate j now done cx ev s =
      if governs net j.scope cx.authority.host cx.method
      then elim (cache_get now (cache_key (judge_request cx)) s.cache) [
        | some v ↦ record { answer = to_verdict v ev true; state = s; asked = [] }
        | none ↦ ask j now done ev (judge_request cx) s
      ]
      else record { answer = Verdict.pass ev; state = s; asked = [] }
