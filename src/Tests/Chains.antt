-- ===== src/Tests/Chains.antt =====
-- The chain, at concrete profiles and requests.
use bot_marshal.Prelude.{ℕ, true, false, [], ◌∷◌, ◌≡◌, refl, ◌↔◌, lit}
use bot_marshal.Core.Evidence.{empty}
use bot_marshal.Policy.Chain.{Chain, set_warn_only, evaluate, layer_step, terminate}
use bot_marshal.Policy.Chain.Runs.{Shows, evaluate_iff}
use bot_marshal.Policy.Chain.Warn.{overridden, evaluate-warn}
use bot_marshal.Policy.Chain.Connect.{without_request_layers, evaluate-connect}
use bot_marshal.Policy.Chain.Allows.{Authorised, evaluate-Authorised}
use bot_marshal.Policy.Layers.Destination.{denylist}
use bot_marshal.Tests.Data.{test_net, hosts, to_host, to_connect, open_layer, chain_of}

abbrev guarded : Chain
guarded = chain_of (denylist test_net hosts ∷ open_layer ∷ [])

abbrev open_chain : Chain
open_chain = chain_of (open_layer ∷ [])

abbrev clock : ℕ → ℕ
clock i = 7

evaluate_iff_example :
    (evaluate guarded (to_host (lit "a.b")) clock ≡ evaluate guarded (to_host (lit "a.b")) clock)
    ↔ Shows guarded
        (to_host (lit "a.b"))
        clock
        0
        empty
        guarded.layers
        (evaluate guarded (to_host (lit "a.b")) clock)
evaluate_iff_example =
    evaluate_iff guarded (to_host (lit "a.b")) clock (evaluate guarded (to_host (lit "a.b")) clock)

evaluate-warn_example :
    evaluate (set_warn_only true guarded) (to_host (lit "a.b")) clock
    ≡ overridden (evaluate (set_warn_only false guarded) (to_host (lit "a.b")) clock)
evaluate-warn_example = evaluate-warn guarded (to_host (lit "a.b")) clock

evaluate-Authorised_example :
    Authorised open_chain
      (to_host (lit "x.y"))
      clock
      (evaluate open_chain (to_host (lit "x.y")) clock)
unfolding evaluate layer_step terminate
evaluate-Authorised_example = evaluate-Authorised open_chain (to_host (lit "x.y")) clock refl

evaluate-connect_example :
    evaluate guarded (to_connect (lit "x.y")) clock
    ≡ evaluate (without_request_layers guarded) (to_connect (lit "x.y")) clock
evaluate-connect_example = evaluate-connect guarded (to_connect (lit "x.y")) clock refl
