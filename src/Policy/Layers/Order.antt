-- ===== src/Policy/Layers/Order.antt =====
-- Ordering is semantic: what a denylist in front refuses, nothing behind it can allow.
use bot_marshal.Prelude.{ℕ, some, false, List, ◌∷◌, ◌≡◌, refl, ap, ◌∙◌}
use bot_marshal.Core.Hosts.{NetLib, HostMatcher, MatchKind, rule, matches}
use bot_marshal.Core.Request.{RequestContext}
use bot_marshal.Core.Layer.{PolicyLayer}
use bot_marshal.Core.Verdict.{Action}
use bot_marshal.Policy.Chain.{Chain, terminate, run, evaluate}
use bot_marshal.Policy.Chain.Steps.{run-stop, layer_step-deny}
use bot_marshal.Policy.Layers.Destination.{denylist, denylist-listed, denied, denied-rule}

-- A chain outside warn mode that begins with a denylist refuses a host that the list names, whatever the layers behind
-- it, the default action and the decider; the reason carries the rule that matched.
pub denylist_first :
    (net : NetLib) (m : HostMatcher net.Net) (c : Chain) (cx : RequestContext) (elapsed : ℕ → ℕ)
    (behind : List PolicyLayer) (kind : MatchKind)
    → c.layers ≡ denylist net m ∷ behind
    → c.warn_only ≡ false
    → matches net m cx.authority.host ≡ some kind
    → ((evaluate c cx elapsed).action ≡ Action.deny)
      × ((evaluate c cx elapsed).reason.rule ≡ some (rule kind))
unfolding evaluate terminate denylist
denylist_first net m c cx elapsed behind kind first enforced listed =
    let l = denylist net m in
    let step =
      layer_step-deny c cx (elapsed 0) l cx.evidence (denied cx.authority.host kind) refl
        (denylist-listed net m cx cx.evidence kind listed) in
    let ran =
      ap (run c cx elapsed 0 cx.evidence) first
      ∙ run-stop c cx elapsed 0 cx.evidence l behind _ step in
    rw ran (rw enforced (refl, denied-rule net cx.authority.host kind))
