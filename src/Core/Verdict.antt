-- ===== src/Core/Verdict.antt =====
-- crates/marshal-core/src/verdict.rs, and the action of audit.rs.
use bot_marshal.Prelude.{Text, Option, none, some, Bool, true, false, lit}
use bot_marshal.Core.Evidence.{Evidence}
use bot_marshal.Core.Request.{RequestContext}

pub data Action : Type 0 where
  allow deny : Action

pub data Decision : Type 0 where
  deny allow : Decision

pub record Reason : Type 0 where
  pub layer : Text
  pub code : Text
  pub message : Text
  pub rule : Option Text
  pub cached : Bool

abbrev pub reason : Text → Text → Text → Reason
reason layer code message = record {
  layer = layer;
  code = code;
  message = message;
  rule = none;
  cached = false;
}

abbrev pub with_rule : Text → Reason → Reason
with_rule rule r = record r { rule = some rule }

abbrev pub mark_cached : Reason → Reason
mark_cached r = record r { cached = true }

pub record ApprovalRequest : Type 0 where
  pub layer : Text
  pub summary : Text
  pub evidence : Evidence

pub data Verdict : Type 0 where
  allow deny : Reason → Verdict
  pass : Evidence → Verdict
  defer : ApprovalRequest → Verdict

unfoldable pub is_terminal : Verdict → Bool
is_terminal (pass ev) = false
is_terminal (allow r) = true
is_terminal (deny r) = true
is_terminal (defer req) = true

-- `trait Decider`: what turns a deferred request into a verdict.
abbrev pub Decider : Type 0
Decider = RequestContext → ApprovalRequest → Verdict

-- `DenyingDecider::decide`.
unfoldable pub denying_decider : Decider
denying_decider cx req = deny (
    reason req.layer (lit "approval_unavailable")
      (lit "request was deferred for approval but no approval channel is configured"))
