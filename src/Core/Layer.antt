-- ===== src/Core/Layer.antt =====
-- crates/marshal-core/src/policy.rs: what a policy layer is, and what it asks of a body.
use bot_marshal.Prelude.{ℕ, Text, Bool, true, false, max, Result}
use bot_marshal.Core.Error.{Error}
use bot_marshal.Core.Evidence.{Evidence}
use bot_marshal.Core.Request.{RequestContext}
use bot_marshal.Core.Verdict.{Verdict}

pub data CostClass : Type 0 where
  trivial cheap moderate expensive : CostClass

pub data FailureMode : Type 0 where
  deny pass allow : FailureMode

pub data BodyRequirement : Type 0 where
  streaming : BodyRequirement
  buffered : (cap : ℕ) → BodyRequirement

unfoldable pub buffers : BodyRequirement → Bool
buffers streaming = false
buffers (buffered cap) = true

unfoldable pub combine : BodyRequirement → BodyRequirement → BodyRequirement
combine streaming streaming = streaming
combine (buffered cap) streaming = buffered cap
combine streaming (buffered cap) = buffered cap
combine (buffered a) (buffered b) = buffered (max a b)

-- `trait PolicyLayer`, its request side. A layer with state is its behaviour at one call.
pub record PolicyLayer : Type 0 where
  pub name : Text
  pub cost : CostClass
  pub needs_request : Bool
  pub body_requirement : BodyRequirement
  pub on_error : FailureMode
  pub evaluate : RequestContext → Evidence → Result Error Verdict
