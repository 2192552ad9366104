-- ===== src/Policy/Layers.antt =====
-- crates/marshal-policy/src/layers, and what a matching layer does (marshal-config, layer.rs).
pub mod Destination
pub mod Rules
pub mod Dlp
pub mod McpCalls
pub mod Order
use bot_marshal.Core.Evidence.{Evidence}
use bot_marshal.Core.Verdict.{Reason, Verdict}

pub data Outcome : Type 0 where
  allow deny pass : Outcome

-- `apply`, and the match at the end of each layer.
unfoldable pub apply : Outcome → Evidence → Reason → Verdict
apply Outcome.allow ev r = Verdict.allow r
apply Outcome.deny ev r = Verdict.deny r
apply Outcome.pass ev r = Verdict.pass ev
