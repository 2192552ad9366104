-- ===== src/Judge.antt =====
-- crates/marshal-judge: the layer that asks a model, and what bounds how often it asks.
pub mod Breaker
pub mod Scope
pub mod Layer
