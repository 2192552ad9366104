-- ===== src/Llm.antt =====
-- crates/marshal-llm: the translation between the dialects of model providers.
pub mod Stream
pub mod Sse
pub mod Translate
pub mod Router
