-- ===== src/Core.antt =====
-- crates/marshal-core: the types and traits on which the other crates stand.
pub mod Json
pub mod Error
pub mod Evidence
pub mod Request
pub mod HeaderMap
pub mod Verdict
pub mod Layer
pub mod Hosts
pub mod Encoding
pub mod Redact
