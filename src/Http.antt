-- ===== src/Http.antt =====
-- crates/marshal-http: the connections that leave the proxy.
pub mod Guard
pub mod Endpoint
