-- ===== src/Proxy.antt =====
-- crates/marshal-proxy: what the proxy reads from a client before the policy is asked.
pub mod Rewind
pub mod Cursor
pub mod Sniff
pub mod Identity
pub mod Socks5
