-- ===== src/Secrets.antt =====
-- crates/marshal-secrets: the forms that it reads, and the credentials that it sets on requests.
pub mod Form
pub mod Canonical
pub mod Sigv4
pub mod Swap
pub mod Oauth
pub mod Sources
