-- ===== src/Secrets/Oauth.antt =====
-- crates/marshal-secrets/src/oauth: credentials that marshal obtains from a token endpoint.
pub mod Token
pub mod World
pub mod Jwt
pub mod Store
pub mod Runs
pub mod Disk
pub mod Persist
pub mod Restart
pub mod Client
pub mod Mint
pub mod Claim
pub mod Enrol
pub mod Device
pub mod Resolves
pub mod Rotation
pub mod Learns
pub mod Accepts
pub mod Polls
