-- ===== src/Tests.antt =====
-- Runs of the models on concrete inputs.
pub mod Data
pub mod Hosts
pub mod Chains
pub mod Mcp
pub mod Guards
pub mod Judges
pub mod Encodings
pub mod Redaction
pub mod Limits
pub mod Clients
pub mod Handshakes
pub mod Machine
pub mod Tokens
pub mod Flows
pub mod Streams
pub mod Routes
