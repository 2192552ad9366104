-- ===== src/Policy.antt =====
-- crates/marshal-policy: the chain of layers that decides whether a request may proceed.
pub mod Chain
pub mod Layers
pub mod Jsonrpc
pub mod McpArguments
pub mod Mcp
pub mod Headers
pub mod Limiter
pub mod ToolFilter
