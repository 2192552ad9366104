-- ===== src/Lib.antt =====
-- Verification of marshal, a policy proxy for agents: the decision core of the Rust workspace under
-- crates/.
--
-- A request (Core/Request, crates/marshal-core/src/request.rs) is judged by a chain of layers
-- (Policy/Chain, crates/marshal-policy/src/chain.rs). Each layer sees the request and the evidence so
-- far and answers with a verdict (Core/Verdict, Core/Evidence, Core/Layer); the chain stops at the
-- first verdict that is not a pass, applies the layer's failure mode to an error, asks the decider
-- about a deferral, and falls back to the profile's default. A request that is allowed leaves through
-- the upstream guard (Http/Guard).
--
-- Which file models what:
-- - Core/Hosts: crates/marshal-core/src/hosts.rs, `HostMatcher::new`, `matches` and their helpers.
-- - Core/Evidence, Core/Verdict, Core/Layer, Core/Request, Core/Error: the files of those names (and
--   policy.rs, audit.rs) of crates/marshal-core/src, as far as the layers use them.
-- - Core/Json: the values of serde_json, which the crates look into by `get`, `as_str`, `as_array`.
-- - Policy/Chain: `Chain::evaluate`, from `layer_step` (one round of its loop) and `run` (the loop).
-- - Policy/Layers: the layers under crates/marshal-policy/src/layers: Destination (allowlist.rs,
--   denylist.rs), Rules (rules.rs), Dlp (dlp.rs), McpCalls (mcp.rs).
-- - Policy/Mcp, Policy/McpArguments: crates/marshal-policy/src/mcp.rs; `check_call`, `tool_is_visible`
--   and `check_constraints`. Policy/Jsonrpc: jsonrpc.rs.
-- - Policy/Headers: the header filters of crates/marshal-policy/src/transforms.rs, and the managed
--   headers of crates/marshal-config/src/model.rs.
-- - Secrets/Sources: source.rs of crates/marshal-secrets/src and marshal-core/src/env.rs.
-- - Secrets/Oauth: crates/marshal-secrets/src/oauth. World: what the code acts on. Token: token.rs; Store:
--   store.rs, with Disk for what it relies on of the file system; Jwt: jwt.rs; Claim: claim.rs. Of
--   source.rs and pkce.rs, Client has the requests, Mint `mint` and `resolve` (here `resolve_access`), Enrol
--   the authorization-code flow and Device the device-code flow.
-- - Http/Endpoint: crates/marshal-http/src/endpoint.rs.
-- - Http/Guard: crates/marshal-http/src/guard.rs; `check`, `try_connect`, `connect`, `is_private`.
-- - Judge/Breaker, Judge/Scope, Judge/Layer: breaker.rs, scope.rs, judge.rs and request.rs of
--   crates/marshal-judge/src.
-- - Core/Encoding: crates/marshal-core/src/encoding.rs. Secrets/Form:
--   crates/marshal-secrets/src/oauth/form.rs, which reads forms and queries.
-- - Core/Redact: crates/marshal-core/src/redact.rs; `redact`, `redact_json`, `learn` and the rings.
-- - Core/HeaderMap: the header map of the crate http, as a list of entries.
-- - Policy/Limiter: `ResponseLimiter` of transforms.rs; `limit_response` is its `apply`.
--   Policy/ToolFilter: its `McpToolFilter`; `filter_response` is its `apply`.
-- - Secrets/Swap, Secrets/Sigv4, Secrets/Canonical: crates/marshal-secrets/src/swap.rs;
--   `apply_injector` is the `apply` of `SecretInjector`, `sign_sigv4` the AWS signature.
-- - Proxy/Rewind, Proxy/Cursor, Proxy/Sniff: rewind.rs and sniff.rs of crates/marshal-proxy/src.
--   Proxy/Socks5: socks5.rs, over the bytes that a client sends; `handshake` and its steps.
--   Proxy/Identity: crates/marshal-proxy/src/identity/resolvers.rs and marshal-core/src/identity.rs.
-- - Dns: policy.rs and server.rs of crates/marshal-dns/src; `handle_request` answers one query.
-- - Llm/Stream, Llm/Sse: crates/marshal-llm/src/sse.rs; Sse has the translation into the dialect of
--   Anthropic, Sse/Chunks the other one, the rewriting of the model, and `rewrite` (here `rewrite_sse`).
--   Llm/Router: router.rs; Requests and Responses have its handlers. Llm/Translate: translate.rs;
--   ToAnthropic and ToOpenai have the directions, Bodies `translate_request` and `translate_response`.
-- - Prelude: what all share. Tests: each theorem at a concrete input.
--
-- How it is modelled. A text is the list of its UTF-8 bytes; lower-casing is of ASCII.
-- Mutation is passed as a state: a function returns the new evidence, breaker or cache. Loops are
-- structural recursion over the list that the code walks. The two loops of the TLS sniffer run on
-- fuel, the number of bytes; Proxy/Sniff/Fuel shows that more fuel gives the same, since each round
-- takes a byte at least. A clock is a function or an argument. Machine integers keep their bounds
-- where the code computes with them: the microseconds of a layer, the breaker's counter and the
-- accumulator of base64. Code of other crates is a parameter: the blocks and address parser
-- (NetLib), equality and printing of JSON (ValueLib), globs and regular expressions (PatternLib),
-- the CEL interpreter (CelLib), the resolver and the TCP stack (Network), the judge's provider,
-- time limit and cache (JudgeLib), the repair of bytes that are no UTF-8 (`lossy`), the reader and
-- writer of documents (JsonLib), digests and header values (SigLib), the kernel's credentials of a
-- peer (IdentityLib), the stream behind a rewound one (Reader), the resolver of
-- DNS names, and, for OAuth, the machine outside (Os: clocks, files, entropy and the HTTP exchange), the
-- documents of serde_json (WireLib) and the keys of ring (KeyLib); for the LLM router, serde_json and the
-- parser of URIs (LlmLib, RouterLib). The router's theorems hold for any translation of documents
-- (Translation), of which the one of translate.rs is an instance.
-- Logging is left out.
--
-- Not modelled: the server loops, TLS interception, the OAuth bootstrap and broker,
-- the sockets of the DNS server, configuration parsing, the audit sinks and the command
-- line; in the judge, calls that interleave, and the semaphore, which only delays a call.
pub mod Prelude
pub mod Core
pub mod Policy
pub mod Proxy
pub mod Dns
pub mod Http
pub mod Judge
pub mod Secrets
pub mod Llm
pub mod Tests
