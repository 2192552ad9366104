-- ===== src/Policy/Mcp.antt =====
-- crates/marshal-policy/src/mcp.rs: which tools an agent may call. Globs are of the crate globset,
-- regular expressions of regex: parameters.
pub mod Calls
pub mod Visible
use bot_marshal.Prelude.{
  ℕ, zero, suc, Text, Option, none, some, Bool, true, false, not, ◌&&◌, ◌||◌, List, [], ◌∷◌, map,
  Result, ok, err, ◌>>=◌, map_err, collect, is_some, is_ok, any, ◌==◌, if◌then◌else◌,
}
use bot_marshal.Core.Json.{Json}
use bot_marshal.Core.Hosts
use bot_marshal.Core.Hosts.{NetLib, HostMatcher, PatternError, matches}
use bot_marshal.Policy.McpArguments.{
  Refusal, unknown_tool, Pattern, CompiledConstraint, CompiledTool, ValueLib, check_constraints,
}

pub record CompiledServer (Net : Type 0) : Type 0 where
  pub hosts : HostMatcher Net
  pub tools : List CompiledTool

pub record McpPolicy (Net : Type 0) : Type 0 where
  pub servers : List (CompiledServer Net)

-- The configuration of a server (marshal-config, layer.rs).
pub record HostRule : Type 0 where
  pub host : Option Text
  pub cidr : Option Text

pub record McpArgConstraint : Type 0 where
  pub path : Text
  pub equals : Option Json
  pub one_of : Option (List Json)
  pub matches : Option Text

pub record McpTool : Type 0 where
  pub name : Text
  pub when : List McpArgConstraint

pub record McpServer : Type 0 where
  pub rules : List HostRule
  pub tools : List McpTool

pub data McpConfigError : Type 0 where
  tool_pattern : (pattern source : Text) → McpConfigError
  constraint_regex : (path regex source : Text) → McpConfigError
  host_pattern : PatternError → McpConfigError

-- What the compilation takes of the crates globset and regex.
pub record PatternLib : Type 0 where
  pub glob : Text → Result Text (Text → Bool)
  pub regex : Text → Result Text (Text → Bool)

somes : List (Option Text) → List Text
somes [] = []
somes (none ∷ os) = somes os
somes (some t ∷ os) = t ∷ somes os

module _ (pl : PatternLib) where
  compile_regex : Text → Option Text → Result McpConfigError (Option Pattern)
  compile_regex path none = ok none
  compile_regex path (some r) = map_err (constraint_regex path r) (pl.regex r) >>= λ m.
      ok (some (record { source = r; is_match = m }))

  compile_constraint : McpArgConstraint → Result McpConfigError CompiledConstraint
  unfolding compile_regex
  compile_constraint c = compile_regex c.path c.matches >>= λ m.
      ok (record { path = c.path; equals = c.equals; one_of = c.one_of; matches = m })

  compile_tool : McpTool → Result McpConfigError CompiledTool
  unfolding compile_constraint
  compile_tool t = map_err (tool_pattern t.name) (pl.glob t.name) >>= λ m.
      collect compile_constraint t.when >>= λ when.
      ok (record { pattern = t.name; is_match = m; when = when })

  module _ (net : NetLib) where
    compile_server : McpServer → Result McpConfigError (CompiledServer net.Net)
    unfolding compile_tool somes
    compile_server s =
        map_err host_pattern
          (Hosts.new net (somes (map (λ r. r.host) s.rules)) (somes (map (λ r. r.cidr) s.rules)))
        >>= λ hosts.
            collect compile_tool s.tools >>= λ tools. ok (record { hosts = hosts; tools = tools })

    -- `McpPolicy::compile`.
    unfoldable pub compile : List McpServer → Result McpConfigError (McpPolicy net.Net)
    unfolding compile_server
    compile servers =
        collect compile_server servers >>= λ compiled. ok (record { servers = compiled })

module _ (lib : ValueLib) (net : NetLib) (p : McpPolicy net.Net) where
  open net use {Net}

  -- Whether a server's rules name the host.
  abbrev pub serves : Text → CompiledServer Net → Bool
  serves host s = is_some (matches net s.hosts host)

  unfoldable pub governs : Text → Bool
  governs host = any (serves host) p.servers

  unfoldable pub tool_is_visible_from : Text → Text → Bool → List (CompiledServer Net) → Bool
  tool_is_visible_from host tool governed [] = not governed
  tool_is_visible_from host tool governed (s ∷ ss) =
      if serves host s && any (λ c. c.is_match tool) s.tools
      then true
      else tool_is_visible_from host tool (governed || serves host s) ss

  -- `tool_is_visible`.
  unfoldable pub tool_is_visible : Text → Text → Bool
  unfolding tool_is_visible_from
  tool_is_visible host tool = tool_is_visible_from host tool false p.servers

  module _ (host tool : Text) (args : Option Json) where
    -- A candidate other than the one skipped, told apart by the position of each.
    other_in_tools : ℕ × ℕ → ℕ → ℕ → List CompiledTool → Bool
    other_in_tools skip i j [] = false
    other_in_tools skip i j (c ∷ cs) =
        (not (skip.0 == i && skip.1 == j)
          && (c.is_match tool && is_ok (check_constraints lib c args)))
        || other_in_tools skip i (suc j) cs

    other_in_servers : ℕ × ℕ → ℕ → List (CompiledServer Net) → Bool
    other_in_servers skip i [] = false
    other_in_servers skip i (s ∷ ss) =
        (serves host s && other_in_tools skip i 0 s.tools) || other_in_servers skip (suc i) ss

    unfoldable pub no_other_match : ℕ × ℕ → Bool
    unfolding other_in_servers other_in_tools
    no_other_match skip = not (other_in_servers skip 0 p.servers)

    -- The loop over one server's tools: a verdict, or none to look on.
    check_tools : ℕ → ℕ → List CompiledTool → Option (Result Refusal (Unit {0}))
    check_tools i j [] = none
    check_tools i j (c ∷ cs) =
        let rest = check_tools i (suc j) cs in
        if not (c.is_match tool) then rest else elim (check_constraints lib c args) [
          | ok u ↦ some (ok u)
          | err refusal ↦ if no_other_match (i, j) then some (err refusal) else rest
        ]

    -- The loop over the servers.
    check_servers : ℕ → Bool → List (CompiledServer Net) → Result Refusal (Unit {0})
    check_servers i governed [] = if governed then err unknown_tool else ok tt
    check_servers i governed (s ∷ ss) =
        if not (serves host s)
        then check_servers (suc i) governed ss
        else elim (check_tools i 0 s.tools) [
          | some verdict ↦ verdict
          | none ↦ check_servers (suc i) true ss
        ]

    unfoldable pub check_call : Result Refusal (Unit {0})
    unfolding check_servers check_tools no_other_match
    check_call = check_servers 0 false p.servers
