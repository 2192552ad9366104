-- ===== src/Policy/Mcp/Visible.antt =====
-- Which tools a filtered `tools/list` shows, and how that agrees with the calls permitted.
use bot_marshal.Prelude.{
  Text, Option, Bool, true, false, not, ◌&&◌, ◌||◌, List, [], ◌∷◌, ◌≡◌, ◌↔◌, ◌⊎◌, inl, inr, arith,
  ok, any, Any, any_iff, Any-map,
}
use bot_marshal.Core.Json.{Json}
use bot_marshal.Core.Hosts.{NetLib}
use bot_marshal.Policy.McpArguments.{ValueLib}
use bot_marshal.Policy.Mcp.{
  CompiledServer, McpPolicy, serves, governs, tool_is_visible_from, tool_is_visible, check_call,
}
use bot_marshal.Policy.Mcp.Calls.{Fits, Permits, check_call_iff}

module _ (lib : ValueLib) (net : NetLib) (p : McpPolicy net.Net) (host tool : Text) where
  open net use {Net}

  abbrev names : CompiledServer Net → Bool
  names s = serves lib net p host s && any (λ c. c.is_match tool) s.tools

  -- A server of the host that lists the tool.
  abbrev pub Names : CompiledServer Net → Type 0
  Names s = (serves lib net p host s ≡ true) × Any (λ c. c.is_match tool ≡ true) s.tools

  visible_from :
      (governed : Bool) (ss : List (CompiledServer Net))
      → tool_is_visible_from lib net p host tool governed ss
        ≡ (any names ss || not (governed || any (serves lib net p host) ss))
  unfolding tool_is_visible_from
  visible_from governed [] = ground arith
  visible_from governed (s ∷ ss) =
      ground (arith, visible_from (governed || serves lib net p host s) ss)

  names_iff : (s : CompiledServer Net) → (names s ≡ true) ↔ Names s
  names_iff s = ground (
    arith,
    any_iff (λ c. c.is_match tool ≡ true) (λ c. c.is_match tool) (λ c. (λ h. h, λ h. h)) s.tools,
  )

  -- A tool is shown exactly when the host is not governed, or a server of the host lists it.
  pub tool_is_visible_iff :
      (tool_is_visible lib net p host tool ≡ true)
      ↔ ((governs lib net p host ≡ false) ⊎ Any Names p.servers)
  unfolding tool_is_visible governs
  tool_is_visible_iff =
      ground (arith, visible_from false p.servers, any_iff Names names names_iff p.servers)

  Names-of_Permits :
      (args : Option Json) (s : CompiledServer Net) → Permits lib net p host tool args s → Names s
  Names-of_Permits args s (here, listed) = (
    here,
    Any-map (Fits lib net p host tool args) (λ c. c.is_match tool ≡ true) (λ c f. f.0) s.tools
        listed,
  )

  -- A tool that is not shown cannot be called, with any arguments.
  pub hidden_tool_refused :
      (args : Option Json)
      → tool_is_visible lib net p host tool ≡ false
      → ¬ (check_call lib net p host tool args ≡ ok tt)
  hidden_tool_refused args hidden permitted =
      let listed : (governs lib net p host ≡ false) ⊎ Any Names p.servers =
        elim ((check_call_iff lib net p host tool args).0 permitted) [
          | inl ungoverned ↦ inl ungoverned
          | inr permits ↦ inr (
              Any-map (Permits lib net p host tool args) Names (Names-of_Permits args) p.servers
                permits)
        ] in
      cc (tool_is_visible_iff.1 listed)
