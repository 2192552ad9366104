-- ===== src/Policy/Mcp/Calls.antt =====
-- Which calls the policy permits.
use bot_marshal.Prelude.{
  ℕ, suc, Text, Option, none, some, Bool, true, false, not, ◌&&◌, List, [], ◌∷◌, ◌≡◌, refl, ap, ◌∙◌,
  ◌↔◌, ◌⊎◌, inl, inr, arith, ok, is_ok, get_elem?, ◌+◌, any, Any, any_iff, Bool-cases,
  if◌then◌else◌,
}
use native.Mathlib.Nat.{zero-add, add-zero}
use bot_marshal.Core.Json.{Json}
use bot_marshal.Core.Hosts.{NetLib}
use bot_marshal.Policy.McpArguments.{CompiledTool, ValueLib, check_constraints}
use bot_marshal.Policy.Mcp.{
  CompiledServer, McpPolicy, serves, governs, other_in_tools, other_in_servers, no_other_match,
  check_tools, check_servers, check_call,
}

suc_shift : (j k : ℕ) → suc j + k ≡ j + suc k
suc_shift j k = omega arith

module _ (lib : ValueLib) (net : NetLib) (p : McpPolicy net.Net) (host tool : Text)
    (args : Option Json) where
  open net use {Net}

  -- A listed tool that the call names, with arguments that meet its constraints.
  abbrev pub fits : CompiledTool → Bool
  fits c = c.is_match tool && is_ok (check_constraints lib c args)

  abbrev pub permits : CompiledServer Net → Bool
  permits s = serves lib net p host s && any fits s.tools

  -- The candidate at the position that is left out does not fit, if there is one there.
  abbrev Unfit : ℕ × ℕ → Type 0
  Unfit skip =
      (s : CompiledServer Net) (c : CompiledTool)
      → get_elem? p.servers skip.0 ≡ some s
      → get_elem? s.tools skip.1 ≡ some c
      → fits c ≡ false

  -- Then leaving it out loses no candidate that fits.
  other_in_tools_complete :
      (skip : ℕ × ℕ) (i j : ℕ) (cs : List CompiledTool)
      → ((k : ℕ) (c : CompiledTool)
          → get_elem? cs k ≡ some c
          → skip.0 ≡ i
          → skip.1 ≡ j + k
          → fits c ≡ false)
      → any fits cs ≡ true
      → other_in_tools lib net p host tool args skip i j cs ≡ true
  unfolding other_in_tools
  other_in_tools_complete skip i j [] unfit h = h
  other_in_tools_complete skip i j (c ∷ cs) unfit h = ground (
    arith,
    unfit 0 c refl,
    other_in_tools_complete skip i (suc j) cs (λ k d at. λ x y. unfit (suc k) d at x (omega arith)),
  )

  other_in_servers_complete :
      (skip : ℕ × ℕ) (i : ℕ) (ss : List (CompiledServer Net))
      → ((k : ℕ) (s : CompiledServer Net)
          → get_elem? ss k ≡ some s
          → skip.0 ≡ i + k
          → (c : CompiledTool) → get_elem? s.tools skip.1 ≡ some c
          → fits c ≡ false)
      → any permits ss ≡ true
      → other_in_servers lib net p host tool args skip i ss ≡ true
  unfolding other_in_servers
  other_in_servers_complete skip i [] unfit h = h
  other_in_servers_complete skip i (s ∷ ss) unfit h = ground (
    arith,
    other_in_tools_complete skip i 0 s.tools
        (λ k c at x y. unfit 0 s refl (omega arith) c (rw (y ∙ zero-add k) at)),
    other_in_servers_complete skip (suc i) ss (λ k d at x. unfit (suc k) d at (omega arith)),
  )

  no_other_match-Unfit :
      (skip : ℕ × ℕ)
      → Unfit skip
      → any permits p.servers ≡ true
      → no_other_match lib net p host tool args skip ≡ false
  unfolding no_other_match
  no_other_match-Unfit skip unfit h = ap not (
      other_in_servers_complete skip 0 p.servers (λ k s at x c. unfit s c (rw (x ∙ zero-add k) at))
        h)

  -- The walk over one server's tools, when some server permits the call.
  check_tools-permitted :
      (i j : ℕ) (s : CompiledServer Net) (cs : List CompiledTool)
      → get_elem? p.servers i ≡ some s
      → ((k : ℕ) → get_elem? s.tools (j + k) ≡ get_elem? cs k)
      → any permits p.servers ≡ true
      → check_tools lib net p host tool args i j cs ≡ (if any fits cs then some (ok tt) else none)
  unfolding check_tools
  check_tools-permitted i j s [] here at h = refl
  check_tools-permitted i j s (c ∷ cs) here at h = elim (Bool-cases (fits c)) [
    | inl yes_fits ↦ ground arith
    | inr unfit ↦
        let alone : no_other_match lib net p host tool args (i, j) ≡ false =
          no_other_match-Unfit (i, j)
            (λ t d x y.
              let same_server : t ≡ s = ground arith in
              let tools_at : get_elem? s.tools j ≡ some d = rw same_server at y in
              let first : get_elem? s.tools j ≡ some c = rw (add-zero j) at (at 0) in
              let same : d ≡ c = ground arith in rw same unfit)
            h in
        ground (
          arith,
          check_tools-permitted i (suc j) s cs here (λ k. rw (suc_shift j k) (at (suc k))) h,
        )
  ]

  -- So a call that some server permits gets through.
  check_servers-permitted :
      (i : ℕ) (governed : Bool) (ss : List (CompiledServer Net))
      → ((k : ℕ) → get_elem? p.servers (i + k) ≡ get_elem? ss k)
      → any permits p.servers ≡ true
      → any permits ss ≡ true
      → check_servers lib net p host tool args i governed ss ≡ ok tt
  unfolding check_servers
  check_servers-permitted i governed [] at h found = cc
  check_servers-permitted i governed (s ∷ ss) at h found = ground (
    arith,
    check_tools-permitted i 0 s s.tools (rw (add-zero i) at (at 0)) (λ k. rw (zero-add k) refl) h,
    check_servers-permitted (suc i) governed ss (λ k. rw (suc_shift i k) (at (suc k))) h,
    check_servers-permitted (suc i) true ss (λ k. rw (suc_shift i k) (at (suc k))) h,
  )

  -- A server lets a call through only by a tool that fits.
  check_tools-ok :
      (i j : ℕ) (cs : List CompiledTool) (u : Unit {0})
      → check_tools lib net p host tool args i j cs ≡ some (ok u)
      → any fits cs ≡ true
  unfolding check_tools
  check_tools-ok i j [] u h = cc
  check_tools-ok i j (c ∷ cs) u h = ground (arith, check_tools-ok i (suc j) cs u)

  check_servers-ok :
      (i : ℕ) (governed : Bool) (ss : List (CompiledServer Net))
      → check_servers lib net p host tool args i governed ss ≡ ok tt
      → ((governed ≡ false) × (any (serves lib net p host) ss ≡ false)) ⊎ (any permits ss ≡ true)
  unfolding check_servers
  check_servers-ok i governed [] h = ground arith
  check_servers-ok i governed (s ∷ ss) h = ground (
    arith,
    check_tools-ok i 0 s.tools tt,
    check_servers-ok (suc i) governed ss,
    check_servers-ok (suc i) true ss,
  )

  check_servers-ungoverned :
      (i : ℕ) (ss : List (CompiledServer Net))
      → any (serves lib net p host) ss ≡ false
      → check_servers lib net p host tool args i false ss ≡ ok tt
  unfolding check_servers
  check_servers-ungoverned i [] h = refl
  check_servers-ungoverned i (s ∷ ss) h = ground (arith, check_servers-ungoverned (suc i) ss)

  -- The call is one of a listed tool, with arguments that meet its constraints.
  abbrev pub Fits : CompiledTool → Type 0
  Fits c = (c.is_match tool ≡ true) × (check_constraints lib c args ≡ ok tt)

  abbrev pub Permits : CompiledServer Net → Type 0
  Permits s = (serves lib net p host s ≡ true) × Any Fits s.tools

  fits_iff : (c : CompiledTool) → (fits c ≡ true) ↔ Fits c
  fits_iff c = ground arith

  permits_iff : (s : CompiledServer Net) → (permits s ≡ true) ↔ Permits s
  permits_iff s = ground (arith, any_iff Fits fits fits_iff s.tools)

  -- A call is permitted exactly when the host is not governed, or a server of the host lists a tool
  -- of that name whose constraints the arguments meet, in whatever order the entries stand.
  pub check_call_iff :
      (check_call lib net p host tool args ≡ ok tt)
      ↔ ((governs lib net p host ≡ false) ⊎ Any Permits p.servers)
  unfolding check_call governs
  check_call_iff =
      let listed = any_iff Permits permits permits_iff p.servers in
      (
        λ h. elim (check_servers-ok 0 false p.servers h) [
          | inl (no_rule, ungoverned) ↦ inl ungoverned
          | inr permitted ↦ inr (listed.0 permitted)
        ],
        λ c. elim c [
          | inl ungoverned ↦ check_servers-ungoverned 0 p.servers ungoverned
          | inr permitted ↦
              check_servers-permitted 0 false p.servers (λ k. rw (zero-add k) refl)
                (listed.1 permitted) (listed.1 permitted)
        ],
      )
