-- ===== src/Judge/Scope.antt =====
-- crates/marshal-judge/src/scope.rs: which requests reach the judge.
use bot_marshal.Prelude.{
  Text, Option, none, some, Bool, ◌&&◌, ◌||◌, List, [], ◌∷◌, map, Result, ok, ◌>>=◌, collect, any,
  is_empty, is_some, text_eq, upper,
}
use bot_marshal.Core.Hosts.{NetLib, HostMatcher, PatternError, new, matches}

-- `JudgeScope` of crates/marshal-config/src/layer.rs.
pub record JudgeScope : Type 0 where
  pub host : Option Text
  pub cidr : Option Text
  pub methods : List Text

pub record CompiledScope (Net : Type 0) : Type 0 where
  pub hosts : HostMatcher Net
  pub methods : List Text

abbrev as_list : Option Text → List Text
as_list none = []
as_list (some t) = t ∷ []

abbrev to_ascii_uppercase : Text → Text
to_ascii_uppercase t = map upper t

module _ (net : NetLib) where
  compile_scope : JudgeScope → Result PatternError (CompiledScope net.Net)
  compile_scope s = new net (as_list s.host) (as_list s.cidr) >>= λ hosts.
      ok (record { hosts = hosts; methods = map to_ascii_uppercase s.methods })

  unfoldable pub compile : List JudgeScope → Result PatternError (List (CompiledScope net.Net))
  unfolding compile_scope
  compile scopes = collect compile_scope scopes

  unfoldable pub scope_matches : Text → Text → CompiledScope net.Net → Bool
  scope_matches host method s =
      is_some (matches net s.hosts host)
      && (is_empty s.methods || any (λ m. text_eq m method) s.methods)

  unfoldable pub governs : List (CompiledScope net.Net) → Text → Text → Bool
  unfolding scope_matches
  governs scopes host method = any (scope_matches host method) scopes
