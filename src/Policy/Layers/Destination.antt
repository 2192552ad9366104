-- ===== src/Policy/Layers/Destination.antt =====
-- layers/allowlist.rs and layers/denylist.rs: the layers that look at the destination alone.
use bot_marshal.Prelude.{Text, none, some, false, ◌++◌, lit, Result, ok, ◌≡◌, refl}
use bot_marshal.Core.Error.{Error}
use bot_marshal.Core.Evidence.{Evidence, record_fact}
use bot_marshal.Core.Hosts.{NetLib, HostMatcher, MatchKind, rule, matches}
use bot_marshal.Core.Json.{string}
use bot_marshal.Core.Layer.{PolicyLayer, trivial, streaming, FailureMode}
use bot_marshal.Core.Request.{RequestContext}
use bot_marshal.Core.Verdict.{Reason, reason, with_rule, Verdict}
use bot_marshal.Policy.Layers.{Outcome, apply}

pub record Allowlist (Net : Type 0) : Type 0 where
  pub matcher : HostMatcher Net
  pub on_match : Outcome
  pub on_miss : Outcome

pub denied : Text → MatchKind → Reason
denied host kind = with_rule (rule kind) (
    reason (lit "denylist") (lit "host_denied") (lit "`" ++ (host ++ lit "` is explicitly denied")))

pub allowed : Text → MatchKind → Reason
allowed host kind =
    with_rule (rule kind)
      (reason (lit "allowlist") (lit "host_allowed") (lit "`" ++ (host ++ lit "` is allowlisted")))

pub missed : Text → Reason
missed host = reason (lit "allowlist") (lit "host_not_allowlisted") (
    lit "`"
    ++ (host
        ++ lit
            "` is not in this profile's allowlist. Add the domain to the profile, or import a bundle that contains it."))

module _ (net : NetLib) where
  open net use {Net}

  -- `Denylist::evaluate`.
  unfoldable pub denylist_evaluate :
      HostMatcher Net → RequestContext → Evidence → Result Error Verdict
  unfolding denied
  denylist_evaluate matcher cx ev = elim (matches net matcher cx.authority.host) [
    | some kind ↦ ok (Verdict.deny (denied cx.authority.host kind))
    | none ↦ ok (Verdict.pass ev)
  ]

  unfoldable pub denylist : HostMatcher Net → PolicyLayer
  unfolding denylist_evaluate
  denylist matcher = record {
    name = lit "denylist";
    cost = trivial;
    needs_request = false;
    body_requirement = streaming;
    on_error = FailureMode.deny;
    evaluate = denylist_evaluate matcher;
  }

  -- `Allowlist::evaluate`.
  unfoldable pub allowlist_evaluate :
      Allowlist Net → RequestContext → Evidence → Result Error Verdict
  unfolding allowed missed
  allowlist_evaluate l cx ev = elim (matches net l.matcher cx.authority.host) [
    | some kind ↦ ok (
        apply l.on_match (record_fact (lit "allowlist.matched") (string (rule kind)) ev).0
          (allowed cx.authority.host kind))
    | none ↦ ok (apply l.on_miss ev (missed cx.authority.host))
  ]

  unfoldable pub allowlist : Allowlist Net → PolicyLayer
  unfolding allowlist_evaluate
  allowlist l = record {
    name = lit "allowlist";
    cost = trivial;
    needs_request = false;
    body_requirement = streaming;
    on_error = FailureMode.deny;
    evaluate = allowlist_evaluate l;
  }

  -- A listed host is refused.
  pub denylist-listed :
      (m : HostMatcher Net) (cx : RequestContext) (ev : Evidence) (kind : MatchKind)
      → matches net m cx.authority.host ≡ some kind
      → denylist_evaluate m cx ev ≡ ok (Verdict.deny (denied cx.authority.host kind))
  unfolding denylist_evaluate
  denylist-listed m cx ev kind listed = rw (listed, denylist_evaluate) refl

  pub denied-rule : (host : Text) (kind : MatchKind) → (denied host kind).rule ≡ some (rule kind)
  unfolding denied
  denied-rule host kind = refl
