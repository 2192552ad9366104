-- ===== src/Policy/Layers/Rules.antt =====
-- layers/rules.rs. The compiler and the evaluator of CEL are of the crate cel, and parameters.
use bot_marshal.Prelude.{
  ℕ, suc, Text, Bool, true, false, List, [], ◌∷◌, ◌++◌, map, lit, Result, ok, err, ◌>>=◌, map_err,
  is_some, leb, if◌then◌else◌, to_ascii_lowercase,
}
use bot_marshal.Core.Error.{Error, layer}
use bot_marshal.Core.Evidence.{Evidence, add_flags}
use bot_marshal.Core.Json.{Json, Items, Fields, Number, pos_int, neg_int, float, of_items}
use bot_marshal.Core.Layer.{PolicyLayer, cheap, streaming, FailureMode}
use bot_marshal.Core.Request.{RequestContext, header_keys}
use bot_marshal.Core.Verdict.{Reason, reason, with_rule, Verdict}
use bot_marshal.Policy.Layers.{Outcome}

-- The values of CEL that a JSON value becomes. A number keeps its JSON form.
mutual
  pub data CelValue : Type 0 where
    null : CelValue
    bool : Bool → CelValue
    int real : Number → CelValue
    string : Text → CelValue
    list : CelItems → CelValue
    dict : CelFields → CelValue

  pub data CelItems : Type 0 where
    nil : CelItems
    item : CelValue → CelItems → CelItems

  pub data CelFields : Type 0 where
    end : CelFields
    field : Text → CelValue → CelFields → CelFields

-- An unsigned number fits an i64 up to its greatest value; a negative one of serde_json always does.
number_to_cel : Number → CelValue
number_to_cel (pos_int n) = if leb n 9223372036854775807 then int (pos_int n) else real (pos_int n)
number_to_cel (neg_int n) = int (neg_int n)
number_to_cel (float bits) = real (float bits)

unfoldable mutual
  unfolding number_to_cel

  pub to_cel : Json → CelValue
  to_cel Json.null = CelValue.null
  to_cel (Json.bool b) = CelValue.bool b
  to_cel (Json.number n) = number_to_cel n
  to_cel (Json.string s) = CelValue.string s
  to_cel (Json.array vs) = list (items_to_cel vs)
  to_cel (Json.object fs) = dict (fields_to_cel fs)

  pub items_to_cel : Items → CelItems
  items_to_cel Items.nil = CelItems.nil
  items_to_cel (Items.item v vs) = CelItems.item (to_cel v) (items_to_cel vs)

  pub fields_to_cel : Fields → CelFields
  fields_to_cel Fields.end = CelFields.end
  fields_to_cel (Fields.field k v fs) = CelFields.field k (to_cel v) (fields_to_cel fs)

-- The variables that an expression sees.
pub record Variables : Type 0 where
  pub req : CelValue
  pub ev : CelValue

-- What the layer takes of the crate cel; `debug` prints a value for a message.
pub record CelLib : Type 1 where
  pub Program : Type 0
  pub compile : Text → Result Text Program
  pub execute : Program → Variables → Result Text CelValue
  pub debug : CelValue → Text

fact_fields : List (Text × Json) → Fields
fact_fields [] = Fields.end
fact_fields ((k, v) ∷ m) = Fields.field k v (fact_fields m)

-- The `json!` of the request: header names only, never a value.
request_json : RequestContext → Json
request_json cx = Json.object (
    Fields.field (lit "method") (Json.string cx.method) (
      Fields.field (lit "host") (Json.string cx.authority.host) (
        Fields.field (lit "port") (Json.number (pos_int cx.authority.port)) (
          Fields.field (lit "path") (Json.string cx.uri.path) (
            Fields.field (lit "has_query") (Json.bool (is_some cx.uri.query)) (
              Fields.field (lit "headers")
                (Json.array (
                  of_items
                    (map (λ n. Json.string (to_ascii_lowercase n)) (header_keys cx.headers))))
                Fields.end))))))

evidence_json : Evidence → Json
unfolding fact_fields
evidence_json ev = Json.object (
    Fields.field (lit "facts") (Json.object (fact_fields ev.facts))
      (Fields.field (lit "flags") (Json.array (of_items (map Json.string ev.flags))) Fields.end))

-- `build_context`.
unfoldable pub build_context : RequestContext → Evidence → Variables
unfolding request_json evidence_json
build_context cx ev = record { req = to_cel (request_json cx); ev = to_cel (evidence_json ev) }

pub record RuleCompileError : Type 0 where
  pub index : ℕ
  pub expression : Text
  pub message : Text

pub record Rule (Program : Type 0) : Type 0 where
  pub source : Text
  pub program : Program
  pub verdict : Outcome
  pub annotate : List Text

module _ (cel : CelLib) where
  open cel use {Program, compile, execute, debug}

  compile_from :
      ℕ → List (Text × Outcome × List Text) → Result RuleCompileError (List (Rule Program))
  compile_from index [] = ok []
  compile_from index ((source, verdict, annotate) ∷ specs) =
      map_err (λ m. record { index = index; expression = source; message = m }) (compile source)
      >>= λ program. compile_from (suc index) specs >>= λ rest. ok (
          record { source = source; program = program; verdict = verdict; annotate = annotate }
          ∷ rest)

  -- `Rules::compile`.
  unfoldable pub compile_rules :
      List (Text × Outcome × List Text) → Result RuleCompileError (List (Rule Program))
  unfolding compile_from
  compile_rules specs = compile_from 0 specs

  -- Whether the rule matched; a value that is no boolean is an error.
  unfoldable pub matched : Rule Program → Variables → Result Error Bool
  matched r vars = elim (execute r.program vars) [
    | ok (CelValue.bool b) ↦ ok b
    | ok other ↦ err (
        layer (lit "rules") (
          lit "expression `"
          ++ (r.source
              ++ (lit "` produced "
                  ++ (debug other ++ lit ", but a rule must evaluate to a boolean")))))
    | err e ↦ err (layer (lit "rules") (lit "evaluating `" ++ (r.source ++ (lit "`: " ++ e))))
  ]

  rule_reason : Rule Program → Reason
  rule_reason r = with_rule r.source (
      reason (lit "rules") (lit "rule_matched")
        (lit "expression `" ++ (r.source ++ lit "` matched")))

  -- The loop over the rules.
  unfoldable pub walk : Variables → Evidence → List (Rule Program) → Result Error Verdict
  unfolding rule_reason
  walk vars ev [] = ok (Verdict.pass ev)
  walk vars ev (r ∷ rs) = elim (matched r vars) [
    | err e ↦ err e
    | ok false ↦ walk vars ev rs
    | ok true ↦ elim r.verdict [
      | Outcome.allow ↦ ok (Verdict.allow (rule_reason r))
      | Outcome.deny ↦ ok (Verdict.deny (rule_reason r))
      | Outcome.pass ↦ walk vars (add_flags r.annotate ev) rs
    ]
  ]

  -- `Rules::evaluate`.
  unfoldable pub rules_evaluate :
      List (Rule Program) → RequestContext → Evidence → Result Error Verdict
  unfolding walk build_context
  rules_evaluate rules cx ev = walk (build_context cx ev) ev rules

  unfoldable pub rules_layer : List (Rule Program) → PolicyLayer
  unfolding rules_evaluate
  rules_layer rules = record {
    name = lit "rules";
    cost = cheap;
    needs_request = true;
    body_requirement = streaming;
    on_error = FailureMode.deny;
    evaluate = rules_evaluate rules;
  }
