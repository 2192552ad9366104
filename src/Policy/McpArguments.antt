-- ===== src/Policy/McpArguments.antt =====
-- crates/marshal-policy/src/mcp.rs: the constraints on a tool's arguments. Regular expressions are of
-- the crate regex, equality and printing of JSON values of serde_json: parameters.
use bot_marshal.Prelude.{
  Text, Option, none, some, Bool, true, not, List, [], ◌∷◌, ◌++◌, map, lit, format, join, Result,
  ok, err, ◌>>=◌, any, ◌==◌, if◌then◌else◌,
}
use bot_marshal.Core.Json.{Json, get, as_str}

pub data Refusal : Type 0 where
  unknown_tool : Refusal
  constraint_failed : (path detail : Text) → Refusal

unfoldable pub refusal_code : Refusal → Text
refusal_code unknown_tool = lit "mcp_tool_not_permitted"
refusal_code (constraint_failed path detail) = lit "mcp_argument_not_permitted"

-- A compiled regular expression: its source and its test.
pub record Pattern : Type 0 where
  pub source : Text
  pub is_match : Text → Bool

pub record CompiledConstraint : Type 0 where
  pub path : Text
  pub equals : Option Json
  pub one_of : Option (List Json)
  pub matches : Option Pattern

pub record CompiledTool : Type 0 where
  pub pattern : Text
  pub is_match : Text → Bool
  pub when : List CompiledConstraint

-- What the layer takes of serde_json: equality of values, and their text.
pub record ValueLib : Type 0 where
  pub value_eq : Json → Json → Bool
  pub value_string : Json → Text

-- The segments of a dotted path; `split('.')` of the empty text has one, which is empty.
split_dots : Text → Text → List Text
split_dots seen [] = seen ∷ []
split_dots seen (c ∷ s) =
    let cut = seen ∷ split_dots [] s in
    let longer = split_dots (seen ++ c ∷ []) s in if c == b'.' then cut else longer

walk_path : Json → List Text → Option Json
walk_path v [] = some v
walk_path v (segment ∷ path) = elim (get segment v) [ none ↦ none | some w ↦ walk_path w path ]

-- `lookup` in the arguments.
unfoldable pub lookup_path : Json → Text → Option Json
unfolding split_dots walk_path
lookup_path v path = walk_path v (split_dots [] path)

-- `arguments.and_then(|a| lookup(a, path))`.
abbrev pub argument_at : Option Json → Text → Option Json
argument_at none path = none
argument_at (some a) path = lookup_path a path

module _ (lib : ValueLib) where
  open lib use {value_eq, value_string}

  render_other : Option Text → Json → Text
  render_other (some s) v = format (lit "`" ∷ s ∷ lit "`" ∷ [])
  render_other none v = format (lit "`" ∷ value_string v ∷ lit "`" ∷ [])

  -- `render`: a string without its quotes, any other value as JSON.
  render : Json → Text
  unfolding render_other
  render v = render_other (as_str v) v

  -- `value.as_str()`, or the value's JSON.
  plain_text : Option Text → Json → Text
  plain_text (some s) v = s
  plain_text none v = value_string v

  unfoldable pub equals_ok : Option Json → Json → Bool
  equals_ok none v = true
  equals_ok (some expected) v = value_eq v expected

  unfoldable pub one_of_ok : Option (List Json) → Json → Bool
  one_of_ok none v = true
  one_of_ok (some allowed) v = any (λ w. value_eq w v) allowed

  unfoldable pub pattern_ok : Option Pattern → Json → Bool
  unfolding plain_text
  pattern_ok none v = true
  pattern_ok (some p) v = p.is_match (plain_text (as_str v) v)

  missing_detail : CompiledTool → Text → Text
  missing_detail tool path = format (
      lit "`"
      ∷ tool.pattern
      ∷ lit "` requires argument `"
      ∷ path
      ∷ lit "`, which was not supplied"
      ∷ [])

  equals_detail : Text → Option Json → Text
  unfolding render
  equals_detail path none = []
  equals_detail path (some expected) =
      format (lit "`" ∷ path ∷ lit "` must equal " ∷ render expected ∷ [])

  one_of_detail : Text → Option (List Json) → Text
  unfolding render
  one_of_detail path none = []
  one_of_detail path (some allowed) =
      format (lit "`" ∷ path ∷ lit "` must be one of " ∷ join (lit ", ") (map render allowed) ∷ [])

  pattern_detail : Text → Option Pattern → Text
  pattern_detail path none = []
  pattern_detail path (some p) =
      format (lit "`" ∷ path ∷ lit "` must match /" ∷ p.source ∷ lit "/" ∷ [])

  -- One constraint, on the value found for it.
  unfoldable pub check_constraint :
      CompiledTool → CompiledConstraint → Option Json → Result Refusal (Unit {0})
  unfolding missing_detail equals_detail one_of_detail pattern_detail equals_ok one_of_ok pattern_ok
  check_constraint tool c none = err (constraint_failed c.path (missing_detail tool c.path))
  check_constraint tool c (some v) =
      if not (equals_ok c.equals v)
      then err (constraint_failed c.path (equals_detail c.path c.equals))
      else if not (one_of_ok c.one_of v)
      then err (constraint_failed c.path (one_of_detail c.path c.one_of))
      else if not (pattern_ok c.matches v)
      then err (constraint_failed c.path (pattern_detail c.path c.matches))
      else ok tt

  unfoldable pub check_all :
      CompiledTool → Option Json → List CompiledConstraint → Result Refusal (Unit {0})
  check_all tool args [] = ok tt
  check_all tool args (c ∷ cs) =
      check_constraint tool c (argument_at args c.path) >>= λ _. check_all tool args cs

  -- `check_constraints`: the first constraint that fails is the refusal.
  unfoldable pub check_constraints : CompiledTool → Option Json → Result Refusal (Unit {0})
  unfolding check_all check_constraint
  check_constraints tool args = check_all tool args tool.when
