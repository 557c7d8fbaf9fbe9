-- ===== src/Workflow/Register/Tests.antt =====
-- A login form, with a reference and with a plain password.
use era_ai.Prelude.{ℕ, String, ◌≡◌, refl, false, none, some, List, [], ◌∷◌, All}
use era_ai.Prelude.Int.{ℤ, pos}
use era_ai.Prelude.Results.{ok, err}
use era_ai.Core.Enums.{RiskLevel}
use era_ai.Value.{Value, str, obj, arr, Fields, end, field, nil, cons, bool, int}
use era_ai.Permission.Catalog.{ActionCatalog}
use era_ai.Security.Schema.{validate_param_schema}
use era_ai.Workflow.Definition.{
  WorkflowTarget, WorkflowParallelBlock, WorkflowStep, WorkflowDefinition,
  password_without_reference, sibling_dependency, in_two_blocks,
}
use era_ai.Workflow.Dag.Acyclic.{IsDag}
use era_ai.Workflow.Render.{render_fields}
use era_ai.Workflow.Register.{validate_parallel, validate_workflow_definition}
use era_ai.Workflow.Register.Secrets.{IsGuarded, validate_workflow_definition-IsGuarded}

abbrev float_chars : ℤ → ℕ → ℕ
float_chars m e = 3

abbrev text_of : Value → String
text_of v = "0"

abbrev password_field : WorkflowTarget
password_field = record {
  role = some "textbox";
  name = some "Password";
  tag = none;
  input_type = some "password";
  frame_id = none;
  index = none;
}

abbrev fill : String → Fields → List String → WorkflowStep
fill id params depends_on = record {
  id = id;
  action = "browser.fill";
  params = params;
  target = some password_field;
  expect = none;
  on_denied = "stop";
  outputs = [];
  depends_on = depends_on;
  condition = none;
}

abbrev login : List WorkflowStep → List WorkflowParallelBlock → WorkflowDefinition
login steps parallel = record {
  name = "login";
  version = 1;
  params_schema = end;
  steps = steps;
  parallel = parallel;
}

abbrev schema : Fields
schema = field "required" (arr (cons (str "value_ref") nil)) (
    field "properties"
      (obj (
        field "value_ref" (obj (field "type" (str "string") (field "maxLength" (int (pos 80)) end)))
          (field "element_ref" (obj (field "type" (str "string") end)) end)))
      (field "additionalProperties" (bool false) end))

abbrev catalog : ActionCatalog
catalog = record {
  specs =
      (
        "browser.fill",
        record {
          action_type = "browser.fill";
          risk_level = RiskLevel.mutating;
          capability_domain = "browser";
          secret_fields = [];
          param_schema = some schema;
        },
      )
      ∷ [];
}

abbrev guarded : WorkflowDefinition
guarded = login (fill "pw" (field "value_ref" (str "{{secret}}") end) [] ∷ []) []

guarded_passes :
    validate_workflow_definition float_chars text_of guarded catalog 50 16384 ≡ ok guarded
unfolding validate_workflow_definition render_fields
guarded_passes = refl

plain_fails :
    validate_workflow_definition float_chars text_of
      (login (fill "pw" (field "text" (str "hunter2") end) [] ∷ []) [])
      catalog
      50
      16384
    ≡ err password_without_reference
unfolding validate_workflow_definition
plain_fails = refl

validate_workflow_definition-IsGuarded_example :
    (guarded ≡ guarded) × IsDag guarded × All IsGuarded guarded.steps
validate_workflow_definition-IsGuarded_example =
    validate_workflow_definition-IsGuarded float_chars text_of guarded guarded catalog 50 16384
      guarded_passes

abbrev block : WorkflowParallelBlock
block = record { steps = "a" ∷ "b" ∷ []; depends_on = []; max_concurrency = 2 }

siblings_fail :
    validate_parallel (login (fill "a" end [] ∷ fill "b" end ("a" ∷ []) ∷ []) (block ∷ []))
    ≡ err sibling_dependency
unfolding validate_parallel
siblings_fail = refl

two_blocks_fail :
    validate_parallel (login (fill "a" end [] ∷ fill "b" end [] ∷ []) (block ∷ block ∷ []))
    ≡ err in_two_blocks
unfolding validate_parallel
two_blocks_fail = refl

unknown_param_fails :
    validate_param_schema (field "value_ref" (str "x") (field "text" (str "y") end)) (some schema)
    ≡ err "unknown parameter"
unfolding validate_param_schema
unknown_param_fails = refl
