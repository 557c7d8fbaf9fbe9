-- ===== src/Workflow/Dag/Tests.antt =====
-- The validation of a diamond and of a cycle.
use era_ai.Prelude.{◌≡◌, ◌↔◌, refl, String, none, List, [], ◌∷◌}
use era_ai.Prelude.Results.{ok, err}
use era_ai.Value.{end}
use era_ai.Workflow.Definition.{
  WorkflowStep, WorkflowDefinition, cyclic, unknown_dependency, duplicate_step, unbounded_fan_out,
}
use era_ai.Workflow.Dag.{validate_dag}
use era_ai.Workflow.Dag.Acyclic.{IsDag, validate_dag_iff}

abbrev a_step : String → List String → WorkflowStep
a_step id depends_on = record {
  id = id;
  action = "browser.click";
  params = end;
  target = none;
  expect = none;
  on_denied = "stop";
  outputs = [];
  depends_on = depends_on;
  condition = none;
}

abbrev definition_of : List WorkflowStep → WorkflowDefinition
definition_of steps = record {
  name = "shop";
  version = 1;
  params_schema = end;
  steps = steps;
  parallel = [];
}

abbrev diamond : WorkflowDefinition
diamond = definition_of (
    a_step "d" ("b" ∷ "c" ∷ [])
    ∷ a_step "b" ("a" ∷ [])
    ∷ a_step "c" ("a" ∷ [])
    ∷ a_step "a" []
    ∷ [])

diamond_passes : validate_dag diamond ≡ ok tt
unfolding validate_dag
diamond_passes = refl

cycle_fails :
    validate_dag (definition_of (a_step "a" ("b" ∷ []) ∷ a_step "b" ("a" ∷ []) ∷ [])) ≡ err cyclic
unfolding validate_dag
cycle_fails = refl

unknown_fails : validate_dag (definition_of (a_step "a" ("z" ∷ []) ∷ [])) ≡ err unknown_dependency
unfolding validate_dag
unknown_fails = refl

twice_fails : validate_dag (definition_of (a_step "a" [] ∷ a_step "a" [] ∷ [])) ≡ err duplicate_step
unfolding validate_dag
twice_fails = refl

-- Two steps depend on `a`, each of them five times over.
abbrev five_times : List String
five_times = "a" ∷ "a" ∷ "a" ∷ "a" ∷ "a" ∷ []

repetitions_count :
    validate_dag
      (definition_of (a_step "a" [] ∷ a_step "b" five_times ∷ a_step "c" five_times ∷ []))
    ≡ err unbounded_fan_out
unfolding validate_dag
repetitions_count = refl

validate_dag_iff_example : (validate_dag diamond ≡ ok tt) ↔ IsDag diamond
validate_dag_iff_example = validate_dag_iff diamond
