-- ===== src/Workflow/Register.antt =====
-- `_validate_parallel` and `validate_workflow_definition` of era/workflows/definition.py.
pub mod Secrets
mod Tests
use era_ai.Prelude.{
  ℕ, ◌+◌, String, Bool, true, false, not, ◌&&◌, ◌||◌, Option, none, some, List, [], ◌∷◌, ◌++◌, Dict,
  lookup, elem, any, length, ltb, str_eq, is_some, if◌then◌else◌,
}
use era_ai.Prelude.Int.{ℤ, pos, negsuc}
use era_ai.Prelude.Text.{text_length, decimal, strip}
use era_ai.Prelude.Results.{Result, ok, err, ◌>>=◌, ◌>>◌, refuse_if}
use era_ai.Value.{
  Value, null, bool, int, float, str, obj, arr, Fields, end, field, Items, nil, cons, get_field,
}
use era_ai.Permission.Catalog.{ActionSpec, ActionCatalog, get_spec}
use era_ai.Security.Params.{validate_params, int_chars}
use era_ai.Security.Schema.{validate_param_schema}
use era_ai.Vault.Reference.{parse_vault_ref}
use era_ai.Workflow.Definition.{
  DefinitionError, too_many_steps, too_many_characters, duplicate_step, unknown_action,
  not_a_workflow_action, password_without_reference, fill_without_target, bad_value_reference,
  text_and_reference, target_and_reference, schema_refused, in_two_blocks, unknown_block_dependency,
  unknown_block_step, sibling_dependency, sibling_condition, WorkflowTarget, WorkflowCondition,
  WorkflowParallelBlock, WorkflowStep, WorkflowDefinition, allowed_step_actions,
}
use era_ai.Workflow.Dag.{ids_of, validate_dag}
use era_ai.Workflow.Render.{lax, placeholder_at, render_workflow_params}
use era_ai.Workflow.Receipt.{set_field}

-- `_SYNTHETIC_REF`
abbrev synthetic_ref : String
synthetic_ref = "er_wwwwwwwwwwwwwwwwwwwwwwwwwwwwwwwwwwwwwwww"

-- `step_to_block` with the steps of a block
put_steps :
    WorkflowParallelBlock
    → List String
    → Dict WorkflowParallelBlock
    → Result DefinitionError (Dict WorkflowParallelBlock)
unfolding lookup
put_steps b [] d = ok d
put_steps b (s ∷ ss) d =
    refuse_if (is_some (lookup s d)) in_two_blocks >> put_steps b ss (d ++ (s, b) ∷ [])

step_to_block :
    List String
    → List WorkflowParallelBlock
    → Dict WorkflowParallelBlock
    → Result DefinitionError (Dict WorkflowParallelBlock)
unfolding put_steps
step_to_block ids [] d = ok d
step_to_block ids (b ∷ bs) d = do
  e ← put_steps b b.steps d
  refuse_if (any (λ dep. not (elem dep ids)) b.depends_on) unknown_block_dependency
  step_to_block ids bs e

find_step : String → List WorkflowStep → Option WorkflowStep
find_step id [] = none
find_step id (s ∷ ss) = let rest = find_step id ss in if str_eq s.id id then some s else rest

is_sibling : Option WorkflowCondition → List String → Bool
is_sibling none steps = false
is_sibling (some c) steps = elim c.step_id [ none ↦ false | some id ↦ elem id steps ]

check_member : Option WorkflowStep → WorkflowParallelBlock → Result DefinitionError (Unit {0})
unfolding is_sibling
check_member none b = err unknown_block_step
check_member (some s) b = do
  refuse_if (any (λ dep. elem dep b.steps) (s.depends_on ++ b.depends_on)) sibling_dependency
  refuse_if (is_sibling s.condition b.steps) sibling_condition

check_members : List WorkflowStep → Dict WorkflowParallelBlock → Result DefinitionError (Unit {0})
unfolding find_step check_member
check_members steps [] = ok tt
check_members steps ((sid, b) ∷ rest) =
    check_member (find_step sid steps) b >> check_members steps rest

-- `_validate_parallel`; a step that is missing raises KeyError.
unfoldable pub validate_parallel : WorkflowDefinition → Result DefinitionError (Unit {0})
unfolding step_to_block check_members
validate_parallel d =
    step_to_block (ids_of d.steps) d.parallel [] >>= λ blocks. check_members d.steps blocks

-- `_is_vault_or_placeholder`
unfoldable pub is_vault_or_placeholder : Value → Bool
unfolding strip parse_vault_ref placeholder_at
is_vault_or_placeholder (str ref) =
    not (str_eq (strip ref) "")
    && (is_some (parse_vault_ref ref)
        || elim (placeholder_at (strip ref)) [ none ↦ false | some p ↦ str_eq p.1 "" ])
is_vault_or_placeholder other = false

abbrev pub is_password : Option WorkflowTarget → Bool
is_password none = false
is_password (some t) = elim t.input_type [ none ↦ false | some i ↦ str_eq i "password" ]

abbrev pub is_absent : {A : Type 0} → Option A → Bool
is_absent none = true
is_absent (some a) = false

unfoldable pub check_reference : Option Value → Bool → Result DefinitionError (Unit {0})
unfolding is_vault_or_placeholder
check_reference none has_text = ok tt
check_reference (some ref) has_text = do
  refuse_if (not (is_vault_or_placeholder ref)) bad_value_reference
  refuse_if has_text text_and_reference

-- The rules for a `browser.fill`
unfoldable pub check_fill : WorkflowStep → Result DefinitionError (Unit {0})
unfolding get_field check_reference
check_fill s =
    let ref = get_field "value_ref" s.params in
    do
      refuse_if (is_password s.target && is_absent ref) password_without_reference
      refuse_if (is_absent s.target && is_absent ref) fill_without_target
      check_reference ref (is_some (get_field "text" s.params))

-- `_inject_target`
unfoldable pub inject_target : WorkflowStep → Fields → Result DefinitionError Fields
unfolding get_field set_field
inject_target s rendered =
    if is_absent s.target
    then ok rendered
    else (refuse_if
          (is_some (get_field "element_ref" rendered) || is_some (get_field "selector" rendered))
          target_and_reference
        >> ok (set_field "element_ref" (str synthetic_ref) rendered))

-- `float_chars` is the length of a float's `str`, and `text_of` stands for `str` of a number.
module _ (float_chars : ℤ → ℕ → ℕ) (text_of : Value → String) where
  mutual
    unfolding int_chars

    -- `_approx_chars`
    approx_chars : Value → ℕ
    approx_chars null = 4
    approx_chars (bool b) = if b then 4 else 5
    approx_chars (int n) = int_chars n
    approx_chars (float m e) = float_chars m e
    approx_chars (str s) = text_length s
    approx_chars (obj fs) = approx_fields fs
    approx_chars (arr xs) = approx_items xs

    approx_fields : Fields → ℕ
    approx_fields end = 0
    approx_fields (field k v fs) = approx_chars v + approx_fields fs

    approx_items : Items → ℕ
    approx_items nil = 0
    approx_items (cons x xs) = approx_chars x + approx_items xs

  -- `_char_budget`
  unfoldable pub char_budget : List WorkflowStep → ℕ
  unfolding approx_fields
  char_budget [] = 0
  char_budget (s ∷ ss) = approx_fields s.params + char_budget ss

  as_refused : {A : Type 0} → Result String A → Result DefinitionError A
  as_refused (ok a) = ok a
  as_refused (err message) = err schema_refused

  -- The rendered params against the bounds and the schema of the action
  check_schema_of : Option Fields → Fields → Result DefinitionError (Unit {0})
  unfolding validate_params validate_param_schema as_refused
  check_schema_of schema effective = do
    as_refused (validate_params float_chars effective none none)
    as_refused (validate_param_schema effective schema)
    ok tt

  unfoldable pub check_step : Option ActionSpec → WorkflowStep → Result DefinitionError (Unit {0})
  unfolding check_fill inject_target render_workflow_params check_schema_of
  check_step none s = err unknown_action
  check_step (some spec) s = do
    refuse_if (not (elem s.action allowed_step_actions)) not_a_workflow_action
    (if str_eq s.action "browser.fill" then check_fill s else ok tt)
    rendered ← render_workflow_params text_of lax s
    effective ← inject_target s rendered
    check_schema_of spec.param_schema effective

  unfoldable pub check_steps :
      ActionCatalog → List String → List WorkflowStep → Result DefinitionError (Unit {0})
  unfolding get_spec check_step
  check_steps catalog seen [] = ok tt
  check_steps catalog seen (s ∷ ss) = do
    refuse_if (elem s.id seen) duplicate_step
    check_step (get_spec catalog s.action) s
    check_steps catalog (s.id ∷ seen) ss

  -- `validate_workflow_definition`
  unfoldable pub validate_workflow_definition :
      WorkflowDefinition → ActionCatalog → ℕ → ℕ → Result DefinitionError WorkflowDefinition
  unfolding char_budget check_steps validate_dag validate_parallel
  validate_workflow_definition d catalog max_steps max_param_chars = do
    refuse_if (ltb max_steps (length d.steps)) too_many_steps
    refuse_if (ltb max_param_chars (char_budget d.steps)) too_many_characters
    check_steps catalog [] d.steps
    validate_dag d
    validate_parallel d
    ok d
