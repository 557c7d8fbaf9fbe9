-- ===== src/Workflow/Step.antt =====
-- One step of a workflow: `_execute_step` and `_acquire_target` of era/services/workflow_service.py,
-- with `WorkflowTarget.matches` and `_evaluate_condition`.
pub mod Keeps
use era_ai.Prelude.{
  ℕ, zero, suc, ◌+◌, String, Bool, true, false, not, ◌&&◌, ◌||◌, Option, none, some, List, [], ◌∷◌,
  ◌++◌, length, leb, ◌==◌, str_eq, or_else, if◌then◌else◌,
}
use era_ai.Prelude.Text.{codes, contains}
use era_ai.Prelude.Results.{Result, ok, err, ◌>>=◌, ◌>>◌, refuse_if}
use era_ai.Core.Result.{ErrorCode, code_value}
use era_ai.Value.{
  Value, null, bool, int, float, str, obj, arr, Fields, end, field, Items, nil, cons, get_field,
  py_eq,
}
use era_ai.Permission.Catalog.{Action}
use era_ai.Gate.Records.{ActionResult, ExecutionContext, ExecutionStatus, ExecutionResponse}
use era_ai.Workflow.Definition.{
  DefinitionError, WorkflowTarget, WorkflowExpect, WorkflowCondition, WorkflowStep,
  WorkflowDefinition,
}
use era_ai.Workflow.Render.{Mode, strict, render_workflow_params, render_step_expect}
use era_ai.Workflow.Run.{
  RunStatus, StepStatus, ServiceError, cannot_inspect, no_match, many_matches, index_too_high,
  missing_reference, StepError, of_definition, of_service, of_engine, Message, text, raised,
  WorkflowRun, StepRow, Sent, EngineState, Services, row_at, update_row, mark_step,
  set_run_budget_failed, ticked,
}
use era_ai.Workflow.Receipt.{
  sanitize_receipt, set_field, capture_outputs, result_value, recent_observation_url,
}

-- `self.role is None or element.get("role") == self.role`
field_matches : Option String → String → Fields → Bool
unfolding get_field
field_matches none key element = true
field_matches (some wanted) key element = elim (get_field key element) [
  | some (str s) ↦ str_eq s wanted
  | _ ↦ false
]

unfoldable pub matches : WorkflowTarget → Fields → Bool
unfolding field_matches
matches t element =
    field_matches t.role "role" element
    && field_matches t.name "name" element
    && field_matches t.tag "tag" element
    && field_matches t.input_type "input_type" element
    && field_matches t.frame_id "frame_id" element

-- `[e for e in elements if target.matches(e)]`; an element that is no dict raises.
unfoldable pub matching : WorkflowTarget → Items → Result StepError (List Fields)
unfolding matches
matching t nil = ok []
matching t (cons (obj element) es) =
    matching t es >>= λ rest. ok (if matches t element then element ∷ rest else rest)
matching t (cons _ es) = err (of_engine "AttributeError")

nth : ℕ → List Fields → Option Fields
nth i [] = none
nth zero (x ∷ xs) = some x
nth (suc i) (x ∷ xs) = nth i xs

-- One match, or the one of the index.
unfoldable pub choose : Option ℕ → List Fields → Result StepError Fields
unfolding nth
choose index [] = err (of_service no_match)
choose none (e ∷ []) = ok e
choose none (e ∷ f ∷ es) = err (of_service many_matches)
choose (some i) (e ∷ es) = elim (nth i (e ∷ es)) [
  | none ↦ err (of_service index_too_high)
  | some f ↦ ok f
]

reference_of : Fields → Result StepError String
unfolding get_field
reference_of element = elim (get_field "element_ref" element) [
  | some (str s) ↦ if str_eq s "" then err (of_service missing_reference) else ok s
  | _ ↦ err (of_service missing_reference)
]

-- `data.get("elements", [])`; what cannot be looped over raises.
unfoldable pub elements_of : Fields → Result StepError Items
unfolding get_field
elements_of content = elim (get_field "elements" content) [
  | none ↦ ok nil
  | some (arr xs) ↦ ok xs
  | some v ↦ err (of_engine "TypeError")
]

unfoldable pub fresh_reference : WorkflowTarget → ExecutionResponse → Result StepError String
unfolding elements_of matching choose reference_of
fresh_reference t r = elim r.status [
  | ExecutionStatus.executed ↦ elim r.result [
    | none ↦ err (of_service cannot_inspect)
    | some result ↦
        if not result.success
        then err (of_service cannot_inspect)
        else (elements_of result.content >>= λ elements.
            matching t elements >>= λ found. choose t.index found >>= reference_of)
  ]
  | _ ↦ err (of_service cannot_inspect)
]

abbrev pub inspect_action : Action
inspect_action = record { action_type = "browser.inspect"; params = end }

from_definition : {A : Type 0} → Result DefinitionError A → Result StepError A
from_definition (ok a) = ok a
from_definition (err e) = err (of_definition e)

from_request : Result String ExecutionResponse → Result StepError ExecutionResponse
from_request (ok r) = ok r
from_request (err e) = err (of_engine e)

-- The first index of a step id.
unfoldable pub index_of : String → List WorkflowStep → Option ℕ
index_of id [] = none
index_of id (s ∷ ss) =
    let rest = index_of id ss in
    if str_eq s.id id then some 0 else elim rest [ none ↦ none | some i ↦ some (i + 1) ]

module _ (sv : Services) (ctx : ExecutionContext) where
  -- `execution_service.request(action, ctx)`
  unfoldable pub send :
      Option ℕ → Action → EngineState → Result StepError ExecutionResponse × EngineState
  unfolding from_request
  send step action s = (
    from_request (sv.request s.ticks action ctx),
    record s { sent = s.sent ++ record { step = step; action = action } ∷ []; ticks = s.ticks + 1 },
  )

  -- `rendered["element_ref"] = self._acquire_target(...)`, if the step has a target
  with_target : WorkflowStep → Fields → EngineState → Result StepError Fields × EngineState
  unfolding send fresh_reference set_field
  with_target d rendered s = elim d.target [
    | none ↦ (ok rendered, s)
    | some t ↦
        let (response, next) = send none inspect_action s in
        (
          response >>= fresh_reference t >>= λ ref. ok (set_field "element_ref" (str ref) rendered),
          next,
        )
  ]

  -- `rendered["expect"] = render_step_expect(...)`, if the step has one
  with_expect : WorkflowStep → Fields → Fields → Result StepError Fields
  unfolding set_field from_definition
  with_expect d params rendered = elim d.expect [
    | none ↦ ok rendered
    | some e ↦
        (from_definition (render_step_expect sv.text_of (strict params) e) >>= λ expect.
        ok (set_field "expect" (obj expect) rendered))
  ]

  send_rendered :
      WorkflowStep
      → ℕ
      → Result StepError Fields × EngineState
      → Result StepError ExecutionResponse × EngineState
  unfolding send
  send_rendered d idx (err e, s) = (err e, s)
  send_rendered d idx (ok rendered, s) =
      send (some idx) record { action_type = d.action; params = rendered } s

  then_expect :
      WorkflowStep
      → Fields
      → Result StepError Fields × EngineState
      → Result StepError Fields × EngineState
  unfolding with_expect
  then_expect d params (rendered, s) = (rendered >>= with_expect d params, s)

  dispatch_rendered :
      WorkflowStep
      → ℕ
      → Result StepError Fields
      → EngineState
      → Result StepError ExecutionResponse × EngineState
  unfolding with_target then_expect send_rendered
  dispatch_rendered d idx (err e) s = (err e, s)
  dispatch_rendered d idx (ok rendered) s =
      send_rendered d idx (then_expect d s.run.run_params (with_target d rendered s))

  -- The `try` block up to the answer.
  unfoldable pub dispatch :
      WorkflowStep → ℕ → EngineState → Result StepError ExecutionResponse × EngineState
  unfolding dispatch_rendered from_definition
  dispatch d idx s =
      dispatch_rendered d idx
        (from_definition (render_workflow_params sv.text_of (strict s.run.run_params) d)) s

  -- The receipt of an executed step.
  unfoldable pub receipt_of : WorkflowStep → ExecutionResponse → Value
  receipt_of d r = obj (
      capture_outputs d.outputs
        (sanitize_receipt (elim r.result [ none ↦ none | some a ↦ some (obj a.content) ])))

  -- `row.status = STATUS_WAITING` and its confirmation
  wait_for : ℕ → Option String → EngineState → EngineState
  unfolding update_row
  wait_for idx confirmation s = record s {
    rows =
        update_row idx
          (λ r. record r { status = StepStatus.waiting; confirmation_id = confirmation }) s.rows;
  }

  or_text : Option String → String → Message
  or_text none default = text default
  or_text (some m) default = text (if str_eq m "" then default else m)

  or_provider_error : Option ErrorCode → ErrorCode
  or_provider_error none = ErrorCode.provider_error
  or_provider_error (some c) = c

  fail_as : ErrorCode → ℕ → ExecutionResponse → EngineState → EngineState
  unfolding mark_step or_text
  fail_as ErrorCode.side_effect_unknown idx r s =
      mark_step idx StepStatus.ambiguous none (some (code_value ErrorCode.side_effect_unknown))
        (some (text "step outcome is unknown (SIDE_EFFECT_UNKNOWN)")) s
  fail_as code idx r s =
      mark_step idx StepStatus.failed none (some (code_value code))
        (some (or_text r.message "workflow step failed")) s

  conclude_as : ExecutionStatus → WorkflowStep → ℕ → ExecutionResponse → EngineState → EngineState
  unfolding mark_step wait_for fail_as or_provider_error
  conclude_as ExecutionStatus.executed d idx r s =
      mark_step idx StepStatus.completed (some (receipt_of d r)) none none s
  conclude_as ExecutionStatus.confirmation_required d idx r s = wait_for idx r.confirmation_id s
  conclude_as ExecutionStatus.denied d idx r s =
      if str_eq d.on_denied "skip"
      then mark_step idx StepStatus.skipped none none (some (text "step denied and skipped")) s
      else mark_step idx StepStatus.failed none none (some (text "step denied by policy")) s
  conclude_as other d idx r s = fail_as (or_provider_error r.error_code) idx r s

  -- What the answer makes of the row.
  unfoldable pub conclude : WorkflowStep → ℕ → ExecutionResponse → EngineState → EngineState
  unfolding conclude_as
  conclude d idx r s = conclude_as r.status d idx r s

  code_of : StepError → ErrorCode
  code_of (of_definition e) = ErrorCode.validation
  code_of (of_service e) = ErrorCode.validation
  code_of (of_engine e) = ErrorCode.internal

  settle_step : WorkflowStep → ℕ → Result StepError ExecutionResponse × EngineState → EngineState
  unfolding conclude code_of
  settle_step d idx (ok r, s) = conclude d idx r s
  settle_step d idx (err e, s) =
      mark_step idx StepStatus.failed none (some (code_value (code_of e))) (some (raised e)) s

  with_row : StepRow → Option StepRow → List StepRow → List StepRow
  with_row fresh none rows = rows ++ fresh ∷ []
  with_row fresh (some r) rows = rows

  -- The row, made if it is missing, is running.
  unfoldable pub begin_step : WorkflowStep → ℕ → EngineState → EngineState
  unfolding row_at update_row with_row
  begin_step d idx s =
      let fresh : StepRow = record {
        step_id = d.id;
        step_index = idx;
        action_type = d.action;
        status = StepStatus.pending;
        attempt = 0;
        confirmation_id = none;
        result_receipt = none;
        error_code = none;
        error_message = none;
      } in
      record s {
        rows =
            update_row idx (λ r. record r { status = StepStatus.running; attempt = r.attempt + 1 })
              (with_row fresh (row_at idx s.rows) s.rows);
      }

  on_claim : Option String → WorkflowStep → ℕ → EngineState → EngineState
  unfolding dispatch settle_step set_run_budget_failed mark_step
  on_claim (some refusal) d idx s =
      mark_step idx StepStatus.failed none (some "BUDGET_EXCEEDED") (some (text refusal))
        (set_run_budget_failed (text refusal) s)
  on_claim none d idx s = settle_step d idx (dispatch d idx s)

  -- `_execute_step`; without a governance service `claim_step_budget` never refuses.
  unfoldable pub execute_step : WorkflowStep → ℕ → EngineState → EngineState
  unfolding begin_step on_claim ticked
  execute_step d idx s =
      let begun = begin_step d idx s in
      on_claim (sv.claim_step_budget begun.ticks) d idx (ticked begun)

step_receipt : Option StepRow → Option Value
step_receipt none = none
step_receipt (some r) = r.result_receipt

prior_receipt : WorkflowDefinition → List StepRow → WorkflowCondition → Option (Option Value)
unfolding index_of row_at step_receipt
prior_receipt d rows c = elim c.step_id [
  | none ↦ none
  | some id ↦
      if str_eq id ""
      then none
      else elim (index_of id d.steps) [ none ↦ none | some i ↦ some (step_receipt (row_at i rows)) ]
]

compare_result : WorkflowCondition → Option (Option Value) → Option Bool
compare_result c (some (some receipt)) =
    let same = py_eq (result_value receipt) c.value in
    some (elim c.op [ none ↦ same | some op ↦ if str_eq op "!=" then not same else same ])
compare_result c _ = none

has_elements : Option (Option Value) → Option Bool
unfolding get_field
has_elements none = none
has_elements (some (some (obj fs))) =
    some
      (elim (get_field "elements_present" fs) [ none ↦ false | some null ↦ false | some v ↦ true ])
has_elements (some other) = some false

url_holds : Value → Option String → Option Bool
unfolding contains
url_holds value none = none
url_holds (str wanted) (some url) = some (contains (codes wanted) (codes url))
url_holds value (some url) = none

-- `_evaluate_condition`: `none` where the outcome is unknown.
unfoldable pub evaluate_condition :
    WorkflowDefinition → List StepRow → WorkflowCondition → Option Bool
unfolding prior_receipt compare_result has_elements url_holds recent_observation_url
evaluate_condition d rows c =
    if str_eq c.kind "step_result"
    then compare_result c (prior_receipt d rows c)
    else if str_eq c.kind "url_contains"
    then url_holds c.value (recent_observation_url rows)
    else if str_eq c.kind "element_present"
    then has_elements (prior_receipt d rows c)
    else none
