-- ===== src/Workflow/Waiting.antt =====
-- A step that waits for a confirmation: `_handle_waiting_step`, `_revalidate_post_condition` and
-- `_confirmation_dispatch_outcome` of era/services/workflow_service.py.
pub mod Keeps
use era_ai.Prelude.{
  ℕ, zero, suc, ◌+◌, ◌*◌, ◌^◌, String, Bool, true, false, not, ◌&&◌, ◌||◌, Option, none, some, List,
  [], ◌∷◌, length, any, leb, ltb, str_eq, or_else, if◌then◌else◌,
}
use era_ai.Prelude.Int.{ℤ, pos, negsuc}
use era_ai.Prelude.Text.{codes, contains}
use era_ai.Prelude.Results.{Result, ok, err, ◌>>=◌, ◌>>◌}
use era_ai.Core.Enums.{Outcome}
use era_ai.Value.{
  Value, null, bool, int, float, str, obj, arr, Fields, end, field, Items, nil, cons, get_field,
}
use era_ai.Gate.Records.{ExecutionContext, ExecutionStatus, ExecutionResponse, ConfirmationStatus}
use era_ai.Workflow.Definition.{
  DefinitionError, WorkflowTarget, WorkflowExpect, WorkflowStep, WorkflowDefinition,
}
use era_ai.Workflow.Render.{strict, render_step_expect}
use era_ai.Workflow.Run.{
  RunStatus, StepStatus, StepError, Message, text, dispatch_outcome, WorkflowRun, StepRow,
  EngineState, Services, update_row, set_run_failed, ticked,
}
use era_ai.Workflow.Step.{matching, elements_of, inspect_action, send}

step_at : ℕ → List WorkflowStep → Option WorkflowStep
step_at idx [] = none
step_at zero (s ∷ ss) = some s
step_at (suc idx) (s ∷ ss) = step_at idx ss

-- EXECUTED, FAILED, REJECTED, DENIED_BY_USER, DENIED_BY_POLICY
is_final : Outcome → Bool
is_final Outcome.authorized = false
is_final Outcome.pending = false
is_final Outcome.expired = false
is_final _ = true

-- `_confirmation_dispatch_outcome`: the last final outcome that the log has of a confirmation.
unfoldable pub last_final : List Outcome → Option Outcome
unfolding is_final
last_final [] = none
last_final (o ∷ os) = or_else (last_final os) (if is_final o then some o else none)

pub data WaitOutcome : Type 0 where
  next still_waiting denied_skip denied_stop failed : WaitOutcome

text_field : Fields → String → String
unfolding get_field
text_field fs key = elim (get_field key fs) [ some (str s) ↦ s | _ ↦ "" ]

module _ (sv : Services) (ctx : ExecutionContext) where
  -- `_step_def_for`
  unfoldable pub step_def_for : WorkflowRun → ℕ → Option WorkflowStep
  unfolding step_at
  step_def_for run idx = elim (sv.definition_for_run run) [
    | none ↦ none
    | some d ↦ step_at idx d.steps
  ]

  -- `str(data.get("url", ""))`
  page_url : Fields → String
  unfolding get_field
  page_url content = elim (get_field "url" content) [
    | none ↦ ""
    | some (str s) ↦ s
    | some v ↦ sv.text_of v
  ]

  -- `int(data.get("tab_count", 0)) >= 2`; `none` where `int` raises.
  at_least_two : ℤ → Bool
  at_least_two (pos n) = leb 2 n
  at_least_two (negsuc n) = false

  -- `mantissa / 2 ^ exponent`, cut towards zero
  two_or_more : ℤ → ℕ → Bool
  two_or_more (pos n) e = leb (2 * 2 ^ e) n
  two_or_more (negsuc n) e = false

  many_tabs : Fields → Option Bool
  unfolding get_field at_least_two two_or_more
  many_tabs content = elim (get_field "tab_count" content) [
    | none ↦ some false
    | some (int z) ↦ some (at_least_two z)
    | some (bool b) ↦ some false
    | some (float m e) ↦ some (two_or_more m e)
    | some (str t) ↦ elim (sv.int_of_text t) [ none ↦ none | some z ↦ some (at_least_two z) ]
    | some v ↦ none
  ]

  is_none_left : WorkflowTarget → Fields → Bool
  unfolding elements_of matching
  is_none_left t content = elim (elements_of content >>= matching t) [
    | ok [] ↦ true
    | ok (e ∷ es) ↦ false
    | err e ↦ false
  ]

  -- The kinds of post-condition, of the page as it is inspected.
  unfoldable pub page_meets : WorkflowStep → Fields → Fields → Bool
  unfolding text_field page_url many_tabs is_none_left
  page_meets d expect content = elim (many_tabs content) [
    | none ↦ false
    | some tabs ↦
        let kind = text_field expect "kind" in
        let wanted = text_field expect "url_contains" in
        if str_eq kind "navigation"
        then not (str_eq wanted "") && contains (codes wanted) (codes (page_url content))
        else if str_eq kind "tab_opened"
        then tabs
        else if str_eq kind "element_detached"
        then elim d.target [ none ↦ true | some t ↦ is_none_left t content ]
        else false
  ]

  inspected : WorkflowStep → Fields → Result StepError ExecutionResponse → Bool
  unfolding page_meets
  inspected d expect (err e) = false
  inspected d expect (ok r) = elim r.status [
    | ExecutionStatus.executed ↦ elim r.result [
      | none ↦ false
      | some a ↦ page_meets d expect a.content
    ]
    | _ ↦ false
  ]

  -- `_revalidate_post_condition`, of a step with an `expect` that is rendered
  revalidate_expect :
      WorkflowStep → Result DefinitionError Fields → EngineState → Bool × EngineState
  unfolding send inspected
  revalidate_expect d (err e) s = (false, s)
  revalidate_expect d (ok expect) s =
      let (response, after) = send sv ctx none inspect_action s in
      (inspected d expect response, after)

  expect_of : WorkflowStep → Option WorkflowExpect → EngineState → Bool × EngineState
  unfolding revalidate_expect
  expect_of d none s = (true, s)
  expect_of d (some e) s =
      revalidate_expect d (render_step_expect sv.text_of (strict s.run.run_params) e) s

  revalidate_step : Option WorkflowStep → EngineState → Bool × EngineState
  unfolding expect_of
  revalidate_step none s = (true, s)
  revalidate_step (some d) s = expect_of d d.expect s

  unfoldable pub revalidate_post_condition : ℕ → EngineState → Bool × EngineState
  unfolding step_def_for revalidate_step
  revalidate_post_condition idx s = revalidate_step (step_def_for s.run idx) s

  approved_receipt : String → Value
  approved_receipt cid = obj (
      field "approved" (bool true)
        (field "executed_once" (bool true) (field "confirmation_id" (str cid) end)))

  -- An approved step is complete.
  unfoldable pub complete_waiting : ℕ → String → EngineState → EngineState
  unfolding update_row approved_receipt
  complete_waiting idx cid s = record s {
    rows =
        update_row idx
          (λ r. record r {
            status = StepStatus.completed;
            result_receipt = some (approved_receipt cid);
          })
          s.rows;
  }

  skip_waiting : ℕ → EngineState → EngineState
  unfolding update_row
  skip_waiting idx s = record s {
    rows =
        update_row idx
          (λ r. record r {
            status = StepStatus.skipped;
            error_message = some (text "confirmation denied; step skipped");
          })
          s.rows;
  }

  after_revalidation : ℕ → String → Bool × EngineState → WaitOutcome × EngineState
  unfolding complete_waiting set_run_failed
  after_revalidation idx cid (true, s) = (next, complete_waiting idx cid s)
  after_revalidation idx cid (false, s) =
      (failed, set_run_failed (text "approved step failed post-condition revalidation") s)

  -- A used confirmation: what its dispatch came to.
  on_outcome : Option Outcome → ℕ → String → EngineState → WaitOutcome × EngineState
  unfolding after_revalidation revalidate_post_condition set_run_failed
  on_outcome none idx cid s =
      (failed, set_run_failed (text "approved step has no recorded dispatch outcome") s)
  on_outcome (some Outcome.executed) idx cid s =
      after_revalidation idx cid (revalidate_post_condition idx s)
  on_outcome (some other) idx cid s = (failed, set_run_failed (dispatch_outcome other) s)

  on_used : ℕ → String → EngineState → WaitOutcome × EngineState
  unfolding last_final on_outcome ticked
  on_used idx cid s = on_outcome (last_final (sv.audit_outcomes s.ticks cid)) idx cid (ticked s)

  denied_step : Option WorkflowStep → ℕ → EngineState → WaitOutcome × EngineState
  unfolding skip_waiting
  denied_step none idx s = (denied_stop, s)
  denied_step (some d) idx s =
      if str_eq d.on_denied "skip" then (denied_skip, skip_waiting idx s) else (denied_stop, s)

  on_denied_confirmation : ℕ → EngineState → WaitOutcome × EngineState
  unfolding step_def_for denied_step
  on_denied_confirmation idx s = denied_step (step_def_for s.run idx) idx s

  on_confirmation : ℕ → String → Option ConfirmationStatus → EngineState → WaitOutcome × EngineState
  unfolding on_used on_denied_confirmation set_run_failed
  on_confirmation idx cid none s =
      (failed, set_run_failed (text "confirmation record is missing") s)
  on_confirmation idx cid (some ConfirmationStatus.pending) s = (still_waiting, s)
  on_confirmation idx cid (some ConfirmationStatus.used) s = on_used idx cid s
  on_confirmation idx cid (some ConfirmationStatus.denied) s = on_denied_confirmation idx s
  on_confirmation idx cid (some ConfirmationStatus.expired) s =
      (failed, set_run_failed (text "confirmation expired") s)

  no_confirmation : EngineState → WaitOutcome × EngineState
  unfolding set_run_failed
  no_confirmation s = (failed, set_run_failed (text "waiting step has no confirmation record") s)

  on_id : Option String → ℕ → EngineState → WaitOutcome × EngineState
  unfolding on_confirmation no_confirmation ticked
  on_id none idx s = no_confirmation s
  on_id (some cid) idx s =
      if str_eq cid ""
      then no_confirmation s
      else on_confirmation idx cid (sv.confirmation s.ticks cid) (ticked s)

  -- `_handle_waiting_step`
  unfoldable pub handle_waiting_step : StepRow → EngineState → WaitOutcome × EngineState
  unfolding on_id
  handle_waiting_step row s = on_id row.confirmation_id row.step_index s
