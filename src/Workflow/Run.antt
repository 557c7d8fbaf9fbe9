-- ===== src/Workflow/Run.antt =====
-- era/models/workflow.py and the state that `WorkflowService` works on. Timestamps are left out, and a
-- message is the data that the source formats.
pub mod Rows
use era_ai.Prelude.{
  ℕ, ◌+◌, String, Bool, true, false, ◌||◌, Option, none, some, List, [], ◌∷◌, ◌++◌, map, any, all,
  ◌==◌, str_eq, elem, if◌then◌else◌,
}
use era_ai.Prelude.Int.{ℤ}
use era_ai.Prelude.Results.{Result}
use era_ai.Core.Enums.{Outcome}
use era_ai.Value.{Value, Fields}
use era_ai.Permission.Catalog.{Action}
use era_ai.Gate.Records.{ExecutionContext, ExecutionResponse, ConfirmationStatus}
use era_ai.Workflow.Definition.{DefinitionError, WorkflowDefinition}

pub data RunStatus : Type 0 where
  pending running waiting completed failed ambiguous cancelled : RunStatus

pub data StepStatus : Type 0 where
  pending running waiting completed failed ambiguous cancelled : StepStatus
  skipped skipped_conditional : StepStatus

-- `_TERMINAL_STEP_STATUSES`
abbrev pub is_terminal_step : StepStatus → Bool
is_terminal_step StepStatus.pending = false
is_terminal_step StepStatus.running = false
is_terminal_step StepStatus.waiting = false
is_terminal_step _ = true

abbrev pub is_pending : StepStatus → Bool
is_pending StepStatus.pending = true
is_pending _ = false

abbrev pub is_waiting : StepStatus → Bool
is_waiting StepStatus.waiting = true
is_waiting _ = false

abbrev pub is_ambiguous : StepStatus → Bool
is_ambiguous StepStatus.ambiguous = true
is_ambiguous _ = false

-- `in (STATUS_COMPLETED, "skipped", "skipped_conditional")`
abbrev pub is_passed : StepStatus → Bool
is_passed StepStatus.completed = true
is_passed StepStatus.skipped = true
is_passed StepStatus.skipped_conditional = true
is_passed _ = false

pub data ServiceError : Type 0 where
  cannot_inspect no_match many_matches index_too_high missing_reference : ServiceError

-- What ends a step by an exception: WorkflowDefinitionError, WorkflowServiceError, any other.
pub data StepError : Type 0 where
  of_definition : DefinitionError → StepError
  of_service : ServiceError → StepError
  of_engine : String → StepError

pub data Message : Type 0 where
  text : String → Message
  raised : StepError → Message
  dispatch_outcome : Outcome → Message
  not_allowed : String → Message

pub record WorkflowRun : Type 0 where
  pub id : String
  pub workflow_name : String
  pub workflow_version : ℕ
  pub actor_id : String
  pub execution_scope : Option String
  pub status : RunStatus
  pub current_step : ℕ
  pub error : Option Message
  pub run_token : String
  pub definition_checksum : String
  pub run_params : Fields
  pub template_name : Option String
  pub template_version : Option ℕ
  pub governance_code : Option String

-- WorkflowStepRun
pub record StepRow : Type 0 where
  pub step_id : String
  pub step_index : ℕ
  pub action_type : String
  pub status : StepStatus
  pub attempt : ℕ
  pub confirmation_id : Option String
  pub result_receipt : Option Value
  pub error_code : Option String
  pub error_message : Option Message

-- A request to the execution service, and the index of the step whose action it is, if it is one.
pub record Sent : Type 0 where
  pub step : Option ℕ
  pub action : Action

-- One run with its step rows, the requests that it made, the readings that it took, and how often it
-- released its governance claim.
pub record EngineState : Type 0 where
  pub run : WorkflowRun
  pub rows : List StepRow
  pub sent : List Sent
  pub ticks : ℕ
  pub released : ℕ

-- What the engine is built from. The first argument of an answer counts the readings before it, so that
-- answers may differ; `request` may raise.
pub record Services : Type 0 where
  pub monotonic : ℕ → ℕ
  pub request : ℕ → Action → ExecutionContext → Result String ExecutionResponse
  pub confirmation : ℕ → String → Option ConfirmationStatus
  pub audit_outcomes : ℕ → String → List Outcome
  pub claim_step_budget : ℕ → Option String
  pub definition_for_run : WorkflowRun → Option WorkflowDefinition
  pub checksum : WorkflowDefinition → String
  pub domain_allowed : String → Bool
  pub max_wallclock : ℕ
  pub max_pending_confirmations : ℕ
  pub text_of : Value → String
  pub int_of_text : String → Option ℤ

-- `step_rows.get(idx)`
unfoldable pub row_at : ℕ → List StepRow → Option StepRow
row_at idx [] = none
row_at idx (r ∷ rs) = let rest = row_at idx rs in if r.step_index == idx then some r else rest

-- A change of the row of an index.
unfoldable pub update_row : ℕ → (StepRow → StepRow) → List StepRow → List StepRow
update_row idx f = map (λ r. if r.step_index == idx then f r else r)

-- `row.status if row is not None else STATUS_PENDING`
abbrev pub status_of : Option StepRow → StepStatus
status_of none = StepStatus.pending
status_of (some r) = r.status

unfoldable pub status_at : ℕ → List StepRow → StepStatus
unfolding row_at
status_at idx rows = status_of (row_at idx rows)

-- `_mark_step`, of the row of an index
unfoldable pub mark_step :
    ℕ → StepStatus → Option Value → Option String → Option Message → EngineState → EngineState
unfolding update_row
mark_step idx status receipt code message s = record s {
  rows =
      update_row idx
        (λ r. record r {
          status = status;
          result_receipt = receipt;
          error_code = code;
          error_message = message;
        })
        s.rows;
}

-- `_release_governance`
unfoldable pub release_governance : EngineState → EngineState
release_governance s = record s { released = s.released + 1 }

unfoldable pub set_run : RunStatus → Option Message → EngineState → EngineState
set_run status error s = record s { run = record s.run { status = status; error = error } }

-- `_set_run_failed`
unfoldable pub set_run_failed : Message → EngineState → EngineState
unfolding set_run release_governance
set_run_failed message s = release_governance (set_run RunStatus.failed (some message) s)

-- `_set_run_budget_failed`
unfoldable pub set_run_budget_failed : Message → EngineState → EngineState
unfolding set_run_failed
set_run_budget_failed message s =
    let failed = set_run_failed message s in
    record failed { run = record failed.run { governance_code = some "BUDGET_EXCEEDED" } }

-- `_set_current`
unfoldable pub set_current : ℕ → EngineState → EngineState
set_current idx s = record s { run = record s.run { current_step = idx } }

unfoldable pub ticked : EngineState → EngineState
ticked s = record s { ticks = s.ticks + 1 }
