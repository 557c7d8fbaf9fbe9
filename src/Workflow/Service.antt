-- ===== src/Workflow/Service.antt =====
-- `WorkflowService.start` from the resolved definition on, `resume` and `cancel` of
-- era/services/workflow_service.py, over all the runs there are. A fresh id and a fresh token come with
-- the request.
pub mod Calls
pub mod Kept
pub mod Once
pub mod Total
use Prim.Native.String.{◌++◌ as text_append}
use era_ai.Prelude.{
  ℕ, zero, suc, ◌+◌, String, Bool, true, false, not, ◌&&◌, ◌||◌, Option, none, some, List, [], ◌∷◌,
  ◌++◌, all, ◌==◌, str_eq, if◌then◌else◌,
}
use era_ai.Prelude.Text.{strip}
use era_ai.Prelude.Results.{Result, ok, err}
use era_ai.Value.{Value, str, bool, obj, Fields, end, field}
use era_ai.Gate.Records.{ExecutionContext}
use era_ai.Workflow.Definition.{WorkflowStep, WorkflowDefinition}
use era_ai.Workflow.Redact.{redact_run_params}
use era_ai.Workflow.Run.{
  RunStatus, StepStatus, is_ambiguous, Message, text, WorkflowRun, StepRow, EngineState, Services,
  update_row, release_governance, set_run,
}
use era_ai.Workflow.Engine.{advance}

pub data WorkflowError : Type 0 where
  not_found belongs_to_another bad_decision wrong_version not_allowed_workflow id_taken :
      WorkflowError
  not_allowed_step : String → WorkflowError
  already_terminal : RunStatus → WorkflowError
  not_ambiguous : RunStatus → WorkflowError

-- Every run with its steps
abbrev pub Store : Type 0
Store = List EngineState

-- What a call answers, and the runs after it; `none` where the fuel of the engine runs out.
abbrev pub Answer : Type 0
Answer = Option (Result WorkflowError WorkflowRun × Store)

-- `admission` is the code with which the governance service refuses, if it does.
pub record StartRequest : Type 0 where
  pub definition : WorkflowDefinition
  pub params : Fields
  pub run_token : String
  pub template_name : Option String
  pub template_version : Option ℕ
  pub admission : Option String
  pub fresh_id : String
  pub fresh_token : String

-- `repo.get_run`
unfoldable pub get_run : String → Store → Option EngineState
get_run id [] = none
get_run id (s ∷ ss) = let rest = get_run id ss in if str_eq s.run.id id then some s else rest

-- `repo.get_run_by_token`
unfoldable pub get_run_by_token : String → String → Store → Option EngineState
get_run_by_token actor token [] = none
get_run_by_token actor token (s ∷ ss) =
    let rest = get_run_by_token actor token ss in
    if str_eq s.run.actor_id actor && str_eq s.run.run_token token then some s else rest

-- The run that `get_run` finds, changed.
unfoldable pub put_run : String → EngineState → Store → Store
put_run id t [] = []
put_run id t (s ∷ ss) =
    let rest = put_run id t ss in if str_eq s.run.id id then t ∷ ss else s ∷ rest

abbrev owned_by : String → Option EngineState → Result WorkflowError EngineState
owned_by actor none = err WorkflowError.not_found
owned_by actor (some s) =
    if str_eq s.run.actor_id actor then ok s else err WorkflowError.belongs_to_another

-- `_load_owned`
unfoldable pub load_owned : String → String → Store → Result WorkflowError EngineState
unfolding get_run
load_owned id actor st = owned_by actor (get_run id st)

-- `a or b` of two scopes
scope_or : Option String → Option String → Option String
scope_or none other = other
scope_or (some a) other = if str_eq a "" then other else some a

-- `ctx.execution_scope or f"workflow:{run.id}"`
own_scope : Option String → String → Option String
unfolding scope_or
own_scope scope id = scope_or scope (some (text_append "workflow:" id))

-- `(run_token or "").strip() or uuid.uuid4().hex`
unfoldable pub token_of : StartRequest → String
unfolding strip
token_of q = let given = strip q.run_token in if str_eq given "" then q.fresh_token else given

version_if : Option String → ℕ → Option ℕ
version_if none version = none
version_if (some name) version = if str_eq name "" then none else some version

-- `_create_step_rows`, from an index on
unfoldable pub create_step_rows : ℕ → List WorkflowStep → List StepRow
create_step_rows i [] = []
create_step_rows i (s ∷ ss) =
    record {
      step_id = s.id;
      step_index = i;
      action_type = s.action;
      status = StepStatus.pending;
      attempt = 0;
      confirmation_id = none;
      result_receipt = none;
      error_code = none;
      error_message = none;
    }
    ∷ create_step_rows (i + 1) ss

module _ (sv : Services) (ctx : ExecutionContext) where
  unfoldable pub new_run : StartRequest → RunStatus → Option Message → Option String → WorkflowRun
  unfolding token_of redact_run_params version_if
  new_run q status error code = record {
    id = q.fresh_id;
    workflow_name = q.definition.name;
    workflow_version = q.definition.version;
    actor_id = ctx.actor_id;
    execution_scope = ctx.execution_scope;
    status = status;
    current_step = 0;
    error = error;
    run_token = token_of q;
    definition_checksum = sv.checksum q.definition;
    run_params = redact_run_params q.params;
    template_name = q.template_name;
    template_version = version_if q.template_name q.definition.version;
    governance_code = code;
  }

  in_state : WorkflowRun → List StepRow → EngineState
  in_state run rows = record { run = run; rows = rows; sent = []; ticks = 0; released = 0 }

  -- `_create_failed_run`, which `start` gives the definition's version whether or not there is a template
  unfoldable pub create_failed_run : StartRequest → String → EngineState
  unfolding new_run in_state
  create_failed_run q code =
      let run =
        new_run q RunStatus.failed
          (some (text (text_append "governance admission denied (" (text_append code ")"))))
          (some code) in
      in_state record run { template_version = some q.definition.version } []

  unfoldable pub created : StartRequest → EngineState
  unfolding new_run in_state own_scope create_step_rows
  created q =
      in_state
        record (new_run q RunStatus.pending none none) {
          execution_scope = own_scope ctx.execution_scope q.fresh_id;
        }
        (create_step_rows 0 q.definition.steps)

  unfoldable pub put_answer : String → Option EngineState → Store → Answer
  unfolding put_run
  put_answer id none st = none
  put_answer id (some t) st = some (ok t.run, put_run id t st)

  -- `_advance` of a run, with its scope in the context
  unfoldable pub advance_stored : ℕ → String → EngineState → Store → Answer
  unfolding put_answer advance scope_or
  advance_stored fuel id s st =
      put_answer id
        (advance sv
          record ctx { execution_scope = scope_or s.run.execution_scope ctx.execution_scope } fuel
          s)
        st

  unfoldable pub admit : ℕ → Option String → StartRequest → Store → Answer
  unfolding create_failed_run created advance_stored
  admit fuel (some code) q st =
      let failed = create_failed_run q code in some (ok failed.run, st ++ failed ∷ [])
  admit fuel none q st = advance_stored fuel q.fresh_id (created q) (st ++ created q ∷ [])

  -- The primary key refuses an id that is taken.
  unfoldable pub create_run : ℕ → Option EngineState → StartRequest → Store → Answer
  unfolding admit
  create_run fuel (some taken) q st = some (err WorkflowError.id_taken, st)
  create_run fuel none q st = admit fuel q.admission q st

  unfoldable pub start_new : ℕ → Option EngineState → StartRequest → Store → Answer
  unfolding create_run get_run
  start_new fuel (some s) q st = some (ok s.run, st)
  start_new fuel none q st = create_run fuel (get_run q.fresh_id st) q st

  first_forbidden : List WorkflowStep → Option String
  first_forbidden [] = none
  first_forbidden (s ∷ ss) =
      let rest = first_forbidden ss in if sv.domain_allowed s.action then rest else some s.action

  is_other_version : Option ℕ → ℕ → Bool
  is_other_version none version = false
  is_other_version (some v) version = not (v == version)

  -- The refusal, if there is one
  unfoldable pub refusal : StartRequest → Option WorkflowError
  unfolding first_forbidden is_other_version
  refusal q =
      if not (sv.domain_allowed "browser.workflow_run")
      then some WorkflowError.not_allowed_workflow
      else if is_other_version q.template_version q.definition.version
      then some WorkflowError.wrong_version
      else elim (first_forbidden q.definition.steps) [
        | none ↦ none
        | some action ↦ some (WorkflowError.not_allowed_step action)
      ]

  unfoldable pub start_unless : ℕ → Option WorkflowError → StartRequest → Store → Answer
  unfolding start_new get_run_by_token token_of
  start_unless fuel (some e) q st = some (err e, st)
  start_unless fuel none q st = start_new fuel (get_run_by_token ctx.actor_id (token_of q) st) q st

  -- `start`
  unfoldable pub start : ℕ → StartRequest → Store → Answer
  unfolding refusal start_unless
  start fuel q st = start_unless fuel (refusal q) q st

  unfoldable pub resume_as : RunStatus → ℕ → String → EngineState → Store → Answer
  unfolding advance_stored
  resume_as RunStatus.completed fuel id s st = some (ok s.run, st)
  resume_as RunStatus.cancelled fuel id s st = some (ok s.run, st)
  resume_as RunStatus.failed fuel id s st =
      some (err (WorkflowError.already_terminal RunStatus.failed), st)
  resume_as RunStatus.ambiguous fuel id s st =
      some (err (WorkflowError.already_terminal RunStatus.ambiguous), st)
  resume_as other fuel id s st = advance_stored fuel id s st

  unfoldable pub resume_loaded : Result WorkflowError EngineState → ℕ → String → Store → Answer
  unfolding resume_as
  resume_loaded (err e) fuel id st = some (err e, st)
  resume_loaded (ok s) fuel id st = resume_as s.run.status fuel id s st

  -- `resume`
  unfoldable pub resume : ℕ → String → Store → Answer
  unfolding load_owned resume_loaded
  resume fuel id st = resume_loaded (load_owned id ctx.actor_id st) fuel id st

  unfoldable pub stopped : String → EngineState → EngineState
  unfolding set_run release_governance
  stopped why s = release_governance (set_run RunStatus.cancelled (some (text why)) s)

  unfoldable pub cancel_as : RunStatus → String → EngineState → Store → Answer
  unfolding put_answer stopped
  cancel_as RunStatus.completed id s st = some (ok s.run, st)
  cancel_as RunStatus.cancelled id s st = some (ok s.run, st)
  cancel_as RunStatus.failed id s st = some (ok s.run, st)
  cancel_as RunStatus.ambiguous id s st = some (ok s.run, st)
  cancel_as other id s st = put_answer id (some (stopped "cancelled by operator" s)) st

  unfoldable pub cancel_loaded : Result WorkflowError EngineState → String → Store → Answer
  unfolding cancel_as
  cancel_loaded (err e) id st = some (err e, st)
  cancel_loaded (ok s) id st = cancel_as s.run.status id s st

  -- `cancel`
  unfoldable pub cancel : String → Store → Answer
  unfolding load_owned cancel_loaded
  cancel id st = cancel_loaded (load_owned id ctx.actor_id st) id st

  -- The step's outcome is left unknown, and it is not run again.
  unfoldable pub continued : EngineState → EngineState
  unfolding update_row
  continued s = record s {
    rows =
        update_row s.run.current_step
          (λ r.
            if is_ambiguous r.status
            then record r {
              status = StepStatus.completed;
              result_receipt = some (
                  obj (
                    field "resolved" (str "operator_continue")
                      (field "outcome_unknown" (bool true) end)));
              error_message = none;
            }
            else r)
          s.rows;
    run = record s.run {
      status = RunStatus.running;
      current_step = s.run.current_step + 1;
      error = none;
    };
  }
