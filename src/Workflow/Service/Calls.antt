-- ===== src/Workflow/Service/Calls.antt =====
-- `resolve_ambiguous` of era/services/workflow_service.py, and sequences of calls of the service.
use era_ai.Prelude.{ℕ, String, true, Option, none, some, List, [], ◌∷◌, str_eq, if◌then◌else◌}
use era_ai.Prelude.Results.{Result, ok, err}
use era_ai.Gate.Records.{ExecutionContext}
use era_ai.Workflow.Run.{RunStatus, EngineState, Services}
use era_ai.Workflow.Service.{
  WorkflowError, Store, Answer, StartRequest, load_owned, put_answer, advance_stored, start, resume,
  stopped, cancel, continued,
}

module _ (sv : Services) (ctx : ExecutionContext) where
  unfoldable pub resolve_by : String → ℕ → String → EngineState → Store → Answer
  unfolding put_answer stopped continued advance_stored
  resolve_by decision fuel id s st =
      if str_eq decision "abort"
      then put_answer sv ctx id (some (stopped sv ctx "ambiguous outcome aborted by operator" s)) st
      else if str_eq decision "continue"
      then advance_stored record sv { domain_allowed = λ action. true } ctx fuel id
          (continued sv ctx s) st
      else some (err WorkflowError.bad_decision, st)

  unfoldable pub resolve_as : RunStatus → String → ℕ → String → EngineState → Store → Answer
  unfolding resolve_by
  resolve_as RunStatus.ambiguous decision fuel id s st = resolve_by decision fuel id s st
  resolve_as other decision fuel id s st = some (err (WorkflowError.not_ambiguous other), st)

  unfoldable pub resolve_loaded :
      Result WorkflowError EngineState → String → ℕ → String → Store → Answer
  unfolding resolve_as
  resolve_loaded (err e) decision fuel id st = some (err e, st)
  resolve_loaded (ok s) decision fuel id st = resolve_as s.run.status decision fuel id s st

  -- `resolve_ambiguous`: what is left to do runs under no role.
  unfoldable pub resolve_ambiguous : ℕ → String → String → Store → Answer
  unfolding load_owned resolve_loaded
  resolve_ambiguous fuel id decision st =
      resolve_loaded (load_owned id ctx.actor_id st) decision fuel id st

-- The calls of the service, each with the answers that the other services give it
pub data Call : Type 0 where
  start_call : Services → ExecutionContext → StartRequest → Call
  resume_call : Services → ExecutionContext → String → Call
  cancel_call : Services → ExecutionContext → String → Call
  resolve_call : Services → ExecutionContext → String → String → Call

unfoldable pub answer : ℕ → Call → Store → Answer
unfolding start resume cancel resolve_ambiguous
answer fuel (start_call sv ctx q) st = start sv ctx fuel q st
answer fuel (resume_call sv ctx id) st = resume sv ctx fuel id st
answer fuel (cancel_call sv ctx id) st = cancel sv ctx id st
answer fuel (resolve_call sv ctx id decision) st = resolve_ambiguous sv ctx fuel id decision st

abbrev pub then_call : Answer → (Store → Option Store) → Option Store
then_call none rest = none
then_call (some (reply, st)) rest = rest st

-- The runs after a sequence of calls
unfoldable pub serve : ℕ → List Call → Store → Option Store
unfolding answer
serve fuel [] st = some st
serve fuel (c ∷ cs) st = then_call (answer fuel c st) (serve fuel cs)
