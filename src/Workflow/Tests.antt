-- ===== src/Workflow/Tests.antt =====
-- Runs of two steps with a clock that counts and an engine that executes every request.
use era_ai.Prelude.{
  ℕ, String, ◌≡◌, refl, true, Option, none, some, List, [], ◌∷◌, All, map, length, arith,
}
use era_ai.Prelude.Results.{Result, ok, IfOk}
use era_ai.Core.Enums.{Decision}
use era_ai.Value.{end}
use era_ai.Gate.Records.{ExecutionContext, ExecutionStatus, ExecutionResponse}
use era_ai.Workflow.Definition.{WorkflowStep, WorkflowDefinition}
use era_ai.Workflow.Render.{render_workflow_params, render_fields}
use era_ai.Workflow.Run.{RunStatus, WorkflowRun, Services, EngineState}
use era_ai.Workflow.Engine.{advance}
use era_ai.Workflow.Engine.Returns.{IsTicking, advance-Returns}
use era_ai.Workflow.Service.{
  WorkflowError, Store, StartRequest, get_run_by_token, token_of, created,
}
use era_ai.Workflow.Service.Calls.{Call, start_call, resume_call, cancel_call, answer, serve}
use era_ai.Workflow.Service.Kept.{IsOnce, created-IsOnce}
use era_ai.Workflow.Service.Total.{IsTimelyCall}
use era_ai.Workflow.Service.Once.{serve-IsOnce, start-once}

abbrev executed : ExecutionResponse
executed = record {
  status = ExecutionStatus.executed;
  decision = Decision.allow;
  confirmation_id = none;
  challenge = none;
  result = none;
  message = none;
  error_code = none;
}

abbrev step : String → List String → WorkflowStep
step id deps = record {
  id = id;
  action = "browser.inspect";
  params = end;
  target = none;
  expect = none;
  on_denied = "stop";
  outputs = [];
  depends_on = deps;
  condition = none;
}

abbrev two_steps : WorkflowDefinition
two_steps = record {
  name = "two_steps";
  version = 1;
  params_schema = end;
  steps = step "first" [] ∷ step "second" ("first" ∷ []) ∷ [];
  parallel = [];
}

abbrev services : Services
services = record {
  monotonic = λ k. k;
  request = λ k action ctx. ok executed;
  confirmation = λ k id. none;
  audit_outcomes = λ k id. [];
  claim_step_budget = λ k. none;
  definition_for_run = λ run. some two_steps;
  checksum = λ d. "sum";
  domain_allowed = λ action. true;
  max_wallclock = 20;
  max_pending_confirmations = 1;
  text_of = λ v. "";
  int_of_text = λ s. none;
}

abbrev context : ExecutionContext
context = record {
  actor_id = "amy";
  session_id = none;
  execution_scope = none;
  credential_refs = [];
  deadline = none;
}

abbrev request : StartRequest
request = record {
  definition = two_steps;
  params = end;
  run_token = " t1 ";
  template_name = none;
  template_version = none;
  admission = none;
  fresh_id = "r1";
  fresh_token = "f1";
}

abbrev calls : List Call
calls =
    start_call services context request
    ∷ resume_call services context "r1"
    ∷ cancel_call services context "r1"
    ∷ []

services-IsTicking : IsTicking services
services-IsTicking = record { grows = λ k. omega arith }

calls-IsTimely : All (IsTimelyCall 20) calls
calls-IsTimely = ((services-IsTicking, omega arith), ((services-IsTicking, omega arith), (tt, tt)))

serve-IsOnce_example : (st : Store) × (serve 21 calls [] ≡ some st) × All IsOnce st
serve-IsOnce_example = serve-IsOnce 20 calls calls-IsTimely

abbrev one_run : Store
one_run = created services context request ∷ []

request_found :
    get_run_by_token context.actor_id (token_of request) one_run
    ≡ some (created services context request)
unfolding get_run_by_token token_of created
request_found = refl

start-once_example :
    (st' : Store) × (serve 21 calls one_run ≡ some st')
    × (reply : Result WorkflowError WorkflowRun) × (answer 20
          (start_call services context request)
          st'
        ≡ some (reply, st'))
    × IfOk (λ r. r.id ≡ (created services context request).run.id) reply
start-once_example =
    start-once 20 calls one_run (created services context request) services context request
      calls-IsTimely (created-IsOnce services context request, tt) request_found

abbrev states : Option Store → List (RunStatus × ℕ × ℕ)
states none = []
states (some st) = map (λ s. (s.run.status, length s.sent, s.released)) st

-- Both steps are requested, the second after the first.
run_completes : states (serve 21 calls []) ≡ (RunStatus.completed, 2, 1) ∷ []
unfolding serve render_workflow_params render_fields
run_completes = refl

advance-Returns_example :
    (t : EngineState) × (advance services context 21 (created services context request) ≡ some t)
advance-Returns_example =
    advance-Returns services context 20 (created services context request) services-IsTicking
      (omega arith) (created-IsOnce services context request 0)
