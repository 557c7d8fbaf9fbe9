-- ===== src/Gate/Dispatch.antt =====
-- The dispatch layer of era/services/execution_service.py: the providers behind the circuit breaker,
-- the timeout and the retry loop.
pub mod Trace
pub mod Attempts
use era_ai.Prelude.{
  ℕ, suc, ◌+◌, ◌-◌, String, Bool, true, false, ◌&&◌, not, Option, none, some, List, [], ◌∷◌, ◌++◌,
  Dict, length, elem, lookup, leb, ltb, ◌==◌, str_eq, if◌then◌else◌, or_else,
}
use Prim.Native.String.{◌++◌ as text_append}
use era_ai.Prelude.Results.{Result, ok, err}
use era_ai.Core.Enums.{RiskLevel, Decision, Outcome, executed, failed, rejected}
use era_ai.Core.Result.{
  ErrorCode, validation, forbidden, not_found, timeout, side_effect_unknown, unavailable,
  not_implemented, provider_error, internal, CodeArg, member, ToolError, Raises, tool_error,
  exception,
}
use era_ai.Core.Retry.{RetryPolicy, RetryCall, with_retry}
use era_ai.Core.Breaker.{
  CircuitBreaker, Gate, admit, block, Registry, get_breaker, put_breaker, allow_request,
  record_success, record_failure,
}
use era_ai.Value.{Fields, end}
use era_ai.Security.Params.{validate_params}
use era_ai.Permission.Catalog.{Action, ActionSpec, get_spec}
use era_ai.Gate.Records.{ActionResult, ExecutionContext}
use era_ai.Gate.World.{
  Env, World, Provider, Call, Reply, Stage, validate, execute, M, pure, ◌>>=◌, ◌>>◌, Fault,
  provider_exception,
}
use era_ai.Gate.Calls.{
  call_provider, dispatch_deadline, timed, run_with_timeout, retry_policy_for, retry_call,
  on_breaker, breaker_failure, breaker_success, breaker_gate,
}

abbrev pub failure : String → ActionResult
failure summary = record { success = false; summary = summary; content = end }

-- What a run of a provider comes to.
pub record Ran : Type 0 where
  pub outcome : Outcome
  pub result : ActionResult
  pub error_code : Option ErrorCode

abbrev pub ran : Outcome → ActionResult → Option ErrorCode → Ran
ran o r c = record { outcome = o; result = r; error_code = c }

module _ (env : Env) where
  -- The two checks of the parameters ahead of the provider's own.
  schema_check : Option ActionSpec → Action → Option String
  schema_check none action = none
  schema_check (some spec) action = elim spec.param_schema [
    | none ↦ none
    | some schema ↦ env.schema_error action.params schema
  ]

  error_of : Result String Fields → Option String
  error_of (ok a) = none
  error_of (err e) = some e

  unfoldable pub params_error : Action → Option String
  unfolding schema_check error_of
  params_error action =
      or_else (schema_check (get_spec env.catalog action.action_type) action)
        (error_of (validate_params env.float_chars action.params (some action.action_type) none))

  -- The code of a rejection by the provider's `validate`.
  unfoldable pub rejection_code : ErrorCode → ErrorCode
  rejection_code validation = validation
  rejection_code forbidden = forbidden
  rejection_code not_found = not_found
  rejection_code timeout = timeout
  rejection_code _ = validation

  abbrev pub is_unavailable : ErrorCode → Bool
  is_unavailable unavailable = true
  is_unavailable _ = false

  -- The codes behind which an effect may have happened.
  abbrev is_ambiguous_code : ErrorCode → Bool
  is_ambiguous_code unavailable = true
  is_ambiguous_code timeout = true
  is_ambiguous_code provider_error = true
  is_ambiguous_code _ = false

  unfoldable pub failure_code : Provider → String → ErrorCode → ErrorCode
  failure_code p action_type code =
      if elem action_type p.ambiguous_on_failure_action_types && is_ambiguous_code code
      then side_effect_unknown
      else code

  summary_or_default : String → String
  summary_or_default s = if str_eq s "" then "provider returned failure" else s

  -- Behind `sanitize_action_result`.
  unfoldable pub on_sanitized : Provider → Option ActionResult → World → Ran × World
  unfolding breaker_failure breaker_success summary_or_default
  on_sanitized p none w = (
    ran failed (failure "provider returned an unsafe result") (some internal),
    breaker_failure env internal p w,
  )
  on_sanitized p (some r) w =
      if r.success then (ran executed r none, breaker_success env p w) else (
        ran failed (failure (summary_or_default r.summary)) (some provider_error),
        breaker_failure env provider_error p w,
      )

  unfoldable pub on_executed : Provider → String → Raises ActionResult × World → Ran × World
  unfolding on_sanitized failure_code
  on_executed p action_type (Raises.ok r, w) = on_sanitized p (env.sanitize r) w
  on_executed p action_type (tool_error e, w) =
      let code = failure_code p action_type e.code in
      (ran failed (failure (env.redact_text e.message)) (some code), breaker_failure env code p w)
  on_executed p action_type (exception m, w) = (
    ran failed (failure (text_append "provider error: " m)) (some internal),
    breaker_failure env internal p w,
  )

  unfoldable pub run_execute : Provider → Action → Option String → Option ℕ → World → Ran × World
  unfolding on_executed
  run_execute p action scope deadline w =
      on_executed p action.action_type
        (run_with_timeout env execute p (with_retry (retry_call env p action scope deadline)) w)

  -- Behind the provider's `validate`. An exception that is no `ToolError` leaves the service.
  unfoldable pub on_validated :
      Provider
      → Action
      → Option String
      → Option ℕ
      → Raises ActionResult × World
      → Result Fault Ran × World
  unfolding rejection_code
  on_validated p action scope deadline (Raises.ok r, w) =
      let (x, w') = run_execute p action scope deadline w in (ok x, w')
  on_validated p action scope deadline (tool_error e, w) =
      if is_unavailable e.code
      then (
        ok (ran failed (failure (env.redact_text e.message)) (some e.code)),
        breaker_failure env e.code p w,
      )
      else (
        ok (ran rejected (failure (env.redact_text e.message)) (some (rejection_code e.code))),
        w,
      )
  on_validated p action scope deadline (exception m, w) = (err (provider_exception m), w)

  unfoldable pub on_params :
      Provider
      → Action
      → Option String
      → Option ℕ
      → Option String
      → World
      → Result Fault Ran × World
  unfolding on_validated
  on_params p action scope deadline (some e) w = (
    ok (ran rejected (failure (text_append "parameter validation failed: " e)) (some validation)),
    w,
  )
  on_params p action scope deadline none w =
      on_validated p action scope deadline
        (run_with_timeout env validate p (call_provider env validate p action scope) w)

  unfoldable pub on_gate :
      Provider → Action → Option String → Option ℕ → Gate × World → Result Fault Ran × World
  unfolding on_params
  on_gate p action scope deadline (admit, w) =
      on_params p action scope deadline (params_error action) w
  on_gate p action scope deadline (block, w) = (
    ok (
        ran failed
          (failure (text_append "provider " (text_append p.id " circuit open: dispatch blocked")))
          (some unavailable)),
    w,
  )
  on_gate p action scope deadline (Gate.assertion_error, w) = (err Fault.assertion_error, w)

  -- `_run_provider`
  unfoldable pub run_provider : Provider → Action → ExecutionContext → M Ran
  unfolding on_gate dispatch_deadline
  run_provider p action ctx w =
      on_gate p action ctx.execution_scope
        (dispatch_deadline env.timeout_budget ctx.deadline w.monotonic) (breaker_gate env p w)
