-- ===== src/Gate/Dispatch/Attempts.antt =====
-- How often a run of a provider calls `execute`.
use era_ai.Prelude.{
  ℕ, ◌+◌, ◌≤◌, String, ◌≡◌, refl, true, Option, none, some, List, [], ◌∷◌, ◌++◌, ltb, ◌==◌, ==_iff,
  elem, either_branch, arith,
}
use era_ai.Core.Result.{Raises, tool_error, exception}
use era_ai.Core.Retry.{with_retry}
use era_ai.Core.Retry.Loop.{with_retry-calls-le}
use era_ai.Core.Breaker.{Gate, admit, block}
use era_ai.Permission.Catalog.{Action}
use era_ai.Gate.Records.{ActionResult, ExecutionContext}
use era_ai.Gate.World.{Env, World, Provider, Call, Stage, validate, execute}
use era_ai.Gate.Calls.{
  call_provider, dispatch_deadline, run_with_timeout, timed, retry_call, retry_policy_for,
  breaker_failure, breaker_success, on_breaker, breaker_gate,
}
use era_ai.Gate.Dispatch.{
  params_error, on_sanitized, on_executed, run_execute, on_validated, on_params, on_gate,
  run_provider,
}

weight : Stage → ℕ
weight validate = 0
weight execute = 1

-- How many of the calls are of `execute`.
unfoldable pub executes : List Call → ℕ
unfolding weight
executes [] = 0
executes (c ∷ cs) = weight c.stage + executes cs

executes-append :
    (cs : List Call) (c : Call) → executes (cs ++ c ∷ []) ≡ executes cs + weight c.stage
unfolding executes
executes-append [] c = omega arith
executes-append (d ∷ cs) c = omega (arith, executes-append cs c)

module _ (env : Env) (a : Action) (p : Provider) where
  timeout-calls :
      (s : Stage) (call : World → Raises ActionResult × World) (w : World)
      → (run_with_timeout env s p call w).1.calls ≡ (call w).1.calls
  unfolding run_with_timeout timed
  timeout-calls s call w =
      either_branch (λ (c : Raises ActionResult × World). c.1.calls ≡ (call w).1.calls)
        (env.timeout_budget == 0) refl
        (either_branch (λ (c : Raises ActionResult × World). c.1.calls ≡ (call w).1.calls)
          (ltb (w.monotonic + env.timeout_budget) (call w).1.monotonic) refl refl)

  sanitized-calls :
      (o : Option ActionResult) (w : World) → (on_sanitized env p o w).1.calls ≡ w.calls
  unfolding on_sanitized breaker_failure breaker_success on_breaker
  sanitized-calls none w = refl
  sanitized-calls (some r) w = ground arith

  executed-calls :
      (t : String) (c : Raises ActionResult × World) → (on_executed env p t c).1.calls ≡ c.1.calls
  unfolding on_executed breaker_failure on_breaker
  executed-calls t (Raises.ok r, w) = sanitized-calls (env.sanitize r) w
  executed-calls t (tool_error e, w) = refl
  executed-calls t (exception m, w) = refl

  one_more :
      (scope : Option String) (w : World)
      → executes (call_provider env execute p a scope w).1.calls ≡ executes w.calls + 1
  unfolding call_provider weight
  one_more scope w = executes-append w.calls _

  retry-executes :
      (scope : Option String) (d : Option ℕ) (w : World)
      → executes (with_retry (retry_call env p a scope d) w).1.calls
        ≤ executes w.calls + (retry_policy_for env p a.action_type).max_attempts
  unfolding retry_call
  retry-executes scope d w =
      with_retry-calls-le (retry_call env p a scope d) (λ w. executes w.calls) (λ w. refl)
        (λ t w. refl) (one_more scope) w

  run_execute-executes :
      (scope : Option String) (d : Option ℕ) (w : World)
      → executes (run_execute env p a scope d w).1.calls
        ≤ executes w.calls + (retry_policy_for env p a.action_type).max_attempts
  unfolding run_execute
  run_execute-executes scope d w =
      let attempt = with_retry (retry_call env p a scope d) in
      rw
        (
          executed-calls a.action_type (run_with_timeout env execute p attempt w),
          timeout-calls execute attempt w,
        )
        (retry-executes scope d w)

  Within : World → World → Type 0
  Within v w =
      executes w.calls ≤ executes v.calls + (retry_policy_for env p a.action_type).max_attempts

  validated-Within :
      (scope : Option String) (d : Option ℕ) (c : Raises ActionResult × World)
      → Within c.1 (on_validated env p a scope d c).1
  unfolding Within on_validated breaker_failure on_breaker
  validated-Within scope d (Raises.ok r, w) = run_execute-executes scope d w
  validated-Within scope d (tool_error e, w) = ground arith
  validated-Within scope d (exception m, w) = omega arith

  validate_adds_none :
      (scope : Option String) (w : World)
      → executes (run_with_timeout env validate p (call_provider env validate p a scope) w).1.calls
        ≡ executes w.calls
  unfolding call_provider weight
  validate_adds_none scope w =
      rw (timeout-calls validate (call_provider env validate p a scope) w)
        (omega (arith, executes-append w.calls _))

  params-Within :
      (scope : Option String) (d : Option ℕ) (o : Option String) (w : World)
      → Within w (on_params env p a scope d o w).1
  unfolding Within on_params
  params-Within scope d (some e) w = omega arith
  params-Within scope d none w =
      let c = run_with_timeout env validate p (call_provider env validate p a scope) w in
      omega (arith, validate_adds_none scope w, validated-Within scope d c)

  gate-Within :
      (scope : Option String) (d : Option ℕ) (c : Gate × World)
      → Within c.1 (on_gate env p a scope d c).1
  unfolding Within on_gate
  gate-Within scope d (admit, w) = params-Within scope d (params_error env a) w
  gate-Within scope d (block, w) = omega arith
  gate-Within scope d (Gate.assertion_error, w) = omega arith

  attempts_allowed :
      (1 ≤ env.retry_policy.max_attempts
        → (retry_policy_for env p a.action_type).max_attempts ≤ env.retry_policy.max_attempts)
      × (elem a.action_type p.non_retryable_action_types ≡ true
          → (retry_policy_for env p a.action_type).max_attempts ≤ 1)
  unfolding retry_policy_for
  attempts_allowed =
      (λ h. ground arith, λ h. ground (arith, h, ==_iff env.retry_policy.max_attempts 1))

-- One run of a provider calls its `execute` at most as often as the retry policy has attempts, of
-- which it has one or more, and at most once for an action type that the provider declares not
-- retryable.
pub run_provider-executes :
    (env : Env) (p : Provider) (a : Action) (ctx : ExecutionContext) (v : World)
    → 1 ≤ env.retry_policy.max_attempts
    → let w = (run_provider env p a ctx v).1 in
      (executes w.calls ≤ executes v.calls + env.retry_policy.max_attempts)
      × (elem a.action_type p.non_retryable_action_types ≡ true
          → executes w.calls ≤ executes v.calls + 1)
unfolding run_provider breaker_gate Within
run_provider-executes env p a ctx v h =
    let g =
      gate-Within env a p ctx.execution_scope
        (dispatch_deadline env.timeout_budget ctx.deadline v.monotonic) (breaker_gate env p v) in
    let (most, once) = attempts_allowed env a p in
    (omega (arith, most h, g), λ e. omega (arith, once e, g))
