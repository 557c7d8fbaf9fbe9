-- ===== src/Gate/Calls.antt =====
-- What a dispatch calls: the provider, under the timeout and the retry policy, and its breaker. Of
-- era/core/timeout.py and era/services/execution_service.py. A call that overruns its timeout is cut
-- off when its time is up; what its abandoned thread still does counts as done by then.
use era_ai.Prelude.{
  ℕ, ◌+◌, String, ◌&&◌, not, Option, none, some, [], ◌∷◌, ◌++◌, length, elem, ltb, ◌==◌,
  if◌then◌else◌,
}
use Prim.Native.String.{◌++◌ as text_append}
use era_ai.Core.Result.{
  ErrorCode, timeout, internal, member, ToolError, Raises, tool_error, exception,
}
use era_ai.Core.Retry.{RetryPolicy, RetryCall}
use era_ai.Core.Breaker.{
  CircuitBreaker, Gate, get_breaker, put_breaker, allow_request, record_success, record_failure,
}
use era_ai.Permission.Catalog.{Action}
use era_ai.Gate.Records.{ActionResult}
use era_ai.Gate.World.{Env, World, Provider, Call, Stage, validate, execute}

-- `_dispatch_context`: the deadline that is handed to the provider.
unfoldable pub dispatch_deadline : ℕ → Option ℕ → ℕ → Option ℕ
dispatch_deadline budget (some d) now = some d
dispatch_deadline budget none now = if budget == 0 then none else some (now + budget)

module _ (env : Env) where
  -- `provider.validate(action)`, `provider.execute(action, ctx)`
  unfoldable pub call_provider :
      Stage → Provider → Action → Option String → World → Raises ActionResult × World
  call_provider stage p action scope w =
      let reply = env.answer stage p action (length w.calls) in
      let c : Call = record { stage = stage; action = action; scope = scope; seen = w.db.audit } in
      (
        reply.outcome,
        record w { calls = w.calls ++ c ∷ []; monotonic = w.monotonic + reply.duration },
      )

  stage_name : Stage → String
  stage_name validate = "validate"
  stage_name execute = "execute"

  -- The message goes on with the budget in seconds.
  overrun : Stage → Provider → ToolError
  unfolding stage_name
  overrun stage p = record {
    message = text_append "provider " (text_append (stage_name stage) " timed out");
    provider_id = some p.id;
    code = timeout;
  }

  wrapped : Stage → Provider → Raises ActionResult → Raises ActionResult
  unfolding stage_name
  wrapped stage p (Raises.ok a) = Raises.ok a
  wrapped stage p (tool_error e) = tool_error e
  wrapped stage p (exception m) = tool_error (record {
    message = text_append "provider " (text_append (stage_name stage) (text_append " error: " m));
    provider_id = some p.id;
    code = internal;
  })

  -- What `run_with_timeout` makes of a call that began at `start`.
  unfoldable pub timed :
      Stage → Provider → ℕ → Raises ActionResult × World → Raises ActionResult × World
  unfolding overrun wrapped
  timed stage p start (r, w) =
      if ltb (start + env.timeout_budget) w.monotonic
      then (tool_error (overrun stage p), record w { monotonic = start + env.timeout_budget })
      else (wrapped stage p r, w)

  unfoldable pub run_with_timeout :
      Stage → Provider → (World → Raises ActionResult × World) → World → Raises ActionResult × World
  unfolding timed
  run_with_timeout stage p call w =
      if env.timeout_budget == 0 then call w else timed stage p w.monotonic (call w)

  -- `_retry_policy_for`
  unfoldable pub retry_policy_for : Provider → String → RetryPolicy
  retry_policy_for p action_type =
      if elem action_type p.non_retryable_action_types && not (env.retry_policy.max_attempts == 1)
      then record env.retry_policy { max_attempts = 1 }
      else env.retry_policy

  unfoldable pub retry_call :
      Provider → Action → Option String → Option ℕ → RetryCall World ActionResult
  unfolding call_provider retry_policy_for
  retry_call p action scope deadline = record {
    policy = retry_policy_for p action.action_type;
    deadline = deadline;
    provider_id = some p.id;
    call = call_provider execute p action scope;
    now = λ w. (w.monotonic, w);
    sleep = λ t w. record w { monotonic = w.monotonic + t };
  }

  -- The effect of a breaker's method on the shared breaker.
  unfoldable pub on_breaker : (CircuitBreaker → CircuitBreaker) → Provider → World → World
  unfolding get_breaker put_breaker
  on_breaker f p w =
      let (b, r) = get_breaker w.breakers p.id in record w { breakers = put_breaker r p.id (f b) }

  unfoldable pub breaker_failure : ErrorCode → Provider → World → World
  unfolding on_breaker
  breaker_failure code p w = on_breaker (record_failure w.monotonic (member code)) p w

  unfoldable pub breaker_success : Provider → World → World
  unfolding on_breaker
  breaker_success p w = on_breaker record_success p w

  unfoldable pub breaker_gate : Provider → World → Gate × World
  unfolding get_breaker put_breaker
  breaker_gate p w =
      let (b, r) = get_breaker w.breakers p.id in
      let (g, b') = allow_request w.monotonic b in
      (g, record w { breakers = put_breaker r p.id b' })
