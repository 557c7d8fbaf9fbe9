-- ===== src/Gate/Tests.antt =====
-- The gate on a small world: a catalog of three action types, one provider, hashing by identity.
use era_ai.Prelude.{
  ℕ, ◌≤◌, String, ◌≡◌, ◌≢◌, ◌⊎◌, ◌↔◌, inl, refl, ap, true, false, Option, none, some, [], ◌∷◌,
  length, elem, str_eq, lookup, map, if◌then◌else◌, arith,
}
use era_ai.Prelude.Results.{Result, ok}
use era_ai.Core.Enums.{safe, financial, forbidden, Decision, confirm_strong, authorized, executed}
use era_ai.Core.Result.{Raises}
use era_ai.Core.Retry.{RetryPolicy, default_retryable_codes, with_retry}
use era_ai.Core.Breaker.{CircuitBreakerConfig, allow_request}
use era_ai.Value.{str, end, field}
use era_ai.Permission.Catalog.{Action, ActionSpec, ActionCatalog}
use era_ai.Permission.Policy.{Policy, default_policy}
use era_ai.Permission.Engine.{evaluate}
use era_ai.Gate.Records.{
  ActionResult, ExecutionContext, ExecutionResponse, ExecutionStatus, PendingConfirmation,
  ConfirmationStatus, ConfirmationApproval, granted,
}
use era_ai.Gate.World.{Fault, Provider, World, Env}
use era_ai.Gate.Confirm.{validate, get_confirmation}
use era_ai.Gate.Confirm.Validity.{Valid, validate_iff}
use era_ai.Gate.Dual.{
  approval_state, requires_dual_approval, approval_by_actor, record_approval, approvals_for,
}
use era_ai.Gate.Dual.Distinct.{TwoGrants, approval_state-TwoGrants}
use era_ai.Gate.Calls.{breaker_gate, run_with_timeout, call_provider, retry_call}
use era_ai.Gate.Dispatch.{run_provider, params_error, run_execute}
use era_ai.Security.Params.{validate_params}
use era_ai.Gate.Audit.{new_entry}
use era_ai.Gate.Service.{response}
use era_ai.Gate.Dispatch.Attempts.{executes, run_provider-executes}
use era_ai.Gate.Service.{is_forbidden_type}
use era_ai.Gate.Request.{request}
use era_ai.Gate.Approve.{approve, is_other_actor}
use era_ai.Gate.Deny.{deny_confirmation}
use era_ai.Gate.Deny.Final.{deny_confirmation-final}
use era_ai.Gate.AuditFirst.Steps.{Audited}
use era_ai.Gate.AuditFirst.Granted.{Granted}
use era_ai.Gate.AuditFirst.Requests.{request-Audited, request-no_calls}
use era_ai.Gate.AuditFirst.Approvals.{approve-Audited, approve-Granted, approve-single_use}

abbrev spec_of : String → ActionSpec
spec_of t = record {
  action_type = t;
  risk_level = if str_eq t "read" then safe else if str_eq t "wipe" then forbidden else financial;
  capability_domain = "core";
  secret_fields = [];
  param_schema = none;
}

abbrev catalog : ActionCatalog
catalog = record {
  specs = ("read", spec_of "read") ∷ ("wipe", spec_of "wipe") ∷ ("pay", spec_of "pay") ∷ [];
}

abbrev bank : Provider
bank = record {
  id = "bank";
  non_retryable_action_types = "pay" ∷ [];
  ambiguous_on_failure_action_types = "pay" ∷ [];
}

abbrev done : ActionResult
done = record { success = true; summary = "done"; content = end }

abbrev retrying : RetryPolicy
retrying = record {
  max_attempts = 3;
  base_backoff = 4;
  max_backoff = 10;
  factor_num = 2;
  factor_den = 1;
  retryable_codes = default_retryable_codes;
}

abbrev by_engine : Action → Option Policy → Result String Decision
by_engine a p = ok (evaluate catalog a p)

abbrev bank_env : Env
bank_env = record {
  catalog = catalog;
  provider_for = λ t. some bank;
  evaluate = by_engine;
  retry_policy = retrying;
  timeout_budget = 0;
  app_version = "1";
  ttl = 60;
  ttl_strong = 20;
  has_dual_approval_service = true;
  sha256_hex = λ s. s;
  canonical_json = λ v. "{}";
  uuid = λ n. "id";
  token = λ n. "token";
  answer = λ stage p a n. record { outcome = Raises.ok done; duration = 5 };
  schema_error = λ params schema. none;
  float_chars = λ m e. 0;
  sanitize = λ r. some r;
  redact_text = λ s. s;
}

abbrev tripping : CircuitBreakerConfig
tripping = record { failure_threshold = 2; cooldown = 30; trip_codes = default_retryable_codes }

abbrev start : World
start = record {
  db = record { audit = []; confirmations = []; approvals = []; policy = some default_policy };
  monotonic = 0;
  wall = 100;
  issued = 0;
  breakers = record { config = tripping; breakers = []; snapshots = none };
  calls = [];
  commits = [];
}

abbrev reading : Action
reading = record { action_type = "read"; params = end }

abbrev wiping : Action
wiping = record { action_type = "wipe"; params = end }

abbrev paying : Action
paying = record { action_type = "pay"; params = field "amount" (str "5") end }

abbrev context_of : String → ExecutionContext
context_of actor = record {
  actor_id = actor;
  session_id = none;
  execution_scope = none;
  credential_refs = [];
  deadline = none;
}

abbrev ann : ExecutionContext
ann = context_of "ann"

abbrev bob : ExecutionContext
bob = context_of "bob"

request-Audited_example : Audited reading ann start (request bank_env reading ann start).1
request-Audited_example = request-Audited bank_env reading ann start

request-no_calls_example : (request bank_env wiping ann start).1.calls ≡ []
unfolding is_forbidden_type
request-no_calls_example = request-no_calls bank_env wiping ann start (inl refl)

-- A payment of ann that waits for its approval.
abbrev payment : PendingConfirmation
payment = record {
  id = "id";
  actor_id = some "ann";
  execution_scope = none;
  action_type = "pay";
  action_hash = "{}";
  risk_level = financial;
  decision = confirm_strong;
  policy_version = 1;
  challenge_hash = some "token";
  action_params_redacted = end;
  created_at = 100;
  expires_at = 120;
  used_at = none;
  status = ConfirmationStatus.pending;
}

abbrev grant_of : String → ℕ → ConfirmationApproval
grant_of actor n = record {
  id = "g";
  confirmation_id = "id";
  actor_id = actor;
  status = granted;
  sequence = n;
  context_hash = none;
  created_at = 100;
}

-- The payment waits, and bob has granted it.
abbrev waiting : World
waiting = record start {
  db = record start.db { confirmations = ("id", payment) ∷ []; approvals = grant_of "bob" 1 ∷ [] };
}

approve-Audited_example :
    Audited paying ann waiting (approve bank_env "id" paying ann (some "token") false waiting).1
approve-Audited_example = approve-Audited bank_env paying ann (some "token") false "id" waiting

approve-Granted_example :
    ((approve bank_env "id" paying ann (some "token") false waiting).1.calls ≡ [])
    ⊎ Granted bank_env paying ann (some "token") false "id" waiting
approve-Granted_example = approve-Granted bank_env paying ann (some "token") false "id" waiting

validate_iff_example :
    (validate bank_env payment paying (some "token") 100 ≡ ok tt)
    ↔ Valid bank_env payment paying (some "token") 100
validate_iff_example = validate_iff bank_env payment paying (some "token") 100

approval_state-TwoGrants_example : TwoGrants (grant_of "bob" 1 ∷ grant_of "ann" 2 ∷ [])
unfolding requires_dual_approval approval_state
approval_state-TwoGrants_example =
    approval_state-TwoGrants financial (grant_of "bob" 1 ∷ grant_of "ann" 2 ∷ []) refl refl

run_provider-executes_example :
    (executes (run_provider bank_env bank paying ann start).1.calls ≤ 3)
    × (elem "pay" ("pay" ∷ []) ≡ true
        → executes (run_provider bank_env bank paying ann start).1.calls ≤ 1)
unfolding executes
run_provider-executes_example = run_provider-executes bank_env bank paying ann start (ground arith)

-- A read is authorized, reaches the provider twice, and is recorded.
read_runs :
    let c = request bank_env reading ann start in
    (length c.1.calls ≡ 2) × (map (λ e. e.outcome) c.1.db.audit ≡ authorized ∷ executed ∷ [])
unfolding request is_forbidden_type evaluate run_provider breaker_gate allow_request params_error
    validate_params run_with_timeout call_provider run_execute with_retry retry_call new_entry
read_runs = (refl, refl)

-- With bob's grant, ann's approval pays.
abbrev paid : Result Fault ExecutionResponse × World
paid = approve bank_env "id" paying ann (some "token") false waiting

paid_runs : length paid.1.calls ≡ 2
unfolding approve get_confirmation lookup is_forbidden_type validate approval_by_actor
    record_approval approvals_for approval_state run_provider breaker_gate allow_request
    params_error validate_params run_with_timeout call_provider run_execute with_retry retry_call
    new_entry
paid_runs = refl

paid_calls : paid.1.calls ≢ waiting.calls
paid_calls h = ground (arith, paid_runs, ap length h)

waiting_id : (c : PendingConfirmation) → lookup "id" (("id", payment) ∷ []) ≡ some c → c.id ≡ "id"
unfolding lookup
waiting_id c h = ground (arith, h)

-- The same approval again reaches no provider.
approve-single_use_example :
    (approve bank_env "id" paying bob (some "token") true paid.1).1.calls ≡ paid.1.calls
unfolding get_confirmation
approve-single_use_example =
    approve-single_use bank_env "id" paying paying ann bob (some "token") (some "token") false true
      waiting waiting_id paid_calls

deny_confirmation-final_example :
    (approve bank_env "id" paying ann
      (some "token")
      false
      (deny_confirmation bank_env "id" ann waiting).1).1.calls
    ≡ (deny_confirmation bank_env "id" ann waiting).1.calls
unfolding deny_confirmation get_confirmation lookup is_other_actor
deny_confirmation-final_example =
    deny_confirmation-final bank_env "id" ann ann payment paying (some "token") false
      (response ExecutionStatus.denied confirm_strong "denied by user") waiting refl refl refl refl
