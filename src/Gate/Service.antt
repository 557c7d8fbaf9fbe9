-- ===== src/Gate/Service.antt =====
-- `ExecutionService` of era/services/execution_service.py: an action's metadata, an audit record in a
-- transaction of its own, and a dispatch with its result recorded.
use era_ai.Prelude.{
  ℕ, String, Bool, false, Option, none, some, [], ◌∷◌, Dict, lookup, str_eq, if◌then◌else◌, or_else,
}
use era_ai.Core.Enums.{
  RiskLevel, forbidden, is_forbidden, Decision, allow, confirm, confirm_strong, deny, Outcome,
  authorized, rejected, denied_by_policy, denied_by_user, is_financial_or_booking,
}
use era_ai.Core.Enums as Enums
use era_ai.Core.Result.{ErrorCode, not_implemented}
use era_ai.Permission.Catalog.{Action, ActionSpec, get_spec}
use era_ai.Permission.Policy.{Policy}
use era_ai.Gate.Records.{ExecutionContext, ExecutionStatus, ExecutionResponse}
use era_ai.Gate.World.{Env, Provider, M, pure, ◌>>=◌, ◌>>◌, transaction}
use era_ai.Gate.Audit.{Details, new_entry, record_entry}
use era_ai.Gate.Dispatch.{Ran, ran, failure, run_provider}

abbrev pub response : ExecutionStatus → Decision → String → ExecutionResponse
response status d message = record {
  status = status;
  decision = d;
  confirmation_id = none;
  challenge = none;
  result = none;
  message = some message;
  error_code = none;
}

-- `_credential_ref`
first_ref : Dict String → Option String
first_ref [] = none
first_ref ((d, r) ∷ rs) = some r

credential_ref : Dict String → Option String → Option String
unfolding first_ref
credential_ref refs none = first_ref refs
credential_ref refs (some d) =
    if str_eq d "" then first_ref refs else or_else (lookup d refs) (first_ref refs)

abbrev pub version_of : Option Policy → ℕ
version_of none = 0
version_of (some p) = p.version

-- What `_meta` returns.
pub record Meta : Type 0 where
  pub risk_level : Option RiskLevel
  pub domain : Option String
  pub provider_id : Option String
  pub credential_ref : Option String

meta_with : Option ActionSpec → Option Provider → ExecutionContext → Meta
unfolding credential_ref
meta_with spec provider ctx =
    let domain : Option String = elim spec [ none ↦ none | some s ↦ some s.capability_domain ] in
    record {
      risk_level = elim spec [ none ↦ none | some s ↦ some s.risk_level ];
      domain = domain;
      provider_id = elim provider [ none ↦ none | some p ↦ some p.id ];
      credential_ref = credential_ref ctx.credential_refs domain;
    }

abbrev pub details : Meta → Option String → Option String → Option ErrorCode → Details
details m cid result code = record {
  confirmation_id = cid;
  result = result;
  error_code = code;
  provider_id = m.provider_id;
  capability_domain = m.domain;
  credential_ref = m.credential_ref;
}

module _ (env : Env) where
  unfoldable pub meta : String → ExecutionContext → Meta
  unfolding meta_with
  meta action_type ctx =
      meta_with (get_spec env.catalog action_type) (env.provider_for action_type) ctx

  pub forbidden_spec : Option ActionSpec → Bool
  forbidden_spec none = false
  forbidden_spec (some s) = is_forbidden s.risk_level

  -- `_forbidden`
  unfoldable pub is_forbidden_type : String → Bool
  unfolding forbidden_spec get_spec
  is_forbidden_type action_type = forbidden_spec (get_spec env.catalog action_type)

  -- `_record`: an entry in a transaction of its own.
  unfoldable pub record_alone :
      Action → ExecutionContext → Option RiskLevel → Decision → Outcome → ℕ → Details → M (Unit {0})
  unfolding transaction record_entry
  record_alone action ctx risk d outcome version details =
      transaction (record_entry env (new_entry env action ctx risk d outcome version details))

  unfoldable pub run_or_reject : Option Provider → Action → ExecutionContext → M Ran
  run_or_reject none action ctx =
      pure (ran rejected (failure "no provider registered for action") (some not_implemented))
  run_or_reject (some p) action ctx = run_provider env p action ctx

  -- `{EXECUTED: "executed", FAILED: "failed", REJECTED: "rejected"}[outcome]`
  unfoldable pub status_of : Outcome → ExecutionStatus
  status_of Enums.executed = ExecutionStatus.executed
  status_of Enums.failed = ExecutionStatus.failed
  status_of _ = ExecutionStatus.rejected

  unfoldable pub result_response : Ran → Decision → ExecutionResponse
  unfolding status_of
  result_response r d = record {
    status = status_of r.outcome;
    decision = d;
    confirmation_id = none;
    challenge = none;
    result = some r.result;
    message = if r.result.success then none else some r.result.summary;
    error_code = r.error_code;
  }

  -- `_dispatch_and_record`
  unfoldable pub dispatch_and_record :
      Action → ExecutionContext → Decision → ℕ → Option String → M ExecutionResponse
  unfolding run_or_reject record_alone result_response
  dispatch_and_record action ctx d version cid = do
    r ← run_or_reject (env.provider_for action.action_type) action ctx
    let m = meta action.action_type ctx
    record_alone action ctx m.risk_level d r.outcome version
        (details m cid (some r.result.summary) r.error_code)
    pure (result_response r d)
