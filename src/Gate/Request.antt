-- ===== src/Gate/Request.antt =====
-- `request` of era/services/execution_service.py.
use Prim.Native.String.{◌++◌ as text_append}
use era_ai.Prelude.{ℕ, ◌+◌, String, Option, none, some, if◌then◌else◌}
use era_ai.Prelude.Results.{Result, ok, err}
use era_ai.Core.Enums.{
  RiskLevel, forbidden, is_forbidden, Decision, allow, confirm, confirm_strong, deny, Outcome,
  authorized, rejected, denied_by_policy, denied_by_user, is_financial_or_booking,
}
use era_ai.Core.Enums as Enums
use era_ai.Permission.Catalog.{Action}
use era_ai.Permission.Policy.{Policy}
use era_ai.Gate.Records.{ExecutionContext, ExecutionStatus, ExecutionResponse, PendingConfirmation}
use era_ai.Gate.World.{Env, attribute_error, M, pure, ◌>>=◌, ◌>>◌, transaction}
use era_ai.Gate.Audit.{new_entry, record_entry}
use era_ai.Gate.Confirm.{new_confirmation, store_confirmation}
use era_ai.Gate.Service.{
  response, version_of, Meta, details, meta, is_forbidden_type, record_alone, dispatch_and_record,
}

module _ (env : Env) where
  -- `_authorize_and_dispatch`
  unfoldable pub authorize_and_dispatch :
      Action → ExecutionContext → Meta → Decision → ℕ → M ExecutionResponse
  unfolding record_alone dispatch_and_record
  authorize_and_dispatch action ctx m d version = do
    record_alone env action ctx m.risk_level d authorized version (details m none none none)
    dispatch_and_record env action ctx d version none

  -- The body of the transaction of `_require_confirmation`. With no risk level `risk_level.value`
  -- raises.
  unfoldable pub confirmation_body :
      Option RiskLevel → Action → ExecutionContext → Meta → Decision → ℕ → M PendingConfirmation
  unfolding new_confirmation store_confirmation record_entry
  confirmation_body none action ctx m d version w = (err attribute_error, w)
  confirmation_body (some level) action ctx m d version w =
      let c = new_confirmation env action level d version w in
      let bound : PendingConfirmation = record c {
        actor_id = some ctx.actor_id;
        execution_scope = ctx.execution_scope;
      } in
      (do
        store_confirmation env bound
        record_entry env (
            new_entry env action ctx m.risk_level d Enums.pending version
              (details m (some c.id) none none))
        pure bound)
        (record w { issued = w.issued + 1 })

  unfoldable pub require_confirmation :
      Action → ExecutionContext → Meta → Decision → ℕ → M ExecutionResponse
  unfolding confirmation_body transaction
  require_confirmation action ctx m d version w =
      let challenge : Option String = elim d [
        | confirm_strong ↦ some (env.token w.issued)
        | _ ↦ none
      ] in
      (do
        c ← transaction (confirmation_body m.risk_level action ctx m d version)
        pure (record {
          status = ExecutionStatus.confirmation_required;
          decision = d;
          confirmation_id = some c.id;
          challenge = challenge;
          result = none;
          message = none;
          error_code = none;
        }))
        w

  unfoldable pub refused :
      Action
      → ExecutionContext
      → Option RiskLevel
      → Meta
      → ℕ
      → Option String
      → String
      → M ExecutionResponse
  unfolding record_alone
  refused action ctx risk m version result message = do
    record_alone env action ctx risk deny denied_by_policy version (details m none result none)
    pure (response ExecutionStatus.denied deny message)

  unfoldable pub on_decision :
      Result String Decision → Action → ExecutionContext → Meta → ℕ → M ExecutionResponse
  unfolding refused require_confirmation authorize_and_dispatch
  on_decision (err e) action ctx m version =
      refused action ctx m.risk_level m version (some (text_append "engine error: " e))
        "engine error (fail closed)"
  on_decision (ok deny) action ctx m version =
      refused action ctx m.risk_level m version none "denied by policy"
  on_decision (ok confirm) action ctx m version = require_confirmation action ctx m confirm version
  on_decision (ok confirm_strong) action ctx m version =
      require_confirmation action ctx m confirm_strong version
  on_decision (ok allow) action ctx m version = authorize_and_dispatch action ctx m allow version

  -- `policy_service.get_current`
  unfoldable pub get_policy : M (Option Policy)
  unfolding transaction
  get_policy = transaction (λ w. (ok w.db.policy, w))

  unfoldable pub with_policy : Action → ExecutionContext → Option Policy → M ExecutionResponse
  unfolding on_decision meta
  with_policy action ctx policy =
      let m = meta env action.action_type ctx in
      let version = version_of policy in
      if is_forbidden_type env action.action_type
      then refused action ctx (some forbidden) m version (some "forbidden action") "forbidden"
      else on_decision (env.evaluate action policy) action ctx m version

  unfoldable pub request : Action → ExecutionContext → M ExecutionResponse
  unfolding get_policy with_policy
  request action ctx = do policy ← get_policy; with_policy action ctx policy
