-- ===== src/Gate/Deny.antt =====
-- `deny` of era/services/execution_service.py.
pub mod Final
use Prim.Native.String.{◌++◌ as text_append}
use era_ai.Prelude.{String, Bool, true, false, Option, none, some, if◌then◌else◌}
use era_ai.Core.Enums.{Decision, deny, denied_by_user}
use era_ai.Permission.Catalog.{Action}
use era_ai.Gate.Records.{
  ExecutionContext, ExecutionStatus, ExecutionResponse, ConfirmationStatus, PendingConfirmation,
}
use era_ai.Gate.World.{Env, World, M, pure, ◌>>=◌, ◌>>◌, transaction}
use era_ai.Gate.Audit.{new_entry, record_entry}
use era_ai.Gate.Confirm.{get_confirmation, mark_status}
use era_ai.Gate.Service.{response, details, meta}
use era_ai.Gate.Approve.{is_other_actor}

-- `f"already {confirmation.status}"`
abbrev already : ConfirmationStatus → String
already ConfirmationStatus.pending = "already PENDING"
already ConfirmationStatus.used = "already USED"
already ConfirmationStatus.denied = "already DENIED"
already ConfirmationStatus.expired = "already EXPIRED"

module _ (env : Env) where
  unfoldable pub denial : PendingConfirmation → String → M ExecutionResponse
  denial c message = pure (response ExecutionStatus.denied c.decision message)

  unfoldable pub deny_pending : PendingConfirmation → ExecutionContext → M ExecutionResponse
  unfolding denial mark_status record_entry meta is_other_actor
  deny_pending c ctx = if is_other_actor env c.actor_id ctx.actor_id then denial c "denied" else (do
    mark_status env c ConfirmationStatus.denied
    let m = meta env c.action_type ctx
    let a : Action = record { action_type = c.action_type; params = c.action_params_redacted }
    record_entry env (
        new_entry env a ctx (some c.risk_level) c.decision denied_by_user c.policy_version
          (details m (some c.id) none none))
    denial c "denied by user")

  unfoldable pub on_status :
      ConfirmationStatus → PendingConfirmation → ExecutionContext → M ExecutionResponse
  unfolding deny_pending denial
  on_status ConfirmationStatus.pending c ctx = deny_pending c ctx
  on_status other c ctx = denial c (already other)

  unfoldable pub on_found : Option PendingConfirmation → ExecutionContext → M ExecutionResponse
  unfolding on_status
  on_found none ctx = pure (response ExecutionStatus.denied deny "unknown confirmation")
  on_found (some c) ctx = on_status c.status c ctx

  unfoldable pub deny_confirmation : String → ExecutionContext → M ExecutionResponse
  unfolding on_found transaction get_confirmation
  deny_confirmation cid ctx = transaction (λ w. on_found (get_confirmation env cid w) ctx w)
