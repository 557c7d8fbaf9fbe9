-- ===== src/Gate/Approve.antt =====
-- `approve` and `deny` of era/services/execution_service.py.
use Prim.Native.String.{◌++◌ as text_append}
use era_ai.Prelude.{
  ℕ, String, Bool, true, false, ◌&&◌, ◌||◌, not, Option, none, some, str_eq, if◌then◌else◌,
}
use era_ai.Prelude.Results.{Result, ok, err}
use era_ai.Core.Enums.{
  RiskLevel, forbidden, is_forbidden, Decision, allow, confirm, confirm_strong, deny, Outcome,
  authorized, rejected, denied_by_policy, denied_by_user, is_financial_or_booking,
}
use era_ai.Core.Enums as Enums
use era_ai.Permission.Catalog.{Action}
use era_ai.Gate.Records.{
  ExecutionContext, ExecutionStatus, ExecutionResponse, ConfirmationStatus, PendingConfirmation,
  granted, ConfirmationApproval,
}
use era_ai.Gate.World.{Env, World, Fault, M, pure, ◌>>=◌, ◌>>◌, transaction}
use era_ai.Gate.Audit.{Details, no_details, new_entry, record_entry}
use era_ai.Gate.Confirm.{
  Reason, already_resolved, already_used, is_expired, hash_mismatch, challenge_required,
  challenge_incorrect, get_confirmation, validate, mark_status,
}
use era_ai.Gate.Dual.{
  DualApprovalError, approval_already_exists, approvals_for, approval_by_actor, approval_state,
  record_approval,
}
use era_ai.Gate.Service.{response, Meta, details, meta, is_forbidden_type, dispatch_and_record}

abbrev pub reason_text : Reason → String
reason_text already_resolved = "already resolved"
reason_text already_used = "already used"
reason_text is_expired = "expired"
reason_text hash_mismatch = "action does not match confirmation (hash mismatch)"
reason_text challenge_required = "challenge required"
reason_text challenge_incorrect = "challenge incorrect"

-- What the transaction of `approve` ends with: a response, or the go-ahead for a dispatch.
pub data Verdict : Type 0 where
  answer : ExecutionResponse → Verdict
  go : ExecutionContext → Decision → ℕ → String → Verdict

-- `x or y`: an absent or empty scope gives way.
unfoldable pub scope_or : Option String → Option String → Option String
scope_or none y = y
scope_or (some x) y = if str_eq x "" then y else some x

module _ (env : Env) where
  -- An entry for a confirmation in the transaction of the caller.
  unfoldable pub confirmation_entry :
      Action
      → ExecutionContext
      → Option RiskLevel
      → Decision
      → Outcome
      → PendingConfirmation
      → Details
      → M (Unit {0})
  unfolding record_entry
  confirmation_entry action ctx risk d outcome c details =
      record_entry env (new_entry env action ctx risk d outcome c.policy_version details)

  -- The confirmation takes a final status, the attempt is recorded, and the answer is a denial.
  unfoldable pub close_with :
      PendingConfirmation
      → ConfirmationStatus
      → Action
      → ExecutionContext
      → Option RiskLevel
      → Decision
      → Outcome
      → Details
      → ExecutionResponse
      → M Verdict
  unfolding confirmation_entry mark_status
  close_with c status action ctx risk d outcome details r = do
    mark_status env c status
    confirmation_entry action ctx risk d outcome c details
    pure (answer r)

  abbrev just : PendingConfirmation → String → Details
  just c result = record no_details { confirmation_id = some c.id; result = some result }

  -- The valid confirmation is consumed and the authorization is recorded.
  unfoldable pub consume : PendingConfirmation → Action → ExecutionContext → Meta → M Verdict
  unfolding confirmation_entry mark_status
  consume c action ctx m = do
    mark_status env c ConfirmationStatus.used
    confirmation_entry action ctx (some c.risk_level) c.decision authorized c
        (details m (some c.id) none none)
    pure (go ctx c.decision c.policy_version c.id)

  -- Behind `state_in_session`: dispatchable, denied.
  unfoldable pub by_state :
      Bool × Bool → PendingConfirmation → Action → ExecutionContext → Meta → M Verdict
  unfolding consume close_with confirmation_entry
  by_state (dispatchable, true) c action ctx m =
      close_with c ConfirmationStatus.denied action ctx (some c.risk_level) c.decision
        denied_by_user (details m (some c.id) (some "dual approval denied") none)
        (response ExecutionStatus.denied c.decision "denied")
  by_state (true, false) c action ctx m = consume c action ctx m
  by_state (false, false) c action ctx m = do
    confirmation_entry action ctx (some c.risk_level) c.decision Enums.pending c
        (details m (some c.id) (some "awaiting a distinct secondary approval") none)
    pure (
        answer
          (record (response ExecutionStatus.awaiting_approval c.decision
            "awaiting a distinct secondary approval") { confirmation_id = some c.id }))

  unfoldable pub read_state : PendingConfirmation → Action → ExecutionContext → Meta → M Verdict
  unfolding by_state
  read_state c action ctx m w =
      by_state (approval_state c.risk_level (approvals_for c.id w.db.approvals)) c action ctx m w

  unfoldable pub on_recorded :
      Result DualApprovalError ConfirmationApproval × World
      → PendingConfirmation
      → Action
      → ExecutionContext
      → Meta
      → Result Fault Verdict × World
  unfolding read_state close_with
  on_recorded (ok a, w) c action ctx m = read_state c action ctx m w
  on_recorded (err approval_already_exists, w) c action ctx m = read_state c action ctx m w
  on_recorded (err e, w) c action ctx m =
      close_with c ConfirmationStatus.denied action ctx (some c.risk_level) c.decision rejected
        (details m (some c.id) (some "dual approval could not be recorded") none)
        (response ExecutionStatus.denied c.decision "denied") w

  -- `ctx` is the caller's, and `dispatch_ctx` has the confirmation's scope.
  unfoldable pub dual_step :
      PendingConfirmation → Action → String → ExecutionContext → Meta → M Verdict
  unfolding read_state on_recorded close_with
  dual_step c action actor dispatch_ctx m w =
      if env.has_dual_approval_service
      then elim (approval_by_actor c.id actor w.db.approvals) [
        | some a ↦ read_state c action dispatch_ctx m w
        | none ↦ on_recorded (record_approval env c.id actor granted none w) c action dispatch_ctx m
      ]
      else close_with c ConfirmationStatus.denied action dispatch_ctx (some c.risk_level) c.decision
          rejected (details m (some c.id) (some "dual approval service unavailable") none)
          (response ExecutionStatus.denied c.decision "denied") w

  -- The confirmation is valid.
  unfoldable pub on_valid : PendingConfirmation → Action → ExecutionContext → M Verdict
  unfolding dual_step consume scope_or
  on_valid c action ctx =
      let dispatch_ctx : ExecutionContext = record ctx {
        execution_scope = scope_or c.execution_scope ctx.execution_scope;
      } in
      let m = meta env c.action_type dispatch_ctx in
      if is_financial_or_booking c.risk_level
      then dual_step c action ctx.actor_id dispatch_ctx m
      else consume c action dispatch_ctx m

  -- `status in (USED, DENIED, EXPIRED)`
  unfoldable pub is_terminal : ConfirmationStatus → Bool
  is_terminal ConfirmationStatus.pending = false
  is_terminal _ = true

  unfoldable pub invalid_pending :
      Reason → PendingConfirmation → Action → ExecutionContext → M Verdict
  unfolding close_with
  invalid_pending is_expired c action ctx =
      close_with c ConfirmationStatus.expired action ctx (some c.risk_level) c.decision
        Enums.expired (just c "expired") (response ExecutionStatus.denied c.decision "expired")
  invalid_pending reason c action ctx =
      close_with c ConfirmationStatus.denied action ctx (some c.risk_level) c.decision rejected
        (just c (reason_text reason))
        (response ExecutionStatus.denied c.decision (reason_text reason))

  unfoldable pub on_invalid : Reason → PendingConfirmation → Action → ExecutionContext → M Verdict
  unfolding invalid_pending is_terminal confirmation_entry
  on_invalid reason c action ctx =
      if is_terminal c.status
      then (do
        confirmation_entry action ctx (some c.risk_level) c.decision rejected c
            (just c (text_append "redundant resolution attempt: " (reason_text reason)))
        pure (answer (response ExecutionStatus.denied c.decision (reason_text reason))))
      else invalid_pending reason c action ctx

  unfoldable pub on_validated :
      Result Reason (Unit {0}) → PendingConfirmation → Action → ExecutionContext → M Verdict
  unfolding on_valid on_invalid
  on_validated (ok t) c action ctx = on_valid c action ctx
  on_validated (err reason) c action ctx = on_invalid reason c action ctx

  -- `actor_id is not None and actor_id != ctx.actor_id`
  unfoldable pub is_other_actor : Option String → String → Bool
  is_other_actor none actor = false
  is_other_actor (some a) actor = not (str_eq a actor)

  unfoldable pub on_found :
      Option PendingConfirmation → Action → ExecutionContext → Option String → Bool → M Verdict
  unfolding on_validated close_with is_other_actor record_entry
  on_found none action ctx challenge cross w =
      (do
        record_entry env (
            new_entry env action ctx none deny rejected 0
              (record no_details { result = some "unknown confirmation" }))
        pure (answer (response ExecutionStatus.denied deny "unknown confirmation")))
        w
  on_found (some c) action ctx challenge cross w =
      if is_forbidden_type env c.action_type || is_forbidden_type env action.action_type
      then close_with c ConfirmationStatus.denied action ctx (some forbidden) deny denied_by_policy
          (just c "forbidden action") (response ExecutionStatus.denied deny "forbidden") w
      else if not cross && is_other_actor c.actor_id ctx.actor_id
      then close_with c ConfirmationStatus.denied action ctx (some c.risk_level) c.decision rejected
          (just c "confirmation belongs to another actor")
          (response ExecutionStatus.denied c.decision "denied") w
      else on_validated (validate env c action challenge w.wall) c action ctx w

  -- The transaction of `approve`.
  unfoldable pub resolve : String → Action → ExecutionContext → Option String → Bool → M Verdict
  unfolding on_found transaction
  resolve cid action ctx challenge cross =
      transaction (λ w. on_found (get_confirmation env cid w) action ctx challenge cross w)

  unfoldable pub on_verdict : Action → Verdict → M ExecutionResponse
  unfolding dispatch_and_record
  on_verdict action (answer r) = pure r
  on_verdict action (go ctx d version cid) = dispatch_and_record env action ctx d version (some cid)

  unfoldable pub approve :
      String → Action → ExecutionContext → Option String → Bool → M ExecutionResponse
  unfolding on_verdict resolve
  approve cid action ctx challenge cross = do
    v ← resolve cid action ctx challenge cross
    on_verdict action v
