-- ===== src/Gate/Records.antt =====
-- What the gate passes around and stores: era/core/context.py, era/core/result.py,
-- era/schemas/actions.py, era/models/confirmation.py, era/models/confirmation_approval.py and
-- NewAuditEntry of era/repositories/base.py. A stored enum's text is the enum's member, and a
-- timestamp is a number of ticks, which compares as the ISO texts do.
use era_ai.Prelude.{ℕ, String, Bool, Option, Dict}
use era_ai.Core.Enums.{RiskLevel, Decision, Outcome}
use era_ai.Core.Result.{ErrorCode}
use era_ai.Value.{Value, Fields}

pub record ActionResult : Type 0 where
  pub success : Bool
  pub summary : String
  pub content : Fields  -- `data`

pub record ExecutionContext : Type 0 where
  pub actor_id : String
  pub session_id : Option String
  pub execution_scope : Option String
  pub credential_refs : Dict String
  pub deadline : Option ℕ

pub data ExecutionStatus : Type 0 where
  executed failed rejected confirmation_required awaiting_approval denied : ExecutionStatus

pub record ExecutionResponse : Type 0 where
  pub status : ExecutionStatus
  pub decision : Decision
  pub confirmation_id : Option String
  pub challenge : Option String
  pub result : Option ActionResult
  pub message : Option String
  pub error_code : Option ErrorCode

pub data ConfirmationStatus : Type 0 where
  pending used denied expired : ConfirmationStatus

pub record PendingConfirmation : Type 0 where
  pub id : String
  pub actor_id : Option String
  pub execution_scope : Option String
  pub action_type : String
  pub action_hash : String
  pub risk_level : RiskLevel
  pub decision : Decision
  pub policy_version : ℕ
  pub challenge_hash : Option String
  pub action_params_redacted : Fields
  pub created_at : ℕ
  pub expires_at : ℕ
  pub used_at : Option ℕ
  pub status : ConfirmationStatus

pub data ApprovalStatus : Type 0 where
  granted denied : ApprovalStatus

pub record ConfirmationApproval : Type 0 where
  pub id : String
  pub confirmation_id : String
  pub actor_id : String
  pub status : ApprovalStatus
  pub sequence : ℕ
  pub context_hash : Option String
  pub created_at : ℕ

pub record AuditEntry : Type 0 where
  pub actor_id : String
  pub action_type : String
  pub action_params : Value
  pub risk_level : Option RiskLevel
  pub decision : Decision
  pub outcome : Outcome
  pub policy_version : ℕ
  pub app_version : String
  pub confirmation_id : Option String
  pub result : Option String
  pub error_code : Option ErrorCode
  pub provider_id : Option String
  pub capability_domain : Option String
  pub credential_ref : Option String
