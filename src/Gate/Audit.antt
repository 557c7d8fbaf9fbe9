-- ===== src/Gate/Audit.antt =====
-- era/services/audit_service.py: `record`, the only writer of the audit log. The hash chain that the
-- repository adds to an entry is the subject of Audit.
use era_ai.Prelude.{ℕ, String, Option, none, some, List, [], ◌∷◌, ◌++◌}
use era_ai.Core.Enums.{RiskLevel, level_value, Decision, Outcome}
use era_ai.Core.Result.{ErrorCode}
use era_ai.Value.{obj}
use era_ai.Security.Redaction.{
  redact, cap_strings, audit_param_str_limit, sensitive_fields_for_action,
}
use era_ai.Permission.Catalog.{Action, ActionSpec, get_spec}
use era_ai.Gate.Records.{ExecutionContext, AuditEntry}
use era_ai.Gate.World.{Env, M}
use era_ai.Prelude.Results.{ok}

-- `_str`
unfoldable pub risk_text : Option RiskLevel → String
unfolding level_value
risk_text none = "UNKNOWN"
risk_text (some level) = level_value level

declared_secrets : Option ActionSpec → List String
declared_secrets none = []
declared_secrets (some spec) = spec.secret_fields

-- The optional arguments of `record`.
pub record Details : Type 0 where
  pub confirmation_id : Option String
  pub result : Option String
  pub error_code : Option ErrorCode
  pub provider_id : Option String
  pub capability_domain : Option String
  pub credential_ref : Option String

abbrev pub no_details : Details
no_details = record {
  confirmation_id = none;
  result = none;
  error_code = none;
  provider_id = none;
  capability_domain = none;
  credential_ref = none;
}

module _ (env : Env) where
  -- The secret fields of an action, declared or private.
  unfoldable pub secret_fields_of : String → List String
  unfolding declared_secrets sensitive_fields_for_action get_spec
  secret_fields_of action_type =
      sensitive_fields_for_action action_type (declared_secrets (get_spec env.catalog action_type))

  unfoldable pub new_entry :
      Action → ExecutionContext → Option RiskLevel → Decision → Outcome → ℕ → Details → AuditEntry
  new_entry action ctx risk decision outcome version d = record {
    actor_id = ctx.actor_id;
    action_type = action.action_type;
    action_params =
        cap_strings audit_param_str_limit
          (redact (secret_fields_of action.action_type) (obj action.params)) 0;
    risk_level = risk;
    decision = decision;
    outcome = outcome;
    policy_version = version;
    app_version = env.app_version;
    confirmation_id = d.confirmation_id;
    result = d.result;
    error_code = d.error_code;
    provider_id = d.provider_id;
    capability_domain = d.capability_domain;
    credential_ref = d.credential_ref;
  }

  -- `audit_service.record` inside a transaction of the caller.
  unfoldable pub record_entry : AuditEntry → M (Unit {0})
  record_entry e w = (ok tt, record w { db = record w.db { audit = w.db.audit ++ e ∷ [] } })
