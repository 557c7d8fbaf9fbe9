-- ===== src/Gate/Confirm.antt =====
-- era/services/confirmation_service.py.
pub mod Validity
use era_ai.Prelude.{
  ℕ, suc, ◌+◌, String, Bool, true, false, not, Option, none, some, lookup, insert, str_eq, ltb,
  is_some, if◌then◌else◌,
}
use era_ai.Prelude.Results.{Result, ok, err, ◌>>=◌, ◌>>◌, refuse_if}
use era_ai.Core.Enums.{RiskLevel, level_value, Decision, is_strong}
use era_ai.Value.{Value, str, obj, Fields, end, field}
use era_ai.Security.Redaction.{redact_fields}
use era_ai.Permission.Catalog.{Action}
use era_ai.Gate.Records.{ConfirmationStatus, pending, used, denied, expired, PendingConfirmation}
use era_ai.Gate.World.{Env, World, M}
use era_ai.Gate.Audit.{secret_fields_of}

-- Why `validate` refuses.
pub data Reason : Type 0 where
  already_resolved already_used is_expired hash_mismatch : Reason
  challenge_required challenge_incorrect : Reason

abbrev pub is_pending : ConfirmationStatus → Bool
is_pending pending = true
is_pending _ = false

module _ (env : Env) where
  -- `action_fingerprint`, era/security/hashing.py
  unfoldable pub action_fingerprint : String → Fields → RiskLevel → String
  unfolding level_value
  action_fingerprint action_type params risk = env.sha256_hex (
      env.canonical_json (
        obj (
          field "action_type" (str action_type)
            (field "params" (obj params) (field "risk_level" (str (level_value risk)) end)))))

  ttl_for : Decision → ℕ
  ttl_for d = if is_strong d then env.ttl_strong else env.ttl

  challenge_for : Decision → ℕ → Option String
  challenge_for d n = if is_strong d then some (env.token n) else none

  hash_of : Option String → Option String
  hash_of none = none
  hash_of (some c) = some (env.sha256_hex c)

  -- `create`, up to the fields that its caller binds. Two numbers are issued, an id and a challenge.
  unfoldable pub new_confirmation : Action → RiskLevel → Decision → ℕ → World → PendingConfirmation
  unfolding action_fingerprint ttl_for challenge_for hash_of
  new_confirmation action risk decision version w = record {
    id = env.uuid w.issued;
    actor_id = none;
    execution_scope = none;
    action_type = action.action_type;
    action_hash = action_fingerprint action.action_type action.params risk;
    risk_level = risk;
    decision = decision;
    policy_version = version;
    challenge_hash = hash_of (challenge_for decision w.issued);
    action_params_redacted = redact_fields (secret_fields_of env action.action_type) action.params;
    created_at = w.wall;
    expires_at = w.wall + ttl_for decision;
    used_at = none;
    status = pending;
  }

  -- `confirmation_repo.create` and `update`
  unfoldable pub store_confirmation : PendingConfirmation → M (Unit {0})
  store_confirmation c w =
      (ok tt, record w { db = record w.db { confirmations = insert c.id c w.db.confirmations } })

  unfoldable pub get_confirmation : String → World → Option PendingConfirmation
  get_confirmation id w = lookup id w.db.confirmations

  -- `not challenge or challenge_hash is None`, then the comparison.
  unfoldable pub check_challenge : Option String → Option String → Result Reason (Unit {0})
  check_challenge none h = err challenge_required
  check_challenge (some c) none = err challenge_required
  check_challenge (some c) (some h) = do
    refuse_if (str_eq c "") challenge_required
    refuse_if (not (str_eq (env.sha256_hex c) h)) challenge_incorrect

  unfoldable pub validate :
      PendingConfirmation → Action → Option String → ℕ → Result Reason (Unit {0})
  unfolding check_challenge action_fingerprint
  validate c action challenge now = do
    refuse_if (not (is_pending c.status)) already_resolved
    refuse_if (is_some c.used_at) already_used
    refuse_if (ltb c.expires_at now) is_expired
    refuse_if
        (not
          (str_eq (action_fingerprint action.action_type action.params c.risk_level) c.action_hash))
        hash_mismatch
    if is_strong c.decision then check_challenge challenge c.challenge_hash else ok tt

  -- `mark_status`
  unfoldable pub mark_status : PendingConfirmation → ConfirmationStatus → M (Unit {0})
  unfolding store_confirmation
  mark_status c status w =
      store_confirmation (record c { status = status; used_at = some w.wall }) w
