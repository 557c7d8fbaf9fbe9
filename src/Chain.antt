-- ===== src/Chain.antt =====
-- The hash chain of the audit log: era/repositories/audit.py, and `append` and `verify` of
-- era/repositories/sqlite.py. JSON text, SHA-256 and the signatures are parameters.
pub mod Linked
pub mod Tamper
pub mod Tests
use Prim.Native.String.{◌++◌ as text_append}
use era_ai.Prelude.{
  ℕ, ◌+◌, String, Bool, true, false, ◌||◌, not, Option, none, some, List, [], ◌∷◌, ◌++◌, length,
  str_eq, if◌then◌else◌,
}
use era_ai.Prelude.Int.{pos}
use era_ai.Prelude.Text.{decimal}
use era_ai.Core.Enums.{decision_value, outcome_value}
use era_ai.Core.Result.{ErrorCode, code_value}
use era_ai.Value.{Value, null, int, str, obj, Fields, end, field}
use era_ai.Gate.Records.{AuditEntry}
use era_ai.Gate.Audit.{risk_text}

-- The fields of a row that are hashed, `HASH_FIELDS`.
pub record Payload : Type 0 where
  pub seq : ℕ
  pub created_at : String
  pub entry : AuditEntry
  pub meta : Fields
  pub prev_hash : String

pub record Row : Type 0 where
  pub payload : Payload
  pub entry_hash : String
  pub signing_algorithm : Option String
  pub signing_key_id : Option String
  pub signature : Option String

pub record Signer : Type 0 where
  pub algorithm : String
  pub key_id : String
  pub sign : String → String
  pub verify : String → String → Bool

-- What a repository is built from, with the functions that it calls.
pub record Repo : Type 0 where
  pub genesis_hash : String
  pub signer : Option Signer
  pub sha256_hex : String → String
  pub canonical_json : Value → String

text_or_null : Option String → Value
text_or_null none = null
text_or_null (some s) = str s

code_text : Option ErrorCode → Option String
unfolding code_value
code_text none = none
code_text (some c) = some (code_value c)

unfoldable pub payload_value : Payload → Value
unfolding decision_value outcome_value risk_text text_or_null code_text
payload_value p =
    let e = p.entry in
    obj (
      field "seq" (int (pos p.seq)) (
        field "created_at" (str p.created_at) (
          field "actor_id" (str e.actor_id) (
            field "action_type" (str e.action_type) (
              field "action_params" e.action_params (
                field "risk_level" (str (risk_text e.risk_level)) (
                  field "decision" (str (decision_value e.decision)) (
                    field "outcome" (str (outcome_value e.outcome)) (
                      field "confirmation_id" (text_or_null e.confirmation_id) (
                        field "result" (text_or_null e.result) (
                          field "error_code" (text_or_null (code_text e.error_code)) (
                            field "provider_id" (text_or_null e.provider_id) (
                              field "capability_domain" (text_or_null e.capability_domain) (
                                field "credential_ref" (text_or_null e.credential_ref) (
                                  field "policy_version" (int (pos e.policy_version)) (
                                    field "app_version" (str e.app_version) (
                                      field "meta" (obj p.meta)
                                        (field "prev_hash" (str p.prev_hash) end))))))))))))))))))

unfoldable pub is_text : Option String → Bool
is_text none = false
is_text (some s) = not (str_eq s "")

unfoldable pub is_signed : Row → Bool
unfolding is_text
is_signed row = is_text row.signing_algorithm || is_text row.signing_key_id || is_text row.signature

-- `a != b` on an optional text and a text
unfoldable pub differs : Option String → String → Bool
differs none s = true
differs (some t) s = not (str_eq t s)

unfoldable pub bad_signature : Signer → String → Option String → Bool
bad_signature s hash none = true
bad_signature s hash (some sig) = str_eq sig "" || not (s.verify hash sig)

-- `_verify_signature`
unfoldable pub verify_signature : Row → Option Signer → Option String
unfolding is_signed differs bad_signature
verify_signature row none =
    if is_signed row then some "signing key unavailable for signed entry" else none
verify_signature row (some s) =
    if differs row.signing_algorithm s.algorithm
    then some "audit signing algorithm mismatch"
    else if differs row.signing_key_id s.key_id
    then some "audit signing key id mismatch"
    else if bad_signature s row.entry_hash row.signature
    then some "audit signature mismatch"
    else none

pub record VerifyResult : Type 0 where
  pub valid : Bool
  pub entry_count : ℕ
  pub first_mismatch_seq : Option ℕ
  pub message : String

-- The last of the rows, which are in the order of `seq`.
unfoldable pub get_last : List Row → Option Row
get_last [] = none
get_last (row ∷ []) = some row
get_last (row ∷ next ∷ rows) = get_last (next ∷ rows)

module _ (repo : Repo) where
  unfoldable pub digest : Payload → String
  unfolding payload_value
  digest p = repo.sha256_hex (repo.canonical_json (payload_value p))

  unfoldable pub signed : Option Signer → Payload → String → Row
  signed none p hash = record {
    payload = p;
    entry_hash = hash;
    signing_algorithm = none;
    signing_key_id = none;
    signature = none;
  }
  signed (some s) p hash = record {
    payload = p;
    entry_hash = hash;
    signing_algorithm = some s.algorithm;
    signing_key_id = some s.key_id;
    signature = some (s.sign hash);
  }

  -- `build_audit_row`
  unfoldable pub build_row : AuditEntry → Fields → String → ℕ → String → Row
  unfolding signed digest
  build_row entry meta created_at seq prev_hash =
      let p : Payload = record {
        seq = seq;
        created_at = created_at;
        entry = entry;
        meta = meta;
        prev_hash = prev_hash;
      } in
      signed repo.signer p (digest p)

  unfoldable pub next_row : Option Row → AuditEntry → Fields → String → Row
  unfolding build_row
  next_row none entry meta created_at = build_row entry meta created_at 1 repo.genesis_hash
  next_row (some last) entry meta created_at =
      build_row entry meta created_at (last.payload.seq + 1) last.entry_hash

  -- `append`
  unfoldable pub append : List Row → AuditEntry → Fields → String → List Row
  unfolding next_row get_last
  append rows entry meta created_at = rows ++ next_row (get_last rows) entry meta created_at ∷ []

  -- The checks of one row behind `prev`; `none` is a pass.
  unfoldable pub row_error : String → Row → Option String
  unfolding digest verify_signature
  row_error prev row =
      if not (str_eq row.payload.prev_hash prev)
      then some "broken chain link"
      else if not (str_eq row.entry_hash (digest row.payload))
      then some "entry hash mismatch"
      else verify_signature row repo.signer

  -- The first row that fails, with the reason.
  unfoldable pub first_error : String → List Row → Option (Row × String)
  unfolding row_error
  first_error prev [] = none
  first_error prev (row ∷ rows) =
      let rest = first_error row.entry_hash rows in
      elim (row_error prev row) [ none ↦ rest | some reason ↦ some (row, reason) ]

  mode_text : Option Signer → String
  mode_text none = "legacy unsigned"
  mode_text (some s) = text_append "signed by " s.key_id

  unfoldable pub verdict : List Row → Option (Row × String) → VerifyResult
  unfolding mode_text decimal
  verdict rows none = record {
    valid = true;
    entry_count = length rows;
    first_mismatch_seq = none;
    message = text_append "chain valid (" (text_append (mode_text repo.signer) ")");
  }
  verdict rows (some (row, reason)) = record {
    valid = false;
    entry_count = length rows;
    first_mismatch_seq = some row.payload.seq;
    message = text_append reason (text_append " at seq " (decimal row.payload.seq));
  }

  -- `verify_audit_rows`
  unfoldable pub verify_rows : List Row → VerifyResult
  unfolding verdict first_error
  verify_rows [] = record {
    valid = true;
    entry_count = 0;
    first_mismatch_seq = none;
    message = "empty log";
  }
  verify_rows (row ∷ rows) = verdict (row ∷ rows) (first_error repo.genesis_hash (row ∷ rows))
