-- ===== src/Chain/Tests.antt =====
-- The chain on a small log: the digest of a row is the text of its number and of its predecessor's
-- hash.
use era_ai.Prelude.{
  String, ◌≡◌, ◌↔◌, refl, true, none, some, List, [], map, str_eq, eq_iff, if◌then◌else◌, arith,
}
use era_ai.Prelude.Int.{pos}
use era_ai.Prelude.Text.{decimal}
use era_ai.Core.Enums.{safe, allow, authorized}
use era_ai.Value.{Value, int, obj, end, field}
use era_ai.Gate.Records.{AuditEntry}
use era_ai.Chain.{Row, Signer, Repo, digest, payload_value, verify_signature, append, verify_rows}
use era_ai.Chain.Linked.{IsChain, IsReliable, verify_rows_iff, append-verify_rows}

-- The number of a payload.
abbrev number_of : Value → String
number_of (obj (field k (int (pos n)) fs)) = if str_eq k "seq" then decimal n else "?"
number_of _ = "?"

abbrev key : Signer
key = record {
  algorithm = "plain";
  key_id = "k";
  sign = λ hash. "sig";
  verify = λ hash sig. str_eq sig "sig";
}

abbrev repo : Repo
repo = record {
  genesis_hash = "0";
  signer = some key;
  sha256_hex = λ s. s;
  canonical_json = number_of;
}

abbrev entry : AuditEntry
entry = record {
  actor_id = "ann";
  action_type = "read";
  action_params = obj end;
  risk_level = some safe;
  decision = allow;
  outcome = authorized;
  policy_version = 1;
  app_version = "1";
  confirmation_id = none;
  result = none;
  error_code = none;
  provider_id = none;
  capability_domain = none;
  credential_ref = none;
}

abbrev log : List Row
log = append repo [] entry end "t"

log_accepted : (verify_rows repo (append repo log entry end "u")).valid ≡ true
unfolding verify_rows append digest payload_value verify_signature
log_accepted = refl

-- A row whose number was changed.
forgery_refused :
    (verify_rows repo (
      map
        (λ (r : Row). record r { payload = record r.payload { seq = 7 } })
        log)).first_mismatch_seq
    ≡ some 7
unfolding verify_rows append digest payload_value verify_signature
forgery_refused = refl

key-IsReliable : IsReliable (some key)
key-IsReliable hash = (refl, λ e. ground (arith, e, eq_iff "sig" ""))

verify_rows_iff_example : ((verify_rows repo log).valid ≡ true) ↔ IsChain repo "0" log
verify_rows_iff_example = verify_rows_iff repo log

append-verify_rows_example : (verify_rows repo (append repo log entry end "u")).valid ≡ true
unfolding verify_rows append digest payload_value verify_signature
append-verify_rows_example = append-verify_rows repo log entry end "u" key-IsReliable refl
