-- ===== src/Workflow/Redact.antt =====
-- `redact_run_params` of era/workflows/definition.py: what of a run's parameters is stored.
use era_ai.Prelude.{Bool, false, [], is_some, if◌then◌else◌}
use era_ai.Security.Redaction.{redacted, is_secret_key}
use era_ai.Value.{
  Value, null, bool, int, float, str, obj, arr, Fields, end, field, Items, nil, cons,
}
use era_ai.Vault.Reference.{parse_vault_ref}

-- `_is_vault`
is_vault : Value → Bool
unfolding parse_vault_ref
is_vault (str s) = is_some (parse_vault_ref s)
is_vault _ = false

unfoldable mutual
  unfolding is_vault is_secret_key

  rec_value : Value → Value
  rec_value null = null
  rec_value (bool b) = bool b
  rec_value (int n) = int n
  rec_value (float m e) = float m e
  rec_value (str s) = str s
  rec_value (obj fs) = obj (rec_fields fs)
  rec_value (arr xs) = arr (rec_items xs)

  rec_fields : Fields → Fields
  rec_fields end = end
  rec_fields (field k v fs) =
      field k (if is_vault v then v else if is_secret_key k [] then str redacted else rec_value v)
        (rec_fields fs)

  rec_items : Items → Items
  rec_items nil = nil
  rec_items (cons x xs) = cons (rec_value x) (rec_items xs)

unfoldable pub redact_run_params : Fields → Fields
unfolding rec_fields
redact_run_params params = rec_fields params
