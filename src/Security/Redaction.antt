-- ===== src/Security/Redaction.antt =====
-- era/security/redaction.py, and `_cap_strings` of era/services/audit_service.py.
pub mod Masked
pub mod Public
pub mod Tests
use era_ai.Prelude.{
  ℕ, ◌+◌, String, Bool, true, false, ◌||◌, Option, none, some, List, [], ◌∷◌, ◌++◌, map, any, elem,
  str_eq, leb, ltb, if◌then◌else◌,
}
use Prim.Native.String.{◌++◌ as text_append}
use era_ai.Prelude.Text.{codes, text_length, lower, contains, decimal}
use era_ai.Value.{
  Value, null, bool, int, float, str, arr, obj, Items, nil, cons, Fields, end, field,
}

abbrev pub redacted : String
redacted = "[REDACTED]"

abbrev secret_hints : List String
secret_hints =
    "key" ∷ "token" ∷ "secret" ∷ "password" ∷ "passwd" ∷ "pin" ∷ "credential" ∷ "authorization"
    ∷ "cookie" ∷ "auth" ∷ []

unfoldable pub action_private_fields : String → List String
action_private_fields action_type =
    if str_eq action_type "email.draft"
    then "body" ∷ []
    else if str_eq action_type "email.send"
    then "body" ∷ "attachments" ∷ "bcc" ∷ []
    else if str_eq action_type "whatsapp.send"
    then "message" ∷ "text" ∷ "media" ∷ []
    else if str_eq action_type "booking.hold"
    then "passenger_name" ∷ "passengers" ∷ "guests" ∷ []
    else if str_eq action_type "booking.confirm"
    then "payment_ref" ∷ []
    else if str_eq action_type "device.sms_send"
    then "message" ∷ []
    else []

-- A set of field names is the list of its members.
unfoldable pub sensitive_fields_for_action : String → List String → List String
unfolding action_private_fields
sensitive_fields_for_action action_type declared = declared ++ action_private_fields action_type

unfoldable pub is_secret_key : String → List String → Bool
unfolding lower contains
is_secret_key key secret_fields =
    if elem key secret_fields
    then true
    else any (λ hint. contains (codes hint) (lower key)) secret_hints

unfoldable mutual
  unfolding is_secret_key

  pub redact : List String → Value → Value
  redact sf null = null
  redact sf (bool b) = bool b
  redact sf (int n) = int n
  redact sf (float m e) = float m e
  redact sf (str s) = str s
  redact sf (arr xs) = arr (redact_items sf xs)
  redact sf (obj fs) = obj (redact_fields sf fs)

  pub redact_items : List String → Items → Items
  redact_items sf nil = nil
  redact_items sf (cons x xs) = cons (redact sf x) (redact_items sf xs)

  pub redact_fields : List String → Fields → Fields
  redact_fields sf end = end
  redact_fields sf (field k v fs) =
      field k (if is_secret_key k sf then str redacted else redact sf v) (redact_fields sf fs)

abbrev pub audit_param_str_limit : ℕ
audit_param_str_limit = 2000

unfoldable pub cap_text : ℕ → String → String
unfolding decimal
cap_text limit s =
    let n = text_length s in
    if leb n limit then s else text_append "<truncated:" (text_append (decimal n) " chars>")

unfoldable mutual
  unfolding cap_text

  pub cap_strings : ℕ → Value → ℕ → Value
  cap_strings limit null depth = if ltb 6 depth then str "[truncated]" else null
  cap_strings limit (bool b) depth = if ltb 6 depth then str "[truncated]" else bool b
  cap_strings limit (int n) depth = if ltb 6 depth then str "[truncated]" else int n
  cap_strings limit (float m e) depth = if ltb 6 depth then str "[truncated]" else float m e
  cap_strings limit (str s) depth =
      if ltb 6 depth then str "[truncated]" else str (cap_text limit s)
  cap_strings limit (arr xs) depth =
      let rest = arr (cap_items limit xs (depth + 1)) in
      if ltb 6 depth then str "[truncated]" else rest
  cap_strings limit (obj fs) depth =
      let rest = obj (cap_fields limit fs (depth + 1)) in
      if ltb 6 depth then str "[truncated]" else rest

  pub cap_items : ℕ → Items → ℕ → Items
  cap_items limit nil depth = nil
  cap_items limit (cons x xs) depth = cons (cap_strings limit x depth) (cap_items limit xs depth)

  pub cap_fields : ℕ → Fields → ℕ → Fields
  cap_fields limit end depth = end
  cap_fields limit (field k v fs) depth =
      field k (cap_strings limit v depth) (cap_fields limit fs depth)
