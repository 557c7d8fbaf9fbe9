-- ===== src/Workflow/Receipt.antt =====
-- Step receipts: `_sanitize_receipt`, `_capture_outputs`, `_result_value` and
-- `_recent_observation_url` of era/services/workflow_service.py.
use era_ai.Prelude.{
  ℕ, String, Bool, true, false, not, ◌&&◌, ◌||◌, Option, none, some, List, [], ◌∷◌, Dict, str_eq,
  or_else, ltb, if◌then◌else◌,
}
use era_ai.Prelude.Text.{codes, lower}
use era_ai.Value.{
  Value, null, bool, int, float, str, obj, arr, Fields, end, field, Items, nil, cons, get_field,
}
use era_ai.Security.Redaction.{is_secret_key}
use era_ai.Workflow.Run.{StepRow, StepStatus}

eq_codes : List ℕ → List ℕ → Bool
eq_codes [] [] = true
eq_codes (x ∷ xs) (y ∷ ys) = not (ltb x y || ltb y x) && eq_codes xs ys
eq_codes _ _ = false

-- The keys that a receipt drops.
unfoldable pub is_dropped : String → Bool
unfolding eq_codes lower is_secret_key
is_dropped key =
    str_eq key "element_ref"
    || str_eq key "snapshot_id"
    || eq_codes (codes "ref") (lower key)
    || is_secret_key key []

-- `_sanitize_receipt`: a list inside a list stays as it is.
unfoldable mutual
  unfolding is_dropped

  pub sanitize_fields : Fields → Fields
  sanitize_fields end = end
  sanitize_fields (field k v fs) =
      let rest = sanitize_fields fs in
      let kept = field k (sanitize_value v) rest in if is_dropped k then rest else kept

  pub sanitize_value : Value → Value
  sanitize_value null = null
  sanitize_value (bool b) = bool b
  sanitize_value (int n) = int n
  sanitize_value (float m e) = float m e
  sanitize_value (str s) = str s
  sanitize_value (obj fs) = obj (sanitize_fields fs)
  sanitize_value (arr xs) = arr (sanitize_items xs)

  pub sanitize_items : Items → Items
  sanitize_items nil = nil
  sanitize_items (cons x xs) = cons (sanitize_item x) (sanitize_items xs)

  pub sanitize_item : Value → Value
  sanitize_item null = null
  sanitize_item (bool b) = bool b
  sanitize_item (int n) = int n
  sanitize_item (float m e) = float m e
  sanitize_item (str s) = str s
  sanitize_item (obj fs) = obj (sanitize_fields fs)
  sanitize_item (arr xs) = arr xs

-- `_sanitize_receipt` of anything: what is no dict becomes the empty dict.
unfoldable pub sanitize_receipt : Option Value → Fields
sanitize_receipt (some (obj fs)) = sanitize_fields fs
sanitize_receipt _ = end

-- `d[key] = value`
unfoldable pub set_field : String → Value → Fields → Fields
set_field k v end = field k v end
set_field k v (field j w fs) =
    let rest = set_field k v fs in if str_eq j k then field j v fs else field j w rest

-- `_capture_outputs`
unfoldable pub capture_outputs : Dict String → Fields → Fields
unfolding sanitize_receipt set_field get_field
capture_outputs [] safe = safe
capture_outputs (output ∷ outputs) safe =
    capture_outputs outputs
      (set_field output.0 (obj (sanitize_receipt (get_field output.1 safe))) safe)

first_scalar : Fields → Value
first_scalar end = null
first_scalar (field k null fs) = first_scalar fs
first_scalar (field k (obj gs) fs) = first_scalar fs
first_scalar (field k (arr xs) fs) = first_scalar fs
first_scalar (field k v fs) = v

-- `_result_value`
unfoldable pub result_value : Value → Value
unfolding get_field first_scalar
result_value (obj fs) =
    elim (or_else (get_field "result" fs)
      (or_else (get_field "value" fs) (or_else (get_field "url" fs) (get_field "status" fs)))) [
        | some v ↦ v
        | none ↦ first_scalar fs
      ]
result_value v = v

url_of : Option Value → Option String
unfolding get_field
url_of (some (obj fs)) = elim (get_field "url" fs) [
  | some (str s) ↦ if str_eq s "" then none else some s
  | _ ↦ none
]
url_of _ = none

-- What a row tells of the page: only a completed one does.
observed_url : StepRow → Option String
unfolding url_of
observed_url r = elim r.status [ StepStatus.completed ↦ url_of r.result_receipt | _ ↦ none ]

-- `_recent_observation_url`: the rows stand in the order of their indices.
unfoldable pub recent_observation_url : List StepRow → Option String
unfolding observed_url
recent_observation_url [] = none
recent_observation_url (r ∷ rs) = or_else (recent_observation_url rs) (observed_url r)
