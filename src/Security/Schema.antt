-- ===== src/Security/Schema.antt =====
-- `validate_param_schema` of era/security/validation.py with what it calls. A schema is a JSON dict; one
-- whose keywords hold values of another shape, on which the source raises, is refused.
use era_ai.Prelude.{
  ℕ, ◌+◌, String, Bool, true, false, not, ◌&&◌, ◌||◌, Option, none, some, List, [], ◌∷◌, any, ◌==◌,
  str_eq, if◌then◌else◌,
}
use era_ai.Prelude.Int.{ℤ, pos, negsuc, shift_left, int_lt}
use era_ai.Prelude.Text.{text_length}
use era_ai.Prelude.Results.{Result, ok, err, ◌>>=◌, ◌>>◌, refuse_if}
use era_ai.Value.{
  Value, null, bool, int, float, str, obj, arr, Fields, end, field, Items, nil, cons, get_field,
  count_items, number, py_eq,
}

-- `_PARAM_ALIASES.get(req, ())`
abbrev pub aliases_of : String → List String
aliases_of req =
    if str_eq req "q"
    then "query" ∷ []
    else if str_eq req "content"
    then "content_from" ∷ []
    else []

abbrev is_given : Option Value → Bool
is_given none = false
is_given (some null) = false
is_given (some v) = true

-- `key in params and params[key] is not None`
unfoldable pub has_param : Fields → String → Bool
unfolding get_field
has_param params key = is_given (get_field key params)

unfoldable pub check_required : Fields → Items → Result String (Unit {0})
unfolding has_param
check_required params nil = ok tt
check_required params (cons (str req) reqs) =
    refuse_if (not (has_param params req) && not (any (has_param params) (aliases_of req)))
      "missing required parameter"
    >> check_required params reqs
check_required params (cons other reqs) = err "malformed schema"

-- `schema.get(key) or []`
items_or_empty : Option Value → Result String Items
items_or_empty none = ok nil
items_or_empty (some null) = ok nil
items_or_empty (some (arr xs)) = ok xs
items_or_empty (some other) = err "malformed schema"

-- Python's truth of a value
unfoldable pub is_truthy : Value → Bool
is_truthy null = false
is_truthy (bool b) = b
is_truthy (int n) = elim n [ pos k ↦ not (k == 0) | negsuc k ↦ true ]
is_truthy (float m e) = elim m [ pos k ↦ not (k == 0) | negsuc k ↦ true ]
is_truthy (str s) = not (str_eq s "")
is_truthy (obj end) = false
is_truthy (obj (field k v fs)) = true
is_truthy (arr nil) = false
is_truthy (arr (cons x xs)) = true

is_str : Value → Bool
is_str (str s) = true
is_str _ = false

is_int : Value → Bool
is_int (int n) = true
is_int _ = false

is_number : Value → Bool
is_number (int n) = true
is_number (float m e) = true
is_number _ = false

is_bool : Value → Bool
is_bool (bool b) = true
is_bool _ = false

is_arr : Value → Bool
is_arr (arr xs) = true
is_arr _ = false

is_obj : Value → Bool
is_obj (obj fs) = true
is_obj _ = false

-- A type name that is none of these refuses nothing.
unfoldable pub has_type : String → Value → Bool
unfolding is_str is_int is_number is_bool is_arr is_obj
has_type t v =
    if str_eq t "string"
    then is_str v
    else if str_eq t "integer"
    then is_int v
    else if str_eq t "number"
    then is_number v
    else if str_eq t "boolean"
    then is_bool v
    else if str_eq t "array"
    then is_arr v
    else if str_eq t "object"
    then is_obj v
    else true

is_null : Value → Bool
is_null null = true
is_null _ = false

-- `_check_prop_type`: whether it passes
unfoldable mutual
  unfolding has_type is_null

  pub type_fits : Value → Value → Bool
  type_fits (str t) v = is_null v || has_type t v
  type_fits (arr ts) v = is_null v || some_type_fits ts v
  type_fits other v = true

  some_type_fits : Items → Value → Bool
  some_type_fits nil v = false
  some_type_fits (cons t ts) v = type_fits t v || some_type_fits ts v

less : ℤ × ℕ → ℤ × ℕ → Bool
less (a, i) (b, j) = int_lt (shift_left a j) (shift_left b i)

-- A bound of the specification, if there is one and it bounds values of this kind.
check_bound : (ℤ × ℕ → ℤ × ℕ → Bool) → Option (ℤ × ℕ) → Option Value → Result String (Unit {0})
check_bound crosses none bound = ok tt
check_bound crosses (some n) none = ok tt
check_bound crosses (some n) (some b) = elim (number b) [
  | none ↦ err "malformed schema"
  | some limit ↦ refuse_if (crosses n limit) "parameter out of bounds"
]

count_of : Value → Option (ℤ × ℕ)
count_of (arr xs) = some (pos (count_items xs), 0)
count_of _ = none

length_of : Value → Option (ℤ × ℕ)
length_of (str s) = some (pos (text_length s), 0)
length_of _ = none

is_one : Value → Items → Bool
is_one v nil = false
is_one v (cons x xs) = py_eq v x || is_one v xs

check_enum : Value → Option Value → Result String (Unit {0})
unfolding is_one
check_enum v none = ok tt
check_enum v (some (arr xs)) = refuse_if (not (is_one v xs)) "parameter must be one of"
check_enum v (some other) = err "malformed schema"

check_type : Option Value → Value → Result String (Unit {0})
unfolding is_truthy type_fits
check_type none v = ok tt
check_type (some t) v = refuse_if (is_truthy t && not (type_fits t v)) "parameter of a wrong type"

-- One parameter against its specification
unfoldable pub check_prop : Fields → Value → Result String (Unit {0})
unfolding get_field check_type check_bound count_of length_of check_enum less
check_prop spec v = do
  check_type (get_field "type" spec) v
  check_bound less (count_of v) (get_field "minItems" spec)
  check_bound (λ n limit. less limit n) (count_of v) (get_field "maxItems" spec)
  check_enum v (get_field "enum" spec)
  check_bound less (length_of v) (get_field "minLength" spec)
  check_bound (λ n limit. less limit n) (length_of v) (get_field "maxLength" spec)
  check_bound less (number v) (get_field "minimum" spec)
  check_bound (λ n limit. less limit n) (number v) (get_field "maximum" spec)

check_known : Bool → Option Value → Value → Result String (Unit {0})
unfolding check_prop
check_known allow none v = refuse_if (not allow) "unknown parameter"
check_known allow (some (obj spec)) v = check_prop spec v
check_known allow (some other) v = err "malformed schema"

unfoldable pub check_props : Bool → Fields → Fields → Result String (Unit {0})
unfolding check_known get_field
check_props allow properties end = ok tt
check_props allow properties (field k v fs) =
    check_known allow (get_field k properties) v >> check_props allow properties fs

is_allowed : Option Value → Bool
unfolding is_truthy
is_allowed none = false
is_allowed (some v) = is_truthy v

check_properties : Option Value → Bool → Fields → Result String (Unit {0})
unfolding check_props
check_properties none allow params = ok tt
check_properties (some null) allow params = ok tt
check_properties (some (obj properties)) allow params = check_props allow properties params
check_properties (some other) allow params = err "malformed schema"

all_given : Fields → Items → Bool
unfolding has_param
all_given params nil = true
all_given params (cons (str key) keys) = has_param params key && all_given params keys
all_given params (cons other keys) = false

required_given : Fields → Option Value → Bool
unfolding all_given
required_given params none = true
required_given params (some (arr keys)) = all_given params keys
required_given params (some other) = false

-- `_matches_schema_condition`; a part that is no dict matches nothing.
unfoldable mutual
  unfolding required_given get_field

  pub matches_condition : Fields → Value → Bool
  matches_condition params (obj fs) =
      required_given params (get_field "required" fs)
      && any_of_holds params fs
      && not_holds params fs
  matches_condition params other = false

  any_of_holds : Fields → Fields → Bool
  any_of_holds params end = true
  any_of_holds params (field k v fs) =
      if str_eq k "anyOf" then any_in params v else any_of_holds params fs

  any_in : Fields → Value → Bool
  any_in params (arr xs) = any_item params xs
  any_in params other = true

  any_item : Fields → Items → Bool
  any_item params nil = false
  any_item params (cons x xs) = matches_condition params x || any_item params xs

  not_holds : Fields → Fields → Bool
  not_holds params end = true
  not_holds params (field k v fs) =
      if str_eq k "not" then not (matches_condition params v) else not_holds params fs

count_matches : Fields → Items → ℕ
unfolding matches_condition
count_matches params nil = 0
count_matches params (cons x xs) =
    let rest = count_matches params xs in if matches_condition params x then rest + 1 else rest

check_one_of : Fields → Option Value → Result String (Unit {0})
unfolding count_matches
check_one_of params (some (arr xs)) =
    refuse_if (not (count_matches params xs == 1))
      "parameters must satisfy exactly one allowed schema shape"
check_one_of params other = ok tt

check_branch : Fields → Fields → Option Value → Result String (Unit {0})
unfolding count_matches matches_condition
check_branch params condition (some (arr xs)) =
    refuse_if (not (count_matches params xs == 1))
      "parameters must satisfy exactly one allowed schema shape"
check_branch params condition other =
    refuse_if (not (matches_condition params (obj condition)))
      "parameters do not satisfy the required schema shape"

check_branches : Fields → Items → Result String (Unit {0})
unfolding check_branch get_field
check_branches params nil = ok tt
check_branches params (cons (obj condition) rest) =
    check_branch params condition (get_field "oneOf" condition) >> check_branches params rest
check_branches params (cons other rest) = err "invalid allOf condition in action schema"

check_all_of : Fields → Option Value → Result String (Unit {0})
unfolding check_branches
check_all_of params (some (arr xs)) = check_branches params xs
check_all_of params other = ok tt

unfoldable pub check_schema : Fields → Fields → Result String (Unit {0})
unfolding get_field items_or_empty check_required check_properties is_allowed check_one_of
    check_all_of
check_schema params schema = do
  required ← items_or_empty (get_field "required" schema)
  check_required params required
  check_properties (get_field "properties" schema)
      (is_allowed (get_field "additionalProperties" schema)) params
  check_one_of params (get_field "oneOf" schema)
  check_all_of params (get_field "allOf" schema)

unfoldable pub validate_param_schema : Fields → Option Fields → Result String Fields
unfolding check_schema
validate_param_schema params none = ok params
validate_param_schema params (some schema) = check_schema params schema >> ok params
