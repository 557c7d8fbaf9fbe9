-- ===== src/Security/Params.antt =====
-- `validate_params` of era/security/validation.py. An exception is a `Result` with its message.
pub mod Bounds
pub mod Tests
use era_ai.Prelude.{
  ℕ, suc, ◌+◌, String, Bool, true, false, ◌||◌, Option, none, some, List, [], ◌∷◌, elem, str_eq,
  ltb, if◌then◌else◌,
}
use era_ai.Prelude.Results.{Result, ok, err, ◌>>=◌, ◌>>◌, refuse_if}
use era_ai.Prelude.Text.{text_length, decimal}
use era_ai.Prelude.Int.{ℤ, pos, negsuc}
use era_ai.Value.{
  Value, null, bool, int, float, str, arr, obj, Items, nil, cons, Fields, end, field, count_fields,
  count_items,
}

abbrev pub max_params : ℕ
max_params = 32

abbrev pub max_param_key_len : ℕ
max_param_key_len = 64

abbrev pub max_str_len : ℕ
max_str_len = 2000

abbrev pub content_actions : List String
content_actions =
    "fs.write" ∷ "photo.edit" ∷ "photo.upload" ∷ "github.file_commit" ∷ "code.run" ∷ "code.exec"
    ∷ "email.send" ∷ []

abbrev pub max_content_len : ℕ
max_content_len = 1048576

abbrev pub max_param_total : ℕ
max_param_total = 16384

string_limit : Bool → ℕ
string_limit true = max_content_len
string_limit false = max_str_len

-- `None` is in no set.
unfoldable pub string_limit_for : Option String → ℕ
unfolding string_limit
string_limit_for none = max_str_len
string_limit_for (some a) = string_limit (elem a content_actions)

-- `len(str(n))`
unfoldable pub int_chars : ℤ → ℕ
unfolding decimal
int_chars (pos n) = text_length (decimal n)
int_chars (negsuc n) = text_length (decimal (suc n)) + 1

-- `not k or len(k) > MAX_PARAM_KEY_LEN`
abbrev pub is_bad_key : String → Bool
is_bad_key k = str_eq k "" || ltb max_param_key_len (text_length k)

-- `float_chars` is the length of a float's `str`.
module _ (float_chars : ℤ → ℕ → ℕ) where
  abbrev walk_scalar : ℕ → ℕ → Result String ℕ
  walk_scalar depth n = if ltb 4 depth then err "params nesting too deep" else ok n

  -- The budget is handed on, as in the source, and nothing reads it.
  unfoldable mutual
    unfolding int_chars

    pub walk : Value → ℕ → ℕ → ℕ → Result String ℕ
    walk null depth budget limit = walk_scalar depth 0
    walk (bool b) depth budget limit = walk_scalar depth 1
    walk (int n) depth budget limit = walk_scalar depth (int_chars n)
    walk (float m e) depth budget limit = walk_scalar depth (float_chars m e)
    walk (str s) depth budget limit = do
      refuse_if (ltb 4 depth) "params nesting too deep"
      refuse_if (ltb limit (text_length s)) "string parameter value too long"
      ok (text_length s)
    walk (obj fs) depth budget limit = do
      refuse_if (ltb 4 depth) "params nesting too deep"
      refuse_if (ltb max_params (count_fields fs)) "too many nested parameters"
      walk_fields fs depth budget limit
    walk (arr xs) depth budget limit = do
      refuse_if (ltb 4 depth) "params nesting too deep"
      refuse_if (ltb max_params (count_items xs)) "too many list elements"
      walk_items xs depth budget limit

    pub walk_fields : Fields → ℕ → ℕ → ℕ → Result String ℕ
    walk_fields end depth budget limit = ok 0
    walk_fields (field k v fs) depth budget limit = do
      refuse_if (is_bad_key k) "invalid parameter name"
      n ← walk v (depth + 1) budget limit
      m ← walk_fields fs depth budget limit
      ok (n + m)

    pub walk_items : Items → ℕ → ℕ → ℕ → Result String ℕ
    walk_items nil depth budget limit = ok 0
    walk_items (cons x xs) depth budget limit = do
      n ← walk x (depth + 1) budget limit
      m ← walk_items xs depth budget limit
      ok (n + m)

  pub limit_of : Option ℕ → Option String → ℕ
  unfolding string_limit_for
  limit_of none action_type = string_limit_for action_type
  limit_of (some n) action_type = n

  -- The parameters are a dict by their type, and come back unchanged.
  unfoldable pub validate_params : Fields → Option String → Option ℕ → Result String Fields
  unfolding walk limit_of
  validate_params params action_type str_limit = do
    walk (obj params) 0 max_param_total (limit_of str_limit action_type)
    ok params
