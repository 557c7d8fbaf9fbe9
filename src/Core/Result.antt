-- ===== src/Core/Result.antt =====
-- era/core/result.py. Messages are for humans and are kept as text that nothing inspects.
use era_ai.Prelude.{String, ◌≡◌, refl, Option, none, some, str_eq, if◌then◌else◌}

pub data ErrorCode : Type 0 where
  validation auth forbidden not_found conflict timeout side_effect_unknown : ErrorCode
  unavailable not_implemented provider_error internal unknown : ErrorCode

-- The text of a `StrEnum` member.
unfoldable pub code_value : ErrorCode → String
code_value validation = "VALIDATION"
code_value auth = "AUTH"
code_value forbidden = "FORBIDDEN"
code_value not_found = "NOT_FOUND"
code_value conflict = "CONFLICT"
code_value timeout = "TIMEOUT"
code_value side_effect_unknown = "SIDE_EFFECT_UNKNOWN"
code_value unavailable = "UNAVAILABLE"
code_value not_implemented = "NOT_IMPLEMENTED"
code_value provider_error = "PROVIDER_ERROR"
code_value internal = "INTERNAL"
code_value unknown = "UNKNOWN"

-- `ProviderErrorCode(s)`; `none` is `ValueError`
unfoldable pub code_of_value : String → Option ErrorCode
code_of_value s =
    if str_eq s "VALIDATION"
    then some validation
    else if str_eq s "AUTH"
    then some auth
    else if str_eq s "FORBIDDEN"
    then some forbidden
    else if str_eq s "NOT_FOUND"
    then some not_found
    else if str_eq s "CONFLICT"
    then some conflict
    else if str_eq s "TIMEOUT"
    then some timeout
    else if str_eq s "SIDE_EFFECT_UNKNOWN"
    then some side_effect_unknown
    else if str_eq s "UNAVAILABLE"
    then some unavailable
    else if str_eq s "NOT_IMPLEMENTED"
    then some not_implemented
    else if str_eq s "PROVIDER_ERROR"
    then some provider_error
    else if str_eq s "INTERNAL"
    then some internal
    else if str_eq s "UNKNOWN"
    then some unknown
    else none

-- An argument of type `ProviderErrorCode | str`.
pub data CodeArg : Type 0 where
  member : ErrorCode → CodeArg
  text : String → CodeArg

code_or_unknown : Option ErrorCode → ErrorCode
code_or_unknown none = unknown
code_or_unknown (some c) = c

-- `ToolError._coerce_code`
unfoldable pub coerce_code : CodeArg → ErrorCode
unfolding code_or_unknown code_of_value
coerce_code (member c) = c
coerce_code (text s) = code_or_unknown (code_of_value s)

pub record ToolError : Type 0 where
  pub message : String
  pub provider_id : Option String
  pub code : ErrorCode

-- Raises of a call: a `ToolError`, or any other exception by its type's name.
pub data Raises {ℓ} (A : Type ℓ) : Type ℓ where
  ok : A → Raises A
  tool_error : ToolError → Raises A
  exception : String → Raises A

pub code_of_value-code_value : (c : ErrorCode) → code_of_value (code_value c) ≡ some c
unfolding code_of_value code_value
code_of_value-code_value validation = refl
code_of_value-code_value _ = refl
