-- ===== src/Security/Params/Tests.antt =====
-- Parameter validation on concrete parameters.
use era_ai.Prelude.{ℕ, ◌≡◌, ◌↔◌, refl, none, some}
use era_ai.Prelude.Int.{ℤ, pos}
use era_ai.Prelude.Results.{ok, err}
use era_ai.Value.{int, str, obj, Fields, end, field}
use era_ai.Security.Params.{validate_params, walk, limit_of}
use era_ai.Security.Params.Bounds.{IsBounded, validate_params_iff}

abbrev no_floats : ℤ → ℕ → ℕ
no_floats m e = 0

abbrev small : Fields
small = field "q" (str "rain") (field "n" (int (pos 4)) end)

abbrev deep : Fields
deep =
    field "a"
      (obj
        (field "a" (obj (field "a" (obj (field "a" (obj (field "a" (obj end) end)) end)) end)) end))
      end

accepts : validate_params no_floats small none (some 8) ≡ ok small
unfolding validate_params walk limit_of
accepts = refl

refuses : validate_params no_floats deep none (some 8) ≡ err "params nesting too deep"
unfolding validate_params walk limit_of
refuses = refl

validate_params_iff_example :
    (validate_params no_floats small none (some 8) ≡ ok small)
    ↔ IsBounded (limit_of no_floats (some 8) none) (obj small) 0
validate_params_iff_example = validate_params_iff no_floats small none (some 8)
