-- ===== src/Permission/Policy.antt =====
-- era/schemas/policy.py, and the default policy of era/services/policy.py.
use era_ai.Prelude.{ℕ, Bool, true, ◌&&◌, Option, none, some, if◌then◌else◌, List, [], ◌∷◌, Dict}
use era_ai.Core.Enums.{
  RiskLevel, safe, sensitive, communication, mutating, financial, booking, destructive, forbidden,
  Decision, allow, confirm, confirm_strong, deny, same_level,
}
use era_ai.Value.{Value, null, Fields, end, field, get_field, py_eq}

pub record ActionRule : Type 0 where
  pub decision : Decision
  pub when : Option Fields

or_null : Option Value → Value
or_null none = null
or_null (some v) = v

-- `all(params.get(k) == v for k, v in when.items())`
unfoldable pub all_equal : Fields → Fields → Bool
unfolding or_null get_field py_eq
all_equal params end = true
all_equal params (field k v ws) = py_eq (or_null (get_field k params)) v && all_equal params ws

matches_when : Option Fields → Fields → Bool
unfolding all_equal
matches_when none params = true
matches_when (some ws) params = all_equal params ws

unfoldable pub matches : ActionRule → Fields → Bool
unfolding matches_when
matches r params = matches_when r.when params

abbrev pub TierTable : Type 0
TierTable = List (RiskLevel × Decision)

pub record Policy : Type 0 where
  pub version : ℕ
  pub tier_defaults : TierTable
  pub overrides : Dict ActionRule
  pub missing_policy_default : Decision

-- `tier_defaults.get(level, d)`
unfoldable pub tier_default : TierTable → RiskLevel → Decision → Decision
tier_default [] level d = d
tier_default ((l, e) ∷ ts) level d = if same_level l level then e else tier_default ts level d

abbrev pub default_tier_defaults : TierTable
default_tier_defaults =
    (safe, allow)
    ∷ (sensitive, allow)
    ∷ (communication, confirm)
    ∷ (mutating, confirm)
    ∷ (financial, confirm_strong)
    ∷ (booking, confirm_strong)
    ∷ (destructive, confirm_strong)
    ∷ (forbidden, deny)
    ∷ []

abbrev pub default_policy : Policy
default_policy = record {
  version = 1;
  tier_defaults = default_tier_defaults;
  overrides = [];
  missing_policy_default = deny;
}
