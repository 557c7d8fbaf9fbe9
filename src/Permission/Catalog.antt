-- ===== src/Permission/Catalog.antt =====
-- era/core/action.py, and ActionSpec, ActionCatalog of era/core/tool_registry.py.
use era_ai.Prelude.{String, Bool, Option, List, [], ◌∷◌, Dict, lookup, insert, is_some}
use era_ai.Core.Enums.{RiskLevel}
use era_ai.Value.{Fields}

pub record Action : Type 0 where
  pub action_type : String
  pub params : Fields

pub record ActionSpec : Type 0 where
  pub action_type : String
  pub risk_level : RiskLevel
  pub capability_domain : String
  pub secret_fields : List String
  pub param_schema : Option Fields

pub record ActionCatalog : Type 0 where
  pub specs : Dict ActionSpec

index_specs : List ActionSpec → Dict ActionSpec → Dict ActionSpec
index_specs [] d = d
index_specs (s ∷ ss) d = index_specs ss (insert s.action_type s d)

-- `ActionCatalog(specs)`: of two specs of one type the later stands.
unfoldable pub new_catalog : List ActionSpec → ActionCatalog
unfolding index_specs insert
new_catalog specs = record { specs = index_specs specs [] }

unfoldable pub get_spec : ActionCatalog → String → Option ActionSpec
unfolding lookup
get_spec c action_type = lookup action_type c.specs

unfoldable pub is_catalogued : ActionCatalog → String → Bool
unfolding get_spec
is_catalogued c action_type = is_some (get_spec c action_type)
