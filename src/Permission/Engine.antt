-- ===== src/Permission/Engine.antt =====
-- era/services/permission_engine.py. Values that break their declared types (a rule with no
-- `matches`, a decision that is no `Decision`) are not values of the model, so the branches that
-- answer them with DENY have no counterpart.
use era_ai.Prelude.{Option, none, some, [], ◌∷◌, str_eq, lookup, if◌then◌else◌}
use era_ai.Core.Enums.{Decision, deny, is_forbidden}
use era_ai.Permission.Catalog.{Action, ActionSpec, ActionCatalog, get_spec}
use era_ai.Permission.Policy.{ActionRule, Policy, TierTable, tier_default, matches}

by_tier : ActionSpec → Policy → Decision
unfolding tier_default
by_tier spec p = tier_default p.tier_defaults spec.risk_level deny

unfoldable pub by_rule : Option ActionRule → Action → ActionSpec → Policy → Decision
unfolding by_tier
by_rule none a spec p = by_tier spec p
by_rule (some r) a spec p = if matches r a.params then r.decision else by_tier spec p

by_overrides : TierTable → Action → ActionSpec → Policy → Decision
unfolding by_rule
by_overrides [] a spec p = deny
by_overrides (t ∷ ts) a spec p = by_rule (lookup a.action_type p.overrides) a spec p

by_spec : Option ActionSpec → Action → Policy → Decision
unfolding by_overrides
by_spec none a p = deny
by_spec (some spec) a p =
    if is_forbidden spec.risk_level then deny else by_overrides p.tier_defaults a spec p

unfoldable pub evaluate : ActionCatalog → Action → Option Policy → Decision
unfolding by_spec
evaluate catalog a none = deny
evaluate catalog a (some p) =
    if str_eq a.action_type "" then deny else by_spec (get_spec catalog a.action_type) a p
