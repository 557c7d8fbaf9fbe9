-- ===== src/Permission/Tests.antt =====
-- The permission engine and the roles on concrete policies.
use era_ai.Prelude.{String, ◌≡◌, ◌≢◌, refl, none, some, [], ◌∷◌, eq_iff, arith}
use era_ai.Core.Enums.{communication, confirm, confirm_strong, deny}
use era_ai.Value.{str, end, field}
use era_ai.Permission.Catalog.{Action, ActionSpec, ActionCatalog, get_spec}
use era_ai.Permission.Policy.{ActionRule, Policy, matches, default_policy}
use era_ai.Permission.Engine.{evaluate}
use era_ai.Permission.Grounds.{Grounds, evaluate-Grounds}

abbrev sending : ActionSpec
sending = record {
  action_type = "email.send";
  risk_level = communication;
  capability_domain = "email";
  secret_fields = [];
  param_schema = none;
}

abbrev catalog : ActionCatalog
catalog = record { specs = ("email.send", sending) ∷ [] }

abbrev to_boss : Action
to_boss = record { action_type = "email.send"; params = field "to" (str "boss") end }

-- Mail to the boss wants a strong confirmation.
abbrev careful : ActionRule
careful = record { decision = confirm_strong; when = some (field "to" (str "boss") end) }

abbrev policy : Policy
policy = record default_policy { overrides = ("email.send", careful) ∷ [] }

override_decides : evaluate catalog to_boss (some policy) ≡ confirm_strong
unfolding evaluate get_spec matches
override_decides = refl

tier_decides : evaluate catalog (record to_boss { params = end }) (some policy) ≡ confirm
unfolding evaluate get_spec matches
tier_decides = refl

is_not_deny : confirm_strong ≢ deny
is_not_deny h = ground arith

evaluate-Grounds_example :
    (p : Policy) × (some policy ≡ some p)
    × (spec : ActionSpec) × Grounds catalog to_boss p spec (evaluate catalog to_boss (some policy))
unfolding evaluate get_spec matches
evaluate-Grounds_example = evaluate-Grounds catalog to_boss (some policy) is_not_deny

has_type : to_boss.action_type ≢ ""
has_type h = ground (arith, eq_iff "email.send" "", h)

other_type : ◌≢◌ {A = String} "email.draft" "email.send"
other_type h = ground (arith, eq_iff "email.draft" "email.send", h)
