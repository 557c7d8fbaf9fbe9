-- ===== src/Permission/Grounds.antt =====
-- On what grounds the engine lets an action pass.
use era_ai.Prelude.{
  String, ◌≡◌, ◌≢◌, ◌⊎◌, refl, true, Option, none, some, [], lookup, eq_iff, arith, Bool-cases,
  Option-cases, inl, inr, insert, lookup-insert, if◌then◌else◌,
}
use era_ai.Core.Enums.{
  RiskLevel, safe, sensitive, forbidden, Decision, allow, deny, is_forbidden, confirm,
  confirm_strong, communication, mutating, financial, booking, destructive,
}
use era_ai.Permission.Catalog.{Action, ActionSpec, ActionCatalog, get_spec}
use era_ai.Permission.Policy.{ActionRule, Policy, tier_default, matches, default_policy}
use era_ai.Permission.Engine.{evaluate, by_rule}

-- The rule that decides on the action, if one is set for its type and matches its parameters.
abbrev pub Rules : Policy → Action → ActionRule → Type 0
Rules p a r = (lookup a.action_type p.overrides ≡ some r) × (matches r a.params ≡ true)

-- A matching override decides, and where none matches the tier does.
abbrev pub Decided : Policy → Action → ActionSpec → Decision → Type 0
Decided p a spec d =
    ((r : ActionRule) × (Rules p a r) × (r.decision ≡ d))
    ⊎ (((r : ActionRule) → ¬ Rules p a r) × (tier_default p.tier_defaults spec.risk_level deny ≡ d))

-- The grounds of a decision other than DENY.
pub record Grounds (catalog : ActionCatalog) (a : Action) (p : Policy) (spec : ActionSpec)
    (d : Decision) : Type 0 where
  pub catalogued : get_spec catalog a.action_type ≡ some spec
  pub not_forbidden : spec.risk_level ≢ forbidden
  pub tiers_given : p.tier_defaults ≢ []
  pub decided : Decided p a spec d

by_rule-Decided :
    (o : Option ActionRule) (a : Action) (spec : ActionSpec) (p : Policy)
    → lookup a.action_type p.overrides ≡ o
    → Decided p a spec (by_rule o a spec p)
unfolding by_rule
by_rule-Decided none a spec p e = inr (λ r x. cc (e, x.0), refl)
by_rule-Decided (some r) a spec p e = elim (Bool-cases (matches r a.params)) [
  | inl q ↦ rw q (inl (r, (e, q), refl))
  | inr q ↦ rw q (inr (λ r' x. ground (arith, e, q, x.0, x.1), refl))
]

evaluate-known :
    (catalog : ActionCatalog) (a : Action) (p : Policy) (spec : ActionSpec)
    → get_spec catalog a.action_type ≡ some spec
    → evaluate catalog a (some p) ≢ deny
    → (spec.risk_level ≢ forbidden)
      × (p.tier_defaults ≢ [])
      × (evaluate catalog a (some p) ≡ by_rule (lookup a.action_type p.overrides) a spec p)
unfolding evaluate
evaluate-known catalog a p spec e h = (λ f. ground arith, λ f. ground arith, ground arith)

evaluate-unknown :
    (catalog : ActionCatalog) (a : Action) (p : Policy)
    → get_spec catalog a.action_type ≡ none
    → evaluate catalog a (some p) ≡ deny
unfolding evaluate
evaluate-unknown catalog a p e = ground arith

-- A decision other than DENY needs a policy, a catalogued action that is not forbidden and a tier
-- table that is not empty; and it is the decision of the override that matches, or, where none
-- does, of the action's tier.
pub evaluate-Grounds :
    (catalog : ActionCatalog) (a : Action) (o : Option Policy)
    → evaluate catalog a o ≢ deny
    → (p : Policy) × (o ≡ some p)
      × (spec : ActionSpec) × Grounds catalog a p spec (evaluate catalog a o)
evaluate-Grounds catalog a none h = absurd (h (unfold evaluate in refl))
evaluate-Grounds catalog a (some p) h = elim (Option-cases (get_spec catalog a.action_type)) [
  | inl e ↦ absurd (h (evaluate-unknown catalog a p e))
  | inr (spec, e) ↦
      let (allowed, tiers, same) = evaluate-known catalog a p spec e h in
      (
        p,
        refl,
        spec,
        record {
          catalogued = e;
          not_forbidden = allowed;
          tiers_given = tiers;
          decided = rw same (by_rule-Decided (lookup a.action_type p.overrides) a spec p refl);
        },
      )
]

-- What the default policy means for each tier.
abbrev pub intended : RiskLevel → Decision
intended safe = allow
intended sensitive = allow
intended communication = confirm
intended mutating = confirm
intended financial = confirm_strong
intended booking = confirm_strong
intended destructive = confirm_strong
intended forbidden = deny

default-intended :
    (l : RiskLevel)
    → (if is_forbidden l then deny else tier_default default_policy.tier_defaults l deny)
      ≡ intended l
unfolding tier_default
default-intended safe = refl
default-intended _ = refl

-- Under the default policy a catalogued action gets the decision that its tier is meant to have:
-- SAFE and SENSITIVE pass, COMMUNICATION and MUTATING want a confirmation, FINANCIAL, BOOKING and
-- DESTRUCTIVE a strong one, and FORBIDDEN is denied.
pub evaluate-default :
    (catalog : ActionCatalog) (a : Action) (spec : ActionSpec)
    → a.action_type ≢ ""
    → get_spec catalog a.action_type ≡ some spec
    → evaluate catalog a (some default_policy) ≡ intended spec.risk_level
unfolding evaluate lookup
evaluate-default catalog a spec k e =
    rw (e, ← default-intended spec.risk_level) (ground (arith, eq_iff a.action_type ""))

-- An override for another action type changes no decision on this one.
pub evaluate-insert :
    (catalog : ActionCatalog) (a : Action) (p : Policy) (other : String) (r : ActionRule)
    → other ≢ a.action_type
    → evaluate catalog a (some (record p { overrides = insert other r p.overrides }))
      ≡ evaluate catalog a (some p)
unfolding evaluate
evaluate-insert catalog a p other r k =
    ground (arith, lookup-insert other a.action_type r p.overrides, eq_iff other a.action_type)
