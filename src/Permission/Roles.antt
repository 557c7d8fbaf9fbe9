-- ===== src/Permission/Roles.antt =====
-- era/security/rbac.py: the roles, what each may do, and the capability domains it may act on.
use era_ai.Prelude.{
  String, ◌≡◌, refl, Bool, true, false, Option, none, some, List, [], ◌∷◌, all, not, elem, str_eq,
  eq_iff, if◌then◌else◌, arith,
}

pub data Role : Type 0 where
  admin user : Role

-- An argument of type `Role | str | None`.
pub data RoleArg : Type 0 where
  member : Role → RoleArg
  text : String → RoleArg
  absent : RoleArg

-- `None` is read as the text "None", which names no role.
unfoldable pub coerce_role : RoleArg → Option Role
coerce_role (member r) = some r
coerce_role (text s) =
    if str_eq s "admin" then some admin else if str_eq s "user" then some user else none
coerce_role absent = none

abbrev pub all_permissions : List String
all_permissions =
    "policy.read" ∷ "policy.write" ∷ "audit.read" ∷ "providers.read" ∷ "actions.evaluate"
    ∷ "actions.execute" ∷ "actions.confirm" ∷ "users.manage" ∷ "api_keys.manage" ∷ "agent.run"
    ∷ "vault.manage" ∷ "jobs.read" ∷ "schedules.manage" ∷ "schedules.read" ∷ "workflow.schedule"
    ∷ "workflow.templates.manage" ∷ "workflow.review" ∷ "workflow.read" ∷ "operator.review" ∷ []

abbrev pub role_permissions : Role → List String
role_permissions admin = all_permissions
role_permissions user =
    "policy.read" ∷ "providers.read" ∷ "actions.evaluate" ∷ "actions.execute" ∷ "actions.confirm"
    ∷ "agent.run" ∷ "jobs.read" ∷ "schedules.manage" ∷ "schedules.read" ∷ "workflow.schedule"
    ∷ "workflow.read" ∷ []

abbrev pub all_action_domains : List String
all_action_domains =
    "core" ∷ "web" ∷ "browser" ∷ "email" ∷ "whatsapp" ∷ "booking" ∷ "file" ∷ "device" ∷ "github"
    ∷ "code" ∷ "image" ∷ []

abbrev pub action_domain_allowlist : Role → List String
action_domain_allowlist admin = all_action_domains
action_domain_allowlist user =
    "core" ∷ "web" ∷ "browser" ∷ "email" ∷ "whatsapp" ∷ "booking" ∷ "file" ∷ "github" ∷ "code"
    ∷ "image" ∷ []

-- What an unknown role has is nothing.
listed : Option Role → (Role → List String) → String → Bool
listed none table s = false
listed (some r) table s = elem s (table r)

unfoldable pub role_has_permission : RoleArg → String → Bool
unfolding listed coerce_role
role_has_permission role permission = listed (coerce_role role) role_permissions permission

domain_listed : Option Role → Option String → Bool
unfolding listed
domain_listed r none = false
domain_listed r (some d) = if str_eq d "" then false else listed r action_domain_allowlist d

unfoldable pub role_domain_allowed : RoleArg → Option String → Bool
unfolding domain_listed coerce_role
role_domain_allowed role domain = domain_listed (coerce_role role) domain

elem-subset :
    (s : String) (xs ys : List String)
    → all (λ t. elem t ys) xs ≡ true
    → elem s xs ≡ true
    → elem s ys ≡ true
elem-subset s [] ys h m = cc
elem-subset s (x ∷ xs) ys h m = ground (arith, eq_iff s x, elem-subset s xs ys)

-- The permissions that a `user` does not have.
abbrev pub admin_only : List String
admin_only =
    "policy.write" ∷ "audit.read" ∷ "users.manage" ∷ "api_keys.manage" ∷ "vault.manage"
    ∷ "workflow.templates.manage" ∷ "workflow.review" ∷ "operator.review" ∷ []

listed-all :
    (r : Option Role) (s : String)
    → listed r role_permissions s ≡ true
    → elem s all_permissions ≡ true
unfolding listed
listed-all (some admin) s h = h
listed-all (some user) s h = elem-subset s (role_permissions user) all_permissions refl h
listed-all none s h = cc

elem-disjoint :
    (s : String) (xs ys : List String)
    → all (λ t. not (elem t ys)) xs ≡ true
    → elem s xs ≡ true
    → elem s ys ≡ false
elem-disjoint s [] ys h m = cc
elem-disjoint s (x ∷ xs) ys h m = ground (arith, eq_iff s x, elem-disjoint s xs ys)

listed-admin_only :
    (r : Option Role) (s : String)
    → listed r role_permissions s ≡ true
    → elem s admin_only ≡ true
    → r ≡ some admin
unfolding listed
listed-admin_only (some admin) s h m = refl
listed-admin_only (some user) s h m =
    cc (elem-disjoint s (role_permissions user) admin_only refl h, m)
listed-admin_only none s h m = cc

-- Whatever role is named, a permission that is granted is one of `ALL_PERMISSIONS`, so the admin
-- has it too; and one of the admin-only permissions is granted to the admin alone.
pub granted_to :
    (role : RoleArg) (permission : String)
    → role_has_permission role permission ≡ true
    → (role_has_permission (member admin) permission ≡ true)
      × (elem permission admin_only ≡ true → coerce_role role ≡ some admin)
unfolding role_has_permission
granted_to role permission h =
    (listed-all (coerce_role role) permission h, listed-admin_only (coerce_role role) permission h)

domain-admin : (r : Option Role) → domain_listed r (some "device") ≡ true → r ≡ some admin
unfolding domain_listed
domain-admin (some admin) h = refl
domain-admin (some user) h = cc
domain-admin none h = cc

domain-all :
    (r : Option Role) (d : String)
    → domain_listed r (some d) ≡ true
    → domain_listed (some admin) (some d) ≡ true
unfolding domain_listed listed
domain-all (some admin) d h = h
domain-all (some user) d h =
    ground (arith, elem-subset d (action_domain_allowlist user) all_action_domains refl)
domain-all none d h = ground arith

-- A domain is allowed to a known role and by name only, what is allowed to any role is allowed to
-- the admin, and `device` is allowed to the admin alone.
pub domain_allowed_to :
    (role : RoleArg) (domain : Option String)
    → role_domain_allowed role domain ≡ true
    → (d : String) × (domain ≡ some d)
      × (role_domain_allowed (member admin) (some d) ≡ true)
      × (d ≡ "device" → coerce_role role ≡ some admin)
unfolding role_domain_allowed
domain_allowed_to role none h = cc
domain_allowed_to role (some d) h =
    (d, refl, domain-all (coerce_role role) d h, λ e. domain-admin (coerce_role role) (rw e at h))
