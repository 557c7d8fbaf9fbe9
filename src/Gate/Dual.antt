-- ===== src/Gate/Dual.antt =====
-- era/services/dual_approval.py.
pub mod Distinct
use era_ai.Prelude.{
  ℕ, ◌+◌, String, Bool, true, false, ◌&&◌, not, Option, none, some, List, [], ◌∷◌, ◌++◌, length,
  any, elem, str_eq, leb, ◌==◌, if◌then◌else◌,
}
use era_ai.Prelude.Results.{Result, ok, err}
use era_ai.Core.Enums.{RiskLevel, is_financial_or_booking}
use era_ai.Gate.Records.{
  ConfirmationStatus, pending, used, expired, PendingConfirmation, ApprovalStatus, granted,
  ConfirmationApproval,
}
use era_ai.Gate.World.{Env, World, M}
use era_ai.Gate.Confirm.{get_confirmation}

pub data DualApprovalError : Type 0 where
  unknown_confirmation : DualApprovalError
  confirmation_not_pending : DualApprovalError
  approval_already_exists : DualApprovalError
  approval_not_required : DualApprovalError

unfoldable pub requires_dual_approval : RiskLevel → Bool
requires_dual_approval level = is_financial_or_booking level

unfoldable pub required_approvals : RiskLevel → ℕ
unfolding requires_dual_approval
required_approvals level = if requires_dual_approval level then 2 else 1

-- `approval_repo.list_for_confirmation`
unfoldable pub approvals_for : String → List ConfirmationApproval → List ConfirmationApproval
approvals_for cid [] = []
approvals_for cid (a ∷ as') =
    let rest = approvals_for cid as' in if str_eq a.confirmation_id cid then a ∷ rest else rest

-- `approval_repo.get_by_actor`
unfoldable pub approval_by_actor :
    String → String → List ConfirmationApproval → Option ConfirmationApproval
approval_by_actor cid actor [] = none
approval_by_actor cid actor (a ∷ as') =
    let rest = approval_by_actor cid actor as' in
    if str_eq a.confirmation_id cid && str_eq a.actor_id actor then some a else rest

abbrev pub is_granted : ApprovalStatus → Bool
is_granted granted = true
is_granted _ = false

-- The set of the actors that granted.
unfoldable pub granting_actors : List ConfirmationApproval → List String
granting_actors [] = []
granting_actors (a ∷ as') =
    let rest = granting_actors as' in
    if is_granted a.status && not (elem a.actor_id rest) then a.actor_id ∷ rest else rest

unfoldable pub any_denied : List ConfirmationApproval → Bool
any_denied as' = any (λ a. not (is_granted a.status)) as'

-- `state_in_session`: whether it may be dispatched, and whether it is denied.
unfoldable pub approval_state : RiskLevel → List ConfirmationApproval → Bool × Bool
unfolding any_denied granting_actors required_approvals
approval_state level as' =
    let n = length (granting_actors as') in
    let required = required_approvals level in
    let enough = if requires_dual_approval level then n == required else leb required n in
    (not (any_denied as') && enough, any_denied as')

module _ (env : Env) where
  unfoldable pub write_approval :
      PendingConfirmation
      → String
      → ApprovalStatus
      → Option String
      → World
      → Result DualApprovalError ConfirmationApproval × World
  write_approval c actor status context w =
      let existing = approvals_for c.id w.db.approvals in
      let a : ConfirmationApproval = record {
        id = env.uuid w.issued;
        confirmation_id = c.id;
        actor_id = actor;
        status = status;
        sequence = length existing + 1;
        context_hash = context;
        created_at = w.wall;
      } in
      (
        ok a,
        record w {
          issued = w.issued + 1;
          db = record w.db { approvals = w.db.approvals ++ a ∷ [] };
        },
      )

  unfoldable pub if_required :
      PendingConfirmation
      → String
      → ApprovalStatus
      → Option String
      → World
      → Result DualApprovalError ConfirmationApproval × World
  unfolding write_approval required_approvals
  if_required c actor status context w =
      if leb (required_approvals c.risk_level) (length (approvals_for c.id w.db.approvals))
      then (err approval_not_required, w)
      else write_approval c actor status context w

  unfoldable pub if_new :
      Option ConfirmationApproval
      → PendingConfirmation
      → String
      → ApprovalStatus
      → Option String
      → World
      → Result DualApprovalError ConfirmationApproval × World
  unfolding if_required
  if_new (some a) c actor status context w = (err approval_already_exists, w)
  if_new none c actor status context w = if_required c actor status context w

  unfoldable pub if_found :
      Option PendingConfirmation
      → String
      → ApprovalStatus
      → Option String
      → World
      → Result DualApprovalError ConfirmationApproval × World
  unfolding if_new
  if_found none actor status context w = (err unknown_confirmation, w)
  if_found (some c) actor status context w = elim c.status [
    | pending ↦ if_new (approval_by_actor c.id actor w.db.approvals) c actor status context w
    | _ ↦ (err confirmation_not_pending, w)
  ]

  -- `record_approval_in_session`. An invalid status is no value of the model.
  unfoldable pub record_approval :
      String
      → String
      → ApprovalStatus
      → Option String
      → World
      → Result DualApprovalError ConfirmationApproval × World
  unfolding if_found get_confirmation
  record_approval cid actor status context w =
      if_found (get_confirmation env cid w) actor status context w
