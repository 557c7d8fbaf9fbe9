-- ===== src/Gate/AuditFirst/Noted.antt =====
-- What recording the approver's grant changes.
use era_ai.Prelude.{
  String, ◌≡◌, ◌⊎◌, inl, inr, refl, Bool-cases, Option, none, some, List, [], ◌∷◌, ◌++◌, leb,
  length,
}
use era_ai.Gate.Records.{PendingConfirmation, ConfirmationStatus, ConfirmationApproval, granted}
use era_ai.Gate.World.{Env, World}
use era_ai.Gate.Confirm.{get_confirmation}
use era_ai.Gate.Dual.{
  approvals_for, approval_by_actor, record_approval, if_found, if_new, if_required, write_approval,
  required_approvals,
}

-- The approvals after the approver's own grant: as they were, or with that grant behind them.
unfoldable pub OwnGrant : String → List ConfirmationApproval → List ConfirmationApproval → Type 0
OwnGrant actor before after =
    (after ≡ before)
    ⊎ ((x : ConfirmationApproval) × (x.actor_id ≡ actor)
        × (x.status ≡ granted)
        × (after ≡ before ++ x ∷ []))

-- Recording the approver's grant touches the approvals only.
pub record Noted (actor : String) (v w : World) : Type 0 where
  pub audit : w.db.audit ≡ v.db.audit
  pub confirmations : w.db.confirmations ≡ v.db.confirmations
  pub calls : w.calls ≡ v.calls
  pub wall : w.wall ≡ v.wall
  pub own : OwnGrant actor v.db.approvals w.db.approvals

pub Noted-refl : (actor : String) (v : World) → Noted actor v v
unfolding OwnGrant
Noted-refl actor v = record {
  audit = refl;
  confirmations = refl;
  calls = refl;
  wall = refl;
  own = inl refl;
}

module _ (env : Env) (actor : String) (v : World) where
  write-Noted :
      (c : PendingConfirmation) → Noted actor v (write_approval env c actor granted none v).1
  unfolding write_approval OwnGrant
  write-Noted c = record {
    audit = refl;
    confirmations = refl;
    calls = refl;
    wall = refl;
    own = inr (_, refl, refl, refl);
  }

  required-Noted :
      (c : PendingConfirmation) → Noted actor v (if_required env c actor granted none v).1
  unfolding if_required
  required-Noted c =
      elim (Bool-cases
        (leb (required_approvals c.risk_level) (length (approvals_for c.id v.db.approvals)))) [
          | inl q ↦ rw q (Noted-refl actor v)
          | inr q ↦ rw q (write-Noted c)
        ]

  new-Noted :
      (o : Option ConfirmationApproval) (c : PendingConfirmation)
      → Noted actor v (if_new env o c actor granted none v).1
  unfolding if_new
  new-Noted (some x) c = Noted-refl actor v
  new-Noted none c = required-Noted c

  status-Noted :
      (s : ConfirmationStatus) (c : PendingConfirmation)
      → c.status ≡ s
      → Noted actor v (if_found env (some c) actor granted none v).1
  unfolding if_found
  status-Noted ConfirmationStatus.pending c q = rw q (
      new-Noted (approval_by_actor c.id actor v.db.approvals)
        (record c { status = ConfirmationStatus.pending }))
  status-Noted ConfirmationStatus.used c q = rw q (Noted-refl actor v)
  status-Noted ConfirmationStatus.denied c q = rw q (Noted-refl actor v)
  status-Noted ConfirmationStatus.expired c q = rw q (Noted-refl actor v)

  found-Noted :
      (o : Option PendingConfirmation) → Noted actor v (if_found env o actor granted none v).1
  unfolding if_found
  found-Noted none = Noted-refl actor v
  found-Noted (some c) = status-Noted c.status c refl

  pub record_approval-Noted :
      (cid : String) → Noted actor v (record_approval env cid actor granted none v).1
  unfolding record_approval
  record_approval-Noted cid = found-Noted (get_confirmation env cid v)
