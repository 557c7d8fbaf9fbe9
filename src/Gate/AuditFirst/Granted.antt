-- ===== src/Gate/AuditFirst/Granted.antt =====
-- What the transaction of `approve` can end with: a refusal that is only recorded, or the go-ahead
-- for a dispatch with everything that it presupposes.
use era_ai.Prelude.{
  String, ◌≡◌, refl, Bool, true, false, ◌||◌, ◌&&◌, not, Option, some, List, [], ◌∷◌, ◌++◌,
}
use era_ai.Prelude.Results.{Result, ok, err}
use era_ai.Core.Enums.{authorized, is_financial_or_booking}
use era_ai.Permission.Catalog.{Action}
use era_ai.Gate.Records.{
  ExecutionContext, PendingConfirmation, ConfirmationStatus, ConfirmationApproval, AuditEntry,
}
use era_ai.Gate.World.{Env, World, Fault, close, commit}
use era_ai.Gate.Confirm.{validate, get_confirmation}
use era_ai.Gate.Dual.{approval_state, approvals_for}
use era_ai.Gate.Service.{is_forbidden_type}
use era_ai.Gate.Approve.{Verdict, answer, go, is_other_actor}
use era_ai.Gate.AuditFirst.Noted.{OwnGrant}
use era_ai.Gate.AuditFirst.Steps.{Quiet, unchanged}

-- What a dispatch by `approve` presupposes of the world `v` that it finds.
pub record Granted (env : Env) (a : Action) (ctx : ExecutionContext) (challenge : Option String)
    (cross : Bool) (cid : String) (v : World) : Type 0 where
  pub confirmation : PendingConfirmation
  pub found : get_confirmation env cid v ≡ some confirmation
  pub valid : validate env confirmation a challenge v.wall ≡ ok tt
  pub permitted :
      is_forbidden_type env confirmation.action_type || is_forbidden_type env a.action_type ≡ false
  pub owner : not cross && is_other_actor env confirmation.actor_id ctx.actor_id ≡ false
  pub approvals : List ConfirmationApproval
  pub own : OwnGrant ctx.actor_id v.db.approvals approvals
  pub dual :
      is_financial_or_booking confirmation.risk_level ≡ true
      → approval_state confirmation.risk_level (approvals_for confirmation.id approvals)
        ≡ (true, false)

-- The world of a go-ahead: the authorization is the last entry, the confirmation is used.
pub record Consumed (env : Env) (a : Action) (ctx : ExecutionContext) (id : String) (v w : World)
    : Type 0 where
  pub entry : AuditEntry
  pub log : w.db.audit ≡ v.db.audit ++ entry ∷ []
  pub calls : w.calls ≡ v.calls
  pub outcome : entry.outcome ≡ authorized
  pub actor : entry.actor_id ≡ ctx.actor_id
  pub action_type : entry.action_type ≡ a.action_type
  pub used :
      (c : PendingConfirmation) × (get_confirmation env id w ≡ some c)
      × (c.status ≡ ConfirmationStatus.used)
      × (c.used_at ≡ some v.wall)

module _ (env : Env) (a : Action) (ctx : ExecutionContext) (challenge : Option String)
    (cross : Bool) (cid : String) (v : World) where
  -- Every end of the transaction.
  abbrev pub Resolved : Result Fault Verdict × World → Type 0
  Resolved (ok (go d decision n id), w) =
      (g : Granted env a ctx challenge cross cid v) × Consumed env a ctx g.confirmation.id v w
  Resolved (ok (answer r), w) = Quiet v w
  Resolved (err e, w) = Quiet v w

  commit-Resolved :
      (x : Verdict) (w : World) (cs : List Bool)
      → Resolved (ok x, w)
      → Resolved (commit v.db x cs w)
  unfolding commit get_confirmation
  commit-Resolved x w [] h = h
  commit-Resolved (answer r) w (true ∷ cs) h = record { log = h.log; calls = h.calls }
  commit-Resolved (answer r) w (false ∷ cs) h = record {
    log = unchanged v.db.audit v.db.audit refl;
    calls = h.calls;
  }
  commit-Resolved (go d decision n id) w (true ∷ cs) (g, h) = (
    g,
    record {
      entry = h.entry;
      log = h.log;
      calls = h.calls;
      outcome = h.outcome;
      actor = h.actor;
      action_type = h.action_type;
      used = h.used;
    },
  )
  commit-Resolved (go d decision n id) w (false ∷ cs) (g, h) = record {
    log = unchanged v.db.audit v.db.audit refl;
    calls = h.calls;
  }

  pub close-Resolved : (c : Result Fault Verdict × World) → Resolved c → Resolved (close v.db c)
  unfolding close
  close-Resolved (ok x, w) h = commit-Resolved x w w.commits h
  close-Resolved (err e, w) h = record {
    log = unchanged v.db.audit v.db.audit refl;
    calls = h.calls;
  }
