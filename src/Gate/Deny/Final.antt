-- ===== src/Gate/Deny/Final.antt =====
-- A denial is final: no approval that follows it reaches a provider.
use era_ai.Prelude.{
  String, ◌≡◌, ◌≢◌, inl, inr, refl, Bool, true, false, Option, some, List, [], ◌∷◌, Dict, lookup,
  insert, lookup-insert_same, subst, arith,
}
use era_ai.Prelude.Results.{Result, ok, err}
use era_ai.Permission.Catalog.{Action}
use era_ai.Gate.Records.{
  ExecutionContext, ExecutionResponse, PendingConfirmation, ConfirmationStatus,
}
use era_ai.Gate.World.{Env, World, Fault, transaction, close, commit}
use era_ai.Gate.Audit.{record_entry}
use era_ai.Gate.Confirm.{get_confirmation, validate, mark_status, store_confirmation}
use era_ai.Gate.Confirm.Validity.{validate_iff}
use era_ai.Gate.Approve.{approve, is_other_actor}
use era_ai.Gate.AuditFirst.Approvals.{approve-Granted}
use era_ai.Gate.Deny.{denial, deny_pending, on_status, on_found, deny_confirmation}

-- The confirmation is stored and no longer pending.
Closed : Env → String → World → Type 0
Closed env cid w =
    (c : PendingConfirmation) × (get_confirmation env cid w ≡ some c)
    × (c.status ≢ ConfirmationStatus.pending)

not_pending :
    (env : Env) (o : Option PendingConfirmation) (c d : PendingConfirmation) (a : Action)
    (challenge : Option String) (w : World)
    → o ≡ some c
    → c.status ≢ ConfirmationStatus.pending
    → o ≡ some d
    → validate env d a challenge w.wall ≢ ok tt
not_pending env o c d a challenge w p s q h =
    let t = ((validate_iff env d a challenge w.wall).0 h).status in ground (arith, p, q, s, t)

Closed-no_calls :
    (env : Env) (cid : String) (a : Action) (ctx : ExecutionContext) (challenge : Option String)
    (cross : Bool) (w : World)
    → Closed env cid w
    → (approve env cid a ctx challenge cross w).1.calls ≡ w.calls
unfolding Closed
Closed-no_calls env cid a ctx challenge cross w (c, f, s) =
    elim (approve-Granted env a ctx challenge cross cid w) [
      | inl q ↦ q
      | inr g ↦
          elim (not_pending env (get_confirmation env cid w) c g.confirmation a challenge w f s
            g.found g.valid) [ ]
    ]

stored_under :
    (k j : String) (c : PendingConfirmation) (m : Dict PendingConfirmation)
    → k ≡ j
    → lookup j (insert k c m) ≡ some c
stored_under k j c m p = subst (λ i. lookup i (insert k c m) ≡ some c) p (lookup-insert_same k c m)

module _ (env : Env) (cid : String) (ctx : ExecutionContext) (v : World) where
  -- What a transaction that answers leaves is closed, if its body leaves it so.
  Ends : Result Fault ExecutionResponse × World → Type 0
  Ends (ok r, w) = Closed env cid w
  Ends (err e, w) = Unit

  commit-Ends :
      (r : ExecutionResponse) (w : World) (cs : List Bool)
      → Closed env cid w
      → Ends (commit v.db r cs w)
  unfolding Ends Closed get_confirmation commit
  commit-Ends r w [] h = h
  commit-Ends r w (true ∷ cs) h = h
  commit-Ends r w (false ∷ cs) h = tt

  close-Ends : (c : Result Fault ExecutionResponse × World) → Ends c → Ends (close v.db c)
  unfolding Ends close
  close-Ends (ok r, w) h = commit-Ends r w w.commits h
  close-Ends (err e, w) h = tt

  pending-Ends :
      (c : PendingConfirmation)
      → c.id ≡ cid
      → is_other_actor env c.actor_id ctx.actor_id ≡ false
      → Ends (deny_pending env c ctx v)
  unfolding Ends Closed deny_pending denial mark_status store_confirmation record_entry
      get_confirmation
  pending-Ends c i o = rw o (
    record c { used_at = some v.wall; status = ConfirmationStatus.denied },
    stored_under c.id cid _ v.db.confirmations i,
    (ground arith),
  )

  status-Ends :
      (c : PendingConfirmation)
      → get_confirmation env cid v ≡ some c
      → c.id ≡ cid
      → is_other_actor env c.actor_id ctx.actor_id ≡ false
      → (s : ConfirmationStatus) → c.status ≡ s
      → Ends (on_status env s c ctx v)
  unfolding Ends Closed on_status denial
  status-Ends c f i o ConfirmationStatus.pending q = pending-Ends c i o
  status-Ends c f i o ConfirmationStatus.used q = (c, f, ground (arith, q))
  status-Ends c f i o ConfirmationStatus.denied q = (c, f, ground (arith, q))
  status-Ends c f i o ConfirmationStatus.expired q = (c, f, ground (arith, q))

  deny-Ends :
      (c : PendingConfirmation)
      → get_confirmation env cid v ≡ some c
      → c.id ≡ cid
      → is_other_actor env c.actor_id ctx.actor_id ≡ false
      → Ends (deny_confirmation env cid ctx v)
  unfolding deny_confirmation transaction on_found
  deny-Ends c f i o =
      rw f (close-Ends (on_found env (some c) ctx v) (status-Ends c f i o c.status refl))

  answered-Closed :
      (c : Result Fault ExecutionResponse × World) (r : ExecutionResponse)
      → Ends c
      → c.0 ≡ ok r
      → Closed env cid c.1
  unfolding Ends
  answered-Closed (ok s, w) r h p = h
  answered-Closed (err e, w) r h p = ground arith

-- A denial is final. If the actor of a stored confirmation denies it and gets an answer, so that the
-- transaction was committed, then no approval that follows reaches a provider, whoever approves, with
-- whatever action and challenge. The confirmation is stored under its own id.
pub deny_confirmation-final :
    (env : Env) (cid : String) (ctx dtx : ExecutionContext) (c : PendingConfirmation) (a : Action)
    (challenge : Option String) (cross : Bool) (r : ExecutionResponse) (v : World)
    → get_confirmation env cid v ≡ some c
    → c.id ≡ cid
    → is_other_actor env c.actor_id ctx.actor_id ≡ false
    → (deny_confirmation env cid ctx v).0 ≡ ok r
    → let w = (deny_confirmation env cid ctx v).1 in
      (approve env cid a dtx challenge cross w).1.calls ≡ w.calls
deny_confirmation-final env cid ctx dtx c a challenge cross r v f i o p =
    let step = deny_confirmation env cid ctx v in
    Closed-no_calls env cid a dtx challenge cross step.1
      (answered-Closed env cid ctx v step r (deny-Ends env cid ctx v c f i o) p)
