-- ===== src/Gate/AuditFirst/Approvals.antt =====
-- Audit before dispatch for `approve`, the conditions of its dispatch, and the single use of a
-- confirmation.
use era_ai.Prelude.{
  ℕ, String, ◌≡◌, ◌≢◌, ◌⊎◌, inl, inr, ◌∙◌, ap, subst, Bool, Option, some, lookup, arith,
}
use era_ai.Prelude.Results.{Result, ok, err}
use era_ai.Permission.Catalog.{Action}
use era_ai.Gate.Records.{ExecutionContext, PendingConfirmation, ConfirmationStatus}
use era_ai.Gate.World.{Env, World, Fault, next_step}
use era_ai.Gate.Confirm.{get_confirmation, validate}
use era_ai.Gate.Confirm.Validity.{validate_iff}
use era_ai.Gate.Approve.{Verdict, answer, go, resolve, on_verdict, approve}
use era_ai.Gate.AuditFirst.Granted.{Granted, Resolved}
use era_ai.Gate.AuditFirst.Verdicts.{resolve-Resolved}
use era_ai.Gate.AuditFirst.Steps.{
  Audited, Quiet-Audited, Dispatched-Audited, dispatch_and_record-Dispatched,
}

module _ (env : Env) (a : Action) (ctx : ExecutionContext) (challenge : Option String)
    (cross : Bool) (cid : String) (v : World) where
  verdict-Audited :
      (c : Result Fault Verdict × World)
      → Resolved env a ctx challenge cross cid v c
      → Audited a ctx v (next_step c (on_verdict env a)).1
  unfolding on_verdict
  verdict-Audited (err e, w) h = Quiet-Audited a ctx v w h
  verdict-Audited (ok (answer r), w) h = Quiet-Audited a ctx v w h
  verdict-Audited (ok (go d decision n id), w) (g, h) =
      Dispatched-Audited a ctx h.entry v w _ h.log h.calls h.outcome h.actor h.action_type
        (dispatch_and_record-Dispatched env a d decision n (some id) w)

  -- No call was made, or the conditions held and the confirmation is used up.
  Spent : World → Type 0
  Spent w =
      (w.calls ≡ v.calls)
      ⊎ ((g : Granted env a ctx challenge cross cid v) × (k : PendingConfirmation)
          × (get_confirmation env g.confirmation.id w ≡ some k)
          × (k.status ≡ ConfirmationStatus.used))

  verdict-Spent :
      (c : Result Fault Verdict × World)
      → Resolved env a ctx challenge cross cid v c
      → Spent (next_step c (on_verdict env a)).1
  unfolding Spent on_verdict get_confirmation
  verdict-Spent (err e, w) h = inl h.calls
  verdict-Spent (ok (answer r), w) h = inl h.calls
  verdict-Spent (ok (go d decision n id), w) (g, h) =
      let r = dispatch_and_record-Dispatched env a d decision n (some id) w in
      let (k, f, s, t) = h.used in inr (g, k, ap (lookup g.confirmation.id) r.confirmations ∙ f, s)

  approve-Spent : Spent (approve env cid a ctx challenge cross v).1
  unfolding approve
  approve-Spent =
      verdict-Spent (resolve env cid a ctx challenge cross v)
        (resolve-Resolved env a ctx challenge cross cid v)

-- For every approval, whatever the stored confirmation, the provider and the commits do: the audit
-- log is only appended to, and each call that reaches a provider is a call of this action that began
-- when the committed log ended in an AUTHORIZED entry of this actor and this action type, one entry
-- behind the log before the approval; the final log continues that log.
pub approve-Audited :
    (env : Env) (a : Action) (ctx : ExecutionContext) (challenge : Option String) (cross : Bool)
    (cid : String) (v : World)
    → Audited a ctx v (approve env cid a ctx challenge cross v).1
unfolding approve
approve-Audited env a ctx challenge cross cid v =
    verdict-Audited env a ctx challenge cross cid v (resolve env cid a ctx challenge cross v)
      (resolve-Resolved env a ctx challenge cross cid v)

-- An approval reaches no provider unless the confirmation is stored, `validate` accepts it (pending,
-- unused, unexpired, the same action, the right challenge), neither action type is FORBIDDEN, the
-- approver is its actor or crossing is allowed, and a FINANCIAL or BOOKING one is dispatchable and
-- not denied under the stored approvals with at most the approver's own grant added.
pub approve-Granted :
    (env : Env) (a : Action) (ctx : ExecutionContext) (challenge : Option String) (cross : Bool)
    (cid : String) (v : World)
    → ((approve env cid a ctx challenge cross v).1.calls ≡ v.calls)
      ⊎ Granted env a ctx challenge cross cid v
unfolding Spent
approve-Granted env a ctx challenge cross cid v =
    elim (approve-Spent env a ctx challenge cross cid v) [
      | inl q ↦ inl q
      | inr (g, k, f, s) ↦ inr g
    ]

used_twice :
    (env : Env) (k : PendingConfirmation) (o : Option PendingConfirmation) (a : Action)
    (challenge : Option String) (now : ℕ)
    → o ≡ some k
    → k.status ≡ ConfirmationStatus.used
    → (c : PendingConfirmation) → o ≡ some c
    → validate env c a challenge now ≢ ok tt
used_twice env k o a challenge now p s c q h =
    let t = ((validate_iff env c a challenge now).0 h).status in ground (arith, p, q, s, t)

-- A confirmation is used once: if an approval of it reached a provider, a second one in the world
-- that the first left behind reaches none, whoever approves, with whatever action and challenge. The
-- confirmation is stored under its own id.
pub approve-single_use :
    (env : Env) (cid : String) (a b : Action) (ctx dtx : ExecutionContext)
    (challenge other : Option String) (cross over : Bool) (v : World)
    → ((c : PendingConfirmation) → get_confirmation env cid v ≡ some c → c.id ≡ cid)
    → (approve env cid a ctx challenge cross v).1.calls ≢ v.calls
    → let w = (approve env cid a ctx challenge cross v).1 in
      (approve env cid b dtx other over w).1.calls ≡ w.calls
unfolding Spent
approve-single_use env cid a b ctx dtx challenge other cross over v own h =
    let w = (approve env cid a ctx challenge cross v).1 in
    elim (approve-Spent env a ctx challenge cross cid v) [
      | inl q ↦ elim (h q) [ ]
      | inr (g, k, f, s) ↦ elim (approve-Granted env b dtx other over cid w) [
        | inl q ↦ q
        | inr g' ↦
            elim (used_twice env k (get_confirmation env cid w) b other w.wall
              (subst (λ i. get_confirmation env i w ≡ some k) (own g.confirmation g.found) f) s
              g'.confirmation g'.found g'.valid) [ ]
      ]
    ]
