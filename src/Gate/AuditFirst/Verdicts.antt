-- ===== src/Gate/AuditFirst/Verdicts.antt =====
-- Every branch of the transaction of `approve`.
use era_ai.Prelude.{
  String, ◌≡◌, inl, inr, refl, ◌∙◌, ap, Bool, true, false, ◌||◌, ◌&&◌, not, Option, none, some, [],
  ◌∷◌, ◌++◌, Bool-cases, Option-cases, arith, lookup-insert_same, either_branch,
}
use era_ai.Prelude.Results.{Result, ok, err}
use era_ai.Core.Enums.{RiskLevel, Decision, deny, Outcome, authorized, is_financial_or_booking}
use era_ai.Permission.Catalog.{Action}
use era_ai.Gate.Records.{
  ExecutionContext, ExecutionResponse, ExecutionStatus, PendingConfirmation, ConfirmationStatus,
  ConfirmationApproval, granted, AuditEntry,
}
use era_ai.Gate.World.{Env, World, Fault, M, transaction}
use era_ai.Gate.Audit.{Details, new_entry, record_entry}
use era_ai.Gate.Confirm.{
  Reason, is_expired, validate, get_confirmation, mark_status, store_confirmation,
}
use era_ai.Gate.Dual.{
  DualApprovalError, approval_already_exists, approval_state, approvals_for, approval_by_actor,
  record_approval,
}
use era_ai.Gate.Service.{response, Meta, meta, details, is_forbidden_type}
use era_ai.Gate.Approve.{
  Verdict, confirmation_entry, close_with, consume, by_state, read_state, on_recorded, dual_step,
  on_valid, scope_or, is_terminal, invalid_pending, on_invalid, on_validated, is_other_actor,
  on_found, resolve,
}
use era_ai.Gate.AuditFirst.Noted.{Noted, Noted-refl, record_approval-Noted}
use era_ai.Gate.AuditFirst.Granted.{Resolved, close-Resolved}
use era_ai.Gate.AuditFirst.Steps.{Quiet}

module _ (env : Env) (a : Action) (ctx : ExecutionContext) (challenge : Option String)
    (cross : Bool) (cid : String) (v : World) where
  abbrev Ends : Result Fault Verdict × World → Type 0
  Ends c = Resolved env a ctx challenge cross cid v c

  -- The checks that come before the approvals.
  record Checked (c : PendingConfirmation) : Type 0 where
    pub found : get_confirmation env cid v ≡ some c
    pub valid : validate env c a challenge v.wall ≡ ok tt
    pub permitted :
        is_forbidden_type env c.action_type || is_forbidden_type env a.action_type ≡ false
    pub owner : not cross && is_other_actor env c.actor_id ctx.actor_id ≡ false

  one_more :
      (e : AuditEntry) (w x : World)
      → Noted ctx.actor_id v w
      → x.db.audit ≡ w.db.audit ++ e ∷ []
      → x.calls ≡ w.calls
      → Quiet v x
  one_more e w x n p q = record {
    log = (e ∷ [], p ∙ ap (λ l. l ++ e ∷ []) n.audit);
    calls = q ∙ n.calls;
  }

  module _ (c : PendingConfirmation) (k : Checked c) where
    consume-Resolved :
        (d : ExecutionContext) (m : Meta) (w : World)
        → d.actor_id ≡ ctx.actor_id
        → Noted ctx.actor_id v w
        → (is_financial_or_booking c.risk_level ≡ true
            → approval_state c.risk_level (approvals_for c.id w.db.approvals) ≡ (true, false))
        → Ends (consume env c a d m w)
    unfolding consume confirmation_entry mark_status store_confirmation record_entry new_entry
        get_confirmation
    consume-Resolved d m w q n h =
        let e =
          new_entry env a d (some c.risk_level) c.decision authorized c.policy_version
            (details m (some c.id) none none) in
        (
          record {
            confirmation = c;
            found = k.found;
            valid = k.valid;
            permitted = k.permitted;
            owner = k.owner;
            approvals = w.db.approvals;
            own = n.own;
            dual = h;
          },
          record {
            entry = e;
            log = ap (λ l. l ++ e ∷ []) n.audit;
            calls = n.calls;
            outcome = refl;
            actor = q;
            action_type = refl;
            used = (
              record c { status = ConfirmationStatus.used; used_at = some w.wall },
              lookup-insert_same c.id _ w.db.confirmations,
              refl,
              ap some n.wall,
            );
          },
        )

    close_with-Resolved :
        (s : ConfirmationStatus) (d : ExecutionContext) (risk : Option RiskLevel) (e : Decision)
        (o : Outcome) (x : Details) (r : ExecutionResponse) (w : World)
        → Noted ctx.actor_id v w
        → Ends (close_with env c s a d risk e o x r w)
    unfolding close_with confirmation_entry mark_status store_confirmation record_entry
    close_with-Resolved s d risk e o x r w n = one_more _ w _ n refl refl

    state-Resolved :
        (b : Bool × Bool) (d : ExecutionContext) (m : Meta) (w : World)
        → d.actor_id ≡ ctx.actor_id
        → Noted ctx.actor_id v w
        → (is_financial_or_booking c.risk_level ≡ true
            → b ≡ (true, false)
            → approval_state c.risk_level (approvals_for c.id w.db.approvals) ≡ (true, false))
        → Ends (by_state env b c a d m w)
    unfolding by_state confirmation_entry record_entry
    state-Resolved (dispatchable, true) d m w q n h =
        close_with-Resolved _ d _ _ _ _ (response ExecutionStatus.denied c.decision "denied") w n
    state-Resolved (true, false) d m w q n h = consume-Resolved d m w q n (λ f. h f refl)
    state-Resolved (false, false) d m w q n h = one_more _ w _ n refl refl

    read-Resolved :
        (d : ExecutionContext) (m : Meta) (w : World)
        → d.actor_id ≡ ctx.actor_id
        → Noted ctx.actor_id v w
        → Ends (read_state env c a d m w)
    unfolding read_state
    read-Resolved d m w q n =
        state-Resolved (approval_state c.risk_level (approvals_for c.id w.db.approvals)) d m w q n
          (λ f p. p)

    recorded-Resolved :
        (r : Result DualApprovalError ConfirmationApproval) (d : ExecutionContext) (m : Meta)
        (w : World)
        → d.actor_id ≡ ctx.actor_id
        → Noted ctx.actor_id v w
        → Ends (on_recorded env (r, w) c a d m)
    unfolding on_recorded
    recorded-Resolved (ok x) d m w q n = read-Resolved d m w q n
    recorded-Resolved (err approval_already_exists) d m w q n = read-Resolved d m w q n
    recorded-Resolved (err DualApprovalError.unknown_confirmation) d m w q n =
        close_with-Resolved _ d _ _ _ _ (response ExecutionStatus.denied c.decision "denied") w n
    recorded-Resolved (err DualApprovalError.confirmation_not_pending) d m w q n =
        close_with-Resolved _ d _ _ _ _ (response ExecutionStatus.denied c.decision "denied") w n
    recorded-Resolved (err DualApprovalError.approval_not_required) d m w q n =
        close_with-Resolved _ d _ _ _ _ (response ExecutionStatus.denied c.decision "denied") w n

    dual-Resolved :
        (d : ExecutionContext) (m : Meta)
        → d.actor_id ≡ ctx.actor_id
        → Ends (dual_step env c a ctx.actor_id d m v)
    unfolding dual_step
    dual-Resolved d m q =
        let n = Noted-refl ctx.actor_id v in
        either_branch Ends env.has_dual_approval_service
          (elim (Option-cases (approval_by_actor c.id ctx.actor_id v.db.approvals)) [
            | inr (x, p) ↦ rw p (read-Resolved d m v q n)
            | inl p ↦
                let r = record_approval env c.id ctx.actor_id granted none v in
                rw p
                  (recorded-Resolved r.0 d m r.1 q (record_approval-Noted env ctx.actor_id v c.id))
          ])
          (close_with-Resolved _ d _ _ _ _ (response ExecutionStatus.denied c.decision "denied") v
            n)

    valid-Resolved : Ends (on_valid env c a ctx v)
    unfolding on_valid scope_or
    valid-Resolved =
        let d = record ctx { execution_scope = scope_or c.execution_scope ctx.execution_scope } in
        let m = meta env c.action_type d in
        elim (Bool-cases (is_financial_or_booking c.risk_level)) [
          | inl f ↦ rw f (dual-Resolved d m refl)
          | inr f ↦
              rw f (
                consume-Resolved d m v refl (Noted-refl ctx.actor_id v) (λ g. ground (arith, f, g)))
        ]

  pending-Resolved : (r : Reason) (c : PendingConfirmation) → Ends (invalid_pending env r c a ctx v)
  unfolding invalid_pending close_with confirmation_entry mark_status store_confirmation
      record_entry
  pending-Resolved is_expired c = one_more _ v _ (Noted-refl ctx.actor_id v) refl refl
  pending-Resolved Reason.already_resolved c = one_more _ v _ (Noted-refl ctx.actor_id v) refl refl
  pending-Resolved Reason.already_used c = one_more _ v _ (Noted-refl ctx.actor_id v) refl refl
  pending-Resolved Reason.hash_mismatch c = one_more _ v _ (Noted-refl ctx.actor_id v) refl refl
  pending-Resolved Reason.challenge_required c =
      one_more _ v _ (Noted-refl ctx.actor_id v) refl refl
  pending-Resolved Reason.challenge_incorrect c =
      one_more _ v _ (Noted-refl ctx.actor_id v) refl refl

  invalid-Resolved : (r : Reason) (c : PendingConfirmation) → Ends (on_invalid env r c a ctx v)
  unfolding on_invalid confirmation_entry record_entry
  invalid-Resolved r c =
      either_branch (λ (m : M Verdict). Ends (m v)) (is_terminal env c.status)
        (one_more _ v _ (Noted-refl ctx.actor_id v) refl refl) (pending-Resolved r c)

  refused-Resolved :
      (c : PendingConfirmation) (risk : Option RiskLevel) (d : Decision) (o : Outcome) (x : Details)
      (r : ExecutionResponse)
      → Ends (close_with env c ConfirmationStatus.denied a ctx risk d o x r v)
  unfolding close_with confirmation_entry mark_status store_confirmation record_entry
  refused-Resolved c risk d o x r = one_more _ v _ (Noted-refl ctx.actor_id v) refl refl

  validated-Resolved :
      (r : Result Reason (Unit {0})) (c : PendingConfirmation)
      → get_confirmation env cid v ≡ some c
      → validate env c a challenge v.wall ≡ r
      → is_forbidden_type env c.action_type || is_forbidden_type env a.action_type ≡ false
      → not cross && is_other_actor env c.actor_id ctx.actor_id ≡ false
      → Ends (on_validated env r c a ctx v)
  unfolding on_validated
  validated-Resolved (ok t) c f e p o =
      valid-Resolved c (record { found = f; valid = e; permitted = p; owner = o })
  validated-Resolved (err r) c f e p o = invalid-Resolved r c

  found-Resolved :
      (o : Option PendingConfirmation)
      → get_confirmation env cid v ≡ o
      → Ends (on_found env o a ctx challenge cross v)
  unfolding on_found record_entry
  found-Resolved none f = one_more _ v _ (Noted-refl ctx.actor_id v) refl refl
  found-Resolved (some c) f =
      elim (Bool-cases
        (is_forbidden_type env c.action_type || is_forbidden_type env a.action_type)) [
          | inl q ↦
              rw q (refused-Resolved c _ _ _ _ (response ExecutionStatus.denied deny "forbidden"))
          | inr q ↦
              rw q (elim (Bool-cases (not cross && is_other_actor env c.actor_id ctx.actor_id)) [
                | inl o ↦ rw o (
                    refused-Resolved c _ _ _ _
                      (response ExecutionStatus.denied c.decision "denied"))
                | inr o ↦ rw o (validated-Resolved (validate env c a challenge v.wall) c f refl q o)
              ])
        ]

  pub resolve-Resolved : Ends (resolve env cid a ctx challenge cross v)
  unfolding resolve transaction
  resolve-Resolved =
      close-Resolved env a ctx challenge cross cid v
        (on_found env (get_confirmation env cid v) a ctx challenge cross v)
        (found-Resolved (get_confirmation env cid v) refl)
