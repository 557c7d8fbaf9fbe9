-- ===== src/Gate/AuditFirst/Requests.antt =====
-- Audit before dispatch for `request`.
use era_ai.Prelude.{
  ℕ, String, ◌≡◌, ◌≢◌, ◌⊎◌, inl, inr, refl, sym, ap, subst, Bool, true, false, Option, none, some,
  List, [], ◌∷◌, Bool-cases,
}
use era_ai.Prelude.Results.{Result, ok, err}
use era_ai.Core.Enums.{
  RiskLevel, Decision, allow, confirm, confirm_strong, deny, authorized, denied_by_policy,
  forbidden,
}
use era_ai.Permission.Catalog.{Action}
use era_ai.Permission.Policy.{Policy}
use era_ai.Gate.Records.{ExecutionContext, ExecutionStatus}
use era_ai.Gate.World.{Env, World, Db, Fault, next_step, transaction, close, commit}
use era_ai.Gate.Audit.{new_entry, record_entry}
use era_ai.Gate.Confirm.{store_confirmation}
use era_ai.Gate.Service.{
  Meta, meta, details, version_of, is_forbidden_type, record_alone, response, dispatch_and_record,
}
use era_ai.Gate.Request.{
  authorize_and_dispatch, confirmation_body, require_confirmation, refused, on_decision, get_policy,
  with_policy, request,
}
use era_ai.Gate.AuditFirst.Steps.{
  Quiet, Quiet-refl, Audited, Recorded, wrote, lost, record_alone-Recorded, Recorded-Quiet,
  world_after, close-Quiet, Quiet-Audited, Dispatched-Audited, dispatch_and_record-Dispatched,
}

module _ (env : Env) (a : Action) (ctx : ExecutionContext) where
  refused-Quiet :
      (risk : Option RiskLevel) (m : Meta) (n : ℕ) (x : Option String) (text : String) (v : World)
      → Quiet v (refused env a ctx risk m n x text v).1
  unfolding refused
  refused-Quiet risk m n x text v =
      let d = details m none x none in
      let step = record_alone env a ctx risk deny denied_by_policy n d v in
      subst (Quiet v) (sym (world_after step (λ _. response ExecutionStatus.denied deny text))) (
        Recorded-Quiet _ v step.1 step.0
          (record_alone-Recorded env a ctx risk deny denied_by_policy n d v))

  body-Quiet :
      (risk : Option RiskLevel) (m : Meta) (d : Decision) (n : ℕ) (v : World)
      → Quiet v (confirmation_body env risk a ctx m d n v).1
  unfolding confirmation_body store_confirmation record_entry
  body-Quiet none m d n v = Quiet-refl v
  body-Quiet (some level) m d n v = record { log = (_ ∷ [], refl); calls = refl }

  confirmation-Quiet :
      (m : Meta) (d : Decision) (n : ℕ) (v : World)
      → Quiet v (require_confirmation env a ctx m d n v).1
  unfolding require_confirmation transaction
  confirmation-Quiet m d n v =
      subst (Quiet v)
        (sym (world_after (transaction (confirmation_body env m.risk_level a ctx m d n) v) _))
        (close-Quiet v (confirmation_body env m.risk_level a ctx m d n v)
          (body-Quiet m.risk_level m d n v))

  -- Behind the authorization, which is written or lost.
  authorized_then :
      (m : Meta) (n : ℕ) (v : World) (c : Result Fault (Unit {0}) × World)
      → Recorded
          (new_entry env a ctx m.risk_level allow authorized n (details m none none none))
          v
          c.1
          c.0
      → Audited a ctx v (next_step c (λ _. dispatch_and_record env a ctx allow n none)).1
  unfolding new_entry
  authorized_then m n v (r, w) (wrote p q) =
      Dispatched-Audited a ctx _ v w _ (ap (λ (d : Db). d.audit) p) q refl refl refl
        (dispatch_and_record-Dispatched env a ctx allow n none w)
  authorized_then m n v (r, w) (lost p q) = Quiet-Audited a ctx v w (
      Recorded-Quiet
        (new_entry env a ctx m.risk_level allow authorized n (details m none none none)) v w r
        (lost p q))

  dispatch-Audited :
      (m : Meta) (n : ℕ) (v : World)
      → Audited a ctx v (authorize_and_dispatch env a ctx m allow n v).1
  unfolding authorize_and_dispatch
  dispatch-Audited m n v =
      let d = details m none none none in
      authorized_then m n v (record_alone env a ctx m.risk_level allow authorized n d v)
        (record_alone-Recorded env a ctx m.risk_level allow authorized n d v)

  decided-Audited :
      (d : Result String Decision) (m : Meta) (n : ℕ) (v : World)
      → Audited a ctx v (on_decision env d a ctx m n v).1
  unfolding on_decision
  decided-Audited (err e) m n v = Quiet-Audited a ctx v _ (refused-Quiet m.risk_level m n _ _ v)
  decided-Audited (ok deny) m n v = Quiet-Audited a ctx v _ (refused-Quiet m.risk_level m n _ _ v)
  decided-Audited (ok confirm) m n v = Quiet-Audited a ctx v _ (confirmation-Quiet m confirm n v)
  decided-Audited (ok confirm_strong) m n v =
      Quiet-Audited a ctx v _ (confirmation-Quiet m confirm_strong n v)
  decided-Audited (ok allow) m n v = dispatch-Audited m n v

  policy-Audited :
      (policy : Option Policy) (v : World) → Audited a ctx v (with_policy env a ctx policy v).1
  unfolding with_policy
  policy-Audited policy v = elim (Bool-cases (is_forbidden_type env a.action_type)) [
    | inl q ↦ rw q (
        Quiet-Audited a ctx v _
          (refused-Quiet (some forbidden) (meta env a.action_type ctx) (version_of policy) _ _ v))
    | inr q ↦ rw q (decided-Audited (env.evaluate a policy) _ _ v)
  ]

  -- Every decision but ALLOW.
  decided-Quiet :
      (d : Result String Decision) (m : Meta) (n : ℕ) (v : World)
      → d ≢ ok allow
      → Quiet v (on_decision env d a ctx m n v).1
  unfolding on_decision
  decided-Quiet (err e) m n v h = refused-Quiet m.risk_level m n _ _ v
  decided-Quiet (ok deny) m n v h = refused-Quiet m.risk_level m n _ _ v
  decided-Quiet (ok confirm) m n v h = confirmation-Quiet m confirm n v
  decided-Quiet (ok confirm_strong) m n v h = confirmation-Quiet m confirm_strong n v
  decided-Quiet (ok allow) m n v h = elim (h refl) [ ]

  policy-Quiet :
      (policy : Option Policy) (v : World)
      → (is_forbidden_type env a.action_type ≡ true) ⊎ (env.evaluate a policy ≢ ok allow)
      → Quiet v (with_policy env a ctx policy v).1
  unfolding with_policy
  policy-Quiet policy v (inl q) =
      rw q (refused-Quiet (some forbidden) (meta env a.action_type ctx) (version_of policy) _ _ v)
  policy-Quiet policy v (inr h) = elim (Bool-cases (is_forbidden_type env a.action_type)) [
    | inl q ↦
        rw q (refused-Quiet (some forbidden) (meta env a.action_type ctx) (version_of policy) _ _ v)
    | inr q ↦ rw q (decided-Quiet (env.evaluate a policy) _ _ v h)
  ]

  -- The read of the policy may still fail to commit; it changes nothing.
  read-Audited :
      (cs : List Bool) (v : World)
      → Audited a ctx v (next_step (commit v.db v.db.policy cs v) (with_policy env a ctx)).1
  unfolding commit
  read-Audited [] v = policy-Audited v.db.policy v
  read-Audited (true ∷ cs) v =
      let h = policy-Audited v.db.policy (record v { commits = cs }) in
      record { log = h.log; new = h.new; calls = h.calls; each = h.each }
  read-Audited (false ∷ cs) v =
      let h = Quiet-Audited a ctx v v (Quiet-refl v) in
      record { log = h.log; new = h.new; calls = h.calls; each = h.each }

  read-Quiet :
      (cs : List Bool) (v : World)
      → (is_forbidden_type env a.action_type ≡ true) ⊎ (env.evaluate a v.db.policy ≢ ok allow)
      → (next_step (commit v.db v.db.policy cs v) (with_policy env a ctx)).1.calls ≡ v.calls
  unfolding commit
  read-Quiet [] v h = (policy-Quiet v.db.policy v h).calls
  read-Quiet (true ∷ cs) v h = (policy-Quiet v.db.policy (record v { commits = cs }) h).calls
  read-Quiet (false ∷ cs) v h = refl

-- For every request, whatever the policy engine, the provider and the commits do: the audit log is
-- only appended to, and each call that reaches a provider is a call of this action that began when
-- the committed log ended in an AUTHORIZED entry of this actor and this action type, one entry
-- behind the log before the request; the final log continues that log.
pub request-Audited :
    (env : Env) (a : Action) (ctx : ExecutionContext) (v : World)
    → Audited a ctx v (request env a ctx v).1
unfolding request get_policy transaction close
request-Audited env a ctx v = read-Audited env a ctx v.commits v

-- No call reaches a provider in a request whose action type is FORBIDDEN in the catalog, or for
-- which the engine raises or decides anything but ALLOW under the stored policy.
pub request-no_calls :
    (env : Env) (a : Action) (ctx : ExecutionContext) (v : World)
    → (is_forbidden_type env a.action_type ≡ true) ⊎ (env.evaluate a v.db.policy ≢ ok allow)
    → (request env a ctx v).1.calls ≡ v.calls
unfolding request get_policy transaction close
request-no_calls env a ctx v h = read-Quiet env a ctx v.commits v h
