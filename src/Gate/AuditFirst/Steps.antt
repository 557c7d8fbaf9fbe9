-- ===== src/Gate/AuditFirst/Steps.antt =====
-- The steps that `request` and `approve` are made of.
use mathlib.Core.List.{append-nil}
use era_ai.Prelude.{
  ℕ, String, ◌≡◌, refl, sym, ◌∙◌, ap, Bool, true, false, Option, none, some, List, [], ◌∷◌, ◌++◌,
  All, All-map, subst, Extends, Extends-trans,
}
use era_ai.Prelude.Results.{Result, ok, err}
use era_ai.Core.Enums.{RiskLevel, Decision, Outcome, authorized}
use era_ai.Permission.Catalog.{Action}
use era_ai.Gate.Records.{ExecutionContext, AuditEntry}
use era_ai.Gate.World.{
  Env, World, Db, Provider, Call, Fault, db_error, M, pure, next_step, close, commit,
}
use era_ai.Gate.Audit.{Details, new_entry}
use era_ai.Gate.Dispatch.Trace.{Since, Since-refl, run_provider-Since}
use era_ai.Gate.Service.{
  record_alone, run_or_reject, dispatch_and_record, result_response, meta, details,
}

-- An entry was written and committed, or it was lost with its transaction.
pub data Recorded (e : AuditEntry) (v w : World) : Result Fault (Unit {0}) → Type 0 where
  wrote :
      w.db ≡ record v.db { audit = v.db.audit ++ e ∷ [] }
      → w.calls ≡ v.calls
      → Recorded e v w (ok tt)
  lost : w.db ≡ v.db → w.calls ≡ v.calls → Recorded e v w (err db_error)

commit-Recorded :
    (e : AuditEntry) (v : World) (cs : List Bool)
    → let w = record v { db = record v.db { audit = v.db.audit ++ e ∷ [] } } in
      let c = commit {A = Unit {0}} v.db tt cs w in Recorded e v c.1 c.0
unfolding commit
commit-Recorded e v [] = wrote refl refl
commit-Recorded e v (true ∷ cs) = wrote refl refl
commit-Recorded e v (false ∷ cs) = lost refl refl

pub record_alone-Recorded :
    (env : Env) (a : Action) (ctx : ExecutionContext) (risk : Option RiskLevel) (d : Decision)
    (o : Outcome) (version : ℕ) (x : Details) (v : World)
    → let c = record_alone env a ctx risk d o version x v in
      Recorded (new_entry env a ctx risk d o version x) v c.1 c.0
unfolding record_alone
record_alone-Recorded env a ctx risk d o version x v =
    commit-Recorded (new_entry env a ctx risk d o version x) v v.commits

-- From `v` to `w` the log has grown and no call was made.
pub record Quiet (v w : World) : Type 0 where
  pub log : Extends v.db.audit w.db.audit
  pub calls : w.calls ≡ v.calls

-- The same, with the confirmations left alone.
record Logged (v w : World) : Type 0 where
  quiet : Quiet v w
  confirmations : w.db.confirmations ≡ v.db.confirmations

-- From `v` to `w` the log has grown, and the new calls are of the action and saw the log of `v`.
pub record Dispatched (a : Action) (v w : World) : Type 0 where
  pub log : Extends v.db.audit w.db.audit
  pub confirmations : w.db.confirmations ≡ v.db.confirmations
  pub new : List Call
  pub calls : w.calls ≡ v.calls ++ new
  pub each : All (λ c. (c.seen ≡ v.db.audit) × (c.action ≡ a)) new

pub unchanged : (xs ys : List AuditEntry) → ys ≡ xs → Extends xs ys
unchanged xs ys p = ([], p ∙ sym (append-nil xs))

pub Recorded-Quiet :
    (e : AuditEntry) (v w : World) (r : Result Fault (Unit {0})) → Recorded e v w r → Quiet v w
Recorded-Quiet e v w r (wrote p q) = record { log = (e ∷ [], ap (λ d. d.audit) p); calls = q }
Recorded-Quiet e v w r (lost p q) = record {
  log = unchanged v.db.audit w.db.audit (ap (λ d. d.audit) p);
  calls = q;
}

Recorded-Logged :
    (e : AuditEntry) (v w : World) (r : Result Fault (Unit {0})) → Recorded e v w r → Logged v w
Recorded-Logged e v w r (wrote p q) = record {
  quiet = Recorded-Quiet e v w r (wrote p q);
  confirmations = ap (λ d. d.confirmations) p;
}
Recorded-Logged e v w r (lost p q) = record {
  quiet = Recorded-Quiet e v w r (lost p q);
  confirmations = ap (λ d. d.confirmations) p;
}

-- The end of a transaction.
commit-Quiet :
    {A : Type 0} (v w : World) (x : A) (cs : List Bool) → Quiet v w → Quiet v (commit v.db x cs w).1
unfolding commit
commit-Quiet v w x [] h = h
commit-Quiet v w x (true ∷ cs) h = record { log = h.log; calls = h.calls }
commit-Quiet v w x (false ∷ cs) h = record {
  log = unchanged v.db.audit v.db.audit refl;
  calls = h.calls;
}

pub close-Quiet :
    {A : Type 0} (v : World) (c : Result Fault A × World) → Quiet v c.1 → Quiet v (close v.db c).1
unfolding close
close-Quiet v (ok x, w) h = commit-Quiet v w x w.commits h
close-Quiet v (err e, w) h = record { log = unchanged v.db.audit v.db.audit refl; calls = h.calls }

-- A value returned behind a step leaves the step's world.
pub world_after :
    {A B : Type 0} (c : Result Fault A × World) (f : A → B)
    → (next_step c (λ a. pure (f a))).1 ≡ c.1
world_after (ok a, w) f = refl
world_after (err e, w) f = refl

run_or_reject-Since :
    (env : Env) (o : Option Provider) (a : Action) (ctx : ExecutionContext) (v : World)
    → Since a v (run_or_reject env o a ctx v).1
unfolding run_or_reject
run_or_reject-Since env none a ctx v = Since-refl a v
run_or_reject-Since env (some p) a ctx v = run_provider-Since env p a ctx v

Since-Dispatched : (a : Action) (v w x : World) → Since a v w → Logged w x → Dispatched a v x
Since-Dispatched a v w x s q = record {
  log = subst (λ (d : Db). Extends d.audit x.db.audit) s.db q.quiet.log;
  confirmations = q.confirmations ∙ ap (λ (d : Db). d.confirmations) s.db;
  new = s.new;
  calls = q.quiet.calls ∙ s.calls;
  each = s.each;
}

pub Quiet-refl : (v : World) → Quiet v v
Quiet-refl v = record { log = unchanged v.db.audit v.db.audit refl; calls = refl }

run_then :
    {A B : Type 0} (a : Action) (v : World) (c : Result Fault A × World) (k : A → M B)
    → Since a v c.1
    → ((r : A) (w : World) → Logged w (k r w).1)
    → Dispatched a v (next_step c k).1
run_then a v (ok r, w) k s h = Since-Dispatched a v w (k r w).1 s (h r w)
run_then a v (err e, w) k s h =
    Since-Dispatched a v w w s (record { quiet = Quiet-refl w; confirmations = refl })

pub dispatch_and_record-Dispatched :
    (env : Env) (a : Action) (ctx : ExecutionContext) (d : Decision) (n : ℕ) (cid : Option String)
    (v : World)
    → Dispatched a v (dispatch_and_record env a ctx d n cid v).1
unfolding dispatch_and_record
dispatch_and_record-Dispatched env a ctx d n cid v =
    run_then a v (run_or_reject env (env.provider_for a.action_type) a ctx v) _
      (run_or_reject-Since env (env.provider_for a.action_type) a ctx v)
      (λ r w.
        let m = meta env a.action_type ctx in
        let x = details m cid (some r.result.summary) r.error_code in
        let step = record_alone env a ctx m.risk_level d r.outcome n x w in
        subst (Logged w) (sym (world_after step (λ _. result_response env r d))) (
          Recorded-Logged _ w step.1 step.0
            (record_alone-Recorded env a ctx m.risk_level d r.outcome n x w)))

-- The call is of the action, and when it began its authorization was the last entry of the log,
-- behind the entries of `log`. The log at the end continues that log.
pub record Authorized (a : Action) (ctx : ExecutionContext) (log final : List AuditEntry) (c : Call)
    : Type 0 where
  pub entry : AuditEntry
  pub seen : c.seen ≡ log ++ entry ∷ []
  pub outcome : entry.outcome ≡ authorized
  pub actor : entry.actor_id ≡ ctx.actor_id
  pub action_type : entry.action_type ≡ a.action_type
  pub action : c.action ≡ a
  pub kept : Extends c.seen final

-- The log only grows, and every new call was authorized before it began.
pub record Audited (a : Action) (ctx : ExecutionContext) (v w : World) : Type 0 where
  pub log : Extends v.db.audit w.db.audit
  pub new : List Call
  pub calls : w.calls ≡ v.calls ++ new
  pub each : All (Authorized a ctx v.db.audit w.db.audit) new

pub Quiet-Audited :
    (a : Action) (ctx : ExecutionContext) (v w : World) → Quiet v w → Audited a ctx v w
Quiet-Audited a ctx v w q = record {
  log = q.log;
  new = [];
  calls = q.calls ∙ sym (append-nil v.calls);
  each = tt;
}

-- A dispatch behind an authorization.
pub Dispatched-Audited :
    (a : Action) (ctx : ExecutionContext) (e : AuditEntry) (v w x : World)
    → w.db.audit ≡ v.db.audit ++ e ∷ []
    → w.calls ≡ v.calls
    → e.outcome ≡ authorized
    → e.actor_id ≡ ctx.actor_id
    → e.action_type ≡ a.action_type
    → Dispatched a w x
    → Audited a ctx v x
Dispatched-Audited a ctx e v w x l c o i t d = record {
  log = Extends-trans v.db.audit w.db.audit x.db.audit (e ∷ [], l) d.log;
  new = d.new;
  calls = rw d.calls (ap (λ cs. cs ++ d.new) c);
  each =
      All-map _ (Authorized a ctx v.db.audit x.db.audit)
        (λ call h. record {
          entry = e;
          seen = h.0 ∙ l;
          outcome = o;
          actor = i;
          action_type = t;
          action = h.1;
          kept = subst (λ s. Extends s x.db.audit) (sym h.0) d.log;
        })
        d.new d.each;
}
