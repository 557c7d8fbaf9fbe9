-- ===== src/Workflow/Engine/Batch.antt =====
-- A batch of steps and the waiting rows: each step's action is requested once at most.
use era_ai.Prelude.{
  ℕ, suc, ◌≤◌, ◌<◌, String, ◌≡◌, refl, sym, ap, ◌∙◌, subst, Bool, true, false, Option, none, some,
  List, [], ◌∷◌, any, Bool-cases, Option-cases, inl, inr, arith,
}
use era_ai.Gate.Records.{ExecutionContext}
use era_ai.Workflow.Definition.{WorkflowStep, WorkflowDefinition}
use era_ai.Workflow.Run.{
  RunStatus, is_pending, Message, StepRow, EngineState, Services, set_run, set_run_failed,
  set_current, ticked, set_run_budget_failed, release_governance,
}
use era_ai.Workflow.Run.Rows.{
  Since, identity, pending_at, sent_count, Calm, Calm-refl, Calm-trans, OnceAt,
}
use era_ai.Workflow.Step.{execute_step}
use era_ai.Workflow.Step.Keeps.{execute_step-OnceAt, execute_step-other}
use era_ai.Workflow.Waiting.{
  WaitOutcome, next, still_waiting, denied_skip, denied_stop, failed, handle_waiting_step,
}
use era_ai.Workflow.Waiting.Keeps.{handle_waiting_step-Calm}
use era_ai.Workflow.Engine.{
  Round, over, again, step_at, refresh_failed, reconcile, after_wait, on_reconciled, claim_batch,
  run_batch, run_claimed, execute_parallel_batch,
}
use era_ai.Workflow.Engine.Ready.{Above, AllPending}

abbrev pub Ends : (EngineState → Type 0) → Round → Type 0
Ends P (over s) = P s
Ends P (again s) = P s

abbrev pub IfSome : (EngineState → Type 0) → Option EngineState → Type 0
IfSome P none = Unit
IfSome P (some s) = P s

module _ (sv : Services) (ctx : ExecutionContext) (w : Since) where
  pub after_wait-Calm :
      (i : ℕ) (o : WaitOutcome) (rest : Bool → EngineState → Option Bool × EngineState)
      (changed : Bool) (s : EngineState)
      → ((c : Bool) (t : EngineState) → Calm i t (rest c t).1)
      → Calm i s (after_wait sv ctx o rest changed s).1
  unfolding after_wait
  after_wait-Calm i next rest changed s h = h true s
  after_wait-Calm i denied_skip rest changed s h = h true s
  after_wait-Calm i still_waiting rest changed s h = h changed s
  after_wait-Calm i failed rest changed s h = Calm-refl i s
  after_wait-Calm i denied_stop rest changed s h = Calm-refl i s

  pub reconcile-Calm :
      (i : ℕ) (rs : List StepRow) (changed : Bool) (s : EngineState)
      → Calm i s (reconcile sv ctx rs changed s).1
  unfolding reconcile
  reconcile-Calm i [] changed s = Calm-refl i s
  reconcile-Calm i (r ∷ rs) changed s =
      Calm-trans i s (handle_waiting_step sv ctx r s).1 _ (handle_waiting_step-Calm sv ctx i r s) (
        after_wait-Calm i (handle_waiting_step sv ctx r s).0 (reconcile sv ctx rs) changed
          (handle_waiting_step sv ctx r s).1 (reconcile-Calm i rs))

  pub on_reconciled-Calm :
      (i : ℕ) (s : EngineState) (p : Option Bool × EngineState)
      → Calm i s p.1
      → Ends (Calm i s) (on_reconciled sv ctx p)
  unfolding on_reconciled set_run
  on_reconciled-Calm i s (none, t) c = c
  on_reconciled-Calm i s (some true, t) c = c
  on_reconciled-Calm i s (some false, t) c = record {
    who = c.who;
    later = c.later;
    back = c.back;
    same = c.same;
  }

  pub claim_batch-Calm :
      (i : ℕ) (is : List ℕ) (s : EngineState)
      → (identity (claim_batch sv ctx is s).1 ≡ identity s)
        × (s.ticks ≤ (claim_batch sv ctx is s).1.ticks)
        × ((claim_batch sv ctx is s).1.rows ≡ s.rows)
        × ((claim_batch sv ctx is s).1.sent ≡ s.sent)
  unfolding claim_batch ticked
  claim_batch-Calm i [] s = (refl, omega arith, refl, refl)
  claim_batch-Calm i (j ∷ js) s = elim (Option-cases (sv.claim_step_budget s.ticks)) [
    | inl q ↦
        let (who, later, rows, sent) = claim_batch-Calm i js (ticked s) in
        rw (q, claim_batch) (who, omega (arith, later), rows, sent)
    | inr (m, q) ↦ rw (q, claim_batch) (refl, omega arith, refl, refl)
  ]

  still_pending :
      (d : WorkflowStep) (i n : ℕ) (is : List ℕ) (s : EngineState)
      → Above n is
      → i < n
      → AllPending s.rows is
      → AllPending (execute_step sv ctx d i s).rows is
  still_pending d i n [] s a l p = tt
  still_pending d i n (j ∷ js) s a l p = (
    execute_step-other sv ctx i j d s (ground (arith, a.0, l)) ∙ p.0,
    still_pending d i (suc j) js s a.1 (omega (arith, l, a.0)) p.1,
  )

  pub run_batch-OnceAt :
      (i : ℕ) (d : WorkflowDefinition) (is : List ℕ) (n : ℕ) (s : EngineState)
      → Above n is
      → AllPending s.rows is
      → OnceAt w i s
      → OnceAt w i (run_batch sv ctx d is s)
  unfolding run_batch set_current
  run_batch-OnceAt i d [] n s a p o = o
  run_batch-OnceAt i d (j ∷ js) n s a p o = elim (Option-cases (step_at j d.steps)) [
    | inl q ↦ rw (q, run_batch) (run_batch-OnceAt i d js (suc j) s a.1 p.1 o)
    | inr (step, q) ↦
        let here = set_current j s in
        rw (q, run_batch)
          (run_batch-OnceAt i d js (suc j) (execute_step sv ctx step j here) a.1
            (still_pending step j (suc j) js here a.1 (omega arith) p.1)
            (execute_step-OnceAt sv ctx w j i step here p.0
              record { is_run = o.is_run; later = o.later; once = o.once; none_yet = o.none_yet }))
  ]

  pub same-OnceAt :
      (i : ℕ) (s t : EngineState)
      → identity t ≡ identity s
      → s.ticks ≤ t.ticks
      → (t.rows ≡ s.rows) × (t.sent ≡ s.sent)
      → OnceAt w i s
      → OnceAt w i t
  same-OnceAt i s t same l (r, e) o = record {
    is_run = same ∙ o.is_run;
    later = omega (arith, l, o.later);
    once = subst (λ xs. sent_count i xs ≤ 1) (sym e) o.once;
    none_yet = λ h. ap (sent_count i) e ∙ o.none_yet (subst (λ rows. pending_at i rows ≡ true) r h);
  }

  pub set_run-OnceAt :
      (i : ℕ) (status : RunStatus) (error : Option Message) (s : EngineState)
      → OnceAt w i s
      → OnceAt w i (set_run status error s)
  unfolding set_run
  set_run-OnceAt i status error s o = same-OnceAt i s _ refl (omega arith) (refl, refl) o

  pub release-OnceAt : (i : ℕ) (s : EngineState) → OnceAt w i s → OnceAt w i (release_governance s)
  unfolding release_governance
  release-OnceAt i s o = same-OnceAt i s _ refl (omega arith) (refl, refl) o

  pub set_run_failed-OnceAt :
      (i : ℕ) (m : Message) (s : EngineState) → OnceAt w i s → OnceAt w i (set_run_failed m s)
  unfolding set_run_failed
  set_run_failed-OnceAt i m s o =
      release-OnceAt i _ (set_run-OnceAt i RunStatus.failed (some m) s o)

  pub refresh_failed-OnceAt :
      (i : ℕ) (r : Option StepRow) (s : EngineState)
      → OnceAt w i s
      → IfSome (OnceAt w i) (refresh_failed r s)
  unfolding refresh_failed
  refresh_failed-OnceAt i none s o = tt
  refresh_failed-OnceAt i (some r) s o =
      elim (Bool-cases (any (λ (q : StepRow). is_pending q.status) s.rows)) [
        | inl q ↦ rw q tt
        | inr q ↦ rw q (release-OnceAt i _ (set_run-OnceAt i _ _ s o))
      ]

  pub run_claimed-OnceAt :
      (i : ℕ) (d : WorkflowDefinition) (is : List ℕ) (p : Option String × EngineState)
      → Above 0 is
      → AllPending p.1.rows is
      → OnceAt w i p.1
      → OnceAt w i (run_claimed sv ctx d is p)
  unfolding run_claimed set_run_budget_failed
  run_claimed-OnceAt i d is (none, s) a h o = run_batch-OnceAt i d is 0 s a h o
  run_claimed-OnceAt i d is (some m, s) a h o = same-OnceAt i s _ refl (omega arith) (refl, refl) o

  pub execute_parallel_batch-OnceAt :
      (i : ℕ) (d : WorkflowDefinition) (is : List ℕ) (s : EngineState)
      → Above 0 is
      → AllPending s.rows is
      → OnceAt w i s
      → OnceAt w i (execute_parallel_batch sv ctx d is s)
  unfolding execute_parallel_batch
  execute_parallel_batch-OnceAt i d is s a h o =
      let claimed = claim_batch-Calm i is s in
      run_claimed-OnceAt i d is (claim_batch sv ctx is s) a
        (subst (λ rows. AllPending rows is) (sym claimed.2) h)
        (same-OnceAt i s (claim_batch sv ctx is s).1 claimed.0 claimed.1 (claimed.2, claimed.3) o)
