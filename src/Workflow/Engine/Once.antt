-- ===== src/Workflow/Engine/Once.antt =====
-- Exactly once: whatever the services answer, the action of a step is requested at most once.
use era_ai.Prelude.{
  ℕ, zero, suc, ◌≡◌, refl, true, false, Option, none, some, List, [], ◌∷◌, any, ltb, str_eq,
  Bool-cases, Option-cases, inl, inr, arith,
}
use era_ai.Gate.Records.{ExecutionContext}
use era_ai.Workflow.Definition.{WorkflowStep, WorkflowDefinition}
use era_ai.Workflow.Run.{
  RunStatus, StepStatus, StepRow, EngineState, Services, set_run, set_run_failed, set_current,
  ticked,
}
use era_ai.Workflow.Run.Rows.{Since, pending_at, Calm, rows-Kept, OnceAt, Calm-OnceAt}
use era_ai.Workflow.Step.Keeps.{execute_step-OnceAt}
use era_ai.Workflow.Engine.{
  Round, over, again, ready_from, ready_indices, step_at, refresh_run_status, refreshed, classify,
  none_ready, classify_as, or_again, first_failed, is_ambiguous, all_settled, skip_conditional,
  reconcile, waiting_rows, execute_and_classify, execute_single, execute_chosen, on_ready,
  on_settled, on_waiting, round, then_round, rounds, condition_fails, with_definition, advance,
}
use era_ai.Workflow.Engine.Ready.{
  Above, AllPending, choose_from-ready, ready_from-Above, ready_from-pending,
}
use era_ai.Workflow.Engine.Batch.{
  Ends, IfSome, reconcile-Calm, on_reconciled-Calm, same-OnceAt, set_run-OnceAt, release-OnceAt,
  set_run_failed-OnceAt, refresh_failed-OnceAt, execute_parallel_batch-OnceAt,
}

module _ (sv : Services) (ctx : ExecutionContext) (w : Since) where
  -- The state in which `_refresh_run_status` settles a run.
  refresh-OnceAt :
      (i : ℕ) (s : EngineState) → OnceAt w i s → IfSome (OnceAt w i) (refresh_run_status s)
  unfolding refresh_run_status
  refresh-OnceAt i s o = elim (Bool-cases (any (λ (r : StepRow). is_ambiguous r.status) s.rows)) [
    | inl q ↦ rw q (set_run-OnceAt sv ctx w i _ _ s o)
    | inr q ↦ rw q (refresh_failed-OnceAt sv ctx w i (first_failed s.rows) s o)
  ]

  or_again-OnceAt :
      (i : ℕ) (s : EngineState) (settled : Option EngineState)
      → OnceAt w i s
      → IfSome (OnceAt w i) settled
      → Ends (OnceAt w i) (or_again s settled)
  unfolding or_again
  or_again-OnceAt i s none o h = o
  or_again-OnceAt i s (some t) o h = h

  refreshed-OnceAt : (i : ℕ) (s : EngineState) → OnceAt w i s → Ends (OnceAt w i) (refreshed s)
  unfolding refreshed
  refreshed-OnceAt i s o = or_again-OnceAt i s (refresh_run_status s) o (refresh-OnceAt i s o)

  classify_as-OnceAt :
      (i : ℕ) (status : StepStatus) (r : StepRow) (s : EngineState)
      → OnceAt w i s
      → Ends (OnceAt w i) (classify_as status r s)
  unfolding classify_as set_current
  classify_as-OnceAt i StepStatus.completed r s o =
      same-OnceAt sv ctx w i s _ refl (omega arith) (refl, refl) o
  classify_as-OnceAt i StepStatus.skipped r s o =
      same-OnceAt sv ctx w i s _ refl (omega arith) (refl, refl) o
  classify_as-OnceAt i StepStatus.skipped_conditional r s o =
      same-OnceAt sv ctx w i s _ refl (omega arith) (refl, refl) o
  classify_as-OnceAt i StepStatus.waiting r s o =
      same-OnceAt sv ctx w i s _ refl (omega arith) (refl, refl) o
  classify_as-OnceAt i StepStatus.ambiguous r s o = set_run-OnceAt sv ctx w i _ _ s o
  classify_as-OnceAt i other r s o = release-OnceAt sv ctx w i _ (set_run-OnceAt sv ctx w i _ _ s o)

  classify-OnceAt :
      (i : ℕ) (r : Option StepRow) (s : EngineState)
      → OnceAt w i s
      → Ends (OnceAt w i) (classify r s)
  unfolding classify
  classify-OnceAt i none s o = o
  classify-OnceAt i (some r) s o = classify_as-OnceAt i r.status r s o

  none_ready-OnceAt :
      (i : ℕ) (d : WorkflowDefinition) (s : EngineState)
      → OnceAt w i s
      → Ends (OnceAt w i) (none_ready d s)
  unfolding none_ready set_current
  none_ready-OnceAt i d s o = elim (Bool-cases (all_settled 0 d.steps s.rows)) [
    | inl q ↦
        rw q (
          release-OnceAt sv ctx w i _
            (same-OnceAt sv ctx w i s _ refl (omega arith) (refl, refl) o))
    | inr q ↦ rw q o
  ]

  skip_conditional-OnceAt :
      (idx i : ℕ) (s : EngineState) → OnceAt w i s → OnceAt w i (skip_conditional idx s)
  unfolding skip_conditional
  skip_conditional-OnceAt idx i s o =
      Calm-OnceAt w i s _
        (rows-Kept idx i _ s
          record { index = λ r. ground arith; settles = λ r k. ground (arith, k) }).calm
        o

  execute_and_classify-OnceAt :
      (i idx : ℕ) (step : WorkflowStep) (s : EngineState)
      → pending_at idx s.rows ≡ true
      → OnceAt w i s
      → Ends (OnceAt w i) (execute_and_classify sv ctx step idx s)
  unfolding execute_and_classify
  execute_and_classify-OnceAt i idx step s h o =
      classify-OnceAt i _ _ (execute_step-OnceAt sv ctx w idx i step s h o)

  execute_single-OnceAt :
      (i : ℕ) (d : WorkflowDefinition) (idx : ℕ) (step : WorkflowStep) (s : EngineState)
      → pending_at idx s.rows ≡ true
      → OnceAt w i s
      → Ends (OnceAt w i) (execute_single sv ctx d idx step s)
  unfolding execute_single set_run_failed set_run set_current
  execute_single-OnceAt i d idx step s h o =
      let started = set_run RunStatus.running s.run.error (set_current idx s) in
      let ready : OnceAt w i started =
        same-OnceAt sv ctx w i s started refl (omega arith) (refl, refl) o in
      elim (Bool-cases (sv.domain_allowed step.action)) [
        | inl q ↦ rw q (elim (Bool-cases (condition_fails sv ctx d step.condition started)) [
          | inl w ↦ rw w (skip_conditional-OnceAt idx i started ready)
          | inr w ↦ rw w (execute_and_classify-OnceAt i idx step started h ready)
        ])
        | inr q ↦ rw q (same-OnceAt sv ctx w i s _ refl (omega arith) (refl, refl) o)
      ]

  execute_chosen-OnceAt :
      (i : ℕ) (d : WorkflowDefinition) (is : List ℕ) (s : EngineState)
      → Above 0 is
      → AllPending s.rows is
      → OnceAt w i s
      → Ends (OnceAt w i) (execute_chosen sv ctx d is s)
  unfolding execute_chosen
  execute_chosen-OnceAt i d [] s a h o = o
  execute_chosen-OnceAt i d (j ∷ []) s a h o = elim (Option-cases (step_at j d.steps)) [
    | inl q ↦ rw (q, execute_chosen) o
    | inr (step, q) ↦ rw (q, execute_chosen) (execute_single-OnceAt i d j step s h.0 o)
  ]
  execute_chosen-OnceAt i d (j ∷ k ∷ is) s a h o =
      refreshed-OnceAt i _ (execute_parallel_batch-OnceAt sv ctx w i d (j ∷ k ∷ is) s a h o)

  on_ready-OnceAt :
      (i : ℕ) (d : WorkflowDefinition) (is : List ℕ) (s : EngineState)
      → Above 0 is
      → AllPending s.rows is
      → OnceAt w i s
      → Ends (OnceAt w i) (on_ready sv ctx d is s)
  unfolding on_ready
  on_ready-OnceAt i d [] s a h o = none_ready-OnceAt i d s o
  on_ready-OnceAt i d (j ∷ is) s a h o =
      let (increasing, pending) =
        choose_from-ready (λ k. pending_at k s.rows ≡ true) sv.max_pending_confirmations d
          d.parallel j is a h in
      execute_chosen-OnceAt i d _ s increasing pending o

  on_settled-OnceAt :
      (i : ℕ) (d : WorkflowDefinition) (settled : Option EngineState) (s : EngineState)
      → IfSome (OnceAt w i) settled
      → OnceAt w i s
      → Ends (OnceAt w i) (on_settled sv ctx d settled s)
  unfolding on_settled ready_indices
  on_settled-OnceAt i d (some t) s h o = h
  on_settled-OnceAt i d none s h o =
      on_ready-OnceAt i d (ready_from d s.rows 0 d.steps) s (ready_from-Above d s.rows 0 d.steps)
        (ready_from-pending d s.rows 0 d.steps) o

  Calm-Ends :
      (i : ℕ) (s : EngineState) (r : Round) → Ends (Calm i s) r → OnceAt w i s → Ends (OnceAt w i) r
  Calm-Ends i s (over t) c o = Calm-OnceAt w i s t c o
  Calm-Ends i s (again t) c o = Calm-OnceAt w i s t c o

  on_waiting-OnceAt :
      (i : ℕ) (d : WorkflowDefinition) (waiting : List StepRow) (s : EngineState)
      → OnceAt w i s
      → Ends (OnceAt w i) (on_waiting sv ctx d waiting s)
  unfolding on_waiting
  on_waiting-OnceAt i d [] s o =
      on_settled-OnceAt i d (refresh_run_status s) s (refresh-OnceAt i s o) o
  on_waiting-OnceAt i d (r ∷ rs) s o =
      Calm-Ends i s _
        (on_reconciled-Calm sv ctx w i s (reconcile sv ctx (r ∷ rs) false s)
          (reconcile-Calm sv ctx w i (r ∷ rs) false s))
        o

  -- A round, with its own reading of the clock
  pub round-OnceAt :
      (i : ℕ) (d : WorkflowDefinition) (deadline : ℕ) (s : EngineState)
      → OnceAt w i (ticked s)
      → Ends (OnceAt w i) (round sv ctx d deadline s)
  unfolding round
  round-OnceAt i d deadline s o = elim (Bool-cases (ltb deadline (sv.monotonic s.ticks))) [
    | inl q ↦ rw q (set_run_failed-OnceAt sv ctx w i _ (ticked s) o)
    | inr q ↦ rw q (on_waiting-OnceAt i d (waiting_rows sv ctx s.rows) (ticked s) o)
  ]

  ticked-OnceAt : (i : ℕ) (s : EngineState) → OnceAt w i s → OnceAt w i (ticked s)
  unfolding ticked
  ticked-OnceAt i s o = same-OnceAt sv ctx w i s (ticked s) refl (omega arith) (refl, refl) o

  then_round-OnceAt :
      (i : ℕ) (r : Round) (rest : EngineState → Option EngineState)
      → Ends (OnceAt w i) r
      → ((t : EngineState) → OnceAt w i t → IfSome (OnceAt w i) (rest t))
      → IfSome (OnceAt w i) (then_round sv ctx r rest)
  unfolding then_round
  then_round-OnceAt i (over t) rest h k = h
  then_round-OnceAt i (again t) rest h k = k t h

  rounds-OnceAt :
      (i : ℕ) (d : WorkflowDefinition) (deadline fuel : ℕ) (s : EngineState)
      → OnceAt w i s
      → IfSome (OnceAt w i) (rounds sv ctx d deadline fuel s)
  unfolding rounds
  rounds-OnceAt i d deadline zero s o = tt
  rounds-OnceAt i d deadline (suc fuel) s o =
      then_round-OnceAt i (round sv ctx d deadline s) (rounds sv ctx d deadline fuel)
        (round-OnceAt i d deadline s (ticked-OnceAt i s o)) (rounds-OnceAt i d deadline fuel)

  with_definition-OnceAt :
      (i : ℕ) (d : Option WorkflowDefinition) (fuel : ℕ) (s : EngineState)
      → OnceAt w i s
      → IfSome (OnceAt w i) (with_definition sv ctx d fuel s)
  unfolding with_definition ticked
  with_definition-OnceAt i none fuel s o = set_run_failed-OnceAt sv ctx w i _ s o
  with_definition-OnceAt i (some d) fuel s o =
      elim (Bool-cases (str_eq (sv.checksum d) s.run.definition_checksum)) [
        | inl q ↦ rw q (
            rounds-OnceAt i d _ fuel (ticked s)
              (same-OnceAt sv ctx w i s _ refl (omega arith) (refl, refl) o))
        | inr q ↦ rw q (set_run_failed-OnceAt sv ctx w i _ s o)
      ]

  pub advance-OnceAt :
      (i fuel : ℕ) (s : EngineState) → OnceAt w i s → IfSome (OnceAt w i) (advance sv ctx fuel s)
  unfolding advance
  advance-OnceAt i fuel s o = with_definition-OnceAt i (sv.definition_for_run s.run) fuel s o
