-- ===== src/Workflow/Waiting/Keeps.antt =====
-- A waiting step is settled or left: nothing becomes pending, and no step's action is sent.
use era_ai.Prelude.{
  ℕ, String, refl, Bool, true, false, Option, none, some, Bool-cases, inl, inr, str_eq, arith,
}
use era_ai.Prelude.Results.{Result, ok, err}
use era_ai.Core.Enums.{Outcome}
use era_ai.Value.{Fields}
use era_ai.Gate.Records.{ExecutionContext, ConfirmationStatus}
use era_ai.Workflow.Definition.{DefinitionError, WorkflowExpect, WorkflowStep}
use era_ai.Workflow.Run.{
  Message, dispatch_outcome, StepRow, EngineState, Services, set_run_failed, ticked,
}
use era_ai.Workflow.Run.Rows.{Calm, Calm-refl, Calm-trans, rows-Kept}
use era_ai.Workflow.Step.{inspect_action}
use era_ai.Workflow.Step.Keeps.{send-none-Calm}
use era_ai.Workflow.Waiting.{
  revalidate_expect, expect_of, revalidate_step, revalidate_post_condition, complete_waiting,
  skip_waiting, after_revalidation, on_used, on_outcome, on_denied_confirmation, denied_step, on_id,
  step_def_for, on_confirmation, no_confirmation, handle_waiting_step,
}

module _ (sv : Services) (ctx : ExecutionContext) where
  revalidate-Calm :
      (i : ℕ) (d : WorkflowStep) (r : Result DefinitionError Fields) (s : EngineState)
      → Calm i s (revalidate_expect sv ctx d r s).1
  unfolding revalidate_expect
  revalidate-Calm i d (err e) s = Calm-refl i s
  revalidate-Calm i d (ok expect) s = send-none-Calm sv ctx i inspect_action s

  expect_of-Calm :
      (i : ℕ) (d : WorkflowStep) (e : Option WorkflowExpect) (s : EngineState)
      → Calm i s (expect_of sv ctx d e s).1
  unfolding expect_of
  expect_of-Calm i d none s = Calm-refl i s
  expect_of-Calm i d (some e) s = revalidate-Calm i d _ s

  revalidate_step-Calm :
      (i : ℕ) (d : Option WorkflowStep) (s : EngineState) → Calm i s (revalidate_step sv ctx d s).1
  unfolding revalidate_step
  revalidate_step-Calm i none s = Calm-refl i s
  revalidate_step-Calm i (some d) s = expect_of-Calm i d d.expect s

  revalidate_post_condition-Calm :
      (i idx : ℕ) (s : EngineState) → Calm i s (revalidate_post_condition sv ctx idx s).1
  unfolding revalidate_post_condition
  revalidate_post_condition-Calm i idx s = revalidate_step-Calm i (step_def_for sv ctx s.run idx) s

  complete_waiting-Calm :
      (i idx : ℕ) (cid : String) (s : EngineState) → Calm i s (complete_waiting sv ctx idx cid s)
  unfolding complete_waiting
  complete_waiting-Calm i idx cid s =
      (rows-Kept idx i _ s record { index = λ r. refl; settles = λ r k. ground (arith, k) }).calm

  skip_waiting-Calm : (i idx : ℕ) (s : EngineState) → Calm i s (skip_waiting sv ctx idx s)
  unfolding skip_waiting
  skip_waiting-Calm i idx s =
      (rows-Kept idx i _ s record { index = λ r. refl; settles = λ r k. ground (arith, k) }).calm

  failed-Calm : (i : ℕ) (m : Message) (s : EngineState) → Calm i s (set_run_failed m s)
  unfolding set_run_failed
  failed-Calm i m s = record { who = refl; later = omega arith; back = λ h. h; same = refl }

  after_revalidation-Calm :
      (i idx : ℕ) (cid : String) (p : Bool × EngineState)
      → Calm i p.1 (after_revalidation sv ctx idx cid p).1
  unfolding after_revalidation
  after_revalidation-Calm i idx cid (true, s) = complete_waiting-Calm i idx cid s
  after_revalidation-Calm i idx cid (false, s) = failed-Calm i _ s

  on_outcome-Calm :
      (i : ℕ) (o : Option Outcome) (idx : ℕ) (cid : String) (s : EngineState)
      → Calm i s (on_outcome sv ctx o idx cid s).1
  unfolding on_outcome
  on_outcome-Calm i none idx cid s = failed-Calm i _ s
  on_outcome-Calm i (some Outcome.executed) idx cid s =
      Calm-trans i s (revalidate_post_condition sv ctx idx s).1 _
        (revalidate_post_condition-Calm i idx s)
        (after_revalidation-Calm i idx cid (revalidate_post_condition sv ctx idx s))
  on_outcome-Calm i (some o) idx cid s = failed-Calm i (dispatch_outcome o) s

  denied_step-Calm :
      (i : ℕ) (d : Option WorkflowStep) (idx : ℕ) (s : EngineState)
      → Calm i s (denied_step sv ctx d idx s).1
  unfolding denied_step
  denied_step-Calm i none idx s = Calm-refl i s
  denied_step-Calm i (some d) idx s = elim (Bool-cases (str_eq d.on_denied "skip")) [
    | inl q ↦ rw q (skip_waiting-Calm i idx s)
    | inr q ↦ rw q (Calm-refl i s)
  ]

  ticked-Calm : (i : ℕ) (s t : EngineState) → Calm i (ticked s) t → Calm i s t
  unfolding ticked
  ticked-Calm i s t c = record {
    who = c.who;
    later = omega (arith, c.later);
    back = c.back;
    same = c.same;
  }

  on_confirmation-Calm :
      (i idx : ℕ) (cid : String) (c : Option ConfirmationStatus) (s : EngineState)
      → Calm i s (on_confirmation sv ctx idx cid c s).1
  unfolding on_confirmation on_denied_confirmation on_used
  on_confirmation-Calm i idx cid none s = failed-Calm i _ s
  on_confirmation-Calm i idx cid (some ConfirmationStatus.pending) s = Calm-refl i s
  on_confirmation-Calm i idx cid (some ConfirmationStatus.used) s =
      ticked-Calm i s _ (on_outcome-Calm i _ idx cid (ticked s))
  on_confirmation-Calm i idx cid (some ConfirmationStatus.denied) s =
      denied_step-Calm i (step_def_for sv ctx s.run idx) idx s
  on_confirmation-Calm i idx cid (some ConfirmationStatus.expired) s = failed-Calm i _ s

  on_id-Calm :
      (i : ℕ) (cid : Option String) (idx : ℕ) (s : EngineState)
      → Calm i s (on_id sv ctx cid idx s).1
  unfolding on_id no_confirmation
  on_id-Calm i none idx s = failed-Calm i _ s
  on_id-Calm i (some cid) idx s = elim (Bool-cases (str_eq cid "")) [
    | inl q ↦ rw q (failed-Calm i _ s)
    | inr q ↦ rw q (ticked-Calm i s _ (on_confirmation-Calm i idx cid _ (ticked s)))
  ]

  pub handle_waiting_step-Calm :
      (i : ℕ) (row : StepRow) (s : EngineState) → Calm i s (handle_waiting_step sv ctx row s).1
  unfolding handle_waiting_step
  handle_waiting_step-Calm i row s = on_id-Calm i row.confirmation_id row.step_index s
