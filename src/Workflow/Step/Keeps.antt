-- ===== src/Workflow/Step/Keeps.antt =====
-- A step sends its action once at most, and only its own.
use era_ai.Prelude.{
  ℕ, ◌+◌, ◌≤◌, String, ◌≡◌, refl, sym, ap, ◌∙◌, subst, true, false, Option, none, some, List, [],
  ◌∷◌, ◌++◌, ◌==◌, ==_iff, Bool-cases, Option-cases, inl, inr, str_eq, if◌then◌else◌, arith,
}
use era_ai.Prelude.Results.{Result, ok, err}
use era_ai.Core.Result.{ErrorCode}
use era_ai.Value.{Fields}
use era_ai.Permission.Catalog.{Action}
use era_ai.Gate.Records.{ExecutionContext, ExecutionStatus, ExecutionResponse}
use era_ai.Workflow.Definition.{WorkflowStep}
use era_ai.Workflow.Render.{strict, render_workflow_params}
use era_ai.Workflow.Run.{
  StepStatus, StepError, text, StepRow, EngineState, Services, row_at, mark_step,
  set_run_budget_failed, ticked,
}
use era_ai.Workflow.Run.Rows.{
  pending_at, Since, identity, sent_count, sent_count-append, rows-Kept, mark_step-Kept, Calm, Kept,
  Kept-trans, OnceAt, pending-other, pending-row, update-own, row_at-append, row_at-append_some,
  pending-cong,
}
use era_ai.Workflow.Step.{
  send, with_target, then_expect, send_rendered, dispatch, dispatch_rendered, on_claim, conclude,
  conclude_as, wait_for, fail_as, settle_step, inspect_action, from_definition, or_provider_error,
  begin_step, with_row, execute_step,
}

module _ (sv : Services) (ctx : ExecutionContext) where
  -- An inspection is no step's action.
  pub send-none-Calm :
      (i : ℕ) (action : Action) (s : EngineState) → Calm i s (send sv ctx none action s).1
  unfolding send
  send-none-Calm i action s = record {
    who = refl;
    later = omega arith;
    back = λ h. h;
    same =
        ground (arith, sent_count-append i s.sent (record { step = none; action = action } ∷ []));
  }

  -- What `dispatch` leaves: the rows, and for every other step what was sent.
  record Dispatched (i idx : ℕ) (s t : EngineState) : Type 0 where
    who : identity t ≡ identity s
    later : s.ticks ≤ t.ticks
    rows : t.rows ≡ s.rows
    sent : sent_count i t.sent ≤ sent_count i s.sent + (if idx == i then 1 else 0)
    kept : sent_count i s.sent ≤ sent_count i t.sent

  Dispatched-refl : (i idx : ℕ) (s : EngineState) → Dispatched i idx s s
  Dispatched-refl i idx s = record {
    who = refl;
    later = omega arith;
    rows = refl;
    sent = ground arith;
    kept = omega arith;
  }

  Dispatched-after :
      (i idx : ℕ) (s t u : EngineState)
      → identity t ≡ identity s
      → s.ticks ≤ t.ticks
      → t.rows ≡ s.rows
      → sent_count i t.sent ≡ sent_count i s.sent
      → Dispatched i idx t u
      → Dispatched i idx s u
  Dispatched-after i idx s t u w l r e d = record {
    who = d.who ∙ w;
    later = omega (arith, l, d.later);
    rows = d.rows ∙ r;
    sent = ground (arith, d.sent, e);
    kept = omega (arith, d.kept, e);
  }

  with_target-quiet :
      (i : ℕ) (d : WorkflowStep) (rendered : Fields) (s : EngineState)
      → (identity (with_target sv ctx d rendered s).1 ≡ identity s)
        × (s.ticks ≤ (with_target sv ctx d rendered s).1.ticks)
        × ((with_target sv ctx d rendered s).1.rows ≡ s.rows)
        × (sent_count i (with_target sv ctx d rendered s).1.sent ≡ sent_count i s.sent)
  unfolding with_target send
  with_target-quiet i d rendered s = elim (Option-cases d.target) [
    | inl q ↦ rw q (refl, omega arith, refl, refl)
    | inr (t, q) ↦ rw q (refl, omega arith, refl, (send-none-Calm i inspect_action s).same)
  ]

  send_rendered-Dispatched :
      (i idx : ℕ) (d : WorkflowStep) (p : Result StepError Fields × EngineState)
      → Dispatched i idx p.1 (send_rendered sv ctx d idx p).1
  unfolding send_rendered send
  send_rendered-Dispatched i idx d (err e, s) = Dispatched-refl i idx s
  send_rendered-Dispatched i idx d (ok f, s) =
      let appended =
        sent_count-append i s.sent (
          record { step = some idx; action = record { action_type = d.action; params = f } }
          ∷ []) in
      record {
        who = refl;
        later = omega arith;
        rows = refl;
        sent = ground (arith, appended);
        kept = ground (arith, appended);
      }

  then_expect-quiet :
      (d : WorkflowStep) (params : Fields) (p : Result StepError Fields × EngineState)
      → (then_expect sv ctx d params p).1 ≡ p.1
  unfolding then_expect
  then_expect-quiet d params p = refl

  dispatch-Dispatched :
      (i idx : ℕ) (d : WorkflowStep) (r : Result StepError Fields) (s : EngineState)
      → Dispatched i idx s (dispatch_rendered sv ctx d idx r s).1
  unfolding dispatch_rendered then_expect
  dispatch-Dispatched i idx d (err e) s = Dispatched-refl i idx s
  dispatch-Dispatched i idx d (ok rendered) s =
      let quiet = with_target-quiet i d rendered s in
      Dispatched-after i idx s (with_target sv ctx d rendered s).1
        (send_rendered sv ctx d idx
          (then_expect sv ctx d s.run.run_params (with_target sv ctx d rendered s))).1
        quiet.0 quiet.1 quiet.2 quiet.3
        (send_rendered-Dispatched i idx d
          (then_expect sv ctx d s.run.run_params (with_target sv ctx d rendered s)))

  wait_for-Kept :
      (idx i : ℕ) (confirmation : Option String) (s : EngineState)
      → Kept idx i s (wait_for sv ctx idx confirmation s)
  unfolding wait_for
  wait_for-Kept idx i confirmation s =
      rows-Kept idx i _ s record { index = λ r. refl; settles = λ r k. ground (arith, k) }

  fail_as-Kept :
      (idx i : ℕ) (code : ErrorCode) (r : ExecutionResponse) (s : EngineState)
      → Kept idx i s (fail_as sv ctx code idx r s)
  unfolding fail_as
  fail_as-Kept idx i ErrorCode.side_effect_unknown r s = mark_step-Kept idx i _ none _ _ s refl
  fail_as-Kept idx i code r s = mark_step-Kept idx i _ none _ _ s refl

  conclude-Kept :
      (idx i : ℕ) (status : ExecutionStatus) (d : WorkflowStep) (r : ExecutionResponse)
      (s : EngineState)
      → Kept idx i s (conclude_as sv ctx status d idx r s)
  unfolding conclude_as
  conclude-Kept idx i ExecutionStatus.executed d r s = mark_step-Kept idx i _ _ none none s refl
  conclude-Kept idx i ExecutionStatus.confirmation_required d r s =
      wait_for-Kept idx i r.confirmation_id s
  conclude-Kept idx i ExecutionStatus.denied d r s = elim (Bool-cases (str_eq d.on_denied "skip")) [
    | inl q ↦ rw q (mark_step-Kept idx i StepStatus.skipped none none _ s refl)
    | inr q ↦ rw q (mark_step-Kept idx i StepStatus.failed none none _ s refl)
  ]
  conclude-Kept idx i other d r s = fail_as-Kept idx i (or_provider_error sv ctx r.error_code) r s

  settle_step-Kept :
      (idx i : ℕ) (d : WorkflowStep) (p : Result StepError ExecutionResponse × EngineState)
      → Kept idx i p.1 (settle_step sv ctx d idx p)
  unfolding settle_step conclude
  settle_step-Kept idx i d (ok r, s) = conclude-Kept idx i r.status d r s
  settle_step-Kept idx i d (err e, s) = mark_step-Kept idx i StepStatus.failed none _ _ s refl

  with_row-pending :
      (i : ℕ) (fresh : StepRow) (rows : List StepRow)
      → (fresh.step_index == i) ≡ false
      → pending_at i (with_row sv ctx fresh (row_at fresh.step_index rows) rows) ≡ pending_at i rows
  unfolding with_row
  with_row-pending i fresh rows h = elim (Option-cases (row_at fresh.step_index rows)) [
    | inl q ↦
        rw (q, with_row)
          (pending-cong i (rows ++ fresh ∷ []) rows (elim (Option-cases (row_at i rows)) [
            | inl p ↦ row_at-append i rows fresh p ∙ rw h (sym p)
            | inr (r, p) ↦ row_at-append_some i rows fresh r p ∙ sym p
          ]))
    | inr (r, q) ↦ rw (q, with_row) refl
  ]

  with_row-found :
      (fresh : StepRow) (rows : List StepRow)
      → (r : StepRow) × (row_at fresh.step_index
            (with_row sv ctx fresh (row_at fresh.step_index rows) rows)
          ≡ some r)
  unfolding with_row
  with_row-found fresh rows = elim (Option-cases (row_at fresh.step_index rows)) [
    | inl q ↦ (
      fresh,
      rw q (
          row_at-append fresh.step_index rows fresh q
          ∙ rw ((==_iff fresh.step_index fresh.step_index).1 refl) refl),
    )
    | inr (r, q) ↦ (r, rw (q, with_row) q)
  ]

  -- The row of a step that begins is running, and no other changes.
  begin_step-own :
      (d : WorkflowStep) (idx : ℕ) (s : EngineState)
      → pending_at idx (begin_step sv ctx d idx s).rows ≡ false
  unfolding begin_step
  begin_step-own d idx s =
      let (r, q) = with_row-found _ s.rows in
      pending-row idx _ _ (update-own _ idx _ r (λ q. refl) q)

  begin_step-Kept :
      (idx i : ℕ) (d : WorkflowStep) (s : EngineState)
      → ((idx == i) ≡ false → pending_at i (begin_step sv ctx d idx s).rows ≡ pending_at i s.rows)
        × (sent_count i (begin_step sv ctx d idx s).sent ≡ sent_count i s.sent)
        × (identity (begin_step sv ctx d idx s) ≡ identity s)
        × ((begin_step sv ctx d idx s).ticks ≡ s.ticks)
  unfolding begin_step
  begin_step-Kept idx i d s =
      (λ h. pending-other _ idx i _ (λ r. refl) h ∙ with_row-pending i _ s.rows h, refl, refl, refl)

  refused-Kept :
      (idx i : ℕ) (refusal : String) (s : EngineState)
      → Kept idx i s (
          mark_step idx StepStatus.failed none
            (some "BUDGET_EXCEEDED")
            (some (text refusal))
            (set_run_budget_failed (text refusal) s))
  unfolding set_run_budget_failed
  refused-Kept idx i refusal s =
      Kept-trans idx i s (set_run_budget_failed (text refusal) s) _
        record {
          calm = record { who = refl; later = omega arith; back = λ h. h; same = refl };
          others = λ h. refl;
        }
        (mark_step-Kept idx i StepStatus.failed none (some "BUDGET_EXCEEDED") (some (text refusal))
          (set_run_budget_failed (text refusal) s) refl)

  -- What a step leaves once it has begun: its action was sent once at most.
  record Attempted (idx i : ℕ) (s t : EngineState) : Type 0 where
    who : identity t ≡ identity s
    later : s.ticks ≤ t.ticks
    back : pending_at i t.rows ≡ true → pending_at i s.rows ≡ true
    others : (idx == i) ≡ false → pending_at i t.rows ≡ pending_at i s.rows
    sent : sent_count i t.sent ≤ sent_count i s.sent + (if idx == i then 1 else 0)
    kept : sent_count i s.sent ≤ sent_count i t.sent

  on_claim-Attempted :
      (idx i : ℕ) (claim : Option String) (d : WorkflowStep) (s : EngineState)
      → Attempted idx i s (on_claim sv ctx claim d idx s)
  unfolding on_claim dispatch
  on_claim-Attempted idx i (some refusal) d s =
      let marked = refused-Kept idx i refusal s in
      record {
        who = marked.calm.who;
        later = marked.calm.later;
        back = marked.calm.back;
        others = marked.others;
        sent = ground (arith, marked.calm.same);
        kept = omega (arith, marked.calm.same);
      }
  on_claim-Attempted idx i none d s =
      let r = from_definition (render_workflow_params sv.text_of (strict s.run.run_params) d) in
      let went = dispatch-Dispatched i idx d r s in
      let p = dispatch_rendered sv ctx d idx r s in
      let ended = settle_step-Kept idx i d p in
      record {
        who = ended.calm.who ∙ went.who;
        later = omega (arith, ended.calm.later, went.later);
        back = λ h. subst (λ rows. pending_at i rows ≡ true) went.rows (ended.calm.back h);
        others = λ h. ended.others h ∙ ap (pending_at i) went.rows;
        sent = ground (arith, ended.calm.same, went.sent);
        kept = omega (arith, ended.calm.same, went.kept);
      }

  -- `_execute_step` of a pending step.
  pub execute_step-OnceAt :
      (w : Since) (idx i : ℕ) (d : WorkflowStep) (s : EngineState)
      → pending_at idx s.rows ≡ true
      → OnceAt w i s
      → OnceAt w i (execute_step sv ctx d idx s)
  unfolding execute_step ticked
  execute_step-OnceAt w idx i d s h o =
      let begun = begin_step sv ctx d idx s in
      let tried = on_claim-Attempted idx i (sv.claim_step_budget begun.ticks) d (ticked begun) in
      let (others, same, who, now) = begin_step-Kept idx i d s in
      elim (Bool-cases (idx == i)) [
        | inl e ↦
            let ours : idx ≡ i = (==_iff idx i).0 e in
            let unsent : sent_count i s.sent ≡ 0 =
              o.none_yet (subst (λ j. pending_at j s.rows ≡ true) ours h) in
            let settled : pending_at i begun.rows ≡ false =
              subst (λ j. pending_at j begun.rows ≡ false) ours (begin_step-own d idx s) in
            record {
              is_run = tried.who ∙ who ∙ o.is_run;
              later = omega (arith, tried.later, now, o.later);
              once = ground (arith, tried.sent, e, same, unsent);
              none_yet = λ k. ground (arith, tried.back k, settled);
            }
        | inr e ↦ record {
          is_run = tried.who ∙ who ∙ o.is_run;
          later = omega (arith, tried.later, now, o.later);
          once = ground (arith, tried.sent, e, same, o.once);
          none_yet = λ k.
              let before = o.none_yet (sym (others e) ∙ (sym (tried.others e) ∙ k)) in
              ground (arith, tried.sent, e, same, before);
        }
      ]

  -- Another step is as pending as before.
  pub execute_step-other :
      (idx i : ℕ) (d : WorkflowStep) (s : EngineState)
      → (idx == i) ≡ false
      → pending_at i (execute_step sv ctx d idx s).rows ≡ pending_at i s.rows
  unfolding execute_step ticked
  execute_step-other idx i d s e =
      let begun = begin_step sv ctx d idx s in
      (on_claim-Attempted idx i (sv.claim_step_budget begun.ticks) d (ticked begun)).others e
      ∙ (begin_step-Kept idx i d s).0 e

  -- And its own is settled.
  pub execute_step-own :
      (idx : ℕ) (d : WorkflowStep) (s : EngineState)
      → pending_at idx (execute_step sv ctx d idx s).rows ≡ false
  unfolding execute_step ticked
  execute_step-own idx d s =
      let begun = begin_step sv ctx d idx s in
      let tried = on_claim-Attempted idx idx (sv.claim_step_budget begun.ticks) d (ticked begun) in
      elim (Bool-cases (pending_at idx (execute_step sv ctx d idx s).rows)) [
        | inl q ↦ ground (arith, tried.back q, begin_step-own d idx s)
        | inr q ↦ q
      ]
