-- ===== src/Workflow/Engine.antt =====
-- `_advance` of era/services/workflow_service.py with what it calls. The steps of a batch run one after
-- another. A second look at the waiting rows, where the first found none, is left out.
pub mod Batch
pub mod Once
pub mod Returns
pub mod Ready
use era_ai.Prelude.{
  ℕ, zero, suc, ◌+◌, String, Bool, true, false, not, ◌&&◌, ◌||◌, Option, none, some, List, [], ◌∷◌,
  ◌++◌, min, length, any, all, elem, leb, ltb, ◌==◌, str_eq, is_some, if◌then◌else◌,
}
use era_ai.Gate.Records.{ExecutionContext}
use era_ai.Workflow.Definition.{
  WorkflowCondition, WorkflowParallelBlock, WorkflowStep, WorkflowDefinition,
}
use era_ai.Workflow.Run.{
  RunStatus, StepStatus, is_terminal_step, is_pending, is_waiting, is_passed, is_ambiguous, Message,
  text, not_allowed, WorkflowRun, StepRow, EngineState, Services, row_at, update_row, status_at,
  release_governance, set_run, set_run_failed, set_run_budget_failed, set_current, ticked,
}
use era_ai.Workflow.Step.{index_of, execute_step, evaluate_condition}
use era_ai.Workflow.Waiting.{
  WaitOutcome, next, still_waiting, denied_skip, denied_stop, failed, handle_waiting_step,
}

-- A round ends the call, or the loop goes on.
pub data Round : Type 0 where
  over : EngineState → Round
  again : EngineState → Round

unfoldable pub deps_ok : WorkflowDefinition → List StepRow → List String → Bool
unfolding index_of status_at
deps_ok d rows [] = true
deps_ok d rows (dep ∷ deps) =
    elim (index_of dep d.steps) [ none ↦ false | some i ↦ is_passed (status_at i rows) ]
    && deps_ok d rows deps

-- `_ready_indices`: the steps from an index on. Nothing is ever put into `running_indices`.
unfoldable pub ready_from : WorkflowDefinition → List StepRow → ℕ → List WorkflowStep → List ℕ
unfolding status_at deps_ok
ready_from d rows i [] = []
ready_from d rows i (s ∷ ss) =
    let rest = ready_from d rows (i + 1) ss in
    if is_pending (status_at i rows) && deps_ok d rows s.depends_on then i ∷ rest else rest

unfoldable pub ready_indices : WorkflowDefinition → List StepRow → List ℕ
unfolding ready_from
ready_indices d rows = ready_from d rows 0 d.steps

unfoldable pub step_at : ℕ → List WorkflowStep → Option WorkflowStep
step_at idx [] = none
step_at zero (s ∷ ss) = some s
step_at (suc idx) (s ∷ ss) = step_at idx ss

in_block : WorkflowDefinition → WorkflowParallelBlock → ℕ → Bool
unfolding step_at
in_block d b i = elim (step_at i d.steps) [ none ↦ false | some s ↦ elem s.id b.steps ]

unfoldable pub keep : (ℕ → Bool) → List ℕ → List ℕ
keep p [] = []
keep p (i ∷ is) = let rest = keep p is in if p i then i ∷ rest else rest

unfoldable pub take : ℕ → List ℕ → List ℕ
take zero is = []
take (suc n) [] = []
take (suc n) (i ∷ is) = i ∷ take n is

-- `[min(ready)]`
unfoldable pub least : ℕ → List ℕ → ℕ
least i [] = i
least i (j ∷ js) = least (min i j) js

unfoldable pub choose_from :
    ℕ → WorkflowDefinition → List WorkflowParallelBlock → ℕ → List ℕ → List ℕ
unfolding in_block keep take least
choose_from limit d [] i is = least i is ∷ []
choose_from limit d (b ∷ bs) i is =
    let group = keep (in_block d b) (i ∷ is) in
    let rest = choose_from limit d bs i is in
    if leb b.max_concurrency 1
    then rest
    else if ltb 1 (length group)
    then take (min b.max_concurrency limit) group
    else rest

-- The first row with a status and, for `failed`, an error code.
unfoldable pub first_failed : List StepRow → Option StepRow
first_failed [] = none
first_failed (r ∷ rs) =
    let rest = first_failed rs in
    elim r.status [
      | StepStatus.failed ↦ elim r.error_code [
        | none ↦ rest
        | some code ↦ if str_eq code "" then rest else some r
      ]
      | _ ↦ rest
    ]

abbrev pub unknown_outcome : Message
unknown_outcome = text "a step has an unknown outcome; operator resolution required"

or_failed : Option Message → Message
or_failed none = text "workflow step failed"
or_failed (some m) = m

-- The end of `_refresh_run_status`, from the first failed row
unfoldable pub refresh_failed : Option StepRow → EngineState → Option EngineState
unfolding or_failed set_run release_governance
refresh_failed none s = none
refresh_failed (some r) s =
    if any (λ (q : StepRow). is_pending q.status) s.rows
    then none
    else some (release_governance (set_run RunStatus.failed (some (or_failed r.error_message)) s))

-- `_refresh_run_status`: the state if the run is settled.
unfoldable pub refresh_run_status : EngineState → Option EngineState
unfolding first_failed refresh_failed set_run
refresh_run_status s =
    if any (λ (r : StepRow). is_ambiguous r.status) s.rows
    then some (set_run RunStatus.ambiguous (some unknown_outcome) s)
    else refresh_failed (first_failed s.rows) s

is_pending_or_running : StepStatus → Bool
is_pending_or_running StepStatus.pending = true
is_pending_or_running StepStatus.running = true
is_pending_or_running _ = false

-- `min(pending) if pending else len(rows)`
unfoldable pub first_open : ℕ → List StepRow → ℕ
unfolding is_pending_or_running
first_open i [] = i
first_open i (r ∷ rs) =
    let rest = first_open (i + 1) rs in if is_pending_or_running r.status then i else rest

unfoldable pub classify_as : StepStatus → StepRow → EngineState → Round
unfolding first_open or_failed set_current set_run release_governance
classify_as StepStatus.completed r s = again (set_current (first_open 0 s.rows) s)
classify_as StepStatus.skipped r s = again (set_current (first_open 0 s.rows) s)
classify_as StepStatus.skipped_conditional r s = again (set_current (first_open 0 s.rows) s)
classify_as StepStatus.waiting r s =
    over (set_current r.step_index (set_run RunStatus.waiting s.run.error s))
classify_as StepStatus.ambiguous r s = over (set_run RunStatus.ambiguous (some unknown_outcome) s)
classify_as other r s =
    over (release_governance (set_run RunStatus.failed (some (or_failed r.error_message)) s))

-- `_classify_step_outcome` of a row, and what `_advance` does with the answer.
unfoldable pub classify : Option StepRow → EngineState → Round
unfolding classify_as
classify none s = again s
classify (some r) s = classify_as r.status r s

all_settled : ℕ → List WorkflowStep → List StepRow → Bool
unfolding row_at
all_settled i [] rows = true
all_settled i (s ∷ ss) rows =
    elim (row_at i rows) [ none ↦ false | some r ↦ is_terminal_step r.status ]
    && all_settled (i + 1) ss rows

-- No step is ready: the run is completed if every step has settled, and left as it is if not.
unfoldable pub none_ready : WorkflowDefinition → EngineState → Round
unfolding all_settled set_run set_current release_governance
none_ready d s =
    if all_settled 0 d.steps s.rows
    then over
        (release_governance (set_current (length d.steps) (set_run RunStatus.completed none s)))
    else over s

or_again : EngineState → Option EngineState → Round
or_again s none = again s
or_again s (some t) = over t

refreshed : EngineState → Round
unfolding refresh_run_status or_again
refreshed s = or_again s (refresh_run_status s)

unfoldable pub skip_conditional : ℕ → EngineState → EngineState
unfolding update_row
skip_conditional idx s = record s {
  rows =
      update_row idx
        (λ r.
          if is_pending r.status then record r { status = StepStatus.skipped_conditional } else r)
        s.rows;
}

module _ (sv : Services) (ctx : ExecutionContext) where
  -- What an outcome does with the rest of the loop.
  unfoldable pub after_wait :
      WaitOutcome
      → (Bool → EngineState → Option Bool × EngineState)
      → Bool
      → EngineState
      → Option Bool × EngineState
  after_wait next rest changed s = rest true s
  after_wait denied_skip rest changed s = rest true s
  after_wait still_waiting rest changed s = rest changed s
  after_wait failed rest changed s = (none, s)
  after_wait denied_stop rest changed s = (none, s)

  -- The waiting rows in turn; `none` where one of them ended the call.
  unfoldable pub reconcile : List StepRow → Bool → EngineState → Option Bool × EngineState
  unfolding handle_waiting_step after_wait
  reconcile [] changed s = (some changed, s)
  reconcile (r ∷ rs) changed s =
      after_wait (handle_waiting_step sv ctx r s).0 (reconcile rs) changed
        (handle_waiting_step sv ctx r s).1

  waiting_rows : List StepRow → List StepRow
  waiting_rows [] = []
  waiting_rows (r ∷ rs) =
      let rest = waiting_rows rs in if is_waiting r.status then r ∷ rest else rest

  unfoldable pub on_reconciled : Option Bool × EngineState → Round
  unfolding set_run
  on_reconciled (none, s) = over s
  on_reconciled (some true, s) = again s
  on_reconciled (some false, s) = over (set_run RunStatus.waiting s.run.error s)

  -- `claim_step_budget` for every step of the batch; the refusal, if there is one.
  unfoldable pub claim_batch : List ℕ → EngineState → Option String × EngineState
  unfolding ticked
  claim_batch [] s = (none, s)
  claim_batch (i ∷ is) s = elim (sv.claim_step_budget s.ticks) [
    | none ↦ claim_batch is (ticked s)
    | some refusal ↦ (some refusal, ticked s)
  ]

  unfoldable pub run_batch : WorkflowDefinition → List ℕ → EngineState → EngineState
  unfolding step_at set_current execute_step
  run_batch d [] s = s
  run_batch d (i ∷ is) s = elim (step_at i d.steps) [
    | none ↦ run_batch d is s
    | some step ↦ run_batch d is (execute_step sv ctx step i (set_current i s))
  ]

  unfoldable pub run_claimed :
      WorkflowDefinition → List ℕ → Option String × EngineState → EngineState
  unfolding run_batch set_run_budget_failed
  run_claimed d batch (none, s) = run_batch d batch s
  run_claimed d batch (some refusal, s) = set_run_budget_failed (text refusal) s

  -- `_execute_parallel_batch`
  unfoldable pub execute_parallel_batch : WorkflowDefinition → List ℕ → EngineState → EngineState
  unfolding claim_batch run_claimed
  execute_parallel_batch d batch s = run_claimed d batch (claim_batch batch s)

  unfoldable pub execute_and_classify : WorkflowStep → ℕ → EngineState → Round
  unfolding execute_step classify row_at
  execute_and_classify step idx s =
      let after = execute_step sv ctx step idx s in classify (row_at idx after.rows) after

  condition_fails : WorkflowDefinition → Option WorkflowCondition → EngineState → Bool
  unfolding evaluate_condition
  condition_fails d none s = false
  condition_fails d (some c) s = elim (evaluate_condition d s.rows c) [
    | some false ↦ true
    | _ ↦ false
  ]

  -- A batch of one.
  unfoldable pub execute_single : WorkflowDefinition → ℕ → WorkflowStep → EngineState → Round
  unfolding set_current set_run set_run_failed condition_fails skip_conditional execute_and_classify
  execute_single d idx step s =
      let started = set_run RunStatus.running s.run.error (set_current idx s) in
      if not (sv.domain_allowed step.action)
      then over (set_run_failed (not_allowed step.action) started)
      else if condition_fails d step.condition started
      then again (skip_conditional idx started)
      else execute_and_classify step idx started

  -- An empty batch raises IndexError: the limit is then zero.
  unfoldable pub execute_chosen : WorkflowDefinition → List ℕ → EngineState → Round
  unfolding execute_parallel_batch execute_single step_at refreshed
  execute_chosen d [] s = over s
  execute_chosen d (i ∷ []) s = elim (step_at i d.steps) [
    | none ↦ over s
    | some step ↦ execute_single d i step s
  ]
  execute_chosen d (i ∷ j ∷ is) s = refreshed (execute_parallel_batch d (i ∷ j ∷ is) s)

  unfoldable pub on_ready : WorkflowDefinition → List ℕ → EngineState → Round
  unfolding none_ready choose_from execute_chosen
  on_ready d [] s = none_ready d s
  on_ready d (i ∷ is) s =
      execute_chosen d (choose_from sv.max_pending_confirmations d d.parallel i is) s

  unfoldable pub on_settled : WorkflowDefinition → Option EngineState → EngineState → Round
  unfolding on_ready ready_indices
  on_settled d (some settled) s = over settled
  on_settled d none s = on_ready d (ready_indices d s.rows) s

  unfoldable pub on_waiting : WorkflowDefinition → List StepRow → EngineState → Round
  unfolding on_settled refresh_run_status reconcile on_reconciled
  on_waiting d [] s = on_settled d (refresh_run_status s) s
  on_waiting d (r ∷ rs) s = on_reconciled (reconcile (r ∷ rs) false s)

  -- One round of `while True`, with the deadline's check.
  unfoldable pub round : WorkflowDefinition → ℕ → EngineState → Round
  unfolding on_waiting waiting_rows set_run_failed ticked
  round d deadline s =
      let now = sv.monotonic s.ticks in
      if ltb deadline now
      then over (set_run_failed (text "workflow wall-clock budget exceeded") (ticked s))
      else on_waiting d (waiting_rows s.rows) (ticked s)

  then_round : Round → (EngineState → Option EngineState) → Option EngineState
  then_round (over t) rest = some t
  then_round (again t) rest = rest t

  unfoldable pub rounds : WorkflowDefinition → ℕ → ℕ → EngineState → Option EngineState
  unfolding round then_round
  rounds d deadline zero s = none
  rounds d deadline (suc fuel) s = then_round (round d deadline s) (rounds d deadline fuel)

  with_definition : Option WorkflowDefinition → ℕ → EngineState → Option EngineState
  unfolding rounds set_run_failed ticked
  with_definition none fuel s =
      some (set_run_failed (text "workflow is no longer registered or template missing") s)
  with_definition (some d) fuel s =
      if str_eq (sv.checksum d) s.run.definition_checksum
      then rounds d (sv.monotonic s.ticks + sv.max_wallclock) fuel (ticked s)
      else some
          (set_run_failed (text "workflow definition changed since the run started (checksum)") s)

  -- `_advance`, of a run that the actor owns
  unfoldable pub advance : ℕ → EngineState → Option EngineState
  unfolding with_definition
  advance fuel s = with_definition (sv.definition_for_run s.run) fuel s
