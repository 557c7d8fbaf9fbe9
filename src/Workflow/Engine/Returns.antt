-- ===== src/Workflow/Engine/Returns.antt =====
-- The wall-clock budget ends `_advance`: the clock's readings grow, and every round takes one.
use era_ai.Prelude.{
  ℕ, zero, suc, ◌+◌, ◌-◌, ◌≤◌, ◌<◌, ◌≡◌, refl, subst, true, Option, none, some, ltb, str_eq,
  Bool-cases, inl, inr, arith,
}
use era_ai.Gate.Records.{ExecutionContext}
use era_ai.Workflow.Definition.{WorkflowDefinition}
use era_ai.Workflow.Run.{text, EngineState, Services, set_run_failed, ticked}
use era_ai.Workflow.Run.Rows.{Since, identity, OnceAt}
use era_ai.Workflow.Engine.{Round, over, again, round, then_round, rounds, with_definition, advance}
use era_ai.Workflow.Engine.Batch.{Ends}
use era_ai.Workflow.Engine.Once.{round-OnceAt}

-- Every reading of the clock is above the one before it.
pub record IsTicking (sv : Services) : Type 0 where
  pub grows : (k : ℕ) → sv.monotonic k < sv.monotonic (k + 1)

module _ (sv : Services) (ctx : ExecutionContext) where
  -- After so many readings the clock has grown by as much.
  grown : (j n : ℕ) → IsTicking sv → sv.monotonic j + n ≤ sv.monotonic (j + n)
  grown j zero c =
      let same : j ≡ j + 0 = omega arith in
      let here : sv.monotonic j + 0 ≤ sv.monotonic j = omega arith in
      subst (λ k. sv.monotonic j + 0 ≤ sv.monotonic k) same here
  grown j (suc n) c =
      let next : j + n + 1 ≡ j + suc n = omega arith in
      let step : sv.monotonic (j + n) < sv.monotonic (j + suc n) =
        subst (λ k. sv.monotonic (j + n) < sv.monotonic k) next (c.grows (j + n)) in
      omega (arith, step, grown j n c)

  grown-lt : (j k : ℕ) → IsTicking sv → j < k → sv.monotonic j < sv.monotonic k
  grown-lt j k c l =
      let end : j + (k - j) ≡ k = omega (arith, l) in
      let reached : sv.monotonic j + (k - j) ≤ sv.monotonic k =
        subst (λ m. sv.monotonic j + (k - j) ≤ sv.monotonic m) end (grown j (k - j) c) in
      omega (arith, l, reached)

  abbrev Returns : Option EngineState → Type 0
  Returns o = (t : EngineState) × (o ≡ some t)

  abbrev IsRun : EngineState → Type 0
  IsRun s = OnceAt record { who = identity s; from = s.ticks } 0 s

  -- A round that goes on has taken a reading.
  round-later :
      (d : WorkflowDefinition) (deadline : ℕ) (s : EngineState)
      → IsRun s
      → Ends (OnceAt record { who = identity s; from = s.ticks + 1 } 0) (round sv ctx d deadline s)
  unfolding ticked
  round-later d deadline s o =
      round-OnceAt sv ctx record { who = identity s; from = s.ticks + 1 } 0 d deadline s
        record { is_run = refl; later = omega arith; once = o.once; none_yet = o.none_yet }

  refreshed-IsRun : (w : Since) (t : EngineState) → OnceAt w 0 t → IsRun t
  refreshed-IsRun w t o = record {
    is_run = refl;
    later = omega arith;
    once = o.once;
    none_yet = o.none_yet;
  }

  round-late :
      (d : WorkflowDefinition) (deadline : ℕ) (s : EngineState)
      → ltb deadline (sv.monotonic s.ticks) ≡ true
      → (t : EngineState) × (round sv ctx d deadline s ≡ over t)
  unfolding round
  round-late d deadline s h =
      (set_run_failed (text "workflow wall-clock budget exceeded") (ticked s), rw h refl)

  after_round :
      (r : Round) (n fuel : ℕ) (rest : EngineState → Option EngineState) (deadline : ℕ) (w : Since)
      → IsTicking sv
      → Ends (OnceAt record { who = w.who; from = n + 1 } 0) r
      → deadline + 1 ≤ sv.monotonic n + suc fuel
      → ((t : EngineState)
          → IsRun t
          → deadline + 1 ≤ sv.monotonic t.ticks + fuel
          → Returns (rest t))
      → Returns (then_round sv ctx r rest)
  unfolding then_round
  after_round (over t) n fuel rest deadline w c o l k = (t, refl)
  after_round (again t) n fuel rest deadline w c o l k =
      k t (refreshed-IsRun _ t o) (omega (arith, l, grown-lt n t.ticks c (omega (arith, o.later))))

  rounds-Returns :
      (d : WorkflowDefinition) (deadline fuel : ℕ) (s : EngineState)
      → IsTicking sv
      → IsRun s
      → deadline + 1 ≤ sv.monotonic s.ticks + fuel
      → Returns (rounds sv ctx d deadline (suc fuel) s)
  unfolding rounds
  rounds-Returns d deadline zero s c o l =
      let (t, ends) = round-late d deadline s (ground (arith, l)) in (t, rw (ends, then_round) refl)
  rounds-Returns d deadline (suc fuel) s c o l =
      after_round (round sv ctx d deadline s) s.ticks fuel (rounds sv ctx d deadline (suc fuel))
        deadline record { who = identity s; from = 0 } c (round-later d deadline s o) l
        (λ t run more. rounds-Returns d deadline fuel t c run more)

  with_definition-Returns :
      (d : Option WorkflowDefinition) (fuel : ℕ) (s : EngineState)
      → IsTicking sv
      → sv.max_wallclock ≤ fuel
      → IsRun s
      → Returns (with_definition sv ctx d (suc fuel) s)
  unfolding with_definition ticked
  with_definition-Returns none fuel s c l o = (_, refl)
  with_definition-Returns (some d) fuel s c l o =
      elim (Bool-cases (str_eq (sv.checksum d) s.run.definition_checksum)) [
        | inl q ↦
            let (t, ends) =
              rounds-Returns d (sv.monotonic s.ticks + sv.max_wallclock) fuel (ticked s) c
                record { is_run = refl; later = omega arith; once = o.once; none_yet = o.none_yet }
                (omega (arith, l, c.grows s.ticks)) in
            (t, rw q ends)
        | inr q ↦ (
          set_run_failed (text "workflow definition changed since the run started (checksum)") s,
          rw q refl,
        )
      ]

  -- Fuel for one round more than the budget has units of time is enough.
  pub advance-Returns :
      (fuel : ℕ) (s : EngineState)
      → IsTicking sv
      → sv.max_wallclock ≤ fuel
      → OnceAt record { who = identity s; from = 0 } 0 s
      → Returns (advance sv ctx (suc fuel) s)
  unfolding advance
  advance-Returns fuel s c l o =
      with_definition-Returns (sv.definition_for_run s.run) fuel s c l
        (refreshed-IsRun record { who = identity s; from = 0 } s o)
