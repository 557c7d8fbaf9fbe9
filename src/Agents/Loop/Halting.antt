-- ===== src/Agents/Loop/Halting.antt =====
-- The loop ends: an iteration uses up the cap on iterations, and a turn without one leaves fewer
-- pending tasks.
use era_ai.Prelude.{
  ℕ, zero, suc, ◌+◌, ◌≤◌, ◌<◌, ◌≡◌, refl, ap, ◌∙◌, subst, Option, none, some, List, [], ◌∷◌, ◌⊎◌,
  inl, inr, length, Bool-cases, Option-cases, arith,
}
use era_ai.Agents.Budget.{AgentBudget, check}
use era_ai.Agents.Budget.Caps.{tool_call, llm_call, attempt, tool_call-keeps, llm_call-keeps}
use era_ai.Agents.Tasks.{Task, next_ready, has_pending, pending, mark_running, update}
use era_ai.Agents.Tasks.Stuck.{skip_stuck-lt}
use era_ai.Agents.Loop.{
  RunStatus, Call, tool, llm, event_of, Work, LoopState, spend_all, after_work, on_ready, on_check,
  turn, drive,
}

spend_all-keeps :
    (cs : List Call) (b : AgentBudget)
    → ((spend_all cs b).iterations ≡ b.iterations)
      × ((spend_all cs b).max_iterations ≡ b.max_iterations)
unfolding spend_all event_of
spend_all-keeps [] b = (refl, refl)
spend_all-keeps (tool now ∷ cs) b =
    let rest = spend_all-keeps cs (attempt (tool_call now) b).1 in
    ground (arith, rest, tool_call-keeps now b)
spend_all-keeps (llm now tokens cost ∷ cs) b =
    let rest = spend_all-keeps cs (attempt (llm_call now tokens cost) b).1 in
    ground (arith, rest, llm_call-keeps now tokens cost b)

check-iterations :
    (now : ℕ) (b : AgentBudget) → check now b ≡ none → b.iterations ≤ b.max_iterations
unfolding check
check-iterations now b h = ground (arith, h)

-- What a turn that goes on has used up.
record Progress (s next : LoopState) : Type 0 where
  cap : next.budget.max_iterations ≡ s.budget.max_iterations
  allowed : s.budget.iterations ≤ s.budget.max_iterations
  used :
      (next.budget.iterations ≡ suc s.budget.iterations)
      ⊎ ((next.budget.iterations ≡ s.budget.iterations)
          × (length (pending next.table) < length (pending s.table)))

abbrev IfOnward : LoopState → LoopState ⊎ RunStatus → Type 0
IfOnward s (inl next) = Progress s next
IfOnward s (inr status) = Unit

bumped : LoopState → AgentBudget
bumped s = record s.budget { iterations = s.budget.iterations + 1 }

module _ (clock : ℕ → ℕ) (work : ℕ → Task → List Task → Work) where
  after_work-Progress :
      (s : LoopState) (w : Work)
      → s.budget.iterations ≤ s.budget.max_iterations
      → IfOnward s (after_work clock work s w)
  unfolding after_work bumped
  after_work-Progress s w a = elim (Option-cases w.ends) [
    | inl q ↦ rw q record {
      cap = (spend_all-keeps w.calls (bumped s)).1;
      allowed = a;
      used = inl (omega (arith, (spend_all-keeps w.calls (bumped s)).0));
    }
    | inr (status, q) ↦ rw q tt
  ]

  on_ready-Progress :
      (s : LoopState) (t : Option Task)
      → s.budget.iterations ≤ s.budget.max_iterations
      → IfOnward s (on_ready clock work s t)
  unfolding on_ready
  on_ready-Progress s none a = elim (Bool-cases (has_pending s.table)) [
    | inl q ↦ rw q record { cap = refl; allowed = a; used = inr (refl, skip_stuck-lt s.table q) }
    | inr q ↦ rw q tt
  ]
  on_ready-Progress s (some t) a =
      after_work-Progress s (work s.turns (mark_running t) (update t.id mark_running s.table)) a

  turn-Progress : (s : LoopState) → IfOnward s (turn clock work s)
  unfolding turn on_check
  turn-Progress s = elim (Option-cases (check (clock s.turns) s.budget)) [
    | inl q ↦
        rw q
          (on_ready-Progress s (next_ready s.table) (check-iterations (clock s.turns) s.budget q))
    | inr (reason, q) ↦ rw q tt
  ]

  drive-next :
      (fuel : ℕ) (s next : LoopState)
      → turn clock work s ≡ inl next
      → drive clock work (suc fuel) s ≡ drive clock work fuel next
  unfolding drive
  drive-next fuel s next h =
      ap (λ r. elim r [ inl n ↦ drive clock work fuel n | inr status ↦ some status ]) h

  drive-over :
      (s : LoopState) (status : RunStatus)
      → turn clock work s ≡ inr status
      → drive clock work 1 s ≡ some status
  unfolding drive
  drive-over s status h =
      ap (λ r. elim r [ inl n ↦ drive clock work 0 n | inr status ↦ some status ]) h

  abbrev Halts : LoopState → Type 0
  Halts s = (fuel : ℕ) × ((status : RunStatus) × (drive clock work fuel s ≡ some status))

  turn-cases :
      (s : LoopState)
      → ((next : LoopState) × (turn clock work s ≡ inl next))
        ⊎ ((status : RunStatus) × (turn clock work s ≡ inr status))
  turn-cases s = go (turn clock work s) refl
    where
      go :
          (r : LoopState ⊎ RunStatus)
          → turn clock work s ≡ r
          → ((next : LoopState) × (turn clock work s ≡ inl next))
            ⊎ ((status : RunStatus) × (turn clock work s ≡ inr status))
      go (inl next) q = inl (next, q)
      go (inr status) q = inr (status, q)

  turn-Halts : (s : LoopState) → ((next : LoopState) → Progress s next → Halts next) → Halts s
  turn-Halts s go_on = elim (turn-cases s) [
    | inr (status, q) ↦ (1, (status, drive-over s status q))
    | inl (next, q) ↦
        let (fuel, (status, r)) = go_on next (subst (IfOnward s) q (turn-Progress s)) in
        (suc fuel, (status, drive-next fuel s next q ∙ r))
  ]

  -- By the iterations left and then the pending tasks.
  bounded-Halts :
      (left tasks : ℕ) (s : LoopState)
      → suc s.budget.max_iterations ≤ s.budget.iterations + left
      → length (pending s.table) ≤ tasks
      → Halts s
  bounded-Halts zero tasks s g k = turn-Halts s λ next p. ground (arith, g, p.allowed)
  bounded-Halts (suc left) zero s g k = turn-Halts s λ next p. elim p.used [
    | inl u ↦
        bounded-Halts left (length (pending next.table)) next (omega (arith, g, p.cap, u))
          (omega arith)
    | inr (u, v) ↦ ground (arith, k, v)
  ]
  bounded-Halts (suc left) (suc tasks) s g k = turn-Halts s λ next p. elim p.used [
    | inl u ↦
        bounded-Halts left (length (pending next.table)) next (omega (arith, g, p.cap, u))
          (omega arith)
    | inr (u, v) ↦
        bounded-Halts (suc left) tasks next (omega (arith, g, p.cap, u)) (omega (arith, k, v))
  ]

  -- The loop returns a status from every state, whatever the clock reads and the work on the tasks
  -- does, tasks that it adds or makes pending again included.
  pub drive-halts :
      (s : LoopState)
      → (fuel : ℕ) × ((status : RunStatus) × (drive clock work fuel s ≡ some status))
  drive-halts s =
      bounded-Halts (suc s.budget.max_iterations) (length (pending s.table)) s (omega arith)
        (omega arith)
