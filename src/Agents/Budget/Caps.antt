-- ===== src/Agents/Budget/Caps.antt =====
-- How the loop, the brain and the planner use the budget (loop.py 128, 155-177 and 219-223, brain.py
-- 150-161), over the pauses of a run.
use era_ai.Prelude.{
  ℕ, suc, ◌+◌, ◌≤◌, ◌≡◌, refl, Bool, true, false, ◌&&◌, Option, none, some, List, [], ◌∷◌,
  if◌then◌else◌, arith,
}
use era_ai.Agents.Budget.{
  AgentBudget, AbortReason, check, can_tool_call, can_llm_call, record_tool_call, record_llm_call,
  snapshot, restore,
}

-- Each with the time of the guard; `resumption` is a pause, and a restart at that time with a new
-- budget of the same caps.
pub data Event : Type 0 where
  iteration : ℕ → Event
  tool_call : ℕ → Event
  llm_call : ℕ → ℕ → ℕ → Event
  resumption : ℕ → Event

-- A guard with a reason refuses.
guarded : Option AbortReason → AgentBudget → AgentBudget → Bool × AgentBudget
guarded none after before = (true, after)
guarded (some reason) after before = (false, before)

unfoldable pub fresh_budget : ℕ → AgentBudget → AgentBudget
fresh_budget now b = record b {
  started_at = now;
  iterations = 0;
  tool_calls = 0;
  llm_calls = 0;
  tokens_used = 0;
  cost_used = 0;
}

-- Whether it was let through, and the budget behind it.
unfoldable pub attempt : Event → AgentBudget → Bool × AgentBudget
unfolding guarded
attempt (iteration now) b = guarded (check now b) (record b { iterations = b.iterations + 1 }) b
attempt (tool_call now) b = guarded (can_tool_call now b) (record_tool_call b) b
attempt (llm_call now tokens cost) b =
    guarded (can_llm_call now b) (record_llm_call tokens cost b) b
attempt (resumption now) b = (true, restore (snapshot b) (fresh_budget now b))

unfoldable pub admitted : List Event → AgentBudget → List Event
unfolding attempt
admitted [] b = []
admitted (e ∷ es) b =
    let (through, after) = attempt e b in
    let rest = admitted es after in if through then e ∷ rest else rest

abbrev pub count : (Event → Bool) → List Event → ℕ
count is [] = 0
count is (e ∷ es) = let rest = count is es in if is e then suc rest else rest

abbrev pub is_iteration : Event → Bool
is_iteration (iteration now) = true
is_iteration _ = false

abbrev pub is_tool_call : Event → Bool
is_tool_call (tool_call now) = true
is_tool_call _ = false

abbrev pub is_llm_call : Event → Bool
is_llm_call (llm_call now tokens cost) = true
is_llm_call _ = false

-- A counter that every admitted event of a kind moves by one, and a limit that none passes.
module _ (used limit : AgentBudget → ℕ) (is : Event → Bool)
    (step : (e : Event) (b : AgentBudget)
      → used b ≤ limit b
      → (limit (attempt e b).1 ≡ limit b)
        × (used (attempt e b).1 ≤ limit b)
        × (used (attempt e b).1 ≡ used b + (if (attempt e b).0 && is e then 1 else 0))) where
  count-le :
      (es : List Event) (b : AgentBudget)
      → used b ≤ limit b
      → used b + count is (admitted es b) ≤ limit b
  unfolding admitted
  count-le [] b h = omega (arith, h)
  count-le (e ∷ es) b h =
      let (same, within, moved) = step e b h in
      let rest = count-le es (attempt e b).1 (rw same within) in
      ground (arith, same, within, moved, rest)

  count-fresh :
      (es : List Event) (b : AgentBudget) → used b ≡ 0 → count is (admitted es b) ≤ limit b
  count-fresh es b h = omega (arith, h, count-le es b (omega (arith, h)))

tool_call-step :
    (e : Event) (b : AgentBudget)
    → b.tool_calls ≤ b.max_tool_calls
    → ((attempt e b).1.max_tool_calls ≡ b.max_tool_calls)
      × ((attempt e b).1.tool_calls ≤ b.max_tool_calls)
      × ((attempt e b).1.tool_calls
          ≡ b.tool_calls + (if (attempt e b).0 && is_tool_call e then 1 else 0))
unfolding attempt guarded can_tool_call record_tool_call record_llm_call restore snapshot
    fresh_budget
tool_call-step (iteration now) b h = ground (arith, h)
tool_call-step (tool_call now) b h = ground (arith, h)
tool_call-step (llm_call now tokens cost) b h = ground (arith, h)
tool_call-step (resumption now) b h = (refl, h, omega arith)

llm_call-step :
    (e : Event) (b : AgentBudget)
    → b.llm_calls ≤ b.max_llm_calls
    → ((attempt e b).1.max_llm_calls ≡ b.max_llm_calls)
      × ((attempt e b).1.llm_calls ≤ b.max_llm_calls)
      × ((attempt e b).1.llm_calls
          ≡ b.llm_calls + (if (attempt e b).0 && is_llm_call e then 1 else 0))
unfolding attempt guarded can_llm_call record_tool_call record_llm_call restore snapshot
    fresh_budget
llm_call-step (iteration now) b h = ground (arith, h)
llm_call-step (tool_call now) b h = ground (arith, h)
llm_call-step (llm_call now tokens cost) b h = ground (arith, h)
llm_call-step (resumption now) b h = (refl, h, omega arith)

iteration-step :
    (e : Event) (b : AgentBudget)
    → b.iterations ≤ suc b.max_iterations
    → (suc (attempt e b).1.max_iterations ≡ suc b.max_iterations)
      × ((attempt e b).1.iterations ≤ suc b.max_iterations)
      × ((attempt e b).1.iterations
          ≡ b.iterations + (if (attempt e b).0 && is_iteration e then 1 else 0))
unfolding attempt guarded check record_tool_call record_llm_call restore snapshot fresh_budget
iteration-step (iteration now) b h = ground (arith, h)
iteration-step (tool_call now) b h = ground (arith, h)
iteration-step (llm_call now tokens cost) b h = ground (arith, h)
iteration-step (resumption now) b h = (refl, h, omega arith)

-- Neither a tool call nor a model call moves the iterations or their cap.
pub tool_call-keeps :
    (now : ℕ) (b : AgentBudget)
    → ((attempt (tool_call now) b).1.iterations ≡ b.iterations)
      × ((attempt (tool_call now) b).1.max_iterations ≡ b.max_iterations)
unfolding attempt guarded record_tool_call
tool_call-keeps now b = ground arith

pub llm_call-keeps :
    (now tokens cost : ℕ) (b : AgentBudget)
    → ((attempt (llm_call now tokens cost) b).1.iterations ≡ b.iterations)
      × ((attempt (llm_call now tokens cost) b).1.max_iterations ≡ b.max_iterations)
unfolding attempt guarded record_llm_call
llm_call-keeps now tokens cost b = ground arith

-- From a new budget, whatever is asked for and however often the run is paused and resumed, no more
-- tool calls and no more recorded model calls are let through than their caps, and at most one
-- iteration more than its cap.
pub admitted-Capped :
    (now : ℕ) (b : AgentBudget) (es : List Event)
    → let start = fresh_budget now b in
      (count is_tool_call (admitted es start) ≤ b.max_tool_calls)
      × (count is_llm_call (admitted es start) ≤ b.max_llm_calls)
      × (count is_iteration (admitted es start) ≤ suc b.max_iterations)
unfolding fresh_budget
admitted-Capped now b es =
    let start = fresh_budget now b in
    (
      count-fresh (λ b. b.tool_calls) (λ b. b.max_tool_calls) is_tool_call tool_call-step es start
          refl,
      count-fresh (λ b. b.llm_calls) (λ b. b.max_llm_calls) is_llm_call llm_call-step es start refl,
      count-fresh (λ b. b.iterations) (λ b. suc b.max_iterations) is_iteration iteration-step es
          start refl,
    )
