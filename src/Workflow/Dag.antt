-- ===== src/Workflow/Dag.antt =====
-- `_validate_dag` of era/workflows/definition.py: unknown dependencies, the bound on the fan-out, and
-- Kahn's topological sort. A dict with an entry for every step is a function.
mod Built
mod Kahn
pub mod Acyclic
pub mod Tests
use era_ai.Prelude.{
  ℕ, zero, suc, ◌+◌, ◌-◌, String, Bool, true, false, not, Option, none, some, List, [], ◌∷◌, ◌++◌,
  map, length, any, elem, ltb, ◌==◌, str_eq, if◌then◌else◌,
}
use era_ai.Prelude.Counts.{all_distinct}
use era_ai.Prelude.Results.{Result, ok, err, ◌>>=◌, ◌>>◌, refuse_if}
use era_ai.Workflow.Definition.{
  DefinitionError, duplicate_step, unknown_dependency, unbounded_fan_out, cyclic, WorkflowStep,
  WorkflowDefinition,
}

-- The keys of `_step_ids(definition)`, if no id is there twice.
abbrev pub ids_of : List WorkflowStep → List String
ids_of [] = []
ids_of (s ∷ ss) = s.id ∷ ids_of ss

pub record Graph : Type 0 where
  pub edges : String → List String
  pub indegree : String → ℕ

abbrev pub no_edges : Graph
no_edges = record { edges = λ v. []; indegree = λ v. 0 }

-- `edges[dep].append(step.id)` and `indegree[step.id] += 1`
unfoldable pub add_edge : String → String → Graph → Graph
add_edge dep id g = record {
  edges = λ v. if str_eq dep v then g.edges v ++ id ∷ [] else g.edges v;
  indegree = λ v. if str_eq id v then g.indegree v + 1 else g.indegree v;
}

unfoldable pub add_dependencies :
    List String → String → List String → Graph → Result DefinitionError Graph
unfolding add_edge
add_dependencies ids id [] g = ok g
add_dependencies ids id (dep ∷ deps) g =
    refuse_if (not (elem dep ids)) unknown_dependency
    >> add_dependencies ids id deps (add_edge dep id g)

unfoldable pub build : List String → List WorkflowStep → Graph → Result DefinitionError Graph
unfolding add_dependencies
build ids [] g = ok g
build ids (s ∷ ss) g = add_dependencies ids s.id s.depends_on g >>= λ next. build ids ss next

-- `indegree[nxt] -= 1` for each target, which is queued when it has none left.
unfoldable pub relax : List String → (String → ℕ) → List String → (String → ℕ) × List String
relax [] indegree queue = (indegree, queue)
relax (next ∷ rest) indegree queue =
    let left = indegree next - 1 in
    relax rest (λ v. if str_eq next v then left else indegree v)
      (if left == 0 then queue ++ next ∷ [] else queue)

-- `while queue`, counting what was seen; `none` means that the fuel ran out.
unfoldable pub kahn : (String → List String) → ℕ → (String → ℕ) → List String → ℕ → Option ℕ
unfolding relax
kahn edges fuel indegree [] seen = some seen
kahn edges zero indegree (node ∷ queue) seen = none
kahn edges (suc fuel) indegree (node ∷ queue) seen =
    let next = relax (edges node) indegree queue in kahn edges fuel next.0 next.1 (seen + 1)

-- `sid for sid, deg in indegree.items() if deg == 0`
unfoldable pub roots : (String → ℕ) → List String → List String
roots indegree [] = []
roots indegree (id ∷ ids) =
    let rest = roots indegree ids in if indegree id == 0 then id ∷ rest else rest

-- Fuel for as many rounds as there are steps.
unfoldable pub sort_all : List String → Graph → Option ℕ
unfolding kahn roots
sort_all ids g = kahn g.edges (length ids) g.indegree (roots g.indegree ids) 0

-- `if seen != len(by_id)`; to run out of fuel would be to have seen too many.
unfoldable pub all_seen : ℕ → Option ℕ → Bool
all_seen n none = false
all_seen n (some seen) = seen == n

-- The checks of the graph once it is built.
unfoldable pub check_graph : List String → Graph → Result DefinitionError (Unit {0})
unfolding sort_all all_seen
check_graph ids g = do
  refuse_if (any (λ v. ltb 8 (length (g.edges v))) ids) unbounded_fan_out
  refuse_if (not (all_seen (length ids) (sort_all ids g))) cyclic

unfoldable pub validate_dag : WorkflowDefinition → Result DefinitionError (Unit {0})
unfolding build check_graph
validate_dag d =
    let ids = ids_of d.steps in
    refuse_if (not (all_distinct ids)) duplicate_step
    >> (build ids d.steps no_edges >>= check_graph ids)
