-- ===== src/Workflow/Dag/Built.antt =====
-- What `build` makes of the steps: it fails only at an unknown dependency, and its edges are those of
-- the steps, as often as they are declared.
use era_ai.Prelude.{
  ℕ, ◌+◌, String, ◌≡◌, refl, true, List, [], ◌∷◌, ◌++◌, length, length-append, All, elem, str_eq,
  eq_iff, Bool-cases, inl, inr, if◌then◌else◌, arith,
}
use era_ai.Prelude.Counts.{count, count-append}
use era_ai.Prelude.Results.{ok, IfOk, IfOk-map, IfOk-bind}
use era_ai.Workflow.Definition.{WorkflowStep}
use era_ai.Workflow.Dag.{Graph, add_edge, add_dependencies, build}

-- Every dependency of a step under an id.
abbrev pub deps_of : List WorkflowStep → String → List String
deps_of [] v = []
deps_of (s ∷ ss) v = let rest = deps_of ss v in if str_eq s.id v then s.depends_on ++ rest else rest

-- How often the lists `depends_on` name an id, repetitions within a list counted
abbrev pub mentions : List WorkflowStep → String → ℕ
mentions [] u = 0
mentions (s ∷ ss) u = count u s.depends_on + mentions ss u

abbrev pub KnownDeps : List String → List WorkflowStep → Type 0
KnownDeps ids = All (λ s. All (λ dep. elem dep ids ≡ true) s.depends_on)

-- The graph with the dependencies of one step added.
record Added (id : String) (deps : List String) (g h : Graph) : Type 0 where
  degrees : (v : String) → h.indegree v ≡ g.indegree v + (if str_eq id v then length deps else 0)
  counts :
      (u v : String)
      → count v (h.edges u) ≡ count v (g.edges u) + (if str_eq id v then count u deps else 0)
  lengths : (u : String) → length (h.edges u) ≡ length (g.edges u) + count u deps

Added-next :
    (id dep : String) (deps : List String) (g h : Graph)
    → Added id deps (add_edge dep id g) h
    → Added id (dep ∷ deps) g h
unfolding add_edge
Added-next id dep deps g h a = record {
  degrees = λ v. ground (arith, a.degrees v);
  counts = λ u v.
      ground
        (arith, a.counts u v, count-append v (g.edges u) (id ∷ []), eq_iff dep u, eq_iff u dep);
  lengths = λ u.
      ground (arith, a.lengths u, length-append (g.edges u) (id ∷ []), eq_iff dep u, eq_iff u dep);
}

add_dependencies-Added :
    (ids : List String) (id : String) (deps : List String) (g : Graph)
    → IfOk
        (λ h. All (λ dep. elem dep ids ≡ true) deps × Added id deps g h)
        (add_dependencies ids id deps g)
unfolding add_dependencies
add_dependencies-Added ids id [] g = (
  tt,
  record { degrees = λ v. ground arith; counts = λ u v. ground arith; lengths = λ u. omega arith },
)
add_dependencies-Added ids id (dep ∷ deps) g = elim (Bool-cases (elem dep ids)) [
  | inl q ↦ rw q (
      IfOk-map (add_dependencies ids id deps (add_edge dep id g))
        (λ h a. ((refl, a.0), Added-next id dep deps g h a.1))
        (add_dependencies-Added ids id deps (add_edge dep id g)))
  | inr q ↦ rw q tt
]

-- The graph with the dependencies of steps added.
pub record Built (ss : List WorkflowStep) (g h : Graph) : Type 0 where
  pub degrees : (v : String) → h.indegree v ≡ g.indegree v + length (deps_of ss v)
  pub counts : (u v : String) → count v (h.edges u) ≡ count v (g.edges u) + count u (deps_of ss v)
  pub lengths : (u : String) → length (h.edges u) ≡ length (g.edges u) + mentions ss u

Built-next :
    (s : WorkflowStep) (ss : List WorkflowStep) (g m h : Graph)
    → Added s.id s.depends_on g m
    → Built ss m h
    → Built (s ∷ ss) g h
Built-next s ss g m h a b = record {
  degrees =
      λ v. ground (arith, a.degrees v, b.degrees v, length-append s.depends_on (deps_of ss v));
  counts =
      λ u v. ground (arith, a.counts u v, b.counts u v, count-append u s.depends_on (deps_of ss v));
  lengths = λ u. ground (arith, a.lengths u, b.lengths u);
}

pub build-Built :
    (ids : List String) (ss : List WorkflowStep) (g : Graph)
    → IfOk (λ h. KnownDeps ids ss × Built ss g h) (build ids ss g)
unfolding build
build-Built ids [] g = (
  tt,
  record { degrees = λ v. omega arith; counts = λ u v. omega arith; lengths = λ u. omega arith },
)
build-Built ids (s ∷ ss) g =
    IfOk-bind _ (add_dependencies ids s.id s.depends_on g) (λ m. build ids ss m)
      (λ m a.
        IfOk-map (build ids ss m) (λ h b. ((a.0, b.0), Built-next s ss g m h a.1 b.1))
          (build-Built ids ss m))
      (add_dependencies-Added ids s.id s.depends_on g)

add_dependencies-known :
    (ids : List String) (id : String) (deps : List String) (g : Graph)
    → All (λ dep. elem dep ids ≡ true) deps
    → (h : Graph) × (add_dependencies ids id deps g ≡ ok h)
unfolding add_dependencies
add_dependencies-known ids id [] g k = (g, refl)
add_dependencies-known ids id (dep ∷ deps) g k =
    rw k.0 (add_dependencies-known ids id deps (add_edge dep id g) k.1)

-- Nothing but an unknown dependency is refused.
pub build-known :
    (ids : List String) (ss : List WorkflowStep) (g : Graph)
    → KnownDeps ids ss
    → (h : Graph) × (build ids ss g ≡ ok h)
unfolding build
build-known ids [] g k = (g, refl)
build-known ids (s ∷ ss) g k =
    let (m, a) = add_dependencies-known ids s.id s.depends_on g k.0 in
    rw a (build-known ids ss m k.1)
