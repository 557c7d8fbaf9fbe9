-- ===== src/Workflow/Dag/Acyclic.antt =====
-- `_validate_dag` accepts exactly the bounded graphs with no cycle.
use era_ai.Prelude.{
  ℕ, zero, suc, ◌≤◌, ◌<◌, String, ◌≡◌, ◌↔◌, refl, subst, true, false, not, some, List, [], ◌∷◌,
  ◌++◌, length, All, All-map, All-append, any, elem, ltb, str_eq, eq_iff, Bool-cases, inl, inr,
  if◌then◌else◌, arith,
}
use era_ai.Prelude.Counts.{
  count, all_distinct, elem-count, count-elem, count-distinct, count-le_of_length,
  length-le_of_count,
}
use era_ai.Prelude.Results.{ok, ◌>>=◌, IfOk, >>=-ok, refuse_if-passed}
use era_ai.Workflow.Definition.{duplicate_step, WorkflowStep, WorkflowDefinition}
use era_ai.Workflow.Dag.{
  Graph, ids_of, no_edges, build, roots, sort_all, all_seen, check_graph, validate_dag,
}
use era_ai.Workflow.Dag.Built.{deps_of, mentions, KnownDeps, Built, build-Built, build-known}
use era_ai.Workflow.Dag.Kahn.{
  waiting_for, Topological, Sorting, Sorting-length, kahn-Sorting, Sorting-start,
}

-- A number for every step that its dependencies stay below: there is no cycle.
abbrev pub Acyclic : List WorkflowStep → Type 0
Acyclic steps =
    (rank : String → ℕ) × All (λ (s : WorkflowStep). All (λ dep. rank dep < rank s.id) s.depends_on)
      steps

-- What the validation asks for, without a graph or a sort.
pub record IsDag (d : WorkflowDefinition) : Type 0 where
  pub distinct : all_distinct (ids_of d.steps) ≡ true
  pub known : KnownDeps (ids_of d.steps) d.steps
  pub fan_out : All (λ u. mentions d.steps u ≤ 8) (ids_of d.steps)
  pub acyclic : Acyclic d.steps

-- The number of steps that were done before.
rank_of : List String → String → ℕ
rank_of [] v = 0
rank_of (u ∷ older) v =
    let before = rank_of older v in if elem v older then before else suc (length older)

rank_of-le : (order : List String) (v : String) → rank_of order v ≤ length order
unfolding rank_of
rank_of-le [] v = omega arith
rank_of-le (u ∷ older) v = ground (arith, rank_of-le older v)

rank_of-older :
    (u v : String) (older : List String)
    → elem v older ≡ true
    → rank_of (u ∷ older) v ≡ rank_of older v
unfolding rank_of
rank_of-older u v older h = rw h refl

All-and {ℓ} :
    {A : Type 0} {P Q R : A → Type ℓ} (xs : List A)
    → ((x : A) → P x → Q x → R x)
    → All P xs
    → All Q xs
    → All R xs
All-and [] f p q = tt
All-and (x ∷ xs) f p q = (f x p.0 q.0, All-and xs f p.1 q.1)

-- In a topological order every dependency has the lower rank.
rank_of-lt :
    (deps : String → List String) (order : List String) (v : String)
    → Topological deps order
    → elem v order ≡ true
    → All (λ dep. (elem dep order ≡ true) × (rank_of order dep < rank_of order v)) (deps v)
unfolding rank_of
rank_of-lt deps [] v t h = ground (arith, h)
rank_of-lt deps (u ∷ older) v t h = elim (Bool-cases (elem v older)) [
  | inl q ↦
      All-map _ _
        (λ dep k. ground (arith, k, q, rank_of-older u dep older, rank_of-older u v older)) (deps v)
        (rank_of-lt deps older v t.1 q)
  | inr q ↦
      let same : u ≡ v = ground (arith, h, q, eq_iff v u) in
      All-map _ _
        (λ dep (k : elem dep older ≡ true).
          ground (arith, k, q, rank_of-older u dep older k, rank_of-le older dep))
        (deps v) (subst (λ w. All (λ dep. elem dep older ≡ true) (deps w)) same t.0)
]

All-append_left {ℓ} : {A : Type 0} (P : A → Type ℓ) (xs ys : List A) → All P (xs ++ ys) → All P xs
All-append_left P [] ys h = tt
All-append_left P (x ∷ xs) ys h = (h.0, All-append_left P xs ys h.1)

All-append_right {ℓ} : {A : Type 0} (P : A → Type ℓ) (xs ys : List A) → All P (xs ++ ys) → All P ys
All-append_right P [] ys h = h
All-append_right P (x ∷ xs) ys h = All-append_right P xs ys h.1

-- What holds of the dependencies under every id holds of those of every step, and back.
by_step :
    (P : String → String → Type 0) (ss : List WorkflowStep)
    → ((v : String) → All (P v) (deps_of ss v))
    → All (λ (s : WorkflowStep). All (P s.id) s.depends_on) ss
by_step P [] h = tt
by_step P (s ∷ ss) h = (
  All-append_left (P s.id) s.depends_on (deps_of ss s.id) (
      subst (λ b. All (P s.id) (if b then s.depends_on ++ deps_of ss s.id else deps_of ss s.id))
        ((eq_iff s.id s.id).1 refl) (h s.id)),
  by_step P ss λ v. elim (Bool-cases (str_eq s.id v)) [
    | inl q ↦ All-append_right (P v) s.depends_on (deps_of ss v) (rw q at (h v))
    | inr q ↦ (rw q at (h v))
  ],
)

by_id :
    (P : String → String → Type 0) (ss : List WorkflowStep)
    → All (λ (s : WorkflowStep). All (P s.id) s.depends_on) ss
    → (v : String) → All (P v) (deps_of ss v)
by_id P [] h v = tt
by_id P (s ∷ ss) h v = elim (Bool-cases (str_eq s.id v)) [
  | inl q ↦ rw q (
      All-append (P v) s.depends_on (deps_of ss v)
        (subst (λ w. All (P w) s.depends_on) ((eq_iff s.id v).0 q) h.0) (by_id P ss h.1 v))
  | inr q ↦ rw q (by_id P ss h.1 v)
]

-- Only a step has dependencies.
only_steps :
    (ss : List WorkflowStep) (u v : String) → 0 < count u (deps_of ss v) → elem v (ids_of ss) ≡ true
only_steps [] u v h = ground (arith, h)
only_steps (s ∷ ss) u v h = ground (arith, h, only_steps ss u v, eq_iff s.id v, eq_iff v s.id)

no_deps : (ss : List WorkflowStep) (v : String) → elem v (ids_of ss) ≡ false → deps_of ss v ≡ []
no_deps [] v h = refl
no_deps (s ∷ ss) v h = ground (arith, h, no_deps ss v, eq_iff s.id v, eq_iff v s.id)

All-done :
    (done deps : List String) → All (λ dep. elem dep done ≡ true) deps → waiting_for done deps ≡ 0
All-done done [] h = refl
All-done done (dep ∷ deps) h = ground (arith, h, All-done done deps h.1)

-- The sort of a graph that is built of the steps.
module _ (ss : List WorkflowStep) (distinct : all_distinct (ids_of ss) ≡ true) where
  abbrev ids : List String
  ids = ids_of ss

  sorted :
      (g : Graph)
      → Built ss no_edges g
      → (done : List String) × ((left : String → ℕ) × (sort_all ids g ≡ some (length done))
          × Sorting ids (deps_of ss) done [] left)
  unfolding sort_all
  sorted g b =
      kahn-Sorting ids g.edges (deps_of ss) (λ u v. omega (arith, b.counts u v)) (only_steps ss)
        (length ids) [] (roots g.indegree ids) g.indegree 0
        (Sorting-start ids (deps_of ss) g.indegree distinct (λ v. omega (arith, b.degrees v)))
        (omega arith) refl

  -- If all were done, the order of the sort has no cycle.
  done-Acyclic :
      (done : List String) (left : String → ℕ)
      → Sorting ids (deps_of ss) done [] left
      → length ids ≤ length done
      → Acyclic ss
  done-Acyclic done left s l = (
    rank_of done,
    by_step (λ v dep. rank_of done dep < rank_of done v) ss
        λ v. elim (Bool-cases (elem v ids)) [
          | inl q ↦
              let full =
                count-le_of_length done ids v (λ t. ground (arith, s.once t, elem-count t ids)) l in
              All-map _ _ (λ dep k. k.1) (deps_of ss v)
                (rank_of-lt (deps_of ss) done v s.topological
                  (count-elem v done (omega (arith, full, elem-count v ids q))))
          | inr q ↦ rw (no_deps ss v q) tt
        ],
  )

  -- If there is no cycle, all were done: by the rank.
  Acyclic-done :
      (done : List String) (left : String → ℕ) (rank : String → ℕ)
      → Sorting ids (deps_of ss) done [] left
      → KnownDeps ids ss
      → All (λ (s : WorkflowStep). All (λ dep. rank dep < rank s.id) s.depends_on) ss
      → (n : ℕ) (v : String) → rank v < n
      → elem v ids ≡ true
      → elem v done ≡ true
  Acyclic-done done left rank s known r zero v l q = absurd (omega (arith, l))
  Acyclic-done done left rank s known r (suc n) v l q =
      let deps_done =
        All-and (deps_of ss v)
          (λ dep (k : elem dep ids ≡ true) (below : rank dep < rank v).
            Acyclic-done done left rank s known r n dep (omega (arith, below, l)) k)
          (by_id (λ w dep. elem dep ids ≡ true) ss known v)
          (by_id (λ w dep. rank dep < rank w) ss r v) in
      count-elem v done
        (ground (arith, s.once v, s.left v, q, All-done done (deps_of ss v) deps_done))

  -- The sort sees every step exactly if there is no cycle.
  all_seen_iff :
      (g : Graph)
      → Built ss no_edges g
      → KnownDeps ids ss
      → (all_seen (length ids) (sort_all ids g) ≡ true) ↔ Acyclic ss
  unfolding all_seen
  all_seen_iff g b known =
      let (done, (left, e, s)) = sorted g b in
      (
        λ h. done-Acyclic done left s (ground (arith, (rw e at h))),
        λ (rank, r).
            let reached = λ (v : String) (q : elem v ids ≡ true).
              elem-count v done
                (Acyclic-done done left rank s known r (suc (rank v)) v (omega arith) q) in
            let upper = length-le_of_count ids done (λ v. elim (Bool-cases (elem v ids)) [
              | inl q ↦ ground (arith, q, count-distinct v ids distinct, reached v q)
              | inr q ↦ ground (arith, q, count-distinct v ids distinct)
            ]) in
            let lower =
              Sorting-length ids g.edges (deps_of ss) (λ u v. omega (arith, b.counts u v))
                (only_steps ss) done [] left s in
            rw e (ground (arith, upper, lower)),
      )

fan_out_iff :
    (ss : List WorkflowStep) (g : Graph) (xs : List String)
    → Built ss no_edges g
    → (any (λ v. ltb 8 (length (g.edges v))) xs ≡ false) ↔ All (λ u. mentions ss u ≤ 8) xs
fan_out_iff ss g [] b = (λ h. tt, λ h. refl)
fan_out_iff ss g (x ∷ xs) b =
    let rest = fan_out_iff ss g xs b in
    (
      λ h. (ground (arith, h, b.lengths x), rest.0 (ground (arith, h))),
      λ h. ground (arith, h.0, b.lengths x, rest.1 h.1),
    )

built :
    (ids : List String) (ss : List WorkflowStep) (g : Graph)
    → build ids ss no_edges ≡ ok g
    → KnownDeps ids ss × Built ss no_edges g
built ids ss g e =
    subst (IfOk (λ h. KnownDeps ids ss × Built ss no_edges h)) e (build-Built ids ss no_edges)

check_graph_iff :
    (ids : List String) (g : Graph)
    → (check_graph ids g ≡ ok tt) ↔ (
        (any (λ v. ltb 8 (length (g.edges v))) ids ≡ false)
        × (all_seen (length ids) (sort_all ids g) ≡ true))
unfolding check_graph
check_graph_iff ids g = (λ h. ground (arith, h), λ h. ground (arith, h))

-- A definition passes `_validate_dag` exactly if no step id is declared twice, every dependency is a
-- step, the lists `depends_on` name no step more than eight times in all, where a list that repeats a step
-- counts as often, and the dependencies have no cycle.
pub validate_dag_iff : (d : WorkflowDefinition) → (validate_dag d ≡ ok tt) ↔ IsDag d
unfolding validate_dag
validate_dag_iff d =
    let ids = ids_of d.steps in
    (
      λ h.
          let (unique, h1) =
            refuse_if-passed (not (all_distinct ids)) duplicate_step
              (build ids d.steps no_edges >>= check_graph ids) tt h in
          let (g, e, h2) = >>=-ok (build ids d.steps no_edges) (check_graph ids) tt h1 in
          let (known, b) = built ids d.steps g e in
          let distinct : all_distinct ids ≡ true = ground (arith, unique) in
          let (narrow, seen) = (check_graph_iff ids g).0 h2 in
          record {
            distinct = distinct;
            known = known;
            fan_out = (fan_out_iff d.steps g ids b).0 narrow;
            acyclic = (all_seen_iff d.steps distinct g b known).0 seen;
          },
      λ k.
          let (g, e) = build-known ids d.steps no_edges k.known in
          let b = (built ids d.steps g e).1 in
          rw (k.distinct, e)
            ((check_graph_iff ids g).1 (
              (fan_out_iff d.steps g ids b).1 k.fan_out,
              (all_seen_iff d.steps k.distinct g b k.known).1 k.acyclic,
            )),
    )
