-- ===== src/Workflow/Engine/Ready.antt =====
-- `_ready_indices` and the choice of a batch: pending steps, in the order of their indices.
use era_ai.Prelude.{
  ℕ, zero, suc, ◌+◌, ◌≤◌, ◌≡◌, subst, Bool, true, ◌&&◌, List, [], ◌∷◌, min, length, All, leb, ltb,
  Bool-cases, inl, inr, arith,
}
use era_ai.Workflow.Definition.{WorkflowParallelBlock, WorkflowStep, WorkflowDefinition}
use era_ai.Workflow.Run.{is_pending, StepRow, status_at}
use era_ai.Workflow.Run.Rows.{pending_at}
use era_ai.Workflow.Engine.{deps_ok, ready_from, in_block, keep, take, least, choose_from}

-- Increasing indices, from a bound on.
abbrev pub Above : ℕ → List ℕ → Type 0
Above n [] = Unit
Above n (i ∷ is) = (n ≤ i) × Above (suc i) is

Above-le : (m n : ℕ) (is : List ℕ) → m ≤ n → Above n is → Above m is
Above-le m n [] h a = tt
Above-le m n (i ∷ is) h a = (omega (arith, h, a.0), a.1)

keep-Above : (p : ℕ → Bool) (n : ℕ) (is : List ℕ) → Above n is → Above n (keep p is)
unfolding keep
keep-Above p n [] a = tt
keep-Above p n (i ∷ is) a = elim (Bool-cases (p i)) [
  | inl q ↦ rw q (a.0, keep-Above p (suc i) is a.1)
  | inr q ↦ rw q (keep-Above p n is (Above-le n (suc i) is (omega (arith, a.0)) a.1))
]

take-Above : (k n : ℕ) (is : List ℕ) → Above n is → Above n (take k is)
unfolding take
take-Above zero n is a = tt
take-Above (suc k) n [] a = tt
take-Above (suc k) n (i ∷ is) a = (a.0, take-Above k (suc i) is a.1)

pub ready_from-Above :
    (d : WorkflowDefinition) (rows : List StepRow) (i : ℕ) (ss : List WorkflowStep)
    → Above i (ready_from d rows i ss)
unfolding ready_from
ready_from-Above d rows i [] = tt
ready_from-Above d rows i (s ∷ ss) =
    let one : i + 1 ≡ suc i = omega arith in
    let rest : Above (suc i) (ready_from d rows (i + 1) ss) =
      subst (λ k. Above k (ready_from d rows (i + 1) ss)) one
        (ready_from-Above d rows (i + 1) ss) in
    elim (Bool-cases (is_pending (status_at i rows) && deps_ok d rows s.depends_on)) [
      | inl q ↦ rw q (omega arith, rest)
      | inr q ↦ rw q (Above-le i (suc i) _ (omega arith) rest)
    ]

abbrev pub AllPending : List StepRow → List ℕ → Type 0
AllPending rows = All (λ j. pending_at j rows ≡ true)

keep-All : (P : ℕ → Type 0) (p : ℕ → Bool) (is : List ℕ) → All P is → All P (keep p is)
unfolding keep
keep-All P p [] a = tt
keep-All P p (i ∷ is) a = elim (Bool-cases (p i)) [
  | inl q ↦ rw q (a.0, keep-All P p is a.1)
  | inr q ↦ rw q (keep-All P p is a.1)
]

take-All : (P : ℕ → Type 0) (k : ℕ) (is : List ℕ) → All P is → All P (take k is)
unfolding take
take-All P zero is a = tt
take-All P (suc k) [] a = tt
take-All P (suc k) (i ∷ is) a = (a.0, take-All P k is a.1)

min-either : (P : ℕ → Type 0) (a b : ℕ) → P a → P b → P (min a b)
min-either P a b p q = elim (Bool-cases (ltb a b)) [
  | inl h ↦ subst P (ground (arith, h)) p
  | inr h ↦ subst P (ground (arith, h)) q
]

least-All : (P : ℕ → Type 0) (i : ℕ) (is : List ℕ) → P i → All P is → P (least i is)
unfolding least
least-All P i [] p a = p
least-All P i (j ∷ js) p a = least-All P (min i j) js (min-either P i j p a.0) a.1

pub ready_from-pending :
    (d : WorkflowDefinition) (rows : List StepRow) (i : ℕ) (ss : List WorkflowStep)
    → AllPending rows (ready_from d rows i ss)
unfolding ready_from
ready_from-pending d rows i [] = tt
ready_from-pending d rows i (s ∷ ss) =
    let rest = ready_from-pending d rows (i + 1) ss in
    elim (Bool-cases (is_pending (status_at i rows) && deps_ok d rows s.depends_on)) [
      | inl q ↦ rw q (ground (arith, q), rest)
      | inr q ↦ rw q rest
    ]

-- A batch is of ready steps, each once.
pub choose_from-ready :
    (P : ℕ → Type 0) (limit : ℕ) (d : WorkflowDefinition) (bs : List WorkflowParallelBlock) (i : ℕ)
    (is : List ℕ)
    → Above 0 (i ∷ is)
    → All P (i ∷ is)
    → Above 0 (choose_from limit d bs i is) × All P (choose_from limit d bs i is)
unfolding choose_from
choose_from-ready P limit d [] i is a p = ((omega arith, tt), (least-All P i is p.0 p.1, tt))
choose_from-ready P limit d (b ∷ bs) i is a p =
    let rest = choose_from-ready P limit d bs i is a p in
    let group = keep (in_block d b) (i ∷ is) in
    elim (Bool-cases (leb b.max_concurrency 1)) [
      | inl q ↦ rw q rest
      | inr q ↦ rw q (elim (Bool-cases (ltb 1 (length group))) [
        | inl w ↦ rw w (
          take-Above (min b.max_concurrency limit) 0 group (keep-Above (in_block d b) 0 (i ∷ is) a),
          take-All P (min b.max_concurrency limit) group (keep-All P (in_block d b) (i ∷ is) p),
        )
        | inr w ↦ rw w rest
      ])
    ]
