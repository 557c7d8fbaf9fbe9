-- ===== src/Workflow/Dag/Kahn.antt =====
-- The invariant of the sort: the number of what is left to wait for, and that a step is queued or done,
-- once, exactly if it waits for nothing.
use era_ai.Prelude.{
  ℕ, zero, suc, ◌+◌, ◌-◌, ◌≤◌, ◌<◌, String, ◌≡◌, refl, sym, ap, ◌∙◌, Bool, true, false, ◌&&◌, some,
  List, [], ◌∷◌, ◌++◌, length, length-append, All, elem, ltb, ◌==◌, str_eq, eq_iff, Bool-cases, inl,
  inr, if◌then◌else◌, arith,
}
use era_ai.Prelude.Counts.{
  count, count-append, elem-count, count-distinct, length-le_of_count, all_distinct,
}
use era_ai.Workflow.Dag.{relax, kahn, roots}

-- What one relaxation leaves of a degree, and that it queues what falls to zero, once.
relax-degree :
    (ts : List String) (f : String → ℕ) (queue : List String)
    → ((v : String) → count v ts ≤ f v)
    → (v : String) → (relax ts f queue).0 v + count v ts ≡ f v
unfolding relax
relax-degree [] f queue h v = omega arith
relax-degree (t ∷ ts) f queue h v =
    let g = λ (x : String). if str_eq t x then f t - 1 else f x in
    let below : (x : String) → count x ts ≤ g x =
      λ x. ground (arith, h x, h t, eq_iff t x, eq_iff t t) in
    ground (
      arith,
      h v,
      h t,
      eq_iff t v,
      eq_iff t t,
      relax-degree ts g (if (f t - 1) == 0 then queue ++ t ∷ [] else queue) below v,
    )

count-grown :
    (v t : String) (queue : List String) (b : Bool)
    → count v (if b then queue ++ t ∷ [] else queue)
      ≡ count v queue + (if b && str_eq t v then 1 else 0)
count-grown v t queue true = ground (arith, count-append v queue (t ∷ []))
count-grown v t queue false = omega arith

relax-queue :
    (ts : List String) (f : String → ℕ) (queue : List String)
    → ((v : String) → count v ts ≤ f v)
    → (v : String)
    → count v (relax ts f queue).1
      ≡ count v queue + (if ltb 0 (count v ts) && (f v == count v ts) then 1 else 0)
unfolding relax
relax-queue [] f queue h v = omega arith
relax-queue (t ∷ ts) f queue h v =
    let g = λ (x : String). if str_eq t x then f t - 1 else f x in
    let below : (x : String) → count x ts ≤ g x =
      λ x. ground (arith, h x, h t, eq_iff t x, eq_iff t t) in
    let grown = if (f t - 1) == 0 then queue ++ t ∷ [] else queue in
    ground (
      arith,
      h v,
      h t,
      below v,
      eq_iff t v,
      eq_iff t t,
      count-grown v t queue ((f t - 1) == 0),
      relax-queue ts g grown below v,
    )

-- How many of the dependencies are not done yet.
abbrev pub waiting_for : List String → List String → ℕ
waiting_for order [] = 0
waiting_for order (dep ∷ deps) =
    let rest = waiting_for order deps in if elem dep order then rest else suc rest

-- One more is done.
waiting_for-done :
    (u : String) (order deps : List String)
    → elem u order ≡ false
    → waiting_for (u ∷ order) deps + count u deps ≡ waiting_for order deps
waiting_for-done u order [] h = omega arith
waiting_for-done u order (dep ∷ deps) h =
    ground (arith, waiting_for-done u order deps h, eq_iff dep u, eq_iff u dep, h)

count-waiting_for :
    (u : String) (order deps : List String)
    → elem u order ≡ false
    → count u deps ≤ waiting_for order deps
count-waiting_for u order deps h = omega (arith, waiting_for-done u order deps h)

waiting_for_none :
    (order deps : List String)
    → waiting_for order deps ≡ 0
    → All (λ dep. elem dep order ≡ true) deps
waiting_for_none order [] h = tt
waiting_for_none order (dep ∷ deps) h = ground (arith, h, waiting_for_none order deps)

-- Every step comes behind its dependencies; the last done stands first.
abbrev pub Topological : (String → List String) → List String → Type 0
Topological deps [] = Unit
Topological deps (u ∷ older) = All (λ dep. elem dep older ≡ true) (deps u) × Topological deps older

pub record Sorting (ids : List String) (deps : String → List String) (order queue : List String)
    (f : String → ℕ) : Type 0 where
  pub left : (v : String) → f v ≡ waiting_for order (deps v)
  pub once :
      (v : String) → count v queue + count v order ≡ (if elem v ids && (f v == 0) then 1 else 0)
  pub topological : Topological deps order

module _ (ids : List String) (edges deps : String → List String)
    (edge_counts : (u v : String) → count v (edges u) ≡ count u (deps v))
    (only_steps : (u v : String) → 0 < count u (deps v) → elem v ids ≡ true) where
  relax-Sorting :
      (order queue : List String) (u : String) (f : String → ℕ)
      → Sorting ids deps order (u ∷ queue) f
      → Sorting ids deps (u ∷ order) (relax (edges u) f queue).1 (relax (edges u) f queue).0
  relax-Sorting order queue u f s =
      let fresh : elem u order ≡ false = elim (Bool-cases (elem u order)) [
        | inl q ↦ ground (arith, s.once u, elem-count u order q, eq_iff u u)
        | inr q ↦ q
      ] in
      let at_zero : f u ≡ 0 = ground (arith, s.once u, eq_iff u u) in
      let below : (v : String) → count v (edges u) ≤ f v =
        λ v. omega (arith, edge_counts u v, s.left v, count-waiting_for u order (deps v) fresh) in
      record {
        left = λ v. omega (
          arith,
          relax-degree (edges u) f queue below v,
          edge_counts u v,
          s.left v,
          waiting_for-done u order (deps v) fresh,
        );
        once = λ v. ground (
          arith,
          s.once v,
          relax-queue (edges u) f queue below v,
          relax-degree (edges u) f queue below v,
          edge_counts u v,
          only_steps u v,
          below v,
          eq_iff u v,
          at_zero,
        );
        topological = (waiting_for_none order (deps u) (sym (s.left u) ∙ at_zero), s.topological);
      }

  -- What is queued or done is no more than the steps.
  pub Sorting-length :
      (order queue : List String) (f : String → ℕ)
      → Sorting ids deps order queue f
      → length queue + length order ≤ length ids
  Sorting-length order queue f s = rw (← length-append queue order) (
      length-le_of_count (queue ++ order) ids
        (λ v. ground (arith, s.once v, count-append v queue order, elem-count v ids)))

  -- The loop ends within its fuel, at an empty queue.
  pub kahn-Sorting :
      (fuel : ℕ) (order queue : List String) (f : String → ℕ) (seen : ℕ)
      → Sorting ids deps order queue f
      → length ids ≤ length order + fuel
      → seen ≡ length order
      → (done : List String) × ((left : String → ℕ) × (kahn edges fuel f queue seen
            ≡ some (length done))
          × Sorting ids deps done [] left)
  unfolding kahn
  kahn-Sorting fuel order [] f seen s h e = (order, (f, ap some e, s))
  kahn-Sorting zero order (u ∷ queue) f seen s h e =
      absurd (omega (arith, h, Sorting-length order (u ∷ queue) f s))
  kahn-Sorting (suc fuel) order (u ∷ queue) f seen s h e =
      kahn-Sorting fuel (u ∷ order) (relax (edges u) f queue).1 (relax (edges u) f queue).0
        (seen + 1) (relax-Sorting order queue u f s) (omega (arith, h)) (omega (arith, e))

count-roots :
    (f : String → ℕ) (ids : List String) (v : String)
    → count v (roots f ids) ≡ (if f v == 0 then count v ids else 0)
unfolding roots
count-roots f [] v = ground arith
count-roots f (id ∷ ids) v = ground (arith, count-roots f ids v, eq_iff id v)

waiting_for_all : (deps : List String) → waiting_for [] deps ≡ length deps
waiting_for_all [] = refl
waiting_for_all (dep ∷ deps) = ap suc (waiting_for_all deps)

-- The sort begins with the steps that have no dependency.
pub Sorting-start :
    (ids : List String) (deps : String → List String) (f : String → ℕ)
    → all_distinct ids ≡ true
    → ((v : String) → f v ≡ length (deps v))
    → Sorting ids deps [] (roots f ids) f
Sorting-start ids deps f d h = record {
  left = λ v. h v ∙ sym (waiting_for_all (deps v));
  once = λ v. ground (arith, count-roots f ids v, count-distinct v ids d);
  topological = tt;
}
