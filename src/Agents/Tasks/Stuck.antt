-- ===== src/Agents/Tasks/Stuck.antt =====
-- The deadlock handling of the loop (loop.py 168-175): every turn of it leaves fewer pending tasks.
use era_ai.Prelude.{
  ◌≤◌, ◌<◌, String, ◌≡◌, ◌⊎◌, refl, sym, ap, ◌∙◌, subst, Bool, true, ◌&&◌, List, [], ◌∷◌, length,
  any, Bool-cases, inl, inr, str_eq, eq_iff, arith,
}
use era_ai.Agents.Tasks.{
  Task, is_pending, filter, update, skip, pending, blocked_pending, has_pending,
}

abbrev pub unsatisfied : String
unsatisfied = "dependency could not be satisfied (failed, cycle or unknown dependency)"

-- `blocked or tm.pending()`
or_pending : List Task → List Task → List Task
or_pending [] others = others
or_pending (t ∷ ts) others = t ∷ ts

unfoldable pub skip_all : List Task → List Task → List Task
skip_all [] table = table
skip_all (dead ∷ rest) table = skip_all rest (update dead.id (skip unsatisfied) table)

unfoldable pub skip_stuck : List Task → List Task
unfolding or_pending skip_all
skip_stuck table = skip_all (or_pending (blocked_pending table) (pending table)) table

skipped-le :
    (id : String) (table : List Task)
    → length (pending (update id (skip unsatisfied) table)) ≤ length (pending table)
unfolding pending filter update skip
skipped-le id [] = omega arith
skipped-le id (t ∷ ts) = ground (arith, skipped-le id ts)

skip_all-le :
    (dead table : List Task) → length (pending (skip_all dead table)) ≤ length (pending table)
unfolding skip_all
skip_all-le [] table = omega arith
skip_all-le (t ∷ ts) table =
    omega (arith, skipped-le t.id table, skip_all-le ts (update t.id (skip unsatisfied) table))

-- A task of the table that is pending, by its id.
has_pending_id : String → List Task → Bool
has_pending_id id table = any (λ t. is_pending t.status && str_eq t.id id) table

skipped-lt :
    (id : String) (table : List Task)
    → has_pending_id id table ≡ true
    → length (pending (update id (skip unsatisfied) table)) < length (pending table)
unfolding pending filter update skip has_pending_id
skipped-lt id [] h = ground (arith, h)
skipped-lt id (t ∷ ts) h = ground (arith, skipped-le id ts, skipped-lt id ts)

-- The first of a selection of pending tasks is a pending task of the table.
filter-first :
    (p : Task → Bool) (table : List Task) (t : Task) (ts : List Task)
    → ((u : Task) → p u ≡ true → is_pending u.status ≡ true)
    → filter p table ≡ t ∷ ts
    → has_pending_id t.id table ≡ true
unfolding filter has_pending_id
filter-first p [] t ts k h = ground (arith, h)
filter-first p (u ∷ us) t ts k h = elim (Bool-cases (p u)) [
  | inl q ↦
      let same = ap (λ l. elim l [ [] ↦ t | x ∷ xs ↦ x ]) (rw q at h) in
      rw (sym same) (ground (arith, k u q, eq_iff u.id u.id))
  | inr q ↦ ground (arith, filter-first p us t ts k (rw q at h))
]

list-cases : (xs : List Task) → (xs ≡ []) ⊎ ((t : Task) × ((ts : List Task) × (xs ≡ t ∷ ts)))
list-cases [] = inl refl
list-cases (t ∷ ts) = inr (t, (ts, refl))

pending-cons :
    (table : List Task)
    → has_pending table ≡ true
    → (t : Task) × ((ts : List Task) × (pending table ≡ t ∷ ts))
unfolding has_pending pending filter
pending-cons [] h = ground (arith, h)
pending-cons (t ∷ ts) h = elim (Bool-cases (is_pending t.status)) [
  | inl q ↦ (t, (filter (λ t. is_pending t.status) ts, rw q refl))
  | inr q ↦ rw q (pending-cons ts (rw q at h))
]

skip_all-lt :
    (t : Task) (ts table : List Task)
    → has_pending_id t.id table ≡ true
    → length (pending (skip_all (t ∷ ts) table)) < length (pending table)
unfolding skip_all
skip_all-lt t ts table h =
    omega (arith, skipped-lt t.id table h, skip_all-le ts (update t.id (skip unsatisfied) table))

chosen-cons :
    (table : List Task)
    → has_pending table ≡ true
    → (t : Task) × ((ts : List Task) × (or_pending (blocked_pending table) (pending table) ≡ t ∷ ts)
        × (has_pending_id t.id table ≡ true))
unfolding or_pending blocked_pending pending
chosen-cons table h = elim (list-cases (blocked_pending table)) [
  | inl q ↦
      let (t, (ts, r)) = pending-cons table h in
      (
        t,
        (
          ts,
          ap (λ l. or_pending l (pending table)) q ∙ r,
          filter-first (λ u. is_pending u.status) table t ts (λ u k. k) r,
        ),
      )
  | inr (t, (ts, q)) ↦ (
    t,
    (
      ts,
      ap (λ l. or_pending l (pending table)) q,
      filter-first _ table t ts (λ u k. ground (arith, k)) q,
    ),
  )
]

-- Whenever a task is pending, the deadlock handling leaves strictly fewer pending tasks.
pub skip_stuck-lt :
    (table : List Task)
    → has_pending table ≡ true
    → length (pending (skip_stuck table)) < length (pending table)
unfolding skip_stuck
skip_stuck-lt table h =
    let (t, (ts, q, k)) = chosen-cons table h in
    subst (λ dead. length (pending (skip_all dead table)) < length (pending table)) (sym q)
      (skip_all-lt t ts table k)
