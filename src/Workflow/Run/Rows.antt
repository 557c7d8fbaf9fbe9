-- ===== src/Workflow/Run/Rows.antt =====
-- How a change of a row shows in the status of a step, and what a step of the engine sends.
use era_ai.Prelude.{
  ℕ, suc, ◌+◌, ◌≤◌, String, ◌≡◌, refl, sym, ap, ◌∙◌, Bool, true, false, Option, none, some, List,
  [], ◌∷◌, ◌++◌, ◌==◌, ==_iff, Bool-cases, Option-cases, inl, inr, if◌then◌else◌, arith,
}
use era_ai.Value.{Value}
use era_ai.Workflow.Run.{
  StepStatus, is_pending, StepRow, Sent, EngineState, row_at, update_row, status_of, status_at,
  Message, mark_step,
}

abbrev pub pending_at : ℕ → List StepRow → Bool
pending_at i rows = is_pending (status_at i rows)

-- How often the action of a step was requested.
abbrev pub sent_count : ℕ → List Sent → ℕ
sent_count i [] = 0
sent_count i (m ∷ ms) =
    let rest = sent_count i ms in
    elim m.step [ none ↦ rest | some j ↦ if j == i then suc rest else rest ]

pub sent_count-append :
    (i : ℕ) (xs ys : List Sent) → sent_count i (xs ++ ys) ≡ sent_count i xs + sent_count i ys
sent_count-append i [] ys = omega arith
sent_count-append i (m ∷ ms) ys = ground (arith, sent_count-append i ms ys)

-- A change that keeps the index and makes nothing pending.
pub record IsSettling (f : StepRow → StepRow) : Type 0 where
  pub index : (r : StepRow) → (f r).step_index ≡ r.step_index
  pub settles : (r : StepRow) → is_pending (f r).status ≡ true → is_pending r.status ≡ true

map_row : (StepRow → StepRow) → Option StepRow → Option StepRow
map_row f none = none
map_row f (some r) = some (f r)

row_at-update :
    (f : StepRow → StepRow) (idx i : ℕ) (rows : List StepRow)
    → ((r : StepRow) → (f r).step_index ≡ r.step_index)
    → row_at i (update_row idx f rows)
      ≡ map_row (λ r. if r.step_index == idx then f r else r) (row_at i rows)
unfolding row_at update_row map_row
row_at-update f idx i [] h = refl
row_at-update f idx i (r ∷ rs) h = ground (arith, row_at-update f idx i rs h, h r)

pub row_at-index :
    (i : ℕ) (rows : List StepRow) (r : StepRow) → row_at i rows ≡ some r → r.step_index ≡ i
unfolding row_at
row_at-index i [] r h = ground (arith, h)
row_at-index i (q ∷ qs) r h = elim (Bool-cases (q.step_index == i)) [
  | inl e ↦
      ap (λ o. elim o [ none ↦ i | some x ↦ x.step_index ]) (sym (rw e at h))
      ∙ (==_iff q.step_index i).0 e
  | inr e ↦ row_at-index i qs r (rw e at h)
]

pub status_at-row_at : (i : ℕ) (rows : List StepRow) → status_at i rows ≡ status_of (row_at i rows)
unfolding status_at
status_at-row_at i rows = refl

settled_row :
    (f : StepRow → StepRow) (idx : ℕ) (o : Option StepRow)
    → IsSettling f
    → is_pending (status_of (map_row (λ r. if r.step_index == idx then f r else r) o)) ≡ true
    → is_pending (status_of o) ≡ true
unfolding map_row
settled_row f idx none s h = refl
settled_row f idx (some r) s h = ground (arith, h, s.settles r)

-- No settling change makes a step pending.
pub update-pending :
    (f : StepRow → StepRow) (idx i : ℕ) (rows : List StepRow)
    → IsSettling f
    → pending_at i (update_row idx f rows) ≡ true
    → pending_at i rows ≡ true
update-pending f idx i rows s h = rw (status_at-row_at i rows) (
    settled_row f idx (row_at i rows) s
      (rw (status_at-row_at i (update_row idx f rows), row_at-update f idx i rows s.index) at h))

other_row :
    (f : StepRow → StepRow) (idx i : ℕ) (r : StepRow)
    → r.step_index ≡ i
    → (idx == i) ≡ false
    → (if r.step_index == idx then f r else r) ≡ r
other_row f idx i r k e = ground (arith, k, e)

-- A change of another row is not seen.
pub update-other :
    (f : StepRow → StepRow) (idx i : ℕ) (rows : List StepRow)
    → ((r : StepRow) → (f r).step_index ≡ r.step_index)
    → (idx == i) ≡ false
    → row_at i (update_row idx f rows) ≡ row_at i rows
unfolding map_row
update-other f idx i rows h e = elim (Option-cases (row_at i rows)) [
  | inl q ↦ row_at-update f idx i rows h ∙ rw q refl
  | inr (r, q) ↦
      row_at-update f idx i rows h
      ∙ rw q (ap some (other_row f idx i r (row_at-index i rows r q) e))
]

pub pending-other :
    (f : StepRow → StepRow) (idx i : ℕ) (rows : List StepRow)
    → ((r : StepRow) → (f r).step_index ≡ r.step_index)
    → (idx == i) ≡ false
    → pending_at i (update_row idx f rows) ≡ pending_at i rows
pending-other f idx i rows h e =
    rw
      (
        status_at-row_at i (update_row idx f rows),
        status_at-row_at i rows,
        update-other f idx i rows h e,
      )
      refl

own_row :
    (f : StepRow → StepRow) (idx : ℕ) (r : StepRow)
    → r.step_index ≡ idx
    → (if r.step_index == idx then f r else r) ≡ f r
own_row f idx r k = ground (arith, k)

-- A change of a row that there is.
pub update-own :
    (f : StepRow → StepRow) (idx : ℕ) (rows : List StepRow) (r : StepRow)
    → ((q : StepRow) → (f q).step_index ≡ q.step_index)
    → row_at idx rows ≡ some r
    → row_at idx (update_row idx f rows) ≡ some (f r)
unfolding map_row
update-own f idx rows r h q =
    row_at-update f idx idx rows h ∙ rw q (ap some (own_row f idx r (row_at-index idx rows r q)))

pub pending-row :
    (i : ℕ) (rows : List StepRow) (r : StepRow)
    → row_at i rows ≡ some r
    → pending_at i rows ≡ is_pending r.status
pending-row i rows r q = rw (status_at-row_at i rows, q) refl

-- Whose run it is, and which.
pub record Identity : Type 0 where
  pub id : String
  pub actor_id : String
  pub run_token : String

abbrev pub identity : EngineState → Identity
identity s = record { id = s.run.id; actor_id = s.run.actor_id; run_token = s.run.run_token }

-- A run, and a number of readings that it has taken.
pub record Since : Type 0 where
  pub who : Identity
  pub from : ℕ

-- A step that leads from one state to another, of the same run, makes no row of the index pending and
-- sends nothing for it.
pub record Calm (i : ℕ) (s t : EngineState) : Type 0 where
  pub who : identity t ≡ identity s
  pub later : s.ticks ≤ t.ticks
  pub back : pending_at i t.rows ≡ true → pending_at i s.rows ≡ true
  pub same : sent_count i t.sent ≡ sent_count i s.sent

pub Calm-refl : (i : ℕ) (s : EngineState) → Calm i s s
Calm-refl i s = record { who = refl; later = omega arith; back = λ h. h; same = refl }

pub Calm-trans : (i : ℕ) (s t u : EngineState) → Calm i s t → Calm i t u → Calm i s u
Calm-trans i s t u a b = record {
  who = b.who ∙ a.who;
  later = omega (arith, a.later, b.later);
  back = λ h. a.back (b.back h);
  same = b.same ∙ a.same;
}

-- The same, and no other row than that of `idx` changes.
pub record Kept (idx i : ℕ) (s t : EngineState) : Type 0 where
  pub calm : Calm i s t
  pub others : (idx == i) ≡ false → pending_at i t.rows ≡ pending_at i s.rows

pub Kept-refl : (idx i : ℕ) (s : EngineState) → Kept idx i s s
Kept-refl idx i s = record { calm = Calm-refl i s; others = λ h. refl }

pub Kept-trans :
    (idx i : ℕ) (s t u : EngineState) → Kept idx i s t → Kept idx i t u → Kept idx i s u
Kept-trans idx i s t u a b = record {
  calm = Calm-trans i s t u a.calm b.calm;
  others = λ h. b.others h ∙ a.others h;
}

-- A settling change of rows.
pub rows-Kept :
    (idx i : ℕ) (f : StepRow → StepRow) (s : EngineState)
    → IsSettling f
    → Kept idx i s (record s { rows = update_row idx f s.rows })
rows-Kept idx i f s h = record {
  calm = record {
    who = refl;
    later = omega arith;
    back = update-pending f idx i s.rows h;
    same = refl;
  };
  others = pending-other f idx i s.rows h.index;
}

pub mark_step-Kept :
    (idx i : ℕ) (status : StepStatus) (receipt : Option Value) (code : Option String)
    (message : Option Message) (s : EngineState)
    → is_pending status ≡ false
    → Kept idx i s (mark_step idx status receipt code message s)
unfolding mark_step
mark_step-Kept idx i status receipt code message s h =
    rows-Kept idx i _ s record { index = λ r. refl; settles = λ r k. ground (arith, h, k) }

-- Every step's action was requested at most once, and not while the step is pending.
pub record OnceAt (w : Since) (i : ℕ) (s : EngineState) : Type 0 where
  pub is_run : identity s ≡ w.who
  pub later : w.from ≤ s.ticks
  pub once : sent_count i s.sent ≤ 1
  pub none_yet : pending_at i s.rows ≡ true → sent_count i s.sent ≡ 0

pub Calm-OnceAt : (w : Since) (i : ℕ) (s t : EngineState) → Calm i s t → OnceAt w i s → OnceAt w i t
Calm-OnceAt w i s t k o = record {
  is_run = k.who ∙ o.is_run;
  later = omega (arith, k.later, o.later);
  once = omega (arith, k.same, o.once);
  none_yet = λ h. k.same ∙ o.none_yet (k.back h);
}

pub row_at-append :
    (i : ℕ) (rows : List StepRow) (r : StepRow)
    → row_at i rows ≡ none
    → row_at i (rows ++ r ∷ []) ≡ (if r.step_index == i then some r else none)
unfolding row_at
row_at-append i [] r h = refl
row_at-append i (q ∷ qs) r h = ground (arith, h, row_at-append i qs r)

pub row_at-append_some :
    (i : ℕ) (rows : List StepRow) (r q : StepRow)
    → row_at i rows ≡ some q
    → row_at i (rows ++ r ∷ []) ≡ some q
unfolding row_at
row_at-append_some i [] r q h = ground (arith, h)
row_at-append_some i (p ∷ ps) r q h = ground (arith, h, row_at-append_some i ps r q)

pub pending-cong :
    (i : ℕ) (xs ys : List StepRow) → row_at i xs ≡ row_at i ys → pending_at i xs ≡ pending_at i ys
pending-cong i xs ys h =
    rw (status_at-row_at i xs, status_at-row_at i ys) (ap (λ o. is_pending (status_of o)) h)
