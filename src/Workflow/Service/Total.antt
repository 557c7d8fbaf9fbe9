-- ===== src/Workflow/Service/Total.antt =====
-- With a clock that runs and fuel for the wall-clock budget, every call is answered.
use era_ai.Prelude.{
  ℕ, suc, ◌≤◌, String, ◌≡◌, refl, true, Option, none, some, All, str_eq, Bool-cases, inl, inr,
  arith,
}
use era_ai.Prelude.Results.{Result, ok, err}
use era_ai.Gate.Records.{ExecutionContext}
use era_ai.Workflow.Run.{RunStatus, WorkflowRun, EngineState, Services}
use era_ai.Workflow.Run.Rows.{OnceAt}
use era_ai.Workflow.Engine.Returns.{IsTicking, advance-Returns}
use era_ai.Workflow.Service.{
  WorkflowError, Store, Answer, StartRequest, get_run, load_owned, created, put_answer,
  advance_stored, admit, create_run, start_new, start_unless, start, resume_as, resume_loaded,
  resume, stopped, cancel_as, cancel_loaded, cancel, continued,
}
use era_ai.Workflow.Service.Calls.{
  resolve_by, resolve_as, resolve_loaded, resolve_ambiguous, Call, start_call, resume_call,
  cancel_call, resolve_call, answer,
}
use era_ai.Workflow.Service.Kept.{
  since, IsOnce, get_run-IsOnce, load_owned-ok, created-IsOnce, continued-once, identity-kept,
}

abbrev pub IsAnswered : Answer → Type 0
IsAnswered o = (p : Result WorkflowError WorkflowRun × Store) × (o ≡ some p)

-- The services have a clock that runs, and fuel that covers their budget.
abbrev pub IsTimely : ℕ → Services → Type 0
IsTimely fuel sv = IsTicking sv × (sv.max_wallclock ≤ fuel)

abbrev pub IsTimelyCall : ℕ → Call → Type 0
IsTimelyCall fuel (start_call sv ctx q) = IsTimely fuel sv
IsTimelyCall fuel (resume_call sv ctx id) = IsTimely fuel sv
IsTimelyCall fuel (cancel_call sv ctx id) = Unit
IsTimelyCall fuel (resolve_call sv ctx id decision) = IsTimely fuel sv

module _ (sv : Services) (ctx : ExecutionContext) (fuel : ℕ) where
  put_answer-returns :
      (id : String) (st : Store) (o : Option EngineState) (t : EngineState)
      → o ≡ some t
      → IsAnswered (put_answer sv ctx id o st)
  unfolding put_answer
  put_answer-returns id st none t e = ground (arith, e)
  put_answer-returns id st (some u) t e = (_, refl)

  advance_stored-returns :
      (id : String) (s : EngineState) (st : Store)
      → IsTimely fuel sv
      → OnceAt (since s) 0 s
      → IsAnswered (advance_stored sv ctx (suc fuel) id s st)
  unfolding advance_stored
  advance_stored-returns id s st (c, l) o =
      let (t, e) = advance-Returns sv _ fuel s c l o in put_answer-returns id st _ t e

  answered : (r : Result WorkflowError WorkflowRun) (st : Store) → IsAnswered (some (r, st))
  answered r st = ((r, st), refl)

  resume_as-returns :
      (status : RunStatus) (id : String) (s : EngineState) (st : Store)
      → IsTimely fuel sv
      → IsOnce s
      → IsAnswered (resume_as sv ctx status (suc fuel) id s st)
  unfolding resume_as
  resume_as-returns RunStatus.completed id s st c o = answered _ st
  resume_as-returns RunStatus.cancelled id s st c o = answered _ st
  resume_as-returns RunStatus.failed id s st c o = answered _ st
  resume_as-returns RunStatus.ambiguous id s st c o = answered _ st
  resume_as-returns other id s st c o = advance_stored-returns id s st c (o 0)

  resume_loaded-returns :
      (r : Result WorkflowError EngineState) (id : String) (st : Store)
      → IsTimely fuel sv
      → ((s : EngineState) → r ≡ ok s → IsOnce s)
      → IsAnswered (resume_loaded sv ctx r (suc fuel) id st)
  unfolding resume_loaded
  resume_loaded-returns (err e) id st c o = answered _ st
  resume_loaded-returns (ok s) id st c o = resume_as-returns s.run.status id s st c (o s refl)

  admit-returns :
      (refused : Option String) (q : StartRequest) (st : Store)
      → IsTimely fuel sv
      → IsAnswered (admit sv ctx (suc fuel) refused q st)
  unfolding admit
  admit-returns (some code) q st c = (_, refl)
  admit-returns none q st c =
      advance_stored-returns q.fresh_id (created sv ctx q) _ c (created-IsOnce sv ctx q 0)

  start_new-returns :
      (o taken : Option EngineState) (q : StartRequest) (st : Store)
      → IsTimely fuel sv
      → get_run q.fresh_id st ≡ taken
      → IsAnswered (start_new sv ctx (suc fuel) o q st)
  unfolding start_new
  start_new-returns (some s) taken q st c e = answered _ st
  start_new-returns none none q st c e =
      rw (e, start_new, create_run) (admit-returns q.admission q st c)
  start_new-returns none (some s) q st c e = rw (e, start_new, create_run) (answered _ st)

  start_unless-returns :
      (refused : Option WorkflowError) (q : StartRequest) (st : Store)
      → IsTimely fuel sv
      → IsAnswered (start_unless sv ctx (suc fuel) refused q st)
  unfolding start_unless
  start_unless-returns (some e) q st c = answered _ st
  start_unless-returns none q st c = start_new-returns _ (get_run q.fresh_id st) q st c refl

  cancel_as-returns :
      (status : RunStatus) (id : String) (s : EngineState) (st : Store)
      → IsAnswered (cancel_as sv ctx status id s st)
  unfolding cancel_as
  cancel_as-returns RunStatus.completed id s st = answered _ st
  cancel_as-returns RunStatus.cancelled id s st = answered _ st
  cancel_as-returns RunStatus.failed id s st = answered _ st
  cancel_as-returns RunStatus.ambiguous id s st = answered _ st
  cancel_as-returns other id s st =
      put_answer-returns id st (some (stopped sv ctx "cancelled by operator" s)) _ refl

  cancel_loaded-returns :
      (r : Result WorkflowError EngineState) (id : String) (st : Store)
      → IsAnswered (cancel_loaded sv ctx r id st)
  unfolding cancel_loaded
  cancel_loaded-returns (err e) id st = answered _ st
  cancel_loaded-returns (ok s) id st = cancel_as-returns s.run.status id s st

module _ (sv : Services) (ctx : ExecutionContext) (fuel : ℕ) where
  resolve_by-returns :
      (decision : String) (id : String) (s : EngineState) (st : Store)
      → IsTimely fuel sv
      → IsOnce s
      → IsAnswered (resolve_by sv ctx decision (suc fuel) id s st)
  unfolding resolve_by
  resolve_by-returns decision id s st (c, l) o =
      let next = identity-kept s (continued sv ctx s) (continued-once sv ctx s o) in
      elim (Bool-cases (str_eq decision "abort")) [
        | inl e ↦ rw e (put_answer-returns sv ctx fuel id st (some (stopped sv ctx _ s)) _ refl)
        | inr e ↦ rw e (elim (Bool-cases (str_eq decision "continue")) [
          | inl w ↦ rw w (
              advance_stored-returns record sv { domain_allowed = λ action. true } ctx fuel id
                (continued sv ctx s) st (record { grows = c.grows }, l) (next.1 0))
          | inr w ↦ rw w (answered sv ctx fuel _ st)
        ])
      ]

  resolve_as-returns :
      (status : RunStatus) (decision : String) (id : String) (s : EngineState) (st : Store)
      → IsTimely fuel sv
      → IsOnce s
      → IsAnswered (resolve_as sv ctx status decision (suc fuel) id s st)
  unfolding resolve_as
  resolve_as-returns RunStatus.ambiguous decision id s st c o =
      resolve_by-returns decision id s st c o
  resolve_as-returns other decision id s st c o = answered sv ctx fuel _ st

  resolve_loaded-returns :
      (r : Result WorkflowError EngineState) (decision : String) (id : String) (st : Store)
      → IsTimely fuel sv
      → ((s : EngineState) → r ≡ ok s → IsOnce s)
      → IsAnswered (resolve_loaded sv ctx r decision (suc fuel) id st)
  unfolding resolve_loaded
  resolve_loaded-returns (err e) decision id st c o = answered sv ctx fuel _ st
  resolve_loaded-returns (ok s) decision id st c o =
      resolve_as-returns s.run.status decision id s st c (o s refl)

  owned-IsOnce :
      (id : String) (st : Store) (s : EngineState)
      → All IsOnce st
      → load_owned id ctx.actor_id st ≡ ok s
      → IsOnce s
  owned-IsOnce id st s a e = get_run-IsOnce id s st (load_owned-ok sv ctx id ctx.actor_id st s e) a

pub answer-returns :
    (fuel : ℕ) (c : Call) (st : Store)
    → IsTimelyCall fuel c
    → All IsOnce st
    → IsAnswered (answer (suc fuel) c st)
unfolding answer start resume cancel resolve_ambiguous
answer-returns fuel (start_call sv ctx q) st c a = start_unless-returns sv ctx fuel _ q st c
answer-returns fuel (resume_call sv ctx id) st c a =
    resume_loaded-returns sv ctx fuel (load_owned id ctx.actor_id st) id st c
      (λ s e. owned-IsOnce sv ctx fuel id st s a e)
answer-returns fuel (cancel_call sv ctx id) st c a =
    cancel_loaded-returns sv ctx fuel (load_owned id ctx.actor_id st) id st
answer-returns fuel (resolve_call sv ctx id decision) st c a =
    resolve_loaded-returns sv ctx fuel (load_owned id ctx.actor_id st) decision id st c
      (λ s e. owned-IsOnce sv ctx fuel id st s a e)
