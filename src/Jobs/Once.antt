-- ===== src/Jobs/Once.antt =====
-- A job's action is requested once at most, whatever is submitted, and however often the process restarts.
use text.Mathlib.TextEquality.{eq_iff}
use era_ai.Prelude.{
  ◌+◌, ◌≤◌, String, ◌≡◌, refl, ap, ◌∙◌, subst, false, Option, none, some, List, [], ◌∷◌, ◌++◌, map,
  str_eq, Bool-cases, inl, inr, arith,
}
use era_ai.Prelude.Counts.{count, count-append}
use era_ai.Prelude.Results.{Result, ok, err}
use era_ai.Permission.Catalog.{Action}
use era_ai.Gate.Records.{ExecutionContext, ExecutionResponse}
use era_ai.Jobs.{
  Job, Task, JobState, JobEnv, get_job, get_by_key, change_job, mark_status, interrupt, restart,
  shutdown, begin_with, begin_run, is_working, settle, end_run, new_job, after_conflict, create,
  submit_new, submit, Event, submitted, begun, ended, restarted, stopped, happen, history,
}

abbrev pub ids : List Task → List String
ids [] = []
ids (t ∷ ts) = t.job_id ∷ ids ts

ids-append : (xs ys : List Task) → ids (xs ++ ys) ≡ ids xs ++ ids ys
ids-append [] ys = refl
ids-append (t ∷ ts) ys = ap (λ r. t.job_id ∷ r) (ids-append ts ys)

-- A job is waiting or was requested, once at most, and it is stored if it is.
pub record IsOnce (id : String) (s : JobState) : Type 0 where
  pub once : count id (ids s.waiting) + count id s.requested ≤ 1
  pub stored : get_job id s.jobs ≡ none → count id (ids s.waiting) + count id s.requested ≡ 0

-- A change of jobs that keeps their ids
get_job-map :
    (id : String) (f : Job → Job) (js : List Job)
    → ((j : Job) → (f j).id ≡ j.id)
    → get_job id (map f js) ≡ none
    → get_job id js ≡ none
unfolding get_job
get_job-map id f [] k h = refl
get_job-map id f (j ∷ js) k h = elim (Bool-cases (str_eq j.id id)) [
  | inl q ↦ ground (arith, rw (k j, q) at h)
  | inr q ↦ rw q (get_job-map id f js k (rw (k j, q) at h))
]

get_job-append :
    (id : String) (js : List Job) (new : Job)
    → get_job id (js ++ new ∷ []) ≡ none
    → (get_job id js ≡ none) × (str_eq new.id id ≡ false)
unfolding get_job
get_job-append id [] new h = elim (Bool-cases (str_eq new.id id)) [
  | inl q ↦ ground (arith, rw q at h)
  | inr q ↦ (refl, q)
]
get_job-append id (j ∷ js) new h = elim (Bool-cases (str_eq j.id id)) [
  | inl q ↦ ground (arith, rw q at h)
  | inr q ↦ let (old, other) = get_job-append id js new (rw q at h) in (rw q old, other)
]

begin_with-IsOnce :
    (id : String) (ts : List Task) (s : JobState)
    → s.waiting ≡ ts
    → IsOnce id s
    → IsOnce id (begin_with ts s)
unfolding begin_with mark_status change_job
begin_with-IsOnce id [] s e o = o
begin_with-IsOnce id (t ∷ ts) s e o =
    let moved : count id (ids ts) + count id (s.requested ++ t.job_id ∷ [])
        ≡ count id (ids s.waiting) + count id s.requested =
      rw (e, count-append id s.requested (t.job_id ∷ [])) (ground arith) in
    record {
      once = omega (arith, moved, o.once);
      stored = λ h. moved ∙ o.stored (get_job-map id _ s.jobs (λ j. ground arith) h);
    }

begin_run-IsOnce : (id : String) (s : JobState) → IsOnce id s → IsOnce id (begin_run s)
unfolding begin_run
begin_run-IsOnce id s o = begin_with-IsOnce id s.waiting s refl o

restart-IsOnce : (id : String) (s : JobState) → IsOnce id s → IsOnce id (restart s)
unfolding restart interrupt
restart-IsOnce id s o = record {
  once = omega (arith, o.once);
  stored = λ h.
      let before = o.stored (get_job-map id interrupt s.jobs (λ j. ground arith) h) in
      omega (arith, before);
}

shutdown-IsOnce : (id : String) (s : JobState) → IsOnce id s → IsOnce id (shutdown s)
unfolding shutdown
shutdown-IsOnce id s o = record {
  once = omega (arith, o.once);
  stored = λ h. let before = o.stored h in omega (arith, before);
}

settle-none :
    (id k : String) (answer : Result String ExecutionResponse) (js : List Job)
    → get_job id (settle k answer js) ≡ none
    → get_job id js ≡ none
unfolding settle mark_status change_job
settle-none id k (ok r) js h = get_job-map id _ js (λ j. ground arith) h
settle-none id k (err e) js h = get_job-map id _ js (λ j. ground arith) h

end_run-IsOnce :
    (id k : String) (answer : Result String ExecutionResponse) (s : JobState)
    → IsOnce id s
    → IsOnce id (end_run k answer s)
unfolding end_run
end_run-IsOnce id k answer s o = elim (Bool-cases (is_working k s.working)) [
  | inl q ↦ rw q record { once = o.once; stored = λ h. o.stored (settle-none id k answer s.jobs h) }
  | inr q ↦ rw q o
]

abbrev pub no_jobs : JobState
no_jobs = record { jobs = []; waiting = []; working = []; requested = [] }

module _ (env : JobEnv) where
  after_conflict-IsOnce :
      (id : String) (o : Option Job) (request : String) (s : JobState)
      → IsOnce id s
      → IsOnce id (after_conflict env o request s).1
  unfolding after_conflict
  after_conflict-IsOnce id none request s o = o
  after_conflict-IsOnce id (some j) request s o = o

  create-IsOnce :
      (id : String) (taken : Option Job) (new : String) (a : Action) (ctx : ExecutionContext)
      (hash : Option String) (request : String) (s : JobState)
      → get_job new s.jobs ≡ taken
      → IsOnce id s
      → IsOnce id (create env taken new a ctx hash request s).1
  unfolding create new_job
  create-IsOnce id (some j) new a ctx hash request s e o =
      after_conflict-IsOnce id (get_by_key ctx.actor_id hash s.jobs) request s o
  create-IsOnce id none new a ctx hash request s e o =
      let task : Task = record { job_id = new; action = a; ctx = ctx } in
      let more : count id (ids (s.waiting ++ task ∷ []))
          ≡ count id (ids s.waiting) + count id (new ∷ []) =
        ap (count id) (ids-append s.waiting (task ∷ []))
        ∙ count-append id (ids s.waiting) (new ∷ []) in
      record {
        once = elim (Bool-cases (str_eq new id)) [
          | inl q ↦
              let unseen =
                o.stored (subst (λ k. get_job k s.jobs ≡ none) ((eq_iff new id).0 q) e) in
              ground (arith, more, unseen, q)
          | inr q ↦ ground (arith, more, o.once, q)
        ];
        stored = λ h.
            let (old, other) = get_job-append id s.jobs (new_job env new a ctx hash request) h in
            let unseen = o.stored old in ground (arith, more, unseen, other);
      }

  submit_new-IsOnce :
      (id : String) (existing : Option Job) (new : String) (a : Action) (ctx : ExecutionContext)
      (hash : Option String) (request : String) (s : JobState)
      → IsOnce id s
      → IsOnce id (submit_new env existing new a ctx hash request s).1
  unfolding submit_new
  submit_new-IsOnce id (some j) new a ctx hash request s o = o
  submit_new-IsOnce id none new a ctx hash request s o =
      create-IsOnce id (get_job new s.jobs) new a ctx hash request s refl o

  happen-IsOnce :
      (id : String) (e : Event) (s : JobState) → IsOnce id s → IsOnce id (happen env e s)
  unfolding happen submit
  happen-IsOnce id (submitted new a ctx key) s o = submit_new-IsOnce id _ new a ctx _ _ s o
  happen-IsOnce id begun s o = begin_run-IsOnce id s o
  happen-IsOnce id (ended k answer) s o = end_run-IsOnce id k answer s o
  happen-IsOnce id restarted s o = restart-IsOnce id s o
  happen-IsOnce id stopped s o = shutdown-IsOnce id s o

  history-IsOnce :
      (id : String) (es : List Event) (s : JobState) → IsOnce id s → IsOnce id (history env es s)
  unfolding history
  history-IsOnce id [] s o = o
  history-IsOnce id (e ∷ es) s o = history-IsOnce id es (happen env e s) (happen-IsOnce id e s o)

  -- Whatever is submitted, run, ended or cancelled, and however often the process restarts: the action of a
  -- job is requested at most once.
  pub history-requested-le :
      (id : String) (es : List Event) → count id (history env es no_jobs).requested ≤ 1
  history-requested-le id es =
      let o = history-IsOnce id es no_jobs record { once = omega arith; stored = λ h. refl } in
      omega (arith, o.once)
