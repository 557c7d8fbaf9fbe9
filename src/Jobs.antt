-- ===== src/Jobs.antt =====
-- era/services/jobs.py and era/models/job.py: actions that run in the background. A job's times are left
-- out. The worker threads take tasks in the order in which they were submitted.
pub mod Once
pub mod Replay
mod Tests
use era_ai.Prelude.{
  ℕ, ◌+◌, String, Bool, true, false, not, ◌&&◌, ◌||◌, Option, none, some, List, [], ◌∷◌, ◌++◌, Dict,
  map, ◌==◌, str_eq, is_some, if◌then◌else◌,
}
use era_ai.Prelude.Results.{Result, ok, err}
use era_ai.Value.{Value, str, obj, Fields, end, field}
use era_ai.Security.Redaction.{redact_fields}
use era_ai.Permission.Catalog.{Action, ActionSpec}
use era_ai.Gate.Records.{ExecutionContext, ExecutionResponse}

pub data JobStatus : Type 0 where
  queued running completed failed : JobStatus

pub record Job : Type 0 where
  pub id : String
  pub actor_id : String
  pub kind : String
  pub idempotency_key_hash : Option String
  pub request_hash : Option String
  pub status : JobStatus
  pub action_type : String
  pub action_params : Fields
  pub session_id : Option String
  pub credential_refs : Dict String
  pub response : Option ExecutionResponse
  pub error : Option String

-- What the executor holds of a job, in memory only
pub record Task : Type 0 where
  pub job_id : String
  pub action : Action
  pub ctx : ExecutionContext

-- The jobs that are stored, the tasks that wait, those that a worker is at, and the ids of the jobs whose
-- action was requested of the execution service.
pub record JobState : Type 0 where
  pub jobs : List Job
  pub waiting : List Task
  pub working : List Task
  pub requested : List String

pub data JobError : Type 0 where
  conflict integrity : JobError

-- What the service takes from outside: the hash, JSON text and the catalog.
pub record JobEnv : Type 0 where
  pub sha256_hex : String → String
  pub canonical_json : Value → String
  pub spec_of : String → Option ActionSpec

abbrev pub same_hash : Option String → Option String → Bool
same_hash none none = true
same_hash none (some k) = false
same_hash (some h) none = false
same_hash (some h) (some k) = str_eq h k

-- `repo.get`
unfoldable pub get_job : String → List Job → Option Job
get_job id [] = none
get_job id (j ∷ js) = let rest = get_job id js in if str_eq j.id id then some j else rest

-- `repo.get_by_idempotency_key`; a hash that is None is compared by `IS NULL`.
unfoldable pub get_by_key : String → Option String → List Job → Option Job
get_by_key actor hash [] = none
get_by_key actor hash (j ∷ js) =
    let rest = get_by_key actor hash js in
    if str_eq j.actor_id actor && same_hash j.idempotency_key_hash hash then some j else rest

-- A change of the jobs of an id, of which there is one at most
unfoldable pub change_job : String → (Job → Job) → List Job → List Job
change_job id f = map (λ j. if str_eq j.id id then f j else j)

-- `_mark_status`
unfoldable pub mark_status : String → JobStatus → Option String → List Job → List Job
unfolding change_job
mark_status id status error =
    change_job id
      (λ j. record j { status = status; error = elim error [ none ↦ j.error | some e ↦ some e ] })

-- `_INTERRUPTIBLE_STATUSES`
abbrev pub is_interruptible : JobStatus → Bool
is_interruptible JobStatus.queued = true
is_interruptible JobStatus.running = true
is_interruptible _ = false

interrupt : Job → Job
interrupt j =
    if is_interruptible j.status
    then record j { status = JobStatus.failed; error = some "interrupted by restart" }
    else j

-- `recover`, after a process that held the tasks is gone
unfoldable pub restart : JobState → JobState
unfolding interrupt
restart s = record {
  jobs = map interrupt s.jobs;
  waiting = [];
  working = [];
  requested = s.requested;
}

-- `shutdown`: the tasks that wait are cancelled.
unfoldable pub shutdown : JobState → JobState
shutdown s = record s { waiting = [] }

unfoldable pub begin_with : List Task → JobState → JobState
unfolding mark_status
begin_with [] s = s
begin_with (t ∷ ts) s = record s {
  jobs = mark_status t.job_id JobStatus.running none s.jobs;
  waiting = ts;
  working = s.working ++ t ∷ [];
  requested = s.requested ++ t.job_id ∷ [];
}

-- A worker begins `_run`: the job is running and its action is requested.
unfoldable pub begin_run : JobState → JobState
unfolding begin_with
begin_run s = begin_with s.waiting s

abbrev is_working : String → List Task → Bool
is_working id [] = false
is_working id (t ∷ ts) = str_eq t.job_id id || is_working id ts

without_task : String → List Task → List Task
without_task id [] = []
without_task id (t ∷ ts) =
    let rest = without_task id ts in if str_eq t.job_id id then ts else t ∷ rest

settle : String → Result String ExecutionResponse → List Job → List Job
unfolding mark_status change_job
settle id (err message) jobs = mark_status id JobStatus.failed (some message) jobs
settle id (ok response) jobs =
    change_job id
      (λ j. record j {
        status = JobStatus.completed;
        response = some record response { challenge = none };
      })
      jobs

-- The end of `_run`, with what the request returned or raised
unfoldable pub end_run : String → Result String ExecutionResponse → JobState → JobState
unfolding without_task settle
end_run id answer s =
    if is_working id s.working
    then record s { jobs = settle id answer s.jobs; working = without_task id s.working }
    else s

-- `_resolve_existing`
unfoldable pub resolve_existing : Job → String → Result JobError Job
resolve_existing j hash = elim j.request_hash [
  | none ↦ ok j
  | some h ↦ if not (str_eq h "") && not (str_eq h hash) then err JobError.conflict else ok j
]

module _ (env : JobEnv) where
  -- `request_fingerprint`
  unfoldable pub request_fingerprint : Action → String
  request_fingerprint a = env.sha256_hex (
      env.canonical_json
        (obj (field "action_type" (str a.action_type) (field "params" (obj a.params) end))))

  -- `_job_key_fingerprint`
  unfoldable pub job_key_fingerprint : String → String → String
  job_key_fingerprint actor key =
      env.sha256_hex
        (env.canonical_json (obj (field "actor_id" (str actor) (field "key" (str key) end))))

  unfoldable pub key_hash_of : String → Option String → Option String
  unfolding job_key_fingerprint
  key_hash_of actor none = none
  key_hash_of actor (some key) =
      if str_eq key "" then none else some (job_key_fingerprint actor key)

  secret_fields_of : String → List String
  secret_fields_of action_type = elim (env.spec_of action_type) [
    | none ↦ []
    | some s ↦ s.secret_fields
  ]

  unfoldable pub new_job : String → Action → ExecutionContext → Option String → String → Job
  unfolding secret_fields_of
  new_job id a ctx hash request = record {
    id = id;
    actor_id = ctx.actor_id;
    kind = "action.execute";
    idempotency_key_hash = hash;
    request_hash = some request;
    status = JobStatus.queued;
    action_type = a.action_type;
    action_params = redact_fields (secret_fields_of a.action_type) a.params;
    session_id = ctx.session_id;
    credential_refs = ctx.credential_refs;
    response = none;
    error = none;
  }

  after_conflict : Option Job → String → JobState → Result JobError Job × JobState
  unfolding resolve_existing
  after_conflict none request s = (err JobError.integrity, s)
  after_conflict (some j) request s = (resolve_existing j request, s)

  -- The row is stored, if its id is new, and the task is queued.
  create :
      Option Job
      → String
      → Action
      → ExecutionContext
      → Option String
      → String
      → JobState
      → Result JobError Job × JobState
  unfolding new_job after_conflict get_by_key
  create none id a ctx hash request s =
      let job = new_job id a ctx hash request in
      (
        ok job,
        record s {
          jobs = s.jobs ++ job ∷ [];
          waiting = s.waiting ++ record { job_id = id; action = a; ctx = ctx } ∷ [];
        },
      )
  create (some taken) id a ctx hash request s =
      after_conflict (get_by_key ctx.actor_id hash s.jobs) request s

  submit_new :
      Option Job
      → String
      → Action
      → ExecutionContext
      → Option String
      → String
      → JobState
      → Result JobError Job × JobState
  unfolding create get_job resolve_existing
  submit_new none id a ctx hash request s = create (get_job id s.jobs) id a ctx hash request s
  submit_new (some j) id a ctx hash request s = (resolve_existing j request, s)

  -- `if idempotency_key`
  existing_of : String → Option String → List Job → Option Job
  unfolding get_by_key
  existing_of actor none jobs = none
  existing_of actor (some hash) jobs = get_by_key actor (some hash) jobs

  -- `submit`, with a fresh id
  unfoldable pub submit :
      String → Action → ExecutionContext → Option String → JobState → Result JobError Job × JobState
  unfolding request_fingerprint key_hash_of existing_of submit_new
  submit id a ctx key s =
      let hash = key_hash_of ctx.actor_id key in
      submit_new (existing_of ctx.actor_id hash s.jobs) id a ctx hash (request_fingerprint a) s

-- What happens to the jobs
pub data Event : Type 0 where
  submitted : String → Action → ExecutionContext → Option String → Event
  begun : Event
  ended : String → Result String ExecutionResponse → Event
  restarted : Event
  stopped : Event

unfoldable pub happen : JobEnv → Event → JobState → JobState
unfolding submit begin_run end_run restart shutdown
happen env (submitted id a ctx key) s = (submit env id a ctx key s).1
happen env begun s = begin_run s
happen env (ended id answer) s = end_run id answer s
happen env restarted s = restart s
happen env stopped s = shutdown s

unfoldable pub history : JobEnv → List Event → JobState → JobState
unfolding happen
history env [] s = s
history env (e ∷ es) s = history env es (happen env e s)
