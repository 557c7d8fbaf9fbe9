-- ===== src/Jobs/Tests.antt =====
-- Two submissions under one key, a run and a restart.
use era_ai.Prelude.{String, ◌≤◌, ◌≡◌, refl, none, some, List, [], ◌∷◌, map}
use era_ai.Prelude.Counts.{count}
use era_ai.Value.{end}
use era_ai.Permission.Catalog.{Action}
use era_ai.Gate.Records.{ExecutionContext}
use era_ai.Jobs.{
  JobStatus, Job, JobState, JobEnv, key_hash_of, new_job, Event, submitted, begun, restarted,
  history,
}
use era_ai.Jobs.Once.{no_jobs, history-requested-le}

abbrev env : JobEnv
env = record { sha256_hex = λ s. s; canonical_json = λ v. "h"; spec_of = λ t. none }

abbrev mail : Action
mail = record { action_type = "email.send"; params = end }

abbrev context : ExecutionContext
context = record {
  actor_id = "amy";
  session_id = none;
  execution_scope = none;
  credential_refs = [];
  deadline = none;
}

abbrev events : List Event
events =
    submitted "j1" mail context (some "k")
    ∷ submitted "j2" mail context (some "k")
    ∷ begun
    ∷ restarted
    ∷ begun
    ∷ []

history-requested-le_example : count "j1" (history env events no_jobs).requested ≤ 1
history-requested-le_example = history-requested-le env "j1" events

abbrev job : Job
job = new_job env "j1" mail context (some "h") "h"

abbrev one_job : JobState
one_job = record { jobs = job ∷ []; waiting = []; working = []; requested = [] }

abbrev key_hash : key_hash_of env "amy" (some "k") ≡ some "h"
unfolding key_hash_of
key_hash = refl

requested_once : (history env events no_jobs).requested ≡ "j1" ∷ []
unfolding history
requested_once = refl

abbrev statuses : JobState → List (String × JobStatus)
statuses s = map (λ j. (j.id, j.status)) s.jobs

failed_by_restart : statuses (history env events no_jobs) ≡ ("j1", JobStatus.failed) ∷ []
unfolding history
failed_by_restart = refl
