-- ===== src/Jobs/Replay.antt =====
-- A key that has submitted a job leads to that job for good.
use era_ai.Prelude.{
  String, ◌≡◌, ◌≢◌, ◌⊎◌, refl, Bool, true, false, Option, none, some, List, if◌then◌else◌,
}
use era_ai.Prelude.Results.{Result, ok, err}
use era_ai.Jobs.{JobError, Job, get_by_key}

-- The same job, in another state of its run
pub record SameJob (j k : Job) : Type 0 where
  pub id : k.id ≡ j.id
  pub actor_id : k.actor_id ≡ j.actor_id
  pub key : k.idempotency_key_hash ≡ j.idempotency_key_hash
  pub request_hash : k.request_hash ≡ j.request_hash

SameJob-refl : (j : Job) → SameJob j j
SameJob-refl j = record { id = refl; actor_id = refl; key = refl; request_hash = refl }

-- What a key leads to among some jobs, it leads to among others.
abbrev Leads : String → Option String → List Job → List Job → Type 0
Leads actor hash js ks =
    (j : Job)
    → get_by_key actor hash js ≡ some j
    → (k : Job) × (get_by_key actor hash ks ≡ some k) × SameJob j k

abbrev kept : (j : Job) (b : Bool) (k : Job) → SameJob j k → SameJob j (if b then k else j)
kept j true k h = h
kept j false k h = SameJob-refl j

-- What a submission gets for a job that is there: the job, where the job has no request hash (null or
-- empty) or that of the submission, and the conflict where it has another one.
abbrev pub IsReplay : Job → String → Result JobError Job → Type 0
IsReplay k request answer =
    ((answer ≡ ok k)
      × ((k.request_hash ≡ none) ⊎ ((k.request_hash ≡ some "") ⊎ (k.request_hash ≡ some request))))
    ⊎ ((answer ≡ err JobError.conflict)
        × ((old : String) × (k.request_hash ≡ some old) × (old ≢ "") × (old ≢ request)))
