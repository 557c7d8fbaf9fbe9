-- ===== src/Idempotency.antt =====
-- era/services/idempotency.py. `dispatch` works on a world of its own, which also shows the time in
-- ticks. What other callers do to the records between the steps of a run is a parameter. The database
-- keeps one record for an actor and a key at most.
mod Records
pub mod Replay
pub mod Tests
use era_ai.Prelude.{
  ℕ, ◌+◌, String, Bool, true, false, ◌&&◌, Option, none, some, List, [], ◌∷◌, ◌++◌, ltb, str_eq,
  if◌then◌else◌,
}
use era_ai.Value.{Value, str, obj, Fields, end, field}
use era_ai.Prelude.Results.{Result, ok, err}
use era_ai.Gate.Records.{ExecutionResponse}

pub data Status : Type 0 where
  processing completed : Status

pub record IdempotencyRecord : Type 0 where
  pub id : String
  pub actor_id : String
  pub key_hash : String
  pub request_hash : String
  pub status : Status
  pub response : Option ExecutionResponse
  pub created_at : ℕ
  pub expires_at : ℕ

-- Where other callers get their turn
pub data Gap : Type 0 where
  before_first before_second in_dispatch : Gap

-- The errors of the service, or an exception of the dispatch.
pub data Failure (E : Type 0) : Type 0 where
  conflict in_progress : Failure E
  invalid_response : Failure E
  raised : E → Failure E

-- What the service is built from, the hash and the fresh ids, and what other callers do to the records:
-- in the gap before the first attempt to create a record, in the gap before the second, and while the
-- dispatch runs.
pub record Service (W E : Type 0) : Type 1 where
  pub ttl : ℕ
  pub processing_ttl : ℕ
  pub sha256_hex : String → String
  pub canonical_json : Value → String
  pub uuid : ℕ → String
  pub clock : W → ℕ
  pub dispatch : W → Result E ExecutionResponse × W
  pub others : Gap → List IdempotencyRecord → List IdempotencyRecord

pub record State (W : Type 0) : Type 0 where
  pub records : List IdempotencyRecord
  pub issued : ℕ
  pub dispatches : ℕ
  pub world : W

-- `_response_payload`: the challenge is stripped.
abbrev pub response_payload : ExecutionResponse → ExecutionResponse
response_payload r = record r { challenge = none }

unfoldable pub is_for : String → String → IdempotencyRecord → Bool
is_for actor key r = str_eq r.actor_id actor && str_eq r.key_hash key

-- `repo.get`
unfoldable pub get : String → String → List IdempotencyRecord → Option IdempotencyRecord
unfolding is_for
get actor key [] = none
get actor key (r ∷ rs) = let rest = get actor key rs in if is_for actor key r then some r else rest

-- `repo.delete`
unfoldable pub delete : String → List IdempotencyRecord → List IdempotencyRecord
delete id [] = []
delete id (r ∷ rs) = let rest = delete id rs in if str_eq r.id id then rest else r ∷ rest

-- The update of `_complete`, which does nothing where the record is gone.
unfoldable pub complete :
    String → ExecutionResponse → List IdempotencyRecord → List IdempotencyRecord
complete id response [] = []
complete id response (r ∷ rs) =
    let rest = complete id response rs in
    if str_eq r.id id
    then record r { status = completed; response = some (response_payload response) } ∷ rest
    else r ∷ rest

unfoldable pub is_completed : Status → Bool
is_completed completed = true
is_completed processing = false

module _ {W E : Type 0} (env : Service W E) where
  -- `key_fingerprint`
  unfoldable pub key_fingerprint : String → String → String
  key_fingerprint actor key =
      env.sha256_hex
        (env.canonical_json (obj (field "actor_id" (str actor) (field "key" (str key) end))))

  unfoldable pub is_expired : IdempotencyRecord → W → Bool
  is_expired r w = ltb r.expires_at (env.clock w)

  -- `_is_stale_processing`, of a record that is not completed.
  unfoldable pub is_stale : IdempotencyRecord → W → Bool
  is_stale r w = ltb (r.created_at + env.processing_ttl) (env.clock w)

  unfoldable pub stored_response : Option ExecutionResponse → Result (Failure E) ExecutionResponse
  stored_response none = err invalid_response
  stored_response (some r) = ok r

  -- `_resolve_completed`
  unfoldable pub resolve_completed :
      IdempotencyRecord → String → Result (Failure E) ExecutionResponse
  unfolding stored_response
  resolve_completed r request =
      if str_eq r.request_hash request then stored_response r.response else err conflict

  unfoldable pub new_record : String → String → String → State W → IdempotencyRecord
  new_record actor key request s = record {
    id = env.uuid s.issued;
    actor_id = actor;
    key_hash = key;
    request_hash = request;
    status = processing;
    response = none;
    created_at = env.clock s.world;
    expires_at = env.clock s.world + env.ttl;
  }

  unfoldable pub let_others : Gap → State W → State W
  let_others gap s = record s { records = env.others gap s.records }

  -- `_complete` or `_discard`, where the record may be gone
  unfoldable pub on_dispatched :
      String
      → State W
      → Result E ExecutionResponse × W
      → Result (Failure E) ExecutionResponse × State W
  unfolding complete delete
  on_dispatched id s (ok r, w) = (ok r, record s { world = w; records = complete id r s.records })
  on_dispatched id s (err e, w) =
      (err (raised e), record s { world = w; records = delete id s.records })

  -- The record is created and the action is dispatched, while other callers go on.
  unfoldable pub create_and_dispatch :
      String → String → String → State W → Result (Failure E) ExecutionResponse × State W
  unfolding new_record on_dispatched let_others
  create_and_dispatch actor key request s =
      let r = new_record actor key request s in
      on_dispatched r.id
        (let_others in_dispatch (record s {
          records = s.records ++ r ∷ [];
          issued = s.issued + 1;
          dispatches = s.dispatches + 1;
        }))
        (env.dispatch s.world)

  -- The second `_begin`.
  unfoldable pub begin_again :
      Option IdempotencyRecord
      → String
      → String
      → String
      → State W
      → Result (Failure E) ExecutionResponse × State W
  unfolding create_and_dispatch
  begin_again (some r) actor key request s = (err in_progress, s)
  begin_again none actor key request s = create_and_dispatch actor key request s

  -- Another caller's record is found when ours is to be created.
  unfoldable pub raced :
      IdempotencyRecord
      → String
      → String
      → String
      → State W
      → Result (Failure E) ExecutionResponse × State W
  unfolding begin_again let_others resolve_completed is_stale get delete
  raced r actor key request s =
      if is_completed r.status
      then (resolve_completed r request, s)
      else if is_stale r s.world
      then (let s' =
            let_others before_second
              (record s { records = delete r.id s.records; issued = s.issued + 1 }) in
          begin_again (get actor key s'.records) actor key request s')
      else (err in_progress, s)

  unfoldable pub begin_first :
      Option IdempotencyRecord
      → String
      → String
      → String
      → State W
      → Result (Failure E) ExecutionResponse × State W
  unfolding raced create_and_dispatch
  begin_first (some r) actor key request s = raced r actor key request s
  begin_first none actor key request s = create_and_dispatch actor key request s

  unfoldable pub begin :
      String → String → String → State W → Result (Failure E) ExecutionResponse × State W
  unfolding begin_first let_others get
  begin actor key request s =
      let s' = let_others before_first s in
      begin_first (get actor key s'.records) actor key request s'

  unfoldable pub on_existing :
      Option IdempotencyRecord
      → String
      → String
      → String
      → State W
      → Result (Failure E) ExecutionResponse × State W
  unfolding begin is_expired is_stale resolve_completed delete
  on_existing none actor key request s = begin actor key request s
  on_existing (some r) actor key request s =
      let s' = record s { records = delete r.id s.records } in
      if is_expired r s.world
      then begin actor key request s'
      else if is_completed r.status
      then (resolve_completed r request, s)
      else if is_stale r s.world
      then begin actor key request s'
      else (err in_progress, s)

  unfoldable pub run :
      String → String → String → State W → Result (Failure E) ExecutionResponse × State W
  unfolding on_existing key_fingerprint get
  run actor key request s =
      let hash = key_fingerprint actor key in
      on_existing (get actor hash s.records) actor hash request s
