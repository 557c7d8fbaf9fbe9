-- ===== src/Idempotency/Tests.antt =====
-- The service on a concrete world: the number of dispatches made so far, which is also the time.
use era_ai.Prelude.{ℕ, ◌+◌, ◌≤◌, String, ◌≡◌, ◌≢◌, refl, none, some, List, [], ◌∷◌, arith}
use era_ai.Prelude.Results.{Result, ok, err}
use era_ai.Core.Enums.{allow}
use era_ai.Gate.Records.{ExecutionResponse, ExecutionStatus}
use era_ai.Idempotency.{
  Status, IdempotencyRecord, Failure, conflict, Gap, in_dispatch, Service, State, is_for, get,
  key_fingerprint, run,
}
use era_ai.Idempotency.Replay.{Once, Undisturbed, run-Once, run-replay}

abbrev answered : ExecutionResponse
answered = record {
  status = ExecutionStatus.executed;
  decision = allow;
  confirmation_id = none;
  challenge = some "c";
  result = none;
  message = none;
  error_code = none;
}

-- A record that another caller, with another key, makes while the dispatch runs
abbrev foreign : IdempotencyRecord
foreign = record {
  id = "other";
  actor_id = "bob";
  key_hash = "b";
  request_hash = "read";
  status = Status.processing;
  response = none;
  created_at = 0;
  expires_at = 100;
}

abbrev meanwhile : Gap → List IdempotencyRecord → List IdempotencyRecord
meanwhile in_dispatch rs = foreign ∷ rs
meanwhile _ rs = rs

abbrev service : Service ℕ String
service = record {
  ttl = 100;
  processing_ttl = 10;
  sha256_hex = λ s. s;
  canonical_json = λ v. "k";
  uuid = λ n. "id";
  clock = λ w. w;
  dispatch = λ w. (ok answered, w + 1);
  others = meanwhile;
}

abbrev fresh : State ℕ
fresh = record { records = []; issued = 0; dispatches = 0; world = 0 }

abbrev first : Result (Failure String) ExecutionResponse × State ℕ
first = run service "ann" "k" "read" fresh

first_answers : (first.0 ≡ ok answered) × (first.1.dispatches ≡ 1)
unfolding run
first_answers = (refl, refl)

undisturbed : Undisturbed service "ann" (key_fingerprint service "ann" "k") "read"
unfolding get is_for key_fingerprint
undisturbed rs r h p = h

run-Once_example :
    Once service "ann"
      (key_fingerprint service "ann" "k")
      "read"
      fresh
      (run service "ann" "k" "read" fresh)
run-Once_example = run-Once service "ann" "k" "read" fresh undisturbed

dispatched : first.1.dispatches ≢ 0
dispatched h = ground (arith, h, first_answers)

-- The state that the second run finds: others have worked on under another key.
abbrev later : State ℕ
later = record first.1 { records = foreign ∷ first.1.records }

still_found :
    get "ann" (key_fingerprint service "ann" "k") later.records
    ≡ get "ann" (key_fingerprint service "ann" "k") first.1.records
unfolding get is_for
still_found = refl

later_time : later.world ≤ 100
unfolding run
later_time = ground arith

run-replay_example : run service "ann" "k" "write" later ≡ (err conflict, later)
run-replay_example =
    run-replay service "ann" "k" "read" "write" answered fresh later undisturbed first_answers.0
      dispatched still_found later_time
