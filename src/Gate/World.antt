-- ===== src/Gate/World.antt =====
-- The state that the gate works on, and what it relies on.
use era_ai.Prelude.{ℕ, String, Bool, true, false, Option, List, [], ◌∷◌, Dict}
use era_ai.Prelude.Results.{Result, ok, err}
use era_ai.Prelude.Int.{ℤ}
use era_ai.Core.Enums.{Decision}
use era_ai.Core.Result.{Raises}
use era_ai.Core.Retry.{RetryPolicy}
use era_ai.Core.Breaker.{Registry}
use era_ai.Value.{Value, Fields}
use era_ai.Permission.Catalog.{Action, ActionCatalog}
use era_ai.Permission.Policy.{Policy}
use era_ai.Gate.Records.{ActionResult, PendingConfirmation, ConfirmationApproval, AuditEntry}

pub record Db : Type 0 where
  pub audit : List AuditEntry
  pub confirmations : Dict PendingConfirmation
  pub approvals : List ConfirmationApproval
  pub policy : Option Policy

pub data Stage : Type 0 where
  validate execute : Stage

-- What the dispatch layer knows of a provider.
pub record Provider : Type 0 where
  pub id : String
  pub non_retryable_action_types : List String
  pub ambiguous_on_failure_action_types : List String

-- A call that reached a provider, with the audit log that was committed when it began.
pub record Call : Type 0 where
  pub stage : Stage
  pub action : Action
  pub scope : Option String
  pub seen : List AuditEntry

pub record World : Type 0 where
  pub db : Db
  pub monotonic : ℕ
  pub wall : ℕ
  pub issued : ℕ  -- ids and challenges handed out so far
  pub breakers : Registry
  pub calls : List Call
  pub commits : List Bool  -- whether the coming commits succeed; all do behind the list's end

-- How a provider answers, and how long it takes.
pub record Reply : Type 0 where
  pub outcome : Raises ActionResult
  pub duration : ℕ

-- What the service is built from, and what is outside the modelled code: the hash, the sources of
-- ids and challenges, the provider at its n-th call, and three checks of other modules.
pub record Env : Type 0 where
  pub catalog : ActionCatalog
  pub provider_for : String → Option Provider
  pub evaluate : Action → Option Policy → Result String Decision
  pub retry_policy : RetryPolicy
  pub timeout_budget : ℕ
  pub app_version : String
  pub ttl : ℕ
  pub ttl_strong : ℕ
  pub has_dual_approval_service : Bool
  pub sha256_hex : String → String
  pub canonical_json : Value → String
  pub uuid : ℕ → String
  pub token : ℕ → String
  pub answer : Stage → Provider → Action → ℕ → Reply
  pub schema_error : Fields → Fields → Option String
  pub float_chars : ℤ → ℕ → ℕ
  pub sanitize : ActionResult → Option ActionResult
  pub redact_text : String → String

-- Exceptions that leave the service.
pub data Fault : Type 0 where
  db_error : Fault
  assertion_error : Fault
  attribute_error : Fault
  provider_exception : String → Fault

-- A method changes the world, and returns or raises.
abbrev pub M : Type 0 → Type 0
M A = World → Result Fault A × World

module _ {A B : Type 0} where
  abbrev pub next_step : Result Fault A × World → (A → M B) → Result Fault B × World
  next_step (ok a, w) f = f a w
  next_step (err e, w) f = (err e, w)

  infixl 5 ◌>>=◌ ◌>>◌
  abbrev pub ◌>>=◌ : M A → (A → M B) → M B
  ◌>>=◌ m f w = next_step (m w) f

  abbrev pub ◌>>◌ : M A → M B → M B
  ◌>>◌ m k w = next_step (m w) (λ _. k)

abbrev pub pure : {A : Type 0} → A → M A
pure a w = (ok a, w)

-- The commit at the end of a transaction that began with `before`.
unfoldable pub commit : {A : Type 0} → Db → A → List Bool → World → Result Fault A × World
commit before a [] w = (ok a, w)
commit before a (true ∷ cs) w = (ok a, record w { commits = cs })
commit before a (false ∷ cs) w = (err db_error, record w { commits = cs; db = before })

unfoldable pub close : {A : Type 0} → Db → Result Fault A × World → Result Fault A × World
unfolding commit
close before (ok a, w) = commit before a w.commits w
close before (err e, w) = (err e, record w { db = before })

-- `with transaction(session_factory)`: commit on success, roll back on an error.
unfoldable pub transaction : {A : Type 0} → M A → M A
unfolding close
transaction body w = close w.db (body w)
