-- ===== src/Agents/Tasks.antt =====
-- era/agents/task_manager.py and the tasks of era/agents/models.py. The table is the values of the
-- manager's `dict`, in order; a task that the loop holds is the one of its id in the table.
pub mod Stuck
use Prim.Native.String
use era_ai.Prelude.{
  ℕ, zero, suc, ◌+◌, ◌-◌, String, Bool, true, false, ◌&&◌, ◌||◌, not, Option, none, some, List, [],
  ◌∷◌, ◌++◌, map, length, drop, any, all, elem, ltb, leb, str_eq, if◌then◌else◌,
}
use era_ai.Value.{Value}

pub data TaskStatus : Type 0 where
  pending_status : TaskStatus
  running : TaskStatus
  completed : TaskStatus
  failed : TaskStatus
  retrying : TaskStatus
  waiting_for_user : TaskStatus
  skipped : TaskStatus

abbrev pub is_pending : TaskStatus → Bool
is_pending pending_status = true
is_pending _ = false

abbrev pub is_completed : TaskStatus → Bool
is_completed completed = true
is_completed _ = false

abbrev pub is_waiting : TaskStatus → Bool
is_waiting waiting_for_user = true
is_waiting _ = false

-- `status in (FAILED, SKIPPED)`
abbrev pub is_failed_or_skipped : TaskStatus → Bool
is_failed_or_skipped failed = true
is_failed_or_skipped skipped = true
is_failed_or_skipped _ = false

-- The fields that the manager and the loop read or write.
pub record Task : Type 0 where
  pub id : String
  pub action_type : String
  pub status : TaskStatus
  pub depends_on : List String
  pub required : Bool
  pub attempt : ℕ
  pub max_attempts : ℕ
  pub observations : List Value
  pub waiting_on : List String
  pub correction_note : Option String
  pub error : Option String

-- `text[:n]`
truncated : ℕ → String → String
truncated zero text = ""
truncated (suc n) String.[] = ""
truncated (suc n) (String.◌∷◌ first rest) = String.◌∷◌ first (truncated n rest)

abbrev pub max_observations_per_task : ℕ
max_observations_per_task = 20

-- `_tasks.get`
unfoldable pub get : List Task → String → Option Task
get [] id = none
get (t ∷ ts) id = let rest = get ts id in if str_eq t.id id then some t else rest

unfoldable pub add : List Task → Task → List Task
unfolding get
add [] task = task ∷ []
add (t ∷ ts) task = let rest = add ts task in if str_eq t.id task.id then t ∷ ts else t ∷ rest

-- `{t.id: t for t in tasks}`: a later task of an id takes the place of the earlier one.
replace : List Task → Task → List Task
replace [] task = task ∷ []
replace (t ∷ ts) task =
    let rest = replace ts task in if str_eq t.id task.id then task ∷ ts else t ∷ rest

replace_all : List Task → List Task → List Task
replace_all table [] = table
replace_all table (t ∷ ts) = replace_all (replace table t) ts

unfoldable pub new_manager : List Task → List Task
unfolding replace replace_all
new_manager tasks = replace_all [] tasks

-- A change of the task of an id.
unfoldable pub update : String → (Task → Task) → List Task → List Task
update id f = map (λ t. if str_eq t.id id then f t else t)

unfoldable pub filter : (Task → Bool) → List Task → List Task
filter p [] = []
filter p (t ∷ ts) = let rest = filter p ts in if p t then t ∷ rest else rest

unfoldable pub pending : List Task → List Task
unfolding filter
pending = filter (λ t. is_pending t.status)

unfoldable pub waiting : List Task → List Task
unfolding filter
waiting = filter (λ t. is_waiting t.status)

unfoldable pub dep_completed : List Task → String → Bool
unfolding get
dep_completed table dep = elim (get table dep) [ none ↦ false | some t ↦ is_completed t.status ]

-- An unknown dependency can never be satisfied.
unfoldable pub dep_terminal_failed : List Task → String → Bool
unfolding get
dep_terminal_failed table dep = elim (get table dep) [
  | none ↦ true
  | some t ↦ is_failed_or_skipped t.status
]

unfoldable pub is_ready : List Task → Task → Bool
unfolding dep_completed
is_ready table t = is_pending t.status && all (dep_completed table) t.depends_on

unfoldable pub first_ready : List Task → List Task → Option Task
unfolding is_ready
first_ready table [] = none
first_ready table (t ∷ ts) =
    let rest = first_ready table ts in if is_ready table t then some t else rest

unfoldable pub next_ready : List Task → Option Task
unfolding first_ready
next_ready table = first_ready table table

unfoldable pub blocked_pending : List Task → List Task
unfolding filter dep_terminal_failed
blocked_pending table =
    filter (λ t. is_pending t.status && any (dep_terminal_failed table) t.depends_on) table

unfoldable pub has_pending : List Task → Bool
has_pending table = any (λ t. is_pending t.status) table

unfoldable pub mark_running : Task → Task
mark_running t = record t { status = running }

unfoldable pub complete : Task → Task
complete t = record t { status = completed }

unfoldable pub fail : String → Task → Task
unfolding truncated
fail error t = record t { status = failed; error = some (truncated 500 error) }

unfoldable pub skip : String → Task → Task
unfolding truncated
skip reason t = record t { status = skipped; error = some (truncated 500 reason) }

unfoldable pub retry_allowed : Task → Bool
retry_allowed t = ltb (t.attempt + 1) t.max_attempts

unfoldable pub retry : String → Task → Bool × Task
unfolding truncated
retry note t =
    let tried = record t { attempt = t.attempt + 1 } in
    if leb t.max_attempts (t.attempt + 1) then (false, tried) else (
      true,
      record tried { correction_note = some (truncated 500 note); status = pending_status },
    )

unfoldable pub pause_for_user : String → Task → Task
pause_for_user confirmation t = record t {
  status = waiting_for_user;
  waiting_on =
      if elem confirmation t.waiting_on then t.waiting_on else t.waiting_on ++ confirmation ∷ [];
}

-- `outcome == "executed"`; an empty note gives the default text.
unfoldable pub resolve_wait : String → String → Task → Task
resolve_wait outcome note t =
    if str_eq outcome "executed" then record t { status = completed } else record t {
      status = failed;
      error =
          some (if str_eq note "" then String.◌++◌ "confirmation resolved as " outcome else note);
    }

-- The last twenty are kept.
unfoldable pub record_observation : Value → Task → Task
record_observation observation t =
    let all_of_them = t.observations ++ observation ∷ [] in
    record t { observations = drop (length all_of_them - max_observations_per_task) all_of_them }
