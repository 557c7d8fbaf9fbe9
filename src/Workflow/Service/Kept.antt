-- ===== src/Workflow/Service/Kept.antt =====
-- What a call of the service keeps: the runs that there were, and that no step is requested twice.
use text.Mathlib.TextEquality.{eq_iff}
use era_ai.Prelude.{
  ℕ, String, ◌≡◌, refl, sym, ap, ◌∙◌, subst, true, Option, none, some, [], ◌∷◌, ◌++◌, All, str_eq,
  Bool-cases, inl, inr, arith,
}
use era_ai.Prelude.Results.{Result, ok, err}
use era_ai.Gate.Records.{ExecutionContext}
use era_ai.Workflow.Run.{RunStatus, EngineState, Services, set_run, release_governance}
use era_ai.Workflow.Run.Rows.{Since, identity, Calm-OnceAt, rows-Kept, OnceAt}
use era_ai.Workflow.Engine.Batch.{IfSome, same-OnceAt}
use era_ai.Workflow.Engine.Once.{advance-OnceAt}
use era_ai.Workflow.Service.{
  WorkflowError, Store, Answer, StartRequest, get_run, put_run, owned_by, load_owned,
  create_failed_run, created, put_answer, advance_stored, admit, create_run, start_new,
  start_unless, resume_as, resume_loaded, stopped, cancel_as, cancel_loaded, continued,
}
use era_ai.Workflow.Service.Calls.{resolve_by, resolve_as, resolve_loaded}

abbrev pub since : EngineState → Since
since s = record { who = identity s; from = 0 }

-- Every step of a run was requested once at most.
abbrev pub IsOnce : EngineState → Type 0
IsOnce s = (i : ℕ) → OnceAt (since s) i s

-- The runs that there were are still there, in their places.
abbrev pub Extends : Store → Store → Type 0
Extends [] ts = Unit
Extends (s ∷ ss) [] = ⊥
Extends (s ∷ ss) (t ∷ ts) = (identity t ≡ identity s) × Extends ss ts

pub Extends-refl : (st : Store) → Extends st st
Extends-refl [] = tt
Extends-refl (s ∷ ss) = (refl, Extends-refl ss)

pub Extends-trans : (a b c : Store) → Extends a b → Extends b c → Extends a c
Extends-trans [] b c h k = tt
Extends-trans (s ∷ a) (t ∷ b) (u ∷ c) h k = (k.0 ∙ h.0, Extends-trans a b c h.1 k.1)
Extends-trans (s ∷ a) (t ∷ b) [] h k = elim k [ ]
Extends-trans (s ∷ a) [] c h k = elim h [ ]

Extends-append : (st : Store) (s : EngineState) → Extends st (st ++ s ∷ [])
Extends-append [] s = tt
Extends-append (t ∷ ts) s = (refl, Extends-append ts s)

All-append : (st : Store) (s : EngineState) → All IsOnce st → IsOnce s → All IsOnce (st ++ s ∷ [])
All-append [] s a o = (o, tt)
All-append (t ∷ ts) s a o = (a.0, All-append ts s a.1 o)

-- A change of the run that an id finds, to a state of the same run.
put_run-Extends :
    (id : String) (s t : EngineState) (st : Store)
    → get_run id st ≡ some s
    → identity t ≡ identity s
    → Extends st (put_run id t st)
unfolding get_run put_run
put_run-Extends id s t [] q h = tt
put_run-Extends id s t (r ∷ rs) q h = elim (Bool-cases (str_eq r.run.id id)) [
  | inl e ↦
      let same : r ≡ s = ground (arith, rw e at q) in
      rw e (h ∙ ap identity (sym same), Extends-refl rs)
  | inr e ↦ rw e (refl, put_run-Extends id s t rs (rw e at q) h)
]

put_run-All :
    (id : String) (t : EngineState) (st : Store)
    → All IsOnce st
    → IsOnce t
    → All IsOnce (put_run id t st)
unfolding put_run
put_run-All id t [] a o = tt
put_run-All id t (r ∷ rs) a o = elim (Bool-cases (str_eq r.run.id id)) [
  | inl e ↦ rw e (o, a.1)
  | inr e ↦ rw e (a.0, put_run-All id t rs a.1 o)
]

pub get_run-IsOnce :
    (id : String) (s : EngineState) (st : Store) → get_run id st ≡ some s → All IsOnce st → IsOnce s
unfolding get_run
get_run-IsOnce id s [] q a = ground (arith, q)
get_run-IsOnce id s (r ∷ rs) q a = elim (Bool-cases (str_eq r.run.id id)) [
  | inl e ↦ let same : r ≡ s = ground (arith, rw e at q) in subst IsOnce same a.0
  | inr e ↦ get_run-IsOnce id s rs (rw e at q) a.1
]

-- What a call keeps
abbrev pub Keeps : Store → Answer → Type 0
Keeps st none = Unit
Keeps st (some (reply, st')) = All IsOnce st' × Extends st st'

pub unchanged : (st : Store) → All IsOnce st → All IsOnce st × Extends st st
unchanged st a = (a, Extends-refl st)

pub identity-kept :
    (s t : EngineState) → ((i : ℕ) → OnceAt (since s) i t) → (identity t ≡ identity s) × IsOnce t
identity-kept s t o = (
  (o 0).is_run,
  λ i. record { is_run = refl; later = omega arith; once = (o i).once; none_yet = (o i).none_yet },
)

get_run-append :
    (id : String) (st : Store) (s : EngineState)
    → s.run.id ≡ id
    → get_run id st ≡ none
    → get_run id (st ++ s ∷ []) ≡ some s
unfolding get_run
get_run-append id [] s e q = rw ((eq_iff s.run.id id).1 e) refl
get_run-append id (r ∷ rs) s e q = elim (Bool-cases (str_eq r.run.id id)) [
  | inl w ↦ ground (arith, rw w at q)
  | inr w ↦ rw w (get_run-append id rs s e (rw w at q))
]

-- A call after a new run
appended-Keeps : (st : Store) (s : EngineState) (o : Answer) → Keeps (st ++ s ∷ []) o → Keeps st o
appended-Keeps st s none k = tt
appended-Keeps st s (some (reply, st')) k =
    (k.0, Extends-trans st (st ++ s ∷ []) st' (Extends-append st s) k.1)

module _ (sv : Services) (ctx : ExecutionContext) where
  put_answer-Keeps :
      (id : String) (s : EngineState) (o : Option EngineState) (st : Store)
      → get_run id st ≡ some s
      → ((i : ℕ) → IfSome (OnceAt (since s) i) o)
      → All IsOnce st
      → Keeps st (put_answer sv ctx id o st)
  unfolding put_answer
  put_answer-Keeps id s none st q h a = tt
  put_answer-Keeps id s (some t) st q h a =
      let (same, once) = identity-kept s t h in
      (put_run-All id t st a once, put_run-Extends id s t st q same)

  advance_stored-Keeps :
      (fuel : ℕ) (id : String) (s t : EngineState) (st : Store)
      → get_run id st ≡ some s
      → ((i : ℕ) → OnceAt (since s) i t)
      → All IsOnce st
      → Keeps st (advance_stored sv ctx fuel id t st)
  unfolding advance_stored
  advance_stored-Keeps fuel id s t st q h a =
      put_answer-Keeps id s _ st q (λ i. advance-OnceAt sv _ (since s) i fuel t (h i)) a

  -- The same where every domain is allowed.
  freely :
      (id : String) (s t : EngineState) (fuel : ℕ) (st : Store)
      → get_run id st ≡ some s
      → ((i : ℕ) → OnceAt (since s) i t)
      → All IsOnce st
      → Keeps st (advance_stored record sv { domain_allowed = λ action. true } ctx fuel id t st)
  unfolding advance_stored
  freely id s t fuel st q h a =
      put_answer-Keeps id s _ st q
        (λ i.
          advance-OnceAt record sv { domain_allowed = λ action. true } _ (since s) i fuel t (h i))
        a

  pub created-IsOnce : (q : StartRequest) → IsOnce (created sv ctx q)
  unfolding created
  created-IsOnce q i = record {
    is_run = refl;
    later = omega arith;
    once = omega arith;
    none_yet = λ h. refl;
  }

  failed-IsOnce : (q : StartRequest) (code : String) → IsOnce (create_failed_run sv ctx q code)
  unfolding create_failed_run
  failed-IsOnce q code i = record {
    is_run = refl;
    later = omega arith;
    once = omega arith;
    none_yet = λ h. refl;
  }

  resume_as-Keeps :
      (status : RunStatus) (fuel : ℕ) (id : String) (s : EngineState) (st : Store)
      → get_run id st ≡ some s
      → All IsOnce st
      → Keeps st (resume_as sv ctx status fuel id s st)
  unfolding resume_as
  resume_as-Keeps RunStatus.completed fuel id s st q a = unchanged st a
  resume_as-Keeps RunStatus.cancelled fuel id s st q a = unchanged st a
  resume_as-Keeps RunStatus.failed fuel id s st q a = unchanged st a
  resume_as-Keeps RunStatus.ambiguous fuel id s st q a = unchanged st a
  resume_as-Keeps other fuel id s st q a =
      advance_stored-Keeps fuel id s s st q (get_run-IsOnce id s st q a) a

  owned_by-ok :
      (actor : String) (o : Option EngineState) (s : EngineState)
      → owned_by actor o ≡ ok s
      → o ≡ some s
  owned_by-ok actor none s h = ground (arith, h)
  owned_by-ok actor (some r) s h = elim (Bool-cases (str_eq r.run.actor_id actor)) [
    | inl q ↦ ap some (ground (arith, rw q at h))
    | inr q ↦ ground (arith, rw q at h)
  ]

  pub load_owned-ok :
      (id actor : String) (st : Store) (s : EngineState)
      → load_owned id actor st ≡ ok s
      → get_run id st ≡ some s
  unfolding load_owned
  load_owned-ok id actor st s h = owned_by-ok actor (get_run id st) s h

  pub resume_loaded-Keeps :
      (r : Result WorkflowError EngineState) (fuel : ℕ) (id : String) (st : Store)
      → ((s : EngineState) → r ≡ ok s → get_run id st ≡ some s)
      → All IsOnce st
      → Keeps st (resume_loaded sv ctx r fuel id st)
  unfolding resume_loaded
  resume_loaded-Keeps (err e) fuel id st q a = unchanged st a
  resume_loaded-Keeps (ok s) fuel id st q a = resume_as-Keeps s.run.status fuel id s st (q s refl) a

  stopped-once :
      (why : String) (s : EngineState)
      → IsOnce s
      → (i : ℕ) → OnceAt (since s) i (stopped sv ctx why s)
  unfolding stopped set_run release_governance
  stopped-once why s o i = same-OnceAt sv ctx (since s) i s _ refl (omega arith) (refl, refl) (o i)

  cancel_as-Keeps :
      (status : RunStatus) (id : String) (s : EngineState) (st : Store)
      → get_run id st ≡ some s
      → All IsOnce st
      → Keeps st (cancel_as sv ctx status id s st)
  unfolding cancel_as
  cancel_as-Keeps RunStatus.completed id s st q a = unchanged st a
  cancel_as-Keeps RunStatus.cancelled id s st q a = unchanged st a
  cancel_as-Keeps RunStatus.failed id s st q a = unchanged st a
  cancel_as-Keeps RunStatus.ambiguous id s st q a = unchanged st a
  cancel_as-Keeps other id s st q a =
      put_answer-Keeps id s (some (stopped sv ctx "cancelled by operator" s)) st q
        (stopped-once "cancelled by operator" s (get_run-IsOnce id s st q a)) a

  pub cancel_loaded-Keeps :
      (r : Result WorkflowError EngineState) (id : String) (st : Store)
      → ((s : EngineState) → r ≡ ok s → get_run id st ≡ some s)
      → All IsOnce st
      → Keeps st (cancel_loaded sv ctx r id st)
  unfolding cancel_loaded
  cancel_loaded-Keeps (err e) id st q a = unchanged st a
  cancel_loaded-Keeps (ok s) id st q a = cancel_as-Keeps s.run.status id s st (q s refl) a

  pub continued-once :
      (s : EngineState) → IsOnce s → (i : ℕ) → OnceAt (since s) i (continued sv ctx s)
  unfolding continued
  continued-once s o i =
      let kept =
        rows-Kept s.run.current_step i _ s
          record { index = λ r. ground arith; settles = λ r k. ground (arith, k) } in
      Calm-OnceAt (since s) i s _
        record { who = refl; later = kept.calm.later; back = kept.calm.back; same = refl } (o i)

  admit-Keeps :
      (fuel : ℕ) (refused : Option String) (q : StartRequest) (st : Store)
      → get_run q.fresh_id st ≡ none
      → All IsOnce st
      → Keeps st (admit sv ctx fuel refused q st)
  unfolding admit
  admit-Keeps fuel (some code) q st new a =
      (All-append st _ a (failed-IsOnce q code), Extends-append st _)
  admit-Keeps fuel none q st new a =
      appended-Keeps st (created sv ctx q)
        (advance_stored sv ctx fuel q.fresh_id (created sv ctx q) _)
        (advance_stored-Keeps fuel q.fresh_id (created sv ctx q) (created sv ctx q)
          (st ++ created sv ctx q ∷ []) (get_run-append q.fresh_id st (created sv ctx q) refl new)
          (created-IsOnce q) (All-append st (created sv ctx q) a (created-IsOnce q)))

  create_run-Keeps :
      (fuel : ℕ) (o : Option EngineState) (q : StartRequest) (st : Store)
      → get_run q.fresh_id st ≡ o
      → All IsOnce st
      → Keeps st (create_run sv ctx fuel o q st)
  unfolding create_run
  create_run-Keeps fuel (some s) q st e a = unchanged st a
  create_run-Keeps fuel none q st e a = admit-Keeps fuel q.admission q st e a

  start_new-Keeps :
      (fuel : ℕ) (o : Option EngineState) (q : StartRequest) (st : Store)
      → All IsOnce st
      → Keeps st (start_new sv ctx fuel o q st)
  unfolding start_new
  start_new-Keeps fuel (some s) q st a = unchanged st a
  start_new-Keeps fuel none q st a = create_run-Keeps fuel (get_run q.fresh_id st) q st refl a

  pub start_unless-Keeps :
      (fuel : ℕ) (refused : Option WorkflowError) (q : StartRequest) (st : Store)
      → All IsOnce st
      → Keeps st (start_unless sv ctx fuel refused q st)
  unfolding start_unless
  start_unless-Keeps fuel (some e) q st a = unchanged st a
  start_unless-Keeps fuel none q st a = start_new-Keeps fuel _ q st a

  resolve_by-Keeps :
      (decision : String) (fuel : ℕ) (id : String) (s : EngineState) (st : Store)
      → get_run id st ≡ some s
      → All IsOnce st
      → Keeps st (resolve_by sv ctx decision fuel id s st)
  unfolding resolve_by
  resolve_by-Keeps decision fuel id s st q a =
      let once = get_run-IsOnce id s st q a in
      let why : String = "ambiguous outcome aborted by operator" in
      elim (Bool-cases (str_eq decision "abort")) [
        | inl e ↦
            rw e
              (put_answer-Keeps id s (some (stopped sv ctx why s)) st q (stopped-once why s once) a)
        | inr e ↦ rw e (elim (Bool-cases (str_eq decision "continue")) [
          | inl w ↦ rw w (freely id s (continued sv ctx s) fuel st q (continued-once s once) a)
          | inr w ↦ rw w (unchanged st a)
        ])
      ]

  resolve_as-Keeps :
      (status : RunStatus) (decision : String) (fuel : ℕ) (id : String) (s : EngineState)
      (st : Store)
      → get_run id st ≡ some s
      → All IsOnce st
      → Keeps st (resolve_as sv ctx status decision fuel id s st)
  unfolding resolve_as
  resolve_as-Keeps RunStatus.ambiguous decision fuel id s st q a =
      resolve_by-Keeps decision fuel id s st q a
  resolve_as-Keeps other decision fuel id s st q a = unchanged st a

  pub resolve_loaded-Keeps :
      (r : Result WorkflowError EngineState) (decision : String) (fuel : ℕ) (id : String)
      (st : Store)
      → ((s : EngineState) → r ≡ ok s → get_run id st ≡ some s)
      → All IsOnce st
      → Keeps st (resolve_loaded sv ctx r decision fuel id st)
  unfolding resolve_loaded
  resolve_loaded-Keeps (err e) decision fuel id st q a = unchanged st a
  resolve_loaded-Keeps (ok s) decision fuel id st q a =
      resolve_as-Keeps s.run.status decision fuel id s st (q s refl) a
