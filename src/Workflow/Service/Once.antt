-- ===== src/Workflow/Service/Once.antt =====
-- Over any sequence of calls a run keeps its identity, and no step's action is requested twice.
use era_ai.Prelude.{
  ℕ, suc, String, ◌≡◌, refl, ap, ◌∙◌, subst, ◌&&◌, Option, none, some, List, [], ◌∷◌, All, str_eq,
  Bool-cases, inl, inr, arith,
}
use era_ai.Prelude.Results.{Result, ok, err, IfOk}
use era_ai.Gate.Records.{ExecutionContext}
use era_ai.Workflow.Run.{WorkflowRun, EngineState, Services}
use era_ai.Workflow.Run.Rows.{identity}
use era_ai.Workflow.Service.{
  WorkflowError, Store, StartRequest, get_run_by_token, load_owned, token_of, start_new, refusal,
  start_unless, start, resume, cancel,
}
use era_ai.Workflow.Service.Calls.{
  resolve_ambiguous, Call, start_call, resume_call, cancel_call, resolve_call, answer, then_call,
  serve,
}
use era_ai.Workflow.Service.Total.{IsTimelyCall, answer-returns}
use era_ai.Workflow.Service.Kept.{
  IsOnce, Extends, Keeps, start_unless-Keeps, resume_loaded-Keeps, cancel_loaded-Keeps,
  resolve_loaded-Keeps, load_owned-ok, Extends-trans, Extends-refl,
}

answer-Keeps : (fuel : ℕ) (c : Call) (st : Store) → All IsOnce st → Keeps st (answer fuel c st)
unfolding answer start resume cancel resolve_ambiguous
answer-Keeps fuel (start_call sv ctx q) st a = start_unless-Keeps sv ctx fuel _ q st a
answer-Keeps fuel (resume_call sv ctx id) st a =
    resume_loaded-Keeps sv ctx (load_owned id ctx.actor_id st) fuel id st
      (load_owned-ok sv ctx id ctx.actor_id st) a
answer-Keeps fuel (cancel_call sv ctx id) st a =
    cancel_loaded-Keeps sv ctx (load_owned id ctx.actor_id st) id st
      (load_owned-ok sv ctx id ctx.actor_id st) a
answer-Keeps fuel (resolve_call sv ctx id decision) st a =
    resolve_loaded-Keeps sv ctx (load_owned id ctx.actor_id st) decision fuel id st
      (load_owned-ok sv ctx id ctx.actor_id st) a

serve-returns :
    (fuel : ℕ) (cs : List Call) (st : Store)
    → All (IsTimelyCall fuel) cs
    → All IsOnce st
    → (st' : Store) × (serve (suc fuel) cs st ≡ some st') × All IsOnce st' × Extends st st'
unfolding serve
serve-returns fuel [] st c a = (st, refl, a, Extends-refl st)
serve-returns fuel (c ∷ cs) st t a =
    let ((reply, next), e) = answer-returns fuel c st t.0 a in
    let kept = subst (Keeps st) e (answer-Keeps (suc fuel) c st a) in
    let (st', ends, once, more) = serve-returns fuel cs next t.1 kept.0 in
    (st', rw (e, then_call) ends, once, Extends-trans st next st' kept.1 more)

-- Whatever calls are made, and whatever the other services answer them, the calls return, where their clock
-- runs and the fuel covers their wall-clock budget. Then the action of every step of every run was
-- requested once at most, and not while its step was pending.
pub serve-IsOnce :
    (fuel : ℕ) (cs : List Call)
    → All (IsTimelyCall fuel) cs
    → (st : Store) × (serve (suc fuel) cs [] ≡ some st) × All IsOnce st
serve-IsOnce fuel cs t =
    let (st, ends, once, more) = serve-returns fuel cs [] t tt in (st, ends, once)

token-Extends :
    (actor token : String) (st ts : Store) (s : EngineState)
    → Extends st ts
    → get_run_by_token actor token st ≡ some s
    → (t : EngineState) × (get_run_by_token actor token ts ≡ some t) × (identity t ≡ identity s)
unfolding get_run_by_token
token-Extends actor token [] ts s h q = ground (arith, q)
token-Extends actor token (r ∷ rs) [] s h q = elim h [ ]
token-Extends actor token (r ∷ rs) (t ∷ ts) s h q =
    let who : t.run.actor_id ≡ r.run.actor_id = ap (λ w. w.actor_id) h.0 in
    let key : t.run.run_token ≡ r.run.run_token = ap (λ w. w.run_token) h.0 in
    elim (Bool-cases (str_eq r.run.actor_id actor && str_eq r.run.run_token token)) [
      | inl e ↦
          let same : r ≡ s = ground (arith, rw e at q) in
          (t, rw (who, key, e) refl, h.0 ∙ ap identity same)
      | inr e ↦
          let (u, found, id) = token-Extends actor token rs ts s h.1 (rw e at q) in
          (u, rw (who, key, e) found, id)
    ]

start_known :
    (fuel : ℕ) (refused : Option WorkflowError) (sv : Services) (ctx : ExecutionContext)
    (q : StartRequest) (st : Store) (s t : EngineState)
    → get_run_by_token ctx.actor_id (token_of q) st ≡ some t
    → identity t ≡ identity s
    → (reply : Result WorkflowError WorkflowRun) × (start_unless sv ctx fuel refused q st
        ≡ some (reply, st))
      × IfOk (λ r. r.id ≡ s.run.id) reply
unfolding start_unless start_new
start_known fuel (some e) sv ctx q st s t found same = (err e, refl, tt)
start_known fuel none sv ctx q st s t found same =
    (ok t.run, rw (found, start_new) refl, ap (λ w. w.id) same)

-- A start with a token that has started a run answers with that run or refuses, and changes nothing,
-- whatever was called since, where the calls' clock runs and the fuel covers their wall-clock budget.
pub start-once :
    (fuel : ℕ) (cs : List Call) (st : Store) (s : EngineState) (sv : Services)
    (ctx : ExecutionContext) (q : StartRequest)
    → All (IsTimelyCall fuel) cs
    → All IsOnce st
    → get_run_by_token ctx.actor_id (token_of q) st ≡ some s
    → (st' : Store) × (serve (suc fuel) cs st ≡ some st')
      × (reply : Result WorkflowError WorkflowRun) × (answer fuel (start_call sv ctx q) st'
          ≡ some (reply, st'))
      × IfOk (λ r. r.id ≡ s.run.id) reply
unfolding answer start
start-once fuel cs st s sv ctx q c a found =
    let (st', ends, once, more) = serve-returns fuel cs st c a in
    let (t, still, same) = token-Extends ctx.actor_id (token_of q) st st' s more found in
    let (reply, answered, right) =
      start_known fuel (refusal sv ctx q) sv ctx q st' s t still same in
    (st', ends, reply, answered, right)
