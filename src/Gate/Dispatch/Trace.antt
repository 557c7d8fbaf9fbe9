-- ===== src/Gate/Dispatch/Trace.antt =====
-- What a run of a provider leaves behind: the database as it was, and calls that began under the
-- audit log of that database.
use mathlib.Core.List.{append-nil, append_assoc}
use era_ai.Prelude.{
  ℕ, ◌+◌, String, ◌≡◌, refl, sym, ◌∙◌, ap, Option, none, some, List, [], ◌∷◌, ◌++◌, All, All-append,
  ltb, ◌==◌, Bool-cases, inl, inr,
}
use era_ai.Core.Result.{ErrorCode, Raises, tool_error, exception}
use era_ai.Core.Retry.{with_retry}
use era_ai.Core.Retry.Keeps.{with_retry-Inv}
use era_ai.Core.Breaker.{Gate, admit, block}
use era_ai.Permission.Catalog.{Action}
use era_ai.Gate.Records.{ActionResult, ExecutionContext}
use era_ai.Gate.World.{Env, World, Provider, Call, Stage, validate, execute}
use era_ai.Gate.Calls.{
  call_provider, run_with_timeout, retry_call, breaker_failure, breaker_success, breaker_gate,
}
use era_ai.Gate.Dispatch.{
  params_error, on_sanitized, on_executed, is_unavailable, run_execute, on_validated, on_params,
  on_gate, run_provider,
}

-- From `v` to `w` the database is left alone, and the new calls are of the action and saw its log.
pub record Since (a : Action) (v w : World) : Type 0 where
  pub db : w.db ≡ v.db
  pub commits : w.commits ≡ v.commits
  pub new : List Call
  pub calls : w.calls ≡ v.calls ++ new
  pub each : All (λ c. (c.seen ≡ v.db.audit) × (c.action ≡ a)) new

pub Since-refl : (a : Action) (v : World) → Since a v v
Since-refl a v = record {
  db = refl;
  commits = refl;
  new = [];
  calls = sym (append-nil v.calls);
  each = tt;
}

module _ (env : Env) (a : Action) (v : World) where
  call_provider-Since :
      (s : Stage) (p : Provider) (scope : Option String) (w : World)
      → Since a v w
      → Since a v (call_provider env s p a scope w).1
  unfolding call_provider
  call_provider-Since s p scope w h =
      let c : Call = record { stage = s; action = a; scope = scope; seen = w.db.audit } in
      record {
        db = h.db;
        commits = h.commits;
        new = h.new ++ c ∷ [];
        calls = rw h.calls (append_assoc v.calls h.new (c ∷ []));
        each =
            All-append (λ (c : Call). (c.seen ≡ v.db.audit) × (c.action ≡ a)) h.new (c ∷ []) h.each
              ((ap (λ d. d.audit) h.db, refl), tt);
      }

  -- A world that differs in its clock and its breakers only.
  moved :
      (w w' : World)
      → w'.db ≡ w.db
      → w'.calls ≡ w.calls
      → w'.commits ≡ w.commits
      → Since a v w
      → Since a v w'
  moved w w' d c k h = record {
    db = d ∙ h.db;
    commits = k ∙ h.commits;
    new = h.new;
    calls = c ∙ h.calls;
    each = h.each;
  }

  timeout-Since :
      (s : Stage) (p : Provider) (call : World → Raises ActionResult × World) (w : World)
      → Since a v (call w).1
      → Since a v (run_with_timeout env s p call w).1
  unfolding run_with_timeout
  timeout-Since s p call w h = elim (Bool-cases (env.timeout_budget == 0)) [
    | inl q ↦ rw q h
    | inr q ↦
        rw q (elim (Bool-cases (ltb (w.monotonic + env.timeout_budget) (call w).1.monotonic)) [
          | inl t ↦ rw t (moved (call w).1 _ refl refl refl h)
          | inr t ↦ rw t h
        ])
  ]

  with_retry-Since :
      (p : Provider) (scope : Option String) (d : Option ℕ) (w : World)
      → Since a v w
      → Since a v (with_retry (retry_call env p a scope d) w).1
  unfolding retry_call
  with_retry-Since p scope d w h =
      with_retry-Inv (retry_call env p a scope d) (Since a v) (λ w h. h)
        (λ w h. call_provider-Since execute p scope w h) (λ t w h. moved w _ refl refl refl h) w h

  failure-Since :
      (code : ErrorCode) (p : Provider) (w : World)
      → Since a v w
      → Since a v (breaker_failure env code p w)
  unfolding breaker_failure
  failure-Since code p w h = moved w _ refl refl refl h

  success-Since : (p : Provider) (w : World) → Since a v w → Since a v (breaker_success env p w)
  unfolding breaker_success
  success-Since p w h = moved w _ refl refl refl h

  sanitized-Since :
      (p : Provider) (o : Option ActionResult) (w : World)
      → Since a v w
      → Since a v (on_sanitized env p o w).1
  unfolding on_sanitized
  sanitized-Since p none w h = failure-Since _ p w h
  sanitized-Since p (some r) w h = elim (Bool-cases r.success) [
    | inl q ↦ rw q (success-Since p w h)
    | inr q ↦ rw q (failure-Since _ p w h)
  ]

  executed-Since :
      (p : Provider) (t : String) (c : Raises ActionResult × World)
      → Since a v c.1
      → Since a v (on_executed env p t c).1
  unfolding on_executed
  executed-Since p t (Raises.ok r, w) h = sanitized-Since p (env.sanitize r) w h
  executed-Since p t (tool_error e, w) h = failure-Since _ p w h
  executed-Since p t (exception m, w) h = failure-Since _ p w h

  run_execute-Since :
      (p : Provider) (scope : Option String) (d : Option ℕ) (w : World)
      → Since a v w
      → Since a v (run_execute env p a scope d w).1
  unfolding run_execute
  run_execute-Since p scope d w h =
      let attempt = with_retry (retry_call env p a scope d) in
      executed-Since p a.action_type (run_with_timeout env execute p attempt w)
        (timeout-Since execute p attempt w (with_retry-Since p scope d w h))

  validated-Since :
      (p : Provider) (scope : Option String) (d : Option ℕ) (c : Raises ActionResult × World)
      → Since a v c.1
      → Since a v (on_validated env p a scope d c).1
  unfolding on_validated
  validated-Since p scope d (Raises.ok r, w) h = run_execute-Since p scope d w h
  validated-Since p scope d (tool_error e, w) h = elim (Bool-cases (is_unavailable env e.code)) [
    | inl q ↦ rw q (failure-Since e.code p w h)
    | inr q ↦ rw q h
  ]
  validated-Since p scope d (exception m, w) h = h

  params-Since :
      (p : Provider) (scope : Option String) (d : Option ℕ) (o : Option String) (w : World)
      → Since a v w
      → Since a v (on_params env p a scope d o w).1
  unfolding on_params
  params-Since p scope d (some e) w h = h
  params-Since p scope d none w h =
      let call = call_provider env validate p a scope in
      validated-Since p scope d (run_with_timeout env validate p call w)
        (timeout-Since validate p call w (call_provider-Since validate p scope w h))

  gate-Since :
      (p : Provider) (scope : Option String) (d : Option ℕ) (c : Gate × World)
      → Since a v c.1
      → Since a v (on_gate env p a scope d c).1
  unfolding on_gate
  gate-Since p scope d (admit, w) h = params-Since p scope d (params_error env a) w h
  gate-Since p scope d (block, w) h = h
  gate-Since p scope d (Gate.assertion_error, w) h = h

-- A run of a provider.
pub run_provider-Since :
    (env : Env) (p : Provider) (a : Action) (ctx : ExecutionContext) (v : World)
    → Since a v (run_provider env p a ctx v).1
unfolding run_provider breaker_gate
run_provider-Since env p a ctx v =
    gate-Since env a v p ctx.execution_scope _ (breaker_gate env p v)
      (moved env a v v (breaker_gate env p v).1 refl refl refl (Since-refl a v))
