-- ===== src/Idempotency/Replay.antt =====
-- A run dispatches at most once, and a run that repeats one that was answered does not dispatch.
use era_ai.Prelude.{
  ℕ, ◌+◌, ◌≤◌, String, ◌≡◌, ◌≢◌, ◌⊎◌, inl, inr, refl, subst, ◌∙◌, ap, true, Option, none, some,
  List, [], ◌∷◌, ◌++◌, le→ltb, str_eq, eq_iff, if◌then◌else◌, either_branch, arith,
}
use era_ai.Prelude.Results.{Result, ok, err}
use era_ai.Gate.Records.{ExecutionResponse}
use era_ai.Idempotency.{
  Status, completed, processing, IdempotencyRecord, Failure, conflict, Service, State,
  response_payload, is_for, get, complete, is_completed, key_fingerprint, is_expired, is_stale,
  resolve_completed, stored_response, new_record, on_dispatched, create_and_dispatch, begin_again,
  in_dispatch, let_others, raced, begin_first, begin, on_existing, run,
}
use era_ai.Idempotency.Records.{ok_injective, completed_with, get-append, get-complete}

module _ {W E : Type 0} (env : Service W E) (actor key request : String) where
  -- The record of an answered run, made by the time `now`.
  pub record Answered (now : ℕ) (response : ExecutionResponse) (rs : List IdempotencyRecord)
      : Type 0 where
    pub kept : IdempotencyRecord
    pub found : get actor key rs ≡ some kept
    pub status : kept.status ≡ completed
    pub response_kept : kept.response ≡ some (response_payload response)
    pub request_kept : kept.request_hash ≡ request
    pub expiry : kept.expires_at ≡ now + env.ttl

  -- No dispatch, or one, of which an answer is kept.
  unfoldable pub Once : State W → Result (Failure E) ExecutionResponse × State W → Type 0
  Once s (r, t) =
      (t.dispatches ≡ s.dispatches)
      ⊎ ((t.dispatches ≡ s.dispatches + 1)
          × ((response : ExecutionResponse)
              → r ≡ ok response
              → Answered (env.clock s.world) response t.records))

  -- While a dispatch runs, other callers leave the record that it is for as it is.
  abbrev pub Undisturbed : Type 0
  Undisturbed =
      (rs : List IdempotencyRecord) (r : IdempotencyRecord)
      → get actor key rs ≡ some r
      → r.status ≡ processing
      → get actor key (env.others in_dispatch rs) ≡ some r

  created-Once :
      (undisturbed : Undisturbed) (s u : State W) (c : Result E ExecutionResponse × W)
      → get actor key u.records ≡ none
      → u.dispatches ≡ s.dispatches
      → u.world ≡ s.world
      → let r = new_record env actor key request u in
        Once s (
          on_dispatched env r.id
            (let_others env in_dispatch (record u {
              records = u.records ++ r ∷ [];
              issued = u.issued + 1;
              dispatches = u.dispatches + 1;
            }))
            c)
  unfolding Once on_dispatched new_record completed_with is_for let_others
  created-Once undisturbed s u (err e, w) g d q =
      inr (omega (arith, d), λ response h. ground (arith, h))
  created-Once undisturbed s u (ok x, w) g d q =
      let r = new_record env actor key request u in
      inr (
        omega (arith, d),
        λ response h.
            subst
              (λ y.
                Answered (env.clock s.world) y
                  (complete r.id x (env.others in_dispatch (u.records ++ r ∷ []))))
              (ok_injective x response h)
              (record {
                kept = completed_with x r;
                found =
                    get-complete actor key r.id x (env.others in_dispatch (u.records ++ r ∷ [])) r
                      (undisturbed (u.records ++ r ∷ []) r
                        (get-append actor key u.records r g
                          (ground (arith, eq_iff actor actor, eq_iff key key)))
                        refl)
                      refl;
                status = refl;
                response_kept = refl;
                request_kept = refl;
                expiry = ap (λ z. env.clock z + env.ttl) q;
              }),
      )

  module _ (undisturbed : Undisturbed) where
    created :
        (s u : State W)
        → get actor key u.records ≡ none
        → u.dispatches ≡ s.dispatches
        → u.world ≡ s.world
        → Once s (create_and_dispatch env actor key request u)
    unfolding create_and_dispatch
    created s u g d q = created-Once undisturbed s u (env.dispatch u.world) g d q

    again-Once :
        (o : Option IdempotencyRecord) (s u : State W)
        → get actor key u.records ≡ o
        → u.dispatches ≡ s.dispatches
        → u.world ≡ s.world
        → Once s (begin_again env o actor key request u)
    unfolding Once begin_again
    again-Once (some r) s u g d q = inl d
    again-Once none s u g d q = created s u g d q

    raced-Once :
        (r : IdempotencyRecord) (s u : State W)
        → u.dispatches ≡ s.dispatches
        → u.world ≡ s.world
        → Once s (raced env r actor key request u)
    unfolding Once raced let_others
    raced-Once r s u d q =
        either_branch (Once s) (is_completed r.status) (inl d)
          (either_branch (Once s) (is_stale env r u.world) (again-Once _ s _ refl d q) (inl d))

    first-Once :
        (o : Option IdempotencyRecord) (s u : State W)
        → get actor key u.records ≡ o
        → u.dispatches ≡ s.dispatches
        → u.world ≡ s.world
        → Once s (begin_first env o actor key request u)
    unfolding begin_first
    first-Once (some r) s u g d q = raced-Once r s u d q
    first-Once none s u g d q = created s u g d q

    begin-Once :
        (s u : State W)
        → u.dispatches ≡ s.dispatches
        → u.world ≡ s.world
        → Once s (begin env actor key request u)
    unfolding begin let_others
    begin-Once s u d q = first-Once _ s _ refl d q

    existing-Once :
        (o : Option IdempotencyRecord) (s : State W)
        → Once s (on_existing env o actor key request s)
    unfolding Once on_existing
    existing-Once none s = begin-Once s s refl refl
    existing-Once (some r) s =
        either_branch (Once s) (is_expired env r s.world) (begin-Once s _ refl refl) (
          either_branch (Once s) (is_completed r.status) (inl refl)
            (either_branch (Once s) (is_stale env r s.world) (begin-Once s _ refl refl) (inl refl)))

-- Where other callers, while a dispatch runs, leave the record in progress under the actor and the key as
-- it is, and otherwise do to the records what they like, a run dispatches at most once; and if it dispatches and
-- answers, the records hold its answer without the challenge, its request, and an expiry of `ttl` from
-- the time of the run, under the actor and the key.
pub run-Once :
    {W E : Type 0} (env : Service W E) (actor key request : String) (s : State W)
    → Undisturbed env actor (key_fingerprint env actor key) request
    → Once env actor (key_fingerprint env actor key) request s (run env actor key request s)
unfolding run
run-Once env actor key request s undisturbed =
    let hash = key_fingerprint env actor key in
    existing-Once env actor hash request undisturbed (get actor hash s.records) s

completed_only : (s : Status) → s ≡ completed → is_completed s ≡ true
unfolding is_completed
completed_only completed h = refl
completed_only processing h = ground (arith, h)

replayed :
    {W E : Type 0} (env : Service W E) (actor key request other : String) (now : ℕ)
    (response : ExecutionResponse) (o : Option IdempotencyRecord) (k : IdempotencyRecord)
    (t : State W)
    → o ≡ some k
    → k.status ≡ completed
    → k.response ≡ some (response_payload response)
    → k.request_hash ≡ request
    → env.clock t.world ≤ k.expires_at
    → on_existing env o actor key other t
      ≡ ((if str_eq request other then ok (response_payload response) else err conflict), t)
unfolding on_existing is_expired resolve_completed stored_response
replayed env actor key request other now response o k t f s p q e =
    simp (f, le→ltb (env.clock t.world) k.expires_at e, completed_only k.status s, p, q) refl

-- A repeated run replays. If a run dispatched and was answered, where other callers left the record in
-- progress under its actor and key as it is while the dispatch ran, then a run with that actor and key that finds
-- that record as the first one left it, at most `ttl` after the first began, leaves the state alone and so
-- dispatches nothing: for the same request it returns the answer without its challenge, for another
-- request it raises the conflict. What happened to other records meanwhile does not matter.
pub run-replay :
    {W E : Type 0} (env : Service W E) (actor key request other : String)
    (response : ExecutionResponse) (s t : State W)
    → Undisturbed env actor (key_fingerprint env actor key) request
    → (run env actor key request s).0 ≡ ok response
    → (run env actor key request s).1.dispatches ≢ s.dispatches
    → get actor (key_fingerprint env actor key) t.records
      ≡ get actor (key_fingerprint env actor key) (run env actor key request s).1.records
    → env.clock t.world ≤ env.clock s.world + env.ttl
    → run env actor key other t
      ≡ ((if str_eq request other then ok (response_payload response) else err conflict), t)
unfolding Once run
run-replay env actor key request other response s t undisturbed a d same time =
    elim (run-Once env actor key request s undisturbed) [
      | inl q ↦ elim (d q) [ ]
      | inr (q, h) ↦
          let k = h response a in
          replayed env actor (key_fingerprint env actor key) request other (env.clock s.world)
            response (get actor (key_fingerprint env actor key) t.records) k.kept t (same ∙ k.found)
            k.status k.response_kept k.request_kept (omega (arith, time, k.expiry))
    ]
