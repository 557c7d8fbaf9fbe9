-- ===== src/Idempotency/Records.antt =====
-- What `get` finds behind the steps of a run.
use era_ai.Prelude.{
  String, ◌≡◌, inl, inr, refl, ◌∙◌, ap, true, ◌&&◌, none, some, List, [], ◌∷◌, ◌++◌, str_eq, eq_iff,
  Bool-cases, arith,
}
use era_ai.Prelude.Results.{Result, ok}
use era_ai.Gate.Records.{ExecutionResponse}
use era_ai.Idempotency.{completed, IdempotencyRecord, response_payload, is_for, get, complete}

some_injective : (q r : IdempotencyRecord) → some q ≡ some r → q ≡ r
some_injective q r h = ground (arith, h)

pub ok_injective :
    {F : Type 0} (x y : ExecutionResponse)
    → ◌≡◌ {A = Result F ExecutionResponse} (ok x) (ok y)
    → x ≡ y
ok_injective x y h = ground (arith, h)

pub get-append :
    (actor key : String) (rs : List IdempotencyRecord) (r : IdempotencyRecord)
    → get actor key rs ≡ none
    → is_for actor key r ≡ true
    → get actor key (rs ++ r ∷ []) ≡ some r
unfolding get
get-append actor key [] r h e = ground (arith, e)
get-append actor key (q ∷ rs) r h e = ground (arith, h, get-append actor key rs r, e)

unfoldable pub completed_with : ExecutionResponse → IdempotencyRecord → IdempotencyRecord
completed_with response r = record r {
  status = completed;
  response = some (response_payload response);
}

get-complete_first :
    (actor key id : String) (response : ExecutionResponse) (rs : List IdempotencyRecord)
    (q : IdempotencyRecord)
    → str_eq q.actor_id actor && str_eq q.key_hash key ≡ true
    → q.id ≡ id
    → get actor key (complete id response (q ∷ rs)) ≡ some (completed_with response q)
unfolding get complete is_for completed_with
get-complete_first actor key id response rs q b e =
    let i : str_eq q.id id ≡ true = ground (arith, e, eq_iff q.id id) in rw (i, b) refl

-- `complete` changes neither actor nor key, and completes the record that `get` finds behind others.
pub get-complete :
    (actor key id : String) (response : ExecutionResponse) (rs : List IdempotencyRecord)
    (r : IdempotencyRecord)
    → get actor key rs ≡ some r
    → r.id ≡ id
    → get actor key (complete id response rs) ≡ some (completed_with response r)
unfolding get complete is_for
get-complete actor key id response [] r h e = ground (arith, h)
get-complete actor key id response (q ∷ rs) r h e =
    elim (Bool-cases (str_eq q.actor_id actor && str_eq q.key_hash key)) [
      | inl b ↦
          let p : q ≡ r = some_injective q r (rw (b, get) at h) in
          get-complete_first actor key id response rs q b (ap (λ x. x.id) p ∙ e)
          ∙ ap (λ x. some (completed_with response x)) p
      | inr b ↦ elim (Bool-cases (str_eq q.id id)) [
        | inl i ↦ rw (i, b) (get-complete actor key id response rs r (rw (b, get) at h) e)
        | inr i ↦ rw (i, b) (get-complete actor key id response rs r (rw (b, get) at h) e)
      ]
    ]
