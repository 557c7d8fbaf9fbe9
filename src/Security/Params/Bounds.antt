-- ===== src/Security/Params/Bounds.antt =====
-- What `validate_params` accepts.
use era_ai.Prelude.{ℕ, ◌+◌, ◌≤◌, String, ◌≡◌, refl, ◌↔◌, Bool, true, false, Option, le→ltb, arith}
use era_ai.Prelude.Results.{Result, ok, err, ◌>>=◌}
use era_ai.Prelude.Text.{text_length}
use era_ai.Prelude.Int.{ℤ}
use era_ai.Value.{
  Value, null, bool, int, float, str, arr, obj, Items, nil, cons, Fields, end, field, count_fields,
  count_items,
}
use era_ai.Security.Params.{
  max_params, max_param_total, is_bad_key, walk, walk_fields, walk_items, limit_of, validate_params,
}

-- A value within the bounds, for a string limit, at a depth.
abbrev mutual
  pub IsBounded : ℕ → Value → ℕ → Type 0
  IsBounded limit (str s) depth = (depth ≤ 4) × (text_length s ≤ limit)
  IsBounded limit (arr xs) depth =
      (depth ≤ 4) × (count_items xs ≤ max_params) × ItemsBounded limit xs (depth + 1)
  IsBounded limit (obj fs) depth =
      (depth ≤ 4) × (count_fields fs ≤ max_params) × FieldsBounded limit fs (depth + 1)
  IsBounded limit _ depth = depth ≤ 4

  pub ItemsBounded : ℕ → Items → ℕ → Type 0
  ItemsBounded limit nil depth = Unit
  ItemsBounded limit (cons x xs) depth = IsBounded limit x depth × ItemsBounded limit xs depth

  pub FieldsBounded : ℕ → Fields → ℕ → Type 0
  FieldsBounded limit end depth = Unit
  FieldsBounded limit (field k v fs) depth =
      (is_bad_key k ≡ false) × IsBounded limit v depth × FieldsBounded limit fs depth

abbrev is_ok {ℓ κ} : {E : Type κ} {A : Type ℓ} → Result E A → Bool
is_ok (ok a) = true
is_ok (err e) = false

both-ok :
    (m k : Result String ℕ)
    → is_ok m ≡ true
    → is_ok k ≡ true
    → is_ok (do a ← m; b ← k; ok (a + b)) ≡ true
both-ok (ok a) (ok b) p q = refl
both-ok (ok a) (err e) p q = q
both-ok (err e) k p q = p

seq_of_is_ok : (m : Result String ℕ) (fs : Fields) → is_ok m ≡ true → (m >>= λ _. ok fs) ≡ ok fs
seq_of_is_ok (ok a) fs h = refl
seq_of_is_ok (err e) fs h = cc

is_ok_of_seq : (m : Result String ℕ) (fs : Fields) → (m >>= λ _. ok fs) ≡ ok fs → is_ok m ≡ true
is_ok_of_seq (ok a) fs h = refl
is_ok_of_seq (err e) fs h = cc

module _ (float_chars : ℤ → ℕ → ℕ) (budget limit : ℕ) where
  mutual
    unfolding walk

    walk_sound :
        (v : Value) (depth : ℕ)
        → is_ok (walk float_chars v depth budget limit) ≡ true
        → IsBounded limit v depth
    walk_sound null depth h = ground arith
    walk_sound (bool b) depth h = ground arith
    walk_sound (int n) depth h = ground arith
    walk_sound (float m e) depth h = ground arith
    walk_sound (str s) depth h = ground arith
    walk_sound (arr xs) depth h =
        (ground arith, ground arith, walk_items_sound xs depth (ground arith))
    walk_sound (obj fs) depth h =
        (ground arith, ground arith, walk_fields_sound fs depth (ground arith))

    walk_fields_sound :
        (fs : Fields) (depth : ℕ)
        → is_ok (walk_fields float_chars fs depth budget limit) ≡ true
        → FieldsBounded limit fs (depth + 1)
    walk_fields_sound end depth h = tt
    walk_fields_sound (field k v fs) depth h = (
      ground arith,
      walk_sound v (depth + 1) (ground arith),
      walk_fields_sound fs depth (ground arith),
    )

    walk_items_sound :
        (xs : Items) (depth : ℕ)
        → is_ok (walk_items float_chars xs depth budget limit) ≡ true
        → ItemsBounded limit xs (depth + 1)
    walk_items_sound nil depth h = tt
    walk_items_sound (cons x xs) depth h =
        (walk_sound x (depth + 1) (ground arith), walk_items_sound xs depth (ground arith))

  mutual
    unfolding walk

    walk_complete :
        (v : Value) (depth : ℕ)
        → IsBounded limit v depth
        → is_ok (walk float_chars v depth budget limit) ≡ true
    walk_complete null depth h = ground arith
    walk_complete (bool b) depth h = ground arith
    walk_complete (int n) depth h = ground arith
    walk_complete (float m e) depth h = ground arith
    walk_complete (str s) depth h = ground arith
    walk_complete (arr xs) depth h =
        rw (le→ltb depth 4 h.0, le→ltb (count_items xs) max_params h.1)
          (walk_items_complete xs depth h.2)
    walk_complete (obj fs) depth h =
        rw (le→ltb depth 4 h.0, le→ltb (count_fields fs) max_params h.1)
          (walk_fields_complete fs depth h.2)

    walk_fields_complete :
        (fs : Fields) (depth : ℕ)
        → FieldsBounded limit fs (depth + 1)
        → is_ok (walk_fields float_chars fs depth budget limit) ≡ true
    walk_fields_complete end depth h = refl
    walk_fields_complete (field k v fs) depth h = rw h.0 (
        both-ok (walk float_chars v (depth + 1) budget limit)
          (walk_fields float_chars fs depth budget limit) (walk_complete v (depth + 1) h.1)
          (walk_fields_complete fs depth h.2))

    walk_items_complete :
        (xs : Items) (depth : ℕ)
        → ItemsBounded limit xs (depth + 1)
        → is_ok (walk_items float_chars xs depth budget limit) ≡ true
    walk_items_complete nil depth h = refl
    walk_items_complete (cons x xs) depth h =
        both-ok (walk float_chars x (depth + 1) budget limit)
          (walk_items float_chars xs depth budget limit) (walk_complete x (depth + 1) h.0)
          (walk_items_complete xs depth h.1)

-- `validate_params` accepts exactly the parameters within the bounds on depth, on the number and
-- the names of fields, on the length of lists and on the length of each text, and returns them
-- unchanged. So the sum that `_walk` adds up, and its budget, decide nothing.
pub validate_params_iff :
    (float_chars : ℤ → ℕ → ℕ) (params : Fields) (action_type : Option String) (str_limit : Option ℕ)
    → (validate_params float_chars params action_type str_limit ≡ ok params)
      ↔ IsBounded (limit_of float_chars str_limit action_type) (obj params) 0
unfolding validate_params
validate_params_iff float_chars params action_type str_limit =
    let limit = limit_of float_chars str_limit action_type in
    let walked = walk float_chars (obj params) 0 max_param_total limit in
    (
      λ h.
          walk_sound float_chars max_param_total limit (obj params) 0
            (is_ok_of_seq walked params h),
      λ h.
          seq_of_is_ok walked params
            (walk_complete float_chars max_param_total limit (obj params) 0 h),
    )
