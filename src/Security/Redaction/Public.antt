-- ===== src/Security/Redaction/Public.antt =====
-- What redaction shows does not depend on what stands at a secret key.
use era_ai.Prelude.{String, ◌≡◌, refl, true, List, ap}
use era_ai.Value.{Value, arr, obj, Items, nil, cons, Fields, end, field}
use era_ai.Security.Redaction.{is_secret_key, redact, redact_items, redact_fields}

-- The values have one shape, and differ at most in what stands at secret keys.
mutual
  pub data SamePublic (sf : List String) : Value → Value → Type 0 where
    same : (v : Value) → SamePublic sf v v
    items : {xs ys : Items} → SameItems sf xs ys → SamePublic sf (arr xs) (arr ys)
    fields : {fs gs : Fields} → SameFields sf fs gs → SamePublic sf (obj fs) (obj gs)

  pub data SameItems (sf : List String) : Items → Items → Type 0 where
    none_left : SameItems sf nil nil
    item :
        {v w : Value} {xs ys : Items}
        → SamePublic sf v w
        → SameItems sf xs ys
        → SameItems sf (cons v xs) (cons w ys)

  pub data SameFields (sf : List String) : Fields → Fields → Type 0 where
    end_here : SameFields sf end end
    secret_field :
        (k : String) (v w : Value) {fs gs : Fields}
        → is_secret_key k sf ≡ true
        → SameFields sf fs gs
        → SameFields sf (field k v fs) (field k w gs)
    public_field :
        (k : String) {v w : Value} {fs gs : Fields}
        → SamePublic sf v w
        → SameFields sf fs gs
        → SameFields sf (field k v fs) (field k w gs)

mutual
  unfolding redact

  redact-public : (sf : List String) {v w : Value} → SamePublic sf v w → redact sf v ≡ redact sf w
  redact-public sf (same v) = refl
  redact-public sf (items h) = ap arr (redact_items-public sf h)
  redact-public sf (fields h) = ap obj (redact_fields-public sf h)

  redact_items-public :
      (sf : List String) {xs ys : Items}
      → SameItems sf xs ys
      → redact_items sf xs ≡ redact_items sf ys
  redact_items-public sf none_left = refl
  redact_items-public sf (item h hs) = cc (redact-public sf h, redact_items-public sf hs)

  redact_fields-public :
      (sf : List String) {fs gs : Fields}
      → SameFields sf fs gs
      → redact_fields sf fs ≡ redact_fields sf gs
  redact_fields-public sf end_here = refl
  redact_fields-public sf (secret_field k v w s hs) = rw (s, redact_fields-public sf hs)
  redact_fields-public sf (public_field k h hs) =
      rw (redact-public sf h, redact_fields-public sf hs)

-- Two values that differ only in what stands at secret keys are redacted to one value: nothing of
-- a secret is left to read.
pub redact-SamePublic :
    (sf : List String) {v w : Value} → SamePublic sf v w → redact sf v ≡ redact sf w
redact-SamePublic sf h = redact-public sf h
