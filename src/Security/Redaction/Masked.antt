-- ===== src/Security/Redaction/Masked.antt =====
-- Behind redaction every secret key, at every depth, holds the marker.
use era_ai.Prelude.{String, ◌≡◌, refl, true, List, if◌then◌else◌, ap, Bool-cases, inl, inr}
use mathlib.Core.Bool.{false≢true}
use era_ai.Value.{
  Value, null, bool, int, float, str, arr, obj, Items, nil, cons, Fields, end, field,
}
use era_ai.Security.Redaction.{redacted, is_secret_key, redact, redact_items, redact_fields}

-- No secret key holds anything but the marker.
abbrev mutual
  pub IsMasked : List String → Value → Type 0
  IsMasked sf (arr xs) = AreMasked sf xs
  IsMasked sf (obj fs) = FieldsMasked sf fs
  IsMasked sf _ = Unit

  pub AreMasked : List String → Items → Type 0
  AreMasked sf nil = Unit
  AreMasked sf (cons x xs) = IsMasked sf x × AreMasked sf xs

  pub FieldsMasked : List String → Fields → Type 0
  FieldsMasked sf end = Unit
  FieldsMasked sf (field k v fs) =
      (is_secret_key k sf ≡ true → v ≡ str redacted) × IsMasked sf v × FieldsMasked sf fs

field-masked :
    (sf : List String) (k : String) (v : Value) (fs : Fields)
    → IsMasked sf v
    → FieldsMasked sf fs
    → FieldsMasked sf (field k (if is_secret_key k sf then str redacted else v) fs)
field-masked sf k v fs h hs = elim (Bool-cases (is_secret_key k sf)) [
  | inl p ↦ rw p (λ _. refl, tt, hs)
  | inr p ↦ rw p (λ q. absurd (false≢true q), h, hs)
]

mutual
  unfolding redact

  redact_masks : (sf : List String) (v : Value) → IsMasked sf (redact sf v)
  redact_masks sf null = tt
  redact_masks sf (bool b) = tt
  redact_masks sf (int n) = tt
  redact_masks sf (float m e) = tt
  redact_masks sf (str s) = tt
  redact_masks sf (arr xs) = redact_items-masked sf xs
  redact_masks sf (obj fs) = redact_fields-masked sf fs

  redact_items-masked : (sf : List String) (xs : Items) → AreMasked sf (redact_items sf xs)
  redact_items-masked sf nil = tt
  redact_items-masked sf (cons x xs) = (redact_masks sf x, redact_items-masked sf xs)

  redact_fields-masked : (sf : List String) (fs : Fields) → FieldsMasked sf (redact_fields sf fs)
  redact_fields-masked sf end = tt
  redact_fields-masked sf (field k v fs) =
      field-masked sf k (redact sf v) (redact_fields sf fs) (redact_masks sf v)
        (redact_fields-masked sf fs)

field-fixed :
    (sf : List String) (k : String) (v w : Value) (fs gs : Fields)
    → (is_secret_key k sf ≡ true → v ≡ str redacted)
    → w ≡ v
    → gs ≡ fs
    → field k (if is_secret_key k sf then str redacted else w) gs ≡ field k v fs
field-fixed sf k v w fs gs h p q = elim (Bool-cases (is_secret_key k sf)) [
  | inl s ↦ rw (s, h s, q)
  | inr s ↦ rw (s, p, q)
]

mutual
  unfolding redact

  redact-fixed : (sf : List String) (v : Value) → IsMasked sf v → redact sf v ≡ v
  redact-fixed sf null h = refl
  redact-fixed sf (bool b) h = refl
  redact-fixed sf (int n) h = refl
  redact-fixed sf (float m e) h = refl
  redact-fixed sf (str s) h = refl
  redact-fixed sf (arr xs) h = ap arr (redact_items-fixed sf xs h)
  redact-fixed sf (obj fs) h = ap obj (redact_fields-fixed sf fs h)

  redact_items-fixed : (sf : List String) (xs : Items) → AreMasked sf xs → redact_items sf xs ≡ xs
  redact_items-fixed sf nil h = refl
  redact_items-fixed sf (cons x xs) h = cc (redact-fixed sf x h.0, redact_items-fixed sf xs h.1)

  redact_fields-fixed :
      (sf : List String) (fs : Fields) → FieldsMasked sf fs → redact_fields sf fs ≡ fs
  redact_fields-fixed sf end h = refl
  redact_fields-fixed sf (field k v fs) h =
      field-fixed sf k v (redact sf v) fs (redact_fields sf fs) h.0 (redact-fixed sf v h.1)
        (redact_fields-fixed sf fs h.2)

-- Behind `redact` no key that counts as secret, at any depth, holds anything but the marker, and a
-- value of which that is true is left as it is; so redacting twice is redacting once.
pub redact-IsMasked :
    (sf : List String) (v : Value)
    → IsMasked sf (redact sf v)
      × (IsMasked sf v → redact sf v ≡ v)
      × (redact sf (redact sf v) ≡ redact sf v)
redact-IsMasked sf v =
    (redact_masks sf v, redact-fixed sf v, redact-fixed sf (redact sf v) (redact_masks sf v))
