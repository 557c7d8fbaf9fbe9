-- ===== src/Security/Redaction/Tests.antt =====
-- Redaction on concrete values.
use era_ai.Prelude.{◌≡◌, refl, String, [], ◌∷◌}
use era_ai.Prelude.Int.{pos}
use era_ai.Value.{Value, int, str, arr, obj, nil, cons, end, field}
use era_ai.Security.Redaction.{redacted, is_secret_key, redact}
use era_ai.Security.Redaction.Masked.{IsMasked, redact-IsMasked}
use era_ai.Security.Redaction.Public.{
  fields, secret_field, public_field, same, end_here, redact-SamePublic,
}

abbrev letter : String → Value
letter body = obj (field "to" (str "a@b.c") (field "body" (str body) end))

-- A secret in a list of objects, and a number that is none.
abbrev nested : Value
nested = obj (
    field "items" (arr (cons (obj (field "api_key" (str "s3") (field "n" (int (pos 4)) end))) nil))
      end)

nested-redacted :
    redact [] nested
    ≡ obj (
        field "items"
          (arr (cons (obj (field "api_key" (str redacted) (field "n" (int (pos 4)) end))) nil))
          end)
unfolding redact is_secret_key
nested-redacted = refl

redact-IsMasked_example :
    IsMasked [] (redact [] nested)
    × (IsMasked [] nested → redact [] nested ≡ nested)
    × (redact [] (redact [] nested) ≡ redact [] nested)
redact-IsMasked_example = redact-IsMasked [] nested

-- The body of an email is private, though its name hints at no secret.
redact-SamePublic_example :
    redact ("body" ∷ []) (letter "one") ≡ redact ("body" ∷ []) (letter "two")
unfolding is_secret_key
redact-SamePublic_example = redact-SamePublic ("body" ∷ []) {v = letter "one"} {w = letter "two"} (
    fields (
      public_field "to" (same (str "a@b.c"))
        (secret_field "body" (str "one") (str "two") refl end_here)))
