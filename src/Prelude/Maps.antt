-- ===== src/Prelude/Maps.antt =====
-- Python's `dict` with text keys: an association list in insertion order.
use Prim.Native.String.{String}
use mathlib.Core.Path.{◌≡◌, refl}
use mathlib.Core.Bool.{Bool, true, false}
use mathlib.Core.List.{List, [], ◌∷◌}
use mathlib.Core.Option.{Option, none, some}
use native.Mathlib.Omega.{arith}
use text.Mathlib.Text.{◌==◌}
use text.Mathlib.TextEquality.{eq_iff}
use era_ai.Prelude.Tests.{if◌then◌else◌}

abbrev pub Dict {ℓ} : Type ℓ → Type ℓ
Dict V = List (String × V)

-- `s in (a, b, ...)`
abbrev pub elem : String → List String → Bool
elem s [] = false
elem s (t ∷ ts) = if s == t then true else elem s ts

module _ {κ} {A : Type κ} where
  -- `d.get(key)`
  unfoldable pub lookup : String → Dict A → Option A
  lookup key [] = none
  lookup key (entry ∷ rest) =
      let later = lookup key rest in if entry.0 == key then some entry.1 else later

  -- `d[key] = a`: an old key keeps its place, a new one comes last.
  unfoldable pub insert : String → A → Dict A → Dict A
  insert key a [] = (key, a) ∷ []
  insert key a (entry ∷ rest) =
      let later = insert key a rest in if entry.0 == key then (entry.0, a) ∷ rest else entry ∷ later

  -- What is found behind an insertion.
  pub lookup-insert :
      (key other : String) (a : A) (d : Dict A)
      → lookup other (insert key a d) ≡ (if key == other then some a else lookup other d)
  unfolding lookup insert
  lookup-insert key other a [] = refl
  lookup-insert key other a (entry ∷ rest) =
      let same = eq_iff key other in
      ground (lookup-insert key other a rest, same, eq_iff entry.0 other, eq_iff entry.0 key, arith)

  -- A stored value is found under its key.
  pub lookup-insert_same :
      (key : String) (a : A) (d : Dict A) → lookup key (insert key a d) ≡ some a
  lookup-insert_same key a d = ground (eq_iff key key, lookup-insert key key a d, arith)
