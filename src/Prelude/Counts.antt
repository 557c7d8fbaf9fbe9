-- ===== src/Prelude/Counts.antt =====
-- How often a text occurs in a list, which states at once what is in it and that nothing is twice.
use Prim.Native.Nat.{ℕ, suc, ◌+◌, ◌≤◌, ◌<◌}
use Prim.Native.String.{String}
use mathlib.Core.Path.{◌≡◌, refl}
use mathlib.Core.Logic.{inl, inr}
use mathlib.Core.Bool.{Bool, true, false, not, ◌&&◌}
use mathlib.Core.List.{List, [], ◌∷◌, ◌++◌}
use native.Mathlib.Omega.{arith}
use text.Mathlib.Text.{◌==◌}
use text.Mathlib.TextEquality.{eq_iff}
use era_ai.Prelude.Tests.{ltb, if◌then◌else◌, Bool-cases}
use era_ai.Prelude.Lists.{length}
use era_ai.Prelude.Maps.{elem}

abbrev pub count : String → List String → ℕ
count s [] = 0
count s (t ∷ ts) = let rest = count s ts in if t == s then suc rest else rest

-- `len(set(xs)) == len(xs)`
abbrev pub all_distinct : List String → Bool
all_distinct [] = true
all_distinct (x ∷ xs) = not (elem x xs) && all_distinct xs

pub count-append : (s : String) (xs ys : List String) → count s (xs ++ ys) ≡ count s xs + count s ys
count-append s [] ys = omega arith
count-append s (x ∷ xs) ys = ground (arith, count-append s xs ys)

pub elem-count : (s : String) (xs : List String) → elem s xs ≡ true → 0 < count s xs
elem-count s [] h = ground (arith, h)
elem-count s (x ∷ xs) h = ground (arith, elem-count s xs, eq_iff x s, eq_iff s x)

pub count-elem : (s : String) (xs : List String) → 0 < count s xs → elem s xs ≡ true
count-elem s [] h = ground (arith, h)
count-elem s (x ∷ xs) h = ground (arith, count-elem s xs, eq_iff x s, eq_iff s x)

pub not_elem-count : (s : String) (xs : List String) → elem s xs ≡ false → count s xs ≡ 0
not_elem-count s [] h = refl
not_elem-count s (x ∷ xs) h = ground (arith, not_elem-count s xs, eq_iff x s, eq_iff s x)

pub count-distinct :
    (s : String) (xs : List String)
    → all_distinct xs ≡ true
    → count s xs ≡ (if elem s xs then 1 else 0)
count-distinct s [] h = refl
count-distinct s (x ∷ xs) h =
    ground
      (arith, count-distinct s xs, eq_iff x s, eq_iff s x, not_elem-count s xs, not_elem-count x xs)

pub count_one : (s : String) → count s (s ∷ []) ≡ 1
count_one s = ground (arith, eq_iff s s)

-- The list without the first occurrence.
without : String → List String → List String
without s [] = []
without s (t ∷ ts) = let rest = without s ts in if t == s then ts else t ∷ rest

length-without :
    (s : String) (xs : List String) → 0 < count s xs → suc (length (without s xs)) ≡ length xs
unfolding without
length-without s [] h = ground (arith, h)
length-without s (x ∷ xs) h = ground (arith, length-without s xs)

count-without :
    (s t : String) (xs : List String)
    → 0 < count s xs
    → count t (without s xs) + (if s == t then 1 else 0) ≡ count t xs
unfolding without
count-without s t [] h = ground (arith, h)
count-without s t (x ∷ xs) h =
    ground (arith, count-without s t xs, eq_iff x s, eq_iff s t, eq_iff x t)

-- What occurs no more often is no longer.
pub length-le_of_count :
    (xs ys : List String) → ((s : String) → count s xs ≤ count s ys) → length xs ≤ length ys
length-le_of_count [] ys h = omega arith
length-le_of_count (x ∷ xs) ys h =
    let has : 0 < count x ys = ground (arith, h x, eq_iff x x) in
    let rest =
      length-le_of_count xs (without x ys)
        (λ s. ground (arith, h s, count-without x s ys has, eq_iff x s)) in
    omega (arith, rest, length-without x ys has)

-- At the same length it occurs as often.
pub count-le_of_length :
    (xs ys : List String) (s : String)
    → ((t : String) → count t xs ≤ count t ys)
    → length ys ≤ length xs
    → count s ys ≤ count s xs
count-le_of_length xs ys s h l = elim (Bool-cases (ltb (count s xs) (count s ys))) [
  | inl more ↦ absurd (
      omega (arith, l, length-le_of_count (s ∷ xs) ys (λ t. ground (arith, h t, more, eq_iff s t))))
  | inr fine ↦ ground (arith, fine)
]
