-- ===== src/Prelude/Int.antt =====
-- Signed integers over the native numbers, with what the values' equality needs.
use Prim.Native.Nat.{ℕ, suc, ◌*◌, ◌^◌, ◌-◌}
use mathlib.Core.Bool.{Bool, true, false}
use era_ai.Prelude.Tests.{ltb, ◌==◌}

-- `negsuc n` is -(n + 1).
pub data ℤ : Type 0 where
  pos : ℕ → ℤ
  negsuc : ℕ → ℤ

abbrev pub int_eq : ℤ → ℤ → Bool
int_eq (pos a) (pos b) = a == b
int_eq (negsuc a) (negsuc b) = a == b
int_eq (pos a) (negsuc b) = false
int_eq (negsuc a) (pos b) = false

-- z * 2 ^ k
abbrev pub shift_left : ℤ → ℕ → ℤ
shift_left (pos a) k = pos (a * 2 ^ k)
shift_left (negsuc a) k = negsuc (suc a * 2 ^ k - 1)

abbrev pub int_lt : ℤ → ℤ → Bool
int_lt (pos a) (pos b) = ltb a b
int_lt (negsuc a) (negsuc b) = ltb b a
int_lt (pos a) (negsuc b) = false
int_lt (negsuc a) (pos b) = true
