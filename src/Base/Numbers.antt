-- ===== src/Base/Numbers.antt =====
-- Go's signed `int`, for what may be negative in the source (GPU indices, process ids). Only
-- comparisons are used, so no width is needed.
use Prim.Native.Nat.{ℕ, compare, Ordering}
use mathlib.Core.Path.{◌≡◌}
use mathlib.Core.Logic.{◌↔◌}
use mathlib.Core.Bool.{Bool, true, false}
use native.Mathlib.Omega.{arith}
use gpuardian.Base.Tests.{Equality, nat_beq}

-- `negsuc n` is -(n + 1).
pub data ℤ : Type 0 where
  pos : ℕ → ℤ
  negsuc : ℕ → ℤ

abbrev pub int_beq : ℤ → ℤ → Bool
int_beq (pos a) (pos b) = nat_beq a b
int_beq (negsuc a) (negsuc b) = nat_beq a b
int_beq _ _ = false

pub int_beq_iff : (a b : ℤ) → (int_beq a b ≡ true) ↔ (a ≡ b)
int_beq_iff (pos a) (pos b) = ground arith
int_beq_iff (negsuc a) (negsuc b) = ground arith
int_beq_iff (pos a) (negsuc b) = ground arith
int_beq_iff (negsuc a) (pos b) = ground arith

instance abbrev pub int_eq : Equality ℤ
int_eq = record {
  test = int_beq;
  sound = λ a b. (int_beq_iff a b).0;
  complete = λ a b. (int_beq_iff a b).1;
}

-- `n < 0`
abbrev pub is_negative : ℤ → Bool
is_negative (pos n) = false
is_negative (negsuc n) = true

-- `n > maximum`, for a maximum that is not negative.
abbrev pub exceeds : ℤ → ℕ → Bool
exceeds (pos n) maximum = elim (compare n maximum) [ Ordering.gt ↦ true | _ ↦ false ]
exceeds (negsuc n) maximum = false
