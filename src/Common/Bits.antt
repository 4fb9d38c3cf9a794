-- ===== src/Common/Bits.antt =====
-- Binary digits: what a mask leaves is no larger than the mask.
use Prim.Native.Nat.{ℕ, zero, suc, ◌/◌, ◌≤◌, min, bit_and, bit_and-bitwise, digits}
use mathlib.Core.Path.{subst, sym}
use native.Mathlib.Omega.{arith}

digits_le : (n a b : ℕ) → digits (λ b. zero) min n a b ≤ b
digits_le zero a b = omega arith
digits_le (suc n) zero b = omega arith
digits_le (suc n) (suc a) b = omega (arith, digits_le n (suc a / 2) (b / 2))

pub bit_and_le : (a b : ℕ) → bit_and a b ≤ b
bit_and_le a b = subst (λ c. c ≤ b) (sym (λ i. bit_and-bitwise a b i)) (digits_le a a b)
