-- ===== src/Base/Bits.antt =====
-- Masking: `a & m` never exceeds `m`.
use Prim.Native.Nat.{ℕ, zero, suc, ◌/◌, ◌≤◌, min, bit_and, digits, bit_and-bitwise}
use native.Mathlib.Omega.{arith}

digits-le : (n a b : ℕ) → digits (λ b. zero) min n a b ≤ b
digits-le zero a b = omega arith
digits-le (suc n) zero b = omega arith
digits-le (suc n) (suc a) b = omega (arith, digits-le n (suc a / 2) (b / 2))

pub bit_and-le : (a m : ℕ) → bit_and a m ≤ m
bit_and-le a m = omega (arith, bit_and-bitwise a m, digits-le a a m)
