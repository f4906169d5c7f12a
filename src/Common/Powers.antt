-- ===== src/Common/Powers.antt =====
-- Powers of ten, which the decimals of a token scale by, and products of words.
use Prim.Native.Nat.{ℕ, ◌*◌, ◌^◌, ◌≤◌, ◌<◌}
use native.Mathlib.Nat.{pow-le-pow_right}
use native.Mathlib.Omega.{arith}

pub ten_pow-le : (j k : ℕ) → j ≤ k → 10 ^ j ≤ 10 ^ k
ten_pow-le j k h = pow-le-pow_right (omega arith) h

pub ten_pow_pos : (k : ℕ) → 0 < 10 ^ k
ten_pow_pos k = omega (arith, ten_pow-le 0 k)

pub mul-lt_u128 : (a b : ℕ) → a < 2 ^ 64 → b < 2 ^ 64 → a * b < 2 ^ 128
mul-lt_u128 a b ha hb = grind arith
