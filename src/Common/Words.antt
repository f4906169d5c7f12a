-- ===== src/Common/Words.antt =====
-- Rust's fixed-width unsigned integers: a value is a number below 2 ^ w, and the checked
-- operations give `none` where the exact result does not fit.
use Prim.Native.Nat.{ℕ, ◌+◌, ◌-◌, ◌*◌, ◌/◌, ◌^◌, ◌<◌}
use mathlib.Core.Option.{Option, none, some}
use mathlib.Core.Bool.{Bool}
use options_protocol_solana.Common.Tests.{ltb, leb, ◌==◌, if◌then◌else◌}
use options_protocol_solana.Common.Errors.{panic}
use options_protocol_solana.Common.Outcome.{Result, ok, err}
use options_protocol_solana.Common.Int.{ℤ, pos, negsuc, ◌-ℤ◌, ◌+ℤ◌}

abbrev pub u64_mod : ℕ
u64_mod = 2 ^ 64

abbrev pub u128_mod : ℕ
u128_mod = 2 ^ 128

abbrev pub IsU64 : ℕ → Type 0
IsU64 n = n < 2 ^ 64

-- The value, if it is below the modulus: `try_into`, and the end of each checked operation.
unfoldable pub fit : ℕ → ℕ → Option ℕ
fit modulus n = if ltb n modulus then some n else none

unfoldable pub checked_add : ℕ → ℕ → Option ℕ
unfolding fit
checked_add a b = fit u64_mod (a + b)

unfoldable pub checked_mul : ℕ → ℕ → Option ℕ
unfolding fit
checked_mul a b = fit u64_mod (a * b)

unfoldable pub checked_mul_u128 : ℕ → ℕ → Option ℕ
unfolding fit
checked_mul_u128 a b = fit u128_mod (a * b)

unfoldable pub checked_sub : ℕ → ℕ → Option ℕ
checked_sub a b = if leb b a then some (a - b) else none

unfoldable pub checked_div : ℕ → ℕ → Option ℕ
checked_div a b = if b == 0 then none else some (a / b)

unfoldable pub checked_pow : ℕ → ℕ → Option ℕ
unfolding fit
checked_pow a e = fit u64_mod (a ^ e)

unfoldable pub abs_diff : ℕ → ℕ → ℕ
abs_diff a b = if leb b a then a - b else b - a

-- Whether an integer is one of the signed words whose non-negative values are below `half`.
unfoldable pub fits_signed : ℕ → ℤ → Bool
fits_signed half (pos n) = ltb n half
fits_signed half (negsuc n) = ltb n half

unfoldable pub checked_sub_i64 : ℤ → ℤ → Option ℤ
unfolding fits_signed
checked_sub_i64 a b = let d = a -ℤ b in if fits_signed (2 ^ 63) d then some d else none

unfoldable pub checked_add_i64 : ℤ → ℤ → Option ℤ
unfolding fits_signed
checked_add_i64 a b = let c = a +ℤ b in if fits_signed (2 ^ 63) c then some c else none

-- `a - b` on i32, with overflow checks on.
unfoldable pub sub_i32_or_panic : ℤ → ℤ → Result ℤ
unfolding fits_signed
sub_i32_or_panic a b = let d = a -ℤ b in if fits_signed (2 ^ 31) d then ok d else err panic

-- `a + b` on i64, with overflow checks on.
unfoldable pub add_i64_or_panic : ℤ → ℤ → Result ℤ
unfolding fits_signed
add_i64_or_panic a b = let d = a +ℤ b in if fits_signed (2 ^ 63) d then ok d else err panic

-- `a.pow(e)` and `a - b` on unsigned words, with overflow checks on.
unfoldable pub pow_or_panic : ℕ → ℕ → ℕ → Result ℕ
pow_or_panic modulus a e = if ltb (a ^ e) modulus then ok (a ^ e) else err panic

unfoldable pub sub_or_panic : ℕ → ℕ → Result ℕ
sub_or_panic a b = if leb b a then ok (a - b) else err panic
