-- ===== src/Controller/Collateral.antt =====
-- `get_required_collateral` and `get_payout` of programs/controller/src/lib.rs.
pub mod Exact
pub mod Rounding
use options_protocol_solana.Common.{
  ℕ, ◌+◌, ◌^◌, Bool, true, false, Result, ok, ◌>>=◌, leb, ltb, if◌then◌else◌, u64_mod, u128_mod,
  fit, checked_mul, checked_mul_u128, checked_div, pow_or_panic, sub_or_panic, math_overflow,
  ControllerError,
}
use options_protocol_solana.Controller.State.{or_else}

-- Put: amount * strike / 10^(8 + 8 - decimals), in u128. The exponent is a u32 subtraction.
unfoldable pub required_put : ℕ → ℕ → ℕ → Result ℕ
unfolding checked_mul_u128 sub_or_panic pow_or_panic checked_div fit
required_put strike_price collateral_decimals amount = do
  numerator ← or_else (checked_mul_u128 amount strike_price) math_overflow
  exponent ← sub_or_panic (8 + 8) collateral_decimals
  base ← pow_or_panic u128_mod 10 exponent
  result ← or_else (checked_div numerator base) math_overflow
  or_else (fit u64_mod result) math_overflow

-- Call: the amount itself, between 8 decimals and those of the collateral.
unfoldable pub required_call : ℕ → ℕ → Result ℕ
unfolding checked_mul sub_or_panic pow_or_panic checked_div
required_call collateral_decimals amount =
    if leb 8 collateral_decimals
    then (do
      exponent ← sub_or_panic collateral_decimals 8
      factor ← pow_or_panic u64_mod 10 exponent
      or_else (checked_mul amount factor) math_overflow)
    else (do
      exponent ← sub_or_panic 8 collateral_decimals
      factor ← pow_or_panic u64_mod 10 exponent
      or_else (checked_div amount factor) math_overflow)

unfoldable pub get_required_collateral : ℕ → Bool → ℕ → ℕ → Result ℕ
unfolding required_put required_call
get_required_collateral strike_price is_put collateral_decimals amount =
    if is_put
    then required_put strike_price collateral_decimals amount
    else required_call collateral_decimals amount

-- Out of the money there is nothing to pay; in the money the whole collateral is forfeited.
unfoldable pub get_payout : ℕ → ℕ → Bool → ℕ → ℕ → Result ℕ
unfolding get_required_collateral
get_payout strike_price expiry_price is_put collateral_decimals amount =
    if (if is_put then leb strike_price expiry_price else leb expiry_price strike_price)
    then ok 0
    else get_required_collateral strike_price is_put collateral_decimals amount
