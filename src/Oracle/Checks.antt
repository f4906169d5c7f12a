-- ===== src/Oracle/Checks.antt =====
-- The tests on a price of programs/oracle/src/lib.rs, and its normalization.
use options_protocol_solana.Common.{
  ℕ, ℤ, pos, negsuc, pos_part, neg_part, ◌+◌, ◌/◌, ◌&&◌, ◌==◌, leb, ltb, ltb_ℤ, leb_ℤ,
  if◌then◌else◌, Result, ok, ◌>>=◌, ◌>>◌, OracleError, checked_mul, checked_div, checked_pow,
  checked_sub_i64, sub_i32_or_panic, abs_diff,
}
use options_protocol_solana.Runtime.{Runtime}
use options_protocol_solana.Oracle.State.{require, or_else}

abbrev pub bps_denominator : ℕ
bps_denominator = 10_000

unfoldable pub validate_staleness : Runtime → ℤ → ℕ → Result (Unit {0})
unfolding checked_sub_i64
validate_staleness rt publish_time max_staleness_secs =
    if max_staleness_secs == 0 then ok tt else (do
      age ← or_else (checked_sub_i64 rt.now publish_time) OracleError.math_overflow
      require (leb_ℤ (pos 0) age && leb (pos_part age) max_staleness_secs) OracleError.stale_price)

unfoldable pub validate_confidence : ℤ → ℕ → ℕ → Result (Unit {0})
unfolding checked_mul checked_div
validate_confidence price conf max_confidence_bps = if max_confidence_bps == 0 then ok tt else (do
  let price_abs = pos_part price + neg_part price
  require (ltb 0 price_abs) OracleError.invalid_price
  scaled ← or_else (checked_mul conf bps_denominator) OracleError.math_overflow
  conf_bps ← or_else (checked_div scaled price_abs) OracleError.math_overflow
  require (leb conf_bps max_confidence_bps) OracleError.confidence_too_wide)

-- Scaling by a power of ten: up, down, or not at all.
unfoldable pub rescale : ℕ → ℤ → Result ℕ
unfolding checked_pow checked_mul
rescale p (pos diff) = if diff == 0 then ok p else (do
  factor ← or_else (checked_pow 10 diff) OracleError.math_overflow
  or_else (checked_mul p factor) OracleError.math_overflow)
rescale p (negsuc n) = do
  factor ← or_else (checked_pow 10 (n + 1)) OracleError.math_overflow
  let normalized = p / factor
  require (ltb 0 normalized) OracleError.invalid_price
  ok normalized

unfoldable pub normalize_to_8_decimals : ℤ → ℤ → Result ℕ
unfolding sub_i32_or_panic rescale
normalize_to_8_decimals price exponent = do
  require (ltb_ℤ (pos 0) price) OracleError.invalid_price
  diff ← sub_i32_or_panic exponent (negsuc 7)
  rescale (pos_part price) diff

unfoldable pub validate_price_deviation : ℕ → ℕ → ℕ → Result (Unit {0})
unfolding abs_diff checked_mul checked_div
validate_price_deviation submitted reference threshold_bps = do
  require (ltb 0 reference) OracleError.invalid_price
  if threshold_bps == 0 then ok tt else (do
    scaled ←
        or_else (checked_mul (abs_diff submitted reference) bps_denominator)
          OracleError.math_overflow
    deviation_bps ← or_else (checked_div scaled reference) OracleError.math_overflow
    require (leb deviation_bps threshold_bps) OracleError.price_deviation_too_high)
