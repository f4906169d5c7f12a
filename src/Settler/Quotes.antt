-- ===== src/Settler/Quotes.antt =====
-- The tests and the arithmetic of a quote in programs/batch_settler/src/lib.rs.
use options_protocol_solana.Common.{
  ℕ, ◌-◌, ◌^◌, not, ◌&&◌, leb, ltb, leb_ℤ, ◌==◌, if◌then◌else◌, Bool, Result, ok, ◌>>=◌, ◌>>◌,
  SettlerError, fit, u64_mod, u128_mod, checked_add, checked_mul, checked_mul_u128, checked_sub,
  checked_div,
}
use options_protocol_solana.Runtime.{Runtime}
use options_protocol_solana.Controller.State.{OTokenInfo}
use options_protocol_solana.Settler.State.{MakerState, QuoteFill, require, or_else, price_scale}

unfoldable pub validate_maker : MakerState → ℕ → Result (Unit {0})
validate_maker maker_state expected_nonce = do
  require maker_state.whitelisted SettlerError.maker_not_whitelisted
  require (maker_state.nonce == expected_nonce) SettlerError.invalid_nonce

unfoldable pub update_fill : QuoteFill → ℕ → ℕ → Result QuoteFill
unfolding checked_add
update_fill fill amount max_amount = do
  require (not fill.cancelled) SettlerError.quote_cancelled
  new_filled ← or_else (checked_add fill.filled_amount amount) SettlerError.math_overflow
  require (leb new_filled max_amount) SettlerError.quote_exceeded
  ok (record fill { filled_amount = new_filled })

-- The premium, the fee and the net premium.
unfoldable pub compute_premium_split : ℕ → ℕ → ℕ → Result (ℕ × ℕ × ℕ)
unfolding checked_mul_u128 checked_mul checked_div checked_sub fit
compute_premium_split amount bid_price fee_bps = do
  product ← or_else (checked_mul_u128 amount bid_price) SettlerError.math_overflow
  raw ← or_else (checked_div product price_scale) SettlerError.math_overflow
  premium ← or_else (fit u64_mod raw) SettlerError.math_overflow
  scaled ← or_else (checked_mul premium fee_bps) SettlerError.math_overflow
  fee ← or_else (checked_div scaled 10_000) SettlerError.math_overflow
  net ← or_else (checked_sub premium fee) SettlerError.math_overflow
  ok (premium, fee, net)

unfoldable pub validate_itm : Runtime → OTokenInfo → Result (Unit {0})
validate_itm rt info = do
  require (leb_ℤ info.expiry rt.now) SettlerError.option_not_expired
  require (ltb 0 info.expiry_price) SettlerError.expiry_price_not_set
  require
      (if info.is_put
        then ltb info.expiry_price info.strike_price
        else ltb info.strike_price info.expiry_price)
      SettlerError.option_not_itm

-- `10u128.checked_pow(e)`
abbrev checked_ten_pow : ℕ → Result ℕ
checked_ten_pow e = or_else (fit u128_mod (10 ^ e)) SettlerError.math_overflow

unfoldable pub contra_put : ℕ → ℕ → Result ℕ
unfolding fit checked_mul_u128
contra_put amount contra_decimals = do
  require (leb 8 contra_decimals && leb contra_decimals 18) SettlerError.unsupported_decimals
  factor ← checked_ten_pow (contra_decimals - 8)
  or_else (checked_mul_u128 amount factor) SettlerError.math_overflow

unfoldable pub contra_call : ℕ → ℕ → ℕ → Result ℕ
unfolding fit checked_mul_u128 checked_div
contra_call amount strike_price contra_decimals = do
  require (leb 6 contra_decimals && leb contra_decimals 16) SettlerError.unsupported_decimals
  divisor ← checked_ten_pow (16 - contra_decimals)
  product ← or_else (checked_mul_u128 amount strike_price) SettlerError.math_overflow
  or_else (checked_div product divisor) SettlerError.math_overflow

unfoldable pub compute_contra_amount : ℕ → ℕ → Bool → ℕ → Result ℕ
unfolding contra_put contra_call fit
compute_contra_amount amount strike_price is_put contra_decimals = do
  wide ←
      if is_put
      then contra_put amount contra_decimals
      else contra_call amount strike_price contra_decimals
  result ← or_else (fit u64_mod wide) SettlerError.math_overflow
  require (ltb 0 result) SettlerError.zero_amount
  ok result
