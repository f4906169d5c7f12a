-- ===== src/Common/Errors.antt =====
-- The error enums of the programs, one data type each with the constructors of its `#[error_code]`,
-- and the ways in which a transaction fails that no enum names.

-- programs/controller/src/lib.rs
pub data ControllerError : Type 0 where
  zero_address zero_amount vault_settled collateral_mismatch otoken_mismatch : ControllerError
  insufficient_collateral not_expired expiry_price_not_set empty_vault : ControllerError
  system_partially_paused system_fully_paused unauthorized math_overflow : ControllerError
  expiry_price_already_set invalid_decimals option_expired not_fully_paused : ControllerError
  otoken_not_whitelisted collateral_credit_mismatch : ControllerError

-- programs/oracle/src/lib.rs
pub data OracleError : Type 0 where
  zero_address invalid_pyth_account feed_id_mismatch feed_not_active invalid_price : OracleError
  stale_price confidence_too_wide price_deviation_too_high : OracleError
  invalid_deviation_threshold expiry_not_reached expiry_price_not_set unauthorized : OracleError
  not_pending_admin math_overflow : OracleError

-- programs/batch_settler/src/lib.rs
pub data SettlerError : Type 0 where
  zero_address fee_too_high paused maker_not_whitelisted invalid_nonce : SettlerError
  quote_expired quote_cancelled quote_already_cancelled quote_exceeded zero_amount : SettlerError
  math_overflow invalid_ed25519_instruction invalid_ed25519_data : SettlerError
  invalid_signature invalid_treasury invalid_custody_account invalid_collateral_mint : SettlerError
  invalid_premium_mint unauthorized escape_delay_too_short escape_not_ready : SettlerError
  insufficient_mm_balance option_not_expired expiry_price_not_set option_not_itm : SettlerError
  invalid_jupiter_program vault_not_settled invalid_contra_mint : SettlerError
  unsupported_decimals insufficient_swap_output unexpected_swap_destination : SettlerError
  redeem_returned_zero excess_collateral_used insufficient_rent_reserve : SettlerError
  amount_too_small : SettlerError

-- programs/otoken_factory/src/lib.rs
pub data FactoryError : Type 0 where
  zero_address controller_not_set invalid_controller invalid_strike_price : FactoryError
  math_overflow invalid_expiry unauthorized : FactoryError

-- programs/whitelist/src/lib.rs
pub data WhitelistError : Type 0 where
  zero_address unauthorized otoken_mismatch : WhitelistError

-- programs/margin_pool/src/lib.rs
pub data MarginPoolError : Type 0 where
  zero_address zero_amount insufficient_balance math_overflow : MarginPoolError
  unauthorized collateral_mismatch : MarginPoolError

-- What Anchor's account loading and its constraint attributes refuse.
pub data AnchorError : Type 0 where
  account_not_initialized account_in_use : AnchorError
  constraint_seeds constraint_has_one constraint_raw : AnchorError
  account_not_system_owned constraint_address : AnchorError

-- `external` is a failed call of a program outside the repository, `panic` a Rust panic: an
-- arithmetic overflow under `overflow-checks = true`, or an index out of range.
pub data Error : Type 0 where
  controller : ControllerError → Error
  oracle : OracleError → Error
  settler : SettlerError → Error
  otoken_factory : FactoryError → Error
  whitelist : WhitelistError → Error
  margin_pool : MarginPoolError → Error
  anchor : AnchorError → Error
  external panic : Error
