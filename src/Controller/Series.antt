-- ===== src/Controller/Series.antt =====
-- `create_otoken_info` and `set_expiry_price` of programs/controller/src/lib.rs: a series copies its
-- terms from the factory, and its expiry price from the oracle.
pub mod Frozen
use options_protocol_solana.Common.{
  ℕ, leb_ℤ, leb, Bool, false, ◌||◌, Pubkey, lookup, insert, Result, ok, ◌>>=◌, ◌>>◌, ◌==◌, ltb,
  ControllerError, none, some, [], ◌∷◌,
}
use options_protocol_solana.Runtime.{
  Runtime, text, TokenProgram, load, load_mint, init_at, check_seeds, check_bump, has_one,
}
use options_protocol_solana.Factory.State.{FactoryState, OToken, factory_id, otoken_seeds}
use options_protocol_solana.Whitelist.State.{WhitelistState, whitelist_id, entry_seeds}
use options_protocol_solana.Oracle.State.{OracleState, ExpiryPrice, oracle_id, expiry_price_seeds}
use options_protocol_solana.Controller.State.{
  ControllerState, ControllerConfig, OTokenInfo, controller_id, require, load_config, info_seeds,
}

-- An account that the factory does not own, or that does not deserialize, is none of its operator
-- configs.
unfoldable pub is_factory_operator : FactoryState → Pubkey → Pubkey → Bool
is_factory_operator f account signer = elim (lookup account f.operator_configs) [
  | none ↦ false
  | some operator_config ↦ signer == operator_config.operator
]

-- A series as `create_otoken_info` writes it.
abbrev pub listed : OToken → ℕ → OTokenInfo
listed otoken decimals = record {
  otoken_mint = otoken.mint;
  underlying = otoken.underlying;
  strike_asset = otoken.strike_asset;
  collateral_mint = otoken.collateral;
  strike_price = otoken.strike_price;
  expiry = otoken.expiry;
  is_put = otoken.is_put;
  collateral_decimals = decimals;
  expiry_price = 0;
}

pub record CreateOTokenInfo : Type 0 where
  pub config : Pubkey
  pub otoken_info : Pubkey
  pub otoken_mint : Pubkey
  pub factory_otoken : Pubkey
  pub collateral_mint_account : Pubkey
  pub whitelisted_otoken : Pubkey
  pub factory_operator_config : Pubkey
  pub admin : Pubkey

module _ {L : Type 0} (t : TokenProgram L) where
  -- The constraints; the result is the config, the factory's record of the series, and the decimals
  -- of its collateral.
  unfoldable pub load_create_otoken_info :
      Runtime
      → ControllerState
      → FactoryState
      → WhitelistState
      → L
      → CreateOTokenInfo
      → Result (ControllerConfig × OToken × ℕ)
  unfolding load_config load load_mint init_at check_bump check_seeds
  load_create_otoken_info rt s f w l a = do
    config ← load_config rt s a.config
    bump ← init_at rt s.infos (info_seeds a.otoken_mint) controller_id a.otoken_info
    otoken ← load f.otokens a.factory_otoken
    check_bump rt
        (otoken_seeds otoken.underlying otoken.strike_asset otoken.collateral otoken.strike_price
          otoken.expiry otoken.is_put)
        otoken.bump factory_id a.factory_otoken
    require (otoken.mint == a.otoken_mint) ControllerError.otoken_mismatch
    decimals ← load_mint t l a.collateral_mint_account
    require (a.collateral_mint_account == otoken.collateral) ControllerError.collateral_mismatch
    entry ← load w.whitelisted_otokens a.whitelisted_otoken
    check_bump rt (entry_seeds a.otoken_mint) entry.bump whitelist_id a.whitelisted_otoken
    require entry.active ControllerError.otoken_not_whitelisted
    check_seeds rt (text "factory_operator_config" ∷ []) factory_id a.factory_operator_config
    ok (config, otoken, decimals)

  unfoldable pub create_otoken_info :
      Runtime
      → ControllerState
      → FactoryState
      → WhitelistState
      → L
      → CreateOTokenInfo
      → Result ControllerState
  unfolding load_create_otoken_info is_factory_operator
  create_otoken_info rt s f w l a = do
    (config, otoken, decimals) ← load_create_otoken_info rt s f w l a
    require (a.admin == config.admin || is_factory_operator f a.factory_operator_config a.admin)
        ControllerError.unauthorized
    require (a.collateral_mint_account == otoken.collateral) ControllerError.collateral_mismatch
    require (ltb 0 otoken.strike_price) ControllerError.zero_amount
    require (leb decimals 18) ControllerError.invalid_decimals
    ok (record s { infos = insert a.otoken_info (listed otoken decimals) s.infos })

pub record SetExpiryPrice : Type 0 where
  pub config : Pubkey
  pub otoken_info : Pubkey
  pub oracle_expiry_price : Pubkey
  pub admin : Pubkey

unfoldable pub load_set_expiry_price :
    Runtime → ControllerState → OracleState → SetExpiryPrice → Result (OTokenInfo × ExpiryPrice)
unfolding load_config load check_seeds check_bump
load_set_expiry_price rt s o a = do
  config ← load_config rt s a.config
  has_one (config.admin == a.admin)
  info ← load s.infos a.otoken_info
  check_seeds rt (info_seeds info.otoken_mint) controller_id a.otoken_info
  oracle_price ← load o.expiry_prices a.oracle_expiry_price
  check_bump rt (expiry_price_seeds info.underlying info.expiry) oracle_price.bump oracle_id
      a.oracle_expiry_price
  require oracle_price.is_finalized ControllerError.expiry_price_not_set
  require (ltb 0 oracle_price.price) ControllerError.zero_amount
  ok (info, oracle_price)

unfoldable pub set_expiry_price :
    Runtime → ControllerState → OracleState → SetExpiryPrice → Result ControllerState
unfolding load_set_expiry_price
set_expiry_price rt s o a = do
  (info, oracle_price) ← load_set_expiry_price rt s o a
  require (leb_ℤ info.expiry rt.now) ControllerError.not_expired
  require (ltb 0 oracle_price.price) ControllerError.zero_amount
  require (info.expiry_price == 0) ControllerError.expiry_price_already_set
  require oracle_price.is_finalized ControllerError.expiry_price_not_set
  ok (record s {
    infos = insert a.otoken_info (record info { expiry_price = oracle_price.price }) s.infos;
  })
