-- ===== src/Controller/Redeem.antt =====
-- `redeem` of programs/controller/src/lib.rs.
use options_protocol_solana.Common.{
  ℕ, leb_ℤ, not, Pubkey, Result, ok, ◌>>=◌, ◌>>◌, ◌==◌, ltb, ControllerError,
}
use options_protocol_solana.Runtime.{
  Runtime, TokenProgram, load, load_token, load_mint, check_seeds, constraint, invoke,
}
use options_protocol_solana.Controller.State.{
  ControllerState, ControllerConfig, OTokenInfo, controller_id, require, load_config, info_seeds,
  pool_authority_seeds,
}
use options_protocol_solana.Controller.Collateral.{get_payout}
use options_protocol_solana.Controller.Settle.{pay_from_pool}

pub record Redeem : Type 0 where
  pub config : Pubkey
  pub otoken_info : Pubkey
  pub otoken_mint : Pubkey
  pub redeemer_otoken_account : Pubkey
  pub redeemer_collateral_account : Pubkey
  pub pool_token_account : Pubkey
  pub collateral_mint_account : Pubkey
  pub pool_vault_authority : Pubkey
  pub redeemer : Pubkey

module _ {L : Type 0} (t : TokenProgram L) where
  -- The constraints; the result is the config, the series, and the decimals of the oToken and of
  -- the collateral.
  unfoldable pub load_redeem :
      Runtime → ControllerState → L → Redeem → Result (ControllerConfig × OTokenInfo × ℕ × ℕ)
  unfolding load_config load load_token load_mint check_seeds
  load_redeem rt s l a = do
    config ← load_config rt s a.config
    info ← load s.infos a.otoken_info
    check_seeds rt (info_seeds a.otoken_mint) controller_id a.otoken_info
    otoken_decimals ← load_mint t l a.otoken_mint
    constraint (a.otoken_mint == info.otoken_mint)
    otokens ← load_token t l a.redeemer_otoken_account
    constraint (otokens.mint == a.otoken_mint)
    require (otokens.owner == a.redeemer) ControllerError.unauthorized
    collateral ← load_token t l a.redeemer_collateral_account
    require (collateral.mint == info.collateral_mint) ControllerError.collateral_mismatch
    require (collateral.owner == a.redeemer) ControllerError.unauthorized
    pool ← load_token t l a.pool_token_account
    require (pool.mint == info.collateral_mint) ControllerError.collateral_mismatch
    require (pool.owner == a.pool_vault_authority) ControllerError.unauthorized
    decimals ← load_mint t l a.collateral_mint_account
    require (a.collateral_mint_account == info.collateral_mint) ControllerError.collateral_mismatch
    check_seeds rt (pool_authority_seeds info.collateral_mint) controller_id a.pool_vault_authority
    ok (config, info, otoken_decimals, decimals)

  unfoldable pub redeem : Runtime → ControllerState → L → Redeem → ℕ → Result L
  unfolding load_redeem invoke pay_from_pool
  redeem rt s l a amount = do
    (config, info, otoken_decimals, decimals) ← load_redeem rt s l a
    require (not config.fully_paused) ControllerError.system_fully_paused
    require (ltb 0 amount) ControllerError.zero_amount
    require (leb_ℤ info.expiry rt.now) ControllerError.not_expired
    require (ltb 0 info.expiry_price) ControllerError.expiry_price_not_set
    payout ←
        get_payout info.strike_price info.expiry_price info.is_put info.collateral_decimals amount
    l' ← invoke (
        t.burn_checked l
          (record {
            mint = a.otoken_mint;
            from = a.redeemer_otoken_account;
            authority = a.redeemer;
          })
          amount otoken_decimals)
    pay_from_pool t l' a.pool_token_account a.collateral_mint_account a.redeemer_collateral_account
        a.pool_vault_authority payout decimals
