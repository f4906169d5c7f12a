-- ===== src/Controller/Settle.antt =====
-- `settle_vault` and `emergency_withdraw_vault` of programs/controller/src/lib.rs.
use options_protocol_solana.Common.{
  ℕ, leb_ℤ, not, true, Pubkey, insert, Result, ok, ◌>>=◌, ◌>>◌, ◌==◌, ltb, if◌then◌else◌,
  checked_sub, ControllerError,
}
use options_protocol_solana.Runtime.{
  Runtime, TokenProgram, load, load_token, load_mint, check_seeds, check_bump, has_one, invoke,
}
use options_protocol_solana.Controller.State.{
  ControllerState, ControllerConfig, Vault, OTokenInfo, controller_id, require, or_else,
  load_config, info_seeds, vault_seeds, pool_authority_seeds,
}
use options_protocol_solana.Controller.Collateral.{get_payout}

pub record SettleVault : Type 0 where
  pub config : Pubkey
  pub vault : Pubkey
  pub otoken_info : Pubkey
  pub pool_token_account : Pubkey
  pub collateral_mint_account : Pubkey
  pub beneficiary_token_account : Pubkey
  pub pool_vault_authority : Pubkey
  pub admin : Pubkey

pub record EmergencyWithdrawVault : Type 0 where
  pub config : Pubkey
  pub vault : Pubkey
  pub pool_token_account : Pubkey
  pub collateral_mint_account : Pubkey
  pub beneficiary_token_account : Pubkey
  pub pool_vault_authority : Pubkey
  pub owner : Pubkey

module _ {L : Type 0} (t : TokenProgram L) where
  -- The constraints that both structs put on the pool, the mint, the beneficiary's account and the
  -- authority; the result is the decimals of the collateral.
  unfoldable pub load_payout_accounts :
      Runtime → L → Vault → Pubkey → Pubkey → Pubkey → Pubkey → Result ℕ
  unfolding load_token load_mint check_seeds
  load_payout_accounts rt l vault pool_key mint beneficiary_key authority = do
    pool ← load_token t l pool_key
    require (pool.mint == vault.collateral_mint) ControllerError.collateral_mismatch
    require (pool.owner == authority) ControllerError.unauthorized
    decimals ← load_mint t l mint
    require (mint == vault.collateral_mint) ControllerError.collateral_mismatch
    beneficiary ← load_token t l beneficiary_key
    require (beneficiary.owner == vault.beneficiary) ControllerError.unauthorized
    require (beneficiary.mint == vault.collateral_mint) ControllerError.collateral_mismatch
    check_seeds rt (pool_authority_seeds vault.collateral_mint) controller_id authority
    ok decimals

  -- `if amount > 0 { transfer_checked(..)?; }`, from the pool by its authority.
  unfoldable pub pay_from_pool : L → Pubkey → Pubkey → Pubkey → Pubkey → ℕ → ℕ → Result L
  unfolding invoke
  pay_from_pool l pool mint to authority amount decimals =
      if ltb 0 amount
      then invoke (
          t.transfer_checked l (record { from = pool; mint = mint; to = to; authority = authority })
            amount decimals)
      else ok l

  unfoldable pub load_settle_vault :
      Runtime
      → ControllerState
      → L
      → SettleVault
      → Result (ControllerConfig × Vault × OTokenInfo × ℕ)
  unfolding load_config load check_bump check_seeds load_payout_accounts
  load_settle_vault rt s l a = do
    config ← load_config rt s a.config
    has_one (config.admin == a.admin)
    vault ← load s.vaults a.vault
    check_bump rt (vault_seeds vault.owner vault.vault_id) vault.bump controller_id a.vault
    info ← load s.infos a.otoken_info
    require (info.otoken_mint == vault.otoken_mint) ControllerError.otoken_mismatch
    check_seeds rt (info_seeds vault.otoken_mint) controller_id a.otoken_info
    decimals ←
        load_payout_accounts rt l vault a.pool_token_account a.collateral_mint_account
          a.beneficiary_token_account a.pool_vault_authority
    ok (config, vault, info, decimals)

  unfoldable pub settle_vault :
      Runtime → ControllerState → L → SettleVault → Result (ControllerState × L)
  unfolding load_settle_vault checked_sub pay_from_pool
  settle_vault rt s l a = do
    (config, vault, info, decimals) ← load_settle_vault rt s l a
    require (not config.fully_paused) ControllerError.system_fully_paused
    require (not vault.settled) ControllerError.vault_settled
    require (ltb 0 vault.short_amount) ControllerError.empty_vault
    require (leb_ℤ info.expiry rt.now) ControllerError.not_expired
    require (ltb 0 info.expiry_price) ControllerError.expiry_price_not_set
    payout ←
        get_payout info.strike_price info.expiry_price info.is_put info.collateral_decimals
          vault.short_amount
    collateral_returned ←
        or_else (checked_sub vault.collateral_amount payout) ControllerError.math_overflow
    l' ←
        pay_from_pool l a.pool_token_account a.collateral_mint_account a.beneficiary_token_account
          a.pool_vault_authority collateral_returned decimals
    ok (record s { vaults = insert a.vault (record vault { settled = true }) s.vaults }, l')

  unfoldable pub load_emergency_withdraw_vault :
      Runtime → ControllerState → L → EmergencyWithdrawVault → Result (ControllerConfig × Vault × ℕ)
  unfolding load_config load check_bump load_payout_accounts
  load_emergency_withdraw_vault rt s l a = do
    config ← load_config rt s a.config
    vault ← load s.vaults a.vault
    has_one (vault.owner == a.owner)
    check_bump rt (vault_seeds vault.owner vault.vault_id) vault.bump controller_id a.vault
    decimals ←
        load_payout_accounts rt l vault a.pool_token_account a.collateral_mint_account
          a.beneficiary_token_account a.pool_vault_authority
    ok (config, vault, decimals)

  unfoldable pub emergency_withdraw_vault :
      Runtime → ControllerState → L → EmergencyWithdrawVault → Result (ControllerState × L)
  unfolding load_emergency_withdraw_vault pay_from_pool
  emergency_withdraw_vault rt s l a = do
    (config, vault, decimals) ← load_emergency_withdraw_vault rt s l a
    require config.fully_paused ControllerError.not_fully_paused
    require (not vault.settled) ControllerError.vault_settled
    l' ←
        pay_from_pool l a.pool_token_account a.collateral_mint_account a.beneficiary_token_account
          a.pool_vault_authority vault.collateral_amount decimals
    ok (record s { vaults = insert a.vault (record vault { settled = true }) s.vaults }, l')
