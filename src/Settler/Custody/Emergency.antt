-- ===== src/Settler/Custody/Emergency.antt =====
-- `settle_vault` and `emergency_withdraw` of programs/batch_settler/src/lib.rs.
use options_protocol_solana.Common.{
  ℕ, Pubkey, Result, ok, ◌>>=◌, ◌>>◌, ◌==◌, ltb, if◌then◌else◌, min, insert, checked_sub,
  SettlerError,
}
use options_protocol_solana.Runtime.{
  Runtime, TokenProgram, load, load_token, load_mint, check_bump, invoke,
}
use options_protocol_solana.Controller.Settle
use options_protocol_solana.Settler.State.{
  MakerOTokenBalance, VaultMm, settler_id, require, or_else, balance_seeds, vault_mm_seeds,
}
use options_protocol_solana.Settler.World.{World, load_settler_config, load_operated}

pub record SettleVaultForMaker : Type 0 where
  pub settler_config : Pubkey
  pub operator : Pubkey
  pub controller_config : Pubkey
  pub vault : Pubkey
  pub otoken_info : Pubkey
  pub pool_token_account : Pubkey
  pub collateral_mint_account : Pubkey
  pub beneficiary_token_account : Pubkey
  pub pool_vault_authority : Pubkey
  pub controller_admin : Pubkey

pub record EmergencyWithdrawOrder : Type 0 where
  pub settler_config : Pubkey
  pub beneficiary : Pubkey
  pub controller_config : Pubkey
  pub vault : Pubkey
  pub pool_token_account : Pubkey
  pub collateral_mint_account : Pubkey
  pub beneficiary_token_account : Pubkey
  pub pool_vault_authority : Pubkey
  pub maker : Pubkey
  pub otoken_mint : Pubkey
  pub settler_otoken_account : Pubkey
  pub maker_otoken_balance : Pubkey
  pub vault_mm : Pubkey

module _ {L : Type 0} (t : TokenProgram L) where
  unfoldable pub settle_vault : Runtime → World L → SettleVaultForMaker → Result (World L)
  unfolding load_operated load_token load_mint Settle.settle_vault
  settle_vault rt w a = do
    _ ← load_operated rt w.settler a.settler_config a.operator
    _ ← load_token t w.ledger a.pool_token_account
    _ ← load_mint t w.ledger a.collateral_mint_account
    _ ← load_token t w.ledger a.beneficiary_token_account
    (controller, l) ← Settle.settle_vault t rt w.controller w.ledger (record {
      config = a.controller_config;
      vault = a.vault;
      otoken_info = a.otoken_info;
      pool_token_account = a.pool_token_account;
      collateral_mint_account = a.collateral_mint_account;
      beneficiary_token_account = a.beneficiary_token_account;
      pool_vault_authority = a.pool_vault_authority;
      admin = a.controller_admin;
    })
    ok (record w { controller = controller; ledger = l })

  -- The constraints; the result is the maker's balance, the vault's record, and the decimals of the
  -- oToken.
  unfoldable pub load_emergency_withdraw :
      Runtime → World L → EmergencyWithdrawOrder → Result (MakerOTokenBalance × VaultMm × ℕ)
  unfolding load_settler_config load load_token load_mint check_bump
  load_emergency_withdraw rt w a = do
    _ ← load_settler_config rt w.settler a.settler_config
    vault ← load w.controller.vaults a.vault
    require (a.beneficiary == vault.beneficiary) SettlerError.unauthorized
    require (vault.owner == a.settler_config) SettlerError.unauthorized
    _ ← load_token t w.ledger a.pool_token_account
    _ ← load_mint t w.ledger a.collateral_mint_account
    _ ← load_token t w.ledger a.beneficiary_token_account
    otoken_decimals ← load_mint t w.ledger a.otoken_mint
    otokens ← load_token t w.ledger a.settler_otoken_account
    require (otokens.owner == a.settler_config) SettlerError.invalid_custody_account
    require (otokens.mint == a.otoken_mint) SettlerError.invalid_custody_account
    mm_bal ← load w.settler.balances a.maker_otoken_balance
    check_bump rt (balance_seeds a.maker a.otoken_mint) mm_bal.bump settler_id
        a.maker_otoken_balance
    vault_mm ← load w.settler.vault_mms a.vault_mm
    check_bump rt (vault_mm_seeds a.vault) vault_mm.bump settler_id a.vault_mm
    require (vault_mm.vault == a.vault) SettlerError.unauthorized
    require (vault_mm.maker == mm_bal.maker) SettlerError.unauthorized
    require (vault_mm.otoken_mint == a.otoken_mint) SettlerError.invalid_custody_account
    ok (mm_bal, vault_mm, otoken_decimals)

  -- Burn what is in custody of the vault, if anything is.
  unfoldable pub burn_custody : L → EmergencyWithdrawOrder → ℕ → ℕ → Result L
  unfolding invoke
  burn_custody l a burn_amount decimals =
      if ltb 0 burn_amount
      then invoke (
          t.burn_checked l
            (record {
              mint = a.otoken_mint;
              from = a.settler_otoken_account;
              authority = a.settler_config;
            })
            burn_amount decimals)
      else ok l

  unfoldable pub emergency_withdraw : Runtime → World L → EmergencyWithdrawOrder → Result (World L)
  unfolding load_emergency_withdraw burn_custody checked_sub Settle.emergency_withdraw_vault
  emergency_withdraw rt w a = do
    (mm_bal, vault_mm, decimals) ← load_emergency_withdraw rt w a
    let burn_amount = min vault_mm.remaining_amount mm_bal.balance
    l ← burn_custody w.ledger a burn_amount decimals
    balance ← or_else (checked_sub mm_bal.balance burn_amount) SettlerError.math_overflow
    (controller, l) ← Settle.emergency_withdraw_vault t rt w.controller l (record {
      config = a.controller_config;
      vault = a.vault;
      pool_token_account = a.pool_token_account;
      collateral_mint_account = a.collateral_mint_account;
      beneficiary_token_account = a.beneficiary_token_account;
      pool_vault_authority = a.pool_vault_authority;
      owner = a.settler_config;
    })
    ok (record {
      settler = record w.settler {
        balances =
            insert a.maker_otoken_balance (record mm_bal { balance = balance }) w.settler.balances;
        vault_mms =
            insert a.vault_mm (record vault_mm { remaining_amount = 0 }) w.settler.vault_mms;
      };
      controller = controller;
      ledger = l;
    })
