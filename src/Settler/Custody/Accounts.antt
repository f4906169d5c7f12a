-- ===== src/Settler/Custody/Accounts.antt =====
-- The accounts that RedeemForMM, MMSelfRedeem and PhysicalRedeem of
-- programs/batch_settler/src/lib.rs share, and what they do with them alike.
use options_protocol_solana.Common.{
  ℕ, Pubkey, Result, ok, ◌>>=◌, ◌>>◌, ◌==◌, leb, insert, checked_sub, SettlerError,
}
use options_protocol_solana.Runtime.{
  Runtime, TokenAccount, TokenProgram, load, load_token, load_mint, check_bump,
}
use options_protocol_solana.Controller.State.{ControllerState, OTokenInfo}
use options_protocol_solana.Controller.Redeem
use options_protocol_solana.Settler.State.{
  SettlerState, MakerOTokenBalance, settler_id, require, or_else, balance_seeds,
}
use options_protocol_solana.Settler.World.{World}

-- The accounts that the three instructions have in common.
pub record CustodyAccounts : Type 0 where
  pub settler_config : Pubkey
  pub maker_otoken_balance : Pubkey
  pub controller_config : Pubkey
  pub otoken_info : Pubkey
  pub otoken_mint : Pubkey
  pub collateral_mint_account : Pubkey
  pub settler_otoken_account : Pubkey
  pub settler_collateral_account : Pubkey
  pub mm_collateral_account : Pubkey
  pub pool_token_account : Pubkey
  pub pool_vault_authority : Pubkey

-- The same as they were loaded.
pub record Custody : Type 0 where
  pub balance : MakerOTokenBalance
  pub info : OTokenInfo
  pub collateral_decimals : ℕ
  pub settler_collateral : TokenAccount
  pub mm_collateral : TokenAccount

module _ {L : Type 0} (t : TokenProgram L) where
  -- The constraints that the three structs share. The balance stands at the seeds of a maker who is
  -- either the one that it names or the signer: `maker_of` tells which.
  unfoldable pub load_custody :
      Runtime → World L → CustodyAccounts → (Pubkey → Pubkey) → Result Custody
  unfolding load load_token load_mint check_bump
  load_custody rt w c maker_of = do
    balance ← load w.settler.balances c.maker_otoken_balance
    check_bump rt (balance_seeds (maker_of balance.maker) c.otoken_mint) balance.bump settler_id
        c.maker_otoken_balance
    info ← load w.controller.infos c.otoken_info
    _ ← load_mint t w.ledger c.otoken_mint
    collateral_decimals ← load_mint t w.ledger c.collateral_mint_account
    otokens ← load_token t w.ledger c.settler_otoken_account
    require (otokens.mint == c.otoken_mint) SettlerError.invalid_custody_account
    require (otokens.owner == c.settler_config) SettlerError.invalid_custody_account
    collateral ← load_token t w.ledger c.settler_collateral_account
    require (collateral.mint == info.collateral_mint) SettlerError.invalid_custody_account
    require (collateral.owner == c.settler_config) SettlerError.invalid_custody_account
    mm_collateral ← load_token t w.ledger c.mm_collateral_account
    require (mm_collateral.owner == maker_of balance.maker) SettlerError.invalid_custody_account
    _ ← load_token t w.ledger c.pool_token_account
    ok (record {
      balance = balance;
      info = info;
      collateral_decimals = collateral_decimals;
      settler_collateral = collateral;
      mm_collateral = mm_collateral;
    })

  -- The redemption at the controller, as the settler's own address.
  unfoldable pub cpi_redeem : Runtime → ControllerState → L → CustodyAccounts → ℕ → Result L
  unfolding Redeem.redeem
  cpi_redeem rt s l c amount =
      Redeem.redeem t rt s l
        (record {
          config = c.controller_config;
          otoken_info = c.otoken_info;
          otoken_mint = c.otoken_mint;
          redeemer_otoken_account = c.settler_otoken_account;
          redeemer_collateral_account = c.settler_collateral_account;
          pool_token_account = c.pool_token_account;
          collateral_mint_account = c.collateral_mint_account;
          pool_vault_authority = c.pool_vault_authority;
          redeemer = c.settler_config;
        })
        amount

-- What is taken from a balance: the test, and the subtraction.
unfoldable pub debit_balance : MakerOTokenBalance → ℕ → Result MakerOTokenBalance
unfolding checked_sub
debit_balance mm_bal amount = do
  require (leb amount mm_bal.balance) SettlerError.insufficient_mm_balance
  balance ← or_else (checked_sub mm_bal.balance amount) SettlerError.math_overflow
  ok (record mm_bal { balance = balance })

abbrev pub put_balance : SettlerState → Pubkey → MakerOTokenBalance → SettlerState
put_balance s address mm_bal = record s { balances = insert address mm_bal s.balances }
