-- ===== src/Settler/Custody/Redeem.antt =====
-- `redeem_for_mm` and `mm_self_redeem` of programs/batch_settler/src/lib.rs.
use options_protocol_solana.Common.{
  ℕ, pos, not, Pubkey, Result, ok, ◌>>=◌, ◌>>◌, ◌==◌, ltb, ltb_ℤ, leb_ℤ, if◌then◌else◌, checked_sub,
  SettlerError, ℤ, checked_add_i64,
}
use options_protocol_solana.Runtime.{Runtime, TokenProgram, load_token, invoke}
use options_protocol_solana.Controller.State.{ControllerState}
use options_protocol_solana.Settler.State.{require, or_else}
use options_protocol_solana.Settler.Admin.{load_maker}
use options_protocol_solana.Settler.World.{World, load_settler_config, load_operated}
use options_protocol_solana.Settler.Custody.Accounts.{
  CustodyAccounts, Custody, load_custody, cpi_redeem, debit_balance, put_balance,
}

pub record RedeemForMm : Type 0 where
  pub operator : Pubkey
  pub custody : CustodyAccounts

pub record MmSelfRedeem : Type 0 where
  pub maker_state : Pubkey
  pub maker : Pubkey
  pub custody : CustodyAccounts

module _ {L : Type 0} (t : TokenProgram L) where
  -- Redeem at the controller, and forward to the maker what that has brought in, and no more.
  unfoldable pub redeem_and_forward :
      Runtime → ControllerState → L → CustodyAccounts → Custody → ℕ → Result L
  unfolding cpi_redeem load_token checked_sub invoke
  redeem_and_forward rt s l c k amount = do
    l ← cpi_redeem t rt s l c amount
    after ← load_token t l c.settler_collateral_account
    payout ←
        or_else (checked_sub after.amount k.settler_collateral.amount) SettlerError.math_overflow
    if ltb 0 payout
        then invoke (
            t.transfer_checked l
              (record {
                from = c.settler_collateral_account;
                mint = c.collateral_mint_account;
                to = c.mm_collateral_account;
                authority = c.settler_config;
              })
              payout k.collateral_decimals)
        else ok l

  -- The constraints of both structs on the maker's collateral account, beyond its owner.
  unfoldable pub load_redeemed :
      Runtime → World L → CustodyAccounts → (Pubkey → Pubkey) → Result Custody
  unfolding load_custody
  load_redeemed rt w c maker_of = do
    k ← load_custody t rt w c maker_of
    require (k.mm_collateral.mint == k.info.collateral_mint) SettlerError.invalid_custody_account
    ok k

  unfoldable pub redeem_for_mm : Runtime → World L → RedeemForMm → ℕ → Result (World L)
  unfolding load_operated load_redeemed debit_balance redeem_and_forward
  redeem_for_mm rt w a amount = do
    config ← load_operated rt w.settler a.custody.settler_config a.operator
    k ← load_redeemed rt w a.custody (λ maker. maker)
    require (ltb 0 amount) SettlerError.zero_amount
    require (not config.paused) SettlerError.paused
    require (leb_ℤ k.info.expiry rt.now) SettlerError.option_not_expired
    require (ltb 0 k.info.expiry_price) SettlerError.expiry_price_not_set
    mm_bal ← debit_balance k.balance amount
    l ← redeem_and_forward rt w.controller w.ledger a.custody k amount
    ok (record w {
      settler = put_balance w.settler a.custody.maker_otoken_balance mm_bal;
      ledger = l;
    })

  -- The constraints of MMSelfRedeem; the result is the escape delay too.
  unfoldable pub load_mm_self_redeem : Runtime → World L → MmSelfRedeem → Result (ℤ × Custody)
  unfolding load_settler_config load_maker load_redeemed
  load_mm_self_redeem rt w a = do
    config ← load_settler_config rt w.settler a.custody.settler_config
    maker_state ← load_maker rt w.settler a.maker_state a.maker
    require maker_state.whitelisted SettlerError.maker_not_whitelisted
    k ← load_redeemed rt w a.custody (λ _. a.maker)
    ok (config.escape_delay, k)

  unfoldable pub mm_self_redeem : Runtime → World L → MmSelfRedeem → ℕ → Result (World L)
  unfolding load_mm_self_redeem checked_add_i64 debit_balance redeem_and_forward
  mm_self_redeem rt w a amount = do
    (escape_delay, k) ← load_mm_self_redeem rt w a
    require (ltb 0 amount) SettlerError.zero_amount
    require (ltb_ℤ (pos 0) escape_delay) SettlerError.escape_not_ready
    escape_time ← or_else (checked_add_i64 k.info.expiry escape_delay) SettlerError.math_overflow
    require (leb_ℤ escape_time rt.now) SettlerError.escape_not_ready
    require (ltb 0 k.info.expiry_price) SettlerError.expiry_price_not_set
    mm_bal ← debit_balance k.balance amount
    l ← redeem_and_forward rt w.controller w.ledger a.custody k amount
    ok (record w {
      settler = put_balance w.settler a.custody.maker_otoken_balance mm_bal;
      ledger = l;
    })
