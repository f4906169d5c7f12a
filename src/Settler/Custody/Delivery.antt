-- ===== src/Settler/Custody/Delivery.antt =====
-- `physical_redeem` of programs/batch_settler/src/lib.rs, from the redemption on.
use options_protocol_solana.Common.{
  ℕ, Pubkey, List, Result, ok, ◌>>=◌, ◌>>◌, ◌==◌, ltb, leb, if◌then◌else◌, checked_sub,
  SettlerError,
}
use options_protocol_solana.Runtime.{Runtime, TokenProgram, load_token, invoke}
use options_protocol_solana.Settler.State.{require, or_else}
use options_protocol_solana.Settler.World.{World}
use options_protocol_solana.Settler.Custody.Accounts.{cpi_redeem}
use options_protocol_solana.Settler.Custody.Physical.{
  PhysicalRedeem, Delivery, ExternalProgram, check_delivery, take_custody, load_physical_redeem,
  invoke_jupiter_swap,
}

-- What the swap has done to the accounts that the settler watches.
pub record SwapDeltas : Type 0 where
  pub collateral_received : ℕ
  pub collateral_used : ℕ
  pub user_contra_delta : ℕ
  pub settler_contra_delta : ℕ

abbrev delta : ℕ → ℕ → Result ℕ
delta after before = or_else (checked_sub after before) SettlerError.math_overflow

module _ {L : Type 0} (t : TokenProgram L) where
  unfoldable pub pay_if_positive : L → Pubkey → Pubkey → Pubkey → Pubkey → ℕ → ℕ → Result L
  unfolding invoke
  pay_if_positive l from mint to authority amount decimals =
      if ltb 0 amount
      then invoke (
          t.transfer_checked l (record { from = from; mint = mint; to = to; authority = authority })
            amount decimals)
      else ok l

  -- A put: the route pays the user itself, and the collateral that is left goes to the maker.
  unfoldable pub deliver_put : L → PhysicalRedeem → Delivery → ℕ → SwapDeltas → Result L
  unfolding checked_sub pay_if_positive
  deliver_put l a d contra_amount x = do
    require (leb contra_amount x.user_contra_delta) SettlerError.insufficient_swap_output
    require (x.settler_contra_delta == 0) SettlerError.unexpected_swap_destination
    require (ltb 0 x.collateral_used) SettlerError.unexpected_swap_destination
    surplus_collateral ← delta x.collateral_received x.collateral_used
    pay_if_positive l a.custody.settler_collateral_account a.custody.collateral_mint_account
        a.custody.mm_collateral_account a.custody.settler_config surplus_collateral
        d.custody.collateral_decimals

  -- A call: the route pays the settler, who pays the user the exact amount, and the maker the rest.
  unfoldable pub deliver_call : L → PhysicalRedeem → Delivery → ℕ → SwapDeltas → Result L
  unfolding checked_sub pay_if_positive invoke
  deliver_call l a d contra_amount x = do
    require (x.collateral_used == x.collateral_received) SettlerError.unexpected_swap_destination
    require (leb contra_amount x.settler_contra_delta) SettlerError.insufficient_swap_output
    require (x.user_contra_delta == 0) SettlerError.unexpected_swap_destination
    l ← invoke (
        t.transfer_checked l
          (record {
            from = a.settler_contra_account;
            mint = a.contra_mint;
            to = a.user_contra_account;
            authority = a.custody.settler_config;
          })
          contra_amount d.contra_decimals)
    surplus_contra ← delta x.settler_contra_delta contra_amount
    pay_if_positive l a.settler_contra_account a.contra_mint a.custody.mm_collateral_account
        a.custody.settler_config surplus_contra d.contra_decimals

  -- The balances after the swap, against those before it.
  unfoldable pub measure_swap : L → PhysicalRedeem → Delivery → ℕ → ℕ → ℕ → Result SwapDeltas
  unfolding load_token checked_sub
  measure_swap l a d collateral_received collateral_after_redeem max_collateral_spent = do
    collateral ← load_token t l a.custody.settler_collateral_account
    user_contra ← load_token t l a.user_contra_account
    settler_contra ← load_token t l a.settler_contra_account
    collateral_used ← delta collateral_after_redeem collateral.amount
    require (leb collateral_used max_collateral_spent) SettlerError.excess_collateral_used
    user_contra_delta ← delta user_contra.amount d.user_contra.amount
    settler_contra_delta ← delta settler_contra.amount d.settler_contra.amount
    ok (record {
      collateral_received = collateral_received;
      collateral_used = collateral_used;
      user_contra_delta = user_contra_delta;
      settler_contra_delta = settler_contra_delta;
    })

  unfoldable pub physical_redeem :
      ExternalProgram L → Runtime → World L → PhysicalRedeem → ℕ → ℕ → List ℕ → Result (World L)
  unfolding load_physical_redeem check_delivery take_custody cpi_redeem load_token checked_sub
      invoke_jupiter_swap measure_swap deliver_put deliver_call
  physical_redeem program rt w a amount max_collateral_spent jupiter_route_data = do
    d ← load_physical_redeem t rt w a
    contra_amount ← check_delivery rt a d amount
    taken ← take_custody w.settler a d amount
    l ← cpi_redeem t rt w.controller w.ledger a.custody amount
    redeemed ← load_token t l a.custody.settler_collateral_account
    collateral_received ← delta redeemed.amount d.custody.settler_collateral.amount
    require (ltb 0 collateral_received) SettlerError.redeem_returned_zero
    (controller, l) ←
        invoke_jupiter_swap t program w.controller l a d.config.jupiter_program jupiter_route_data
    x ← measure_swap l a d collateral_received redeemed.amount max_collateral_spent
    l ←
        (if d.custody.info.is_put
          then deliver_put l a d contra_amount x
          else deliver_call l a d contra_amount x)
    ok (record { settler = taken; controller = controller; ledger = l })
