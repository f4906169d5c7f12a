-- ===== src/Controller/Vaults.antt =====
-- `initialize_counter`, `open_vault` and `deposit_collateral` of programs/controller/src/lib.rs.
use options_protocol_solana.Common.{
  ℕ, false, not, Pubkey, default, insert, Result, ok, ◌>>=◌, ◌>>◌, ◌==◌, ltb, checked_add,
  checked_sub, ControllerError,
}
use options_protocol_solana.Runtime.{
  Runtime, TokenProgram, TokenAccount, load, load_token, load_mint, init_at, check_bump,
  check_seeds, has_one, invoke,
}
use options_protocol_solana.Controller.State.{
  ControllerState, ControllerConfig, Vault, VaultCounter, controller_id, require, or_else,
  load_config, vault_seeds, counter_seeds, pool_authority_seeds,
}

pub record InitializeCounter : Type 0 where
  pub vault_counter : Pubkey
  pub owner : Pubkey

unfoldable pub initialize_counter :
    Runtime → ControllerState → InitializeCounter → Result ControllerState
unfolding init_at
initialize_counter rt s a = do
  bump ← init_at rt s.counters (counter_seeds a.owner) controller_id a.vault_counter
  let counter : VaultCounter = record { owner = a.owner; next_id = 0; bump = bump }
  ok (record s { counters = insert a.vault_counter counter s.counters })

-- The two switches that every operation which takes on risk tests first.
unfoldable pub require_unpaused : ControllerConfig → Result (Unit {0})
require_unpaused config = do
  require (not config.fully_paused) ControllerError.system_fully_paused
  require (not config.partially_paused) ControllerError.system_partially_paused

pub record OpenVault : Type 0 where
  pub config : Pubkey
  pub vault : Pubkey
  pub vault_counter : Pubkey
  pub owner : Pubkey

-- The constraints: the config, the counter, and the bump of the vault's fresh address.
unfoldable pub load_open_vault :
    Runtime → ControllerState → OpenVault → Result (ControllerConfig × VaultCounter × ℕ)
unfolding load_config load init_at check_bump
load_open_vault rt s a = do
  config ← load_config rt s a.config
  counter ← load s.counters a.vault_counter
  bump ← init_at rt s.vaults (vault_seeds a.owner counter.next_id) controller_id a.vault
  check_bump rt (counter_seeds a.owner) counter.bump controller_id a.vault_counter
  has_one (counter.owner == a.owner)
  ok (config, counter, bump)

-- An empty, open vault, as `open_vault` writes it.
abbrev pub fresh_vault : Pubkey → ℕ → Pubkey → Pubkey → ℕ → Vault
fresh_vault owner id collateral_mint beneficiary bump = record {
  owner = owner;
  vault_id = id;
  collateral_mint = collateral_mint;
  collateral_amount = 0;
  otoken_mint = default;
  short_amount = 0;
  settled = false;
  beneficiary = beneficiary;
  bump = bump;
}

unfoldable pub open_vault :
    Runtime → ControllerState → OpenVault → Pubkey → Pubkey → Result ControllerState
unfolding load_open_vault require_unpaused checked_add
open_vault rt s a collateral_mint beneficiary = do
  (config, counter, bump) ← load_open_vault rt s a
  require (not (beneficiary == default)) ControllerError.zero_address
  require_unpaused config
  next_id ← or_else (checked_add counter.next_id 1) ControllerError.math_overflow
  ok (record s {
    vaults =
        insert a.vault (fresh_vault a.owner counter.next_id collateral_mint beneficiary bump)
          s.vaults;
    counters = insert a.vault_counter (record counter { next_id = next_id }) s.counters;
  })

pub record DepositCollateral : Type 0 where
  pub config : Pubkey
  pub vault : Pubkey
  pub user_token_account : Pubkey
  pub collateral_mint_account : Pubkey
  pub pool_token_account : Pubkey
  pub pool_vault_authority : Pubkey
  pub owner : Pubkey

module _ {L : Type 0} (t : TokenProgram L) where
  -- The constraints; the result is the config, the vault, the token accounts of the user and of
  -- the pool as they were loaded, and the decimals of the collateral.
  unfoldable pub load_deposit_collateral :
      Runtime
      → ControllerState
      → L
      → DepositCollateral
      → Result (ControllerConfig × Vault × TokenAccount × TokenAccount × ℕ)
  unfolding load_config load load_token load_mint check_bump check_seeds
  load_deposit_collateral rt s l a = do
    config ← load_config rt s a.config
    vault ← load s.vaults a.vault
    has_one (vault.owner == a.owner)
    check_bump rt (vault_seeds a.owner vault.vault_id) vault.bump controller_id a.vault
    user ← load_token t l a.user_token_account
    decimals ← load_mint t l a.collateral_mint_account
    require (a.collateral_mint_account == vault.collateral_mint) ControllerError.collateral_mismatch
    pool ← load_token t l a.pool_token_account
    require (pool.mint == vault.collateral_mint) ControllerError.collateral_mismatch
    require (pool.owner == a.pool_vault_authority) ControllerError.unauthorized
    check_seeds rt (pool_authority_seeds vault.collateral_mint) controller_id a.pool_vault_authority
    ok (config, vault, user, pool, decimals)

  unfoldable pub deposit_collateral :
      Runtime → ControllerState → L → DepositCollateral → ℕ → Result (ControllerState × L)
  unfolding load_deposit_collateral require_unpaused load_token invoke checked_sub checked_add
  deposit_collateral rt s l a amount = do
    (config, vault, user, before, decimals) ← load_deposit_collateral rt s l a
    require_unpaused config
    require (ltb 0 amount) ControllerError.zero_amount
    require (not vault.settled) ControllerError.vault_settled
    require (user.mint == vault.collateral_mint) ControllerError.collateral_mismatch
    l' ← invoke (
        t.transfer_checked l
          (record {
            from = a.user_token_account;
            mint = a.collateral_mint_account;
            to = a.pool_token_account;
            authority = a.owner;
          })
          amount decimals)
    after ← load_token t l' a.pool_token_account
    actual_received ← or_else (checked_sub after.amount before.amount) ControllerError.math_overflow
    require (actual_received == amount) ControllerError.collateral_credit_mismatch
    collateral ← or_else (checked_add vault.collateral_amount amount) ControllerError.math_overflow
    ok (
      record s {
        vaults = insert a.vault (record vault { collateral_amount = collateral }) s.vaults;
      },
      l',
    )
