-- ===== src/Pool/Admin.antt =====
-- The configuration and the vaults of programs/margin_pool/src/lib.rs.
use options_protocol_solana.Common.{
  not, Pubkey, default, insert, Result, ok, ◌>>=◌, ◌>>◌, ◌==◌, MarginPoolError,
}
use options_protocol_solana.Runtime.{
  Runtime, TokenProgram, load_token, load_mint, init_at, check_seeds, has_one, constraint,
}
use options_protocol_solana.Pool.State.{
  PoolState, MarginPoolConfig, PoolVault, margin_pool_id, require, config_seeds, pool_vault_seeds,
  vault_authority_seeds, load_config,
}

abbrev put_config : PoolState → Pubkey → MarginPoolConfig → PoolState
put_config s address config = record s { configs = insert address config s.configs }

pub record Initialize : Type 0 where
  pub config : Pubkey
  pub admin : Pubkey

unfoldable pub initialize :
    Runtime → PoolState → Initialize → Pubkey → Pubkey → Pubkey → Result PoolState
unfolding init_at
initialize rt s a controller operator yield_recipient = do
  bump ← init_at rt s.configs config_seeds margin_pool_id a.config
  require (not (controller == default)) MarginPoolError.zero_address
  ok (
      put_config s a.config (record {
        admin = a.admin;
        controller = controller;
        operator = operator;
        yield_recipient = yield_recipient;
        bump = bump;
      }))

pub record CreatePoolVault : Type 0 where
  pub config : Pubkey
  pub pool_vault : Pubkey
  pub vault_token_account : Pubkey
  pub vault_authority : Pubkey
  pub collateral_mint : Pubkey
  pub admin : Pubkey

-- The accounts of the three setters: the admin signs.
pub record AdminOnly : Type 0 where
  pub config : Pubkey
  pub admin : Pubkey

unfoldable pub load_admin_only : Runtime → PoolState → AdminOnly → Result MarginPoolConfig
unfolding load_config
load_admin_only rt s a = do
  config ← load_config rt s a.config
  has_one (config.admin == a.admin)
  ok config

module _ {L : Type 0} (t : TokenProgram L) where
  unfoldable pub create_pool_vault : Runtime → PoolState → L → CreatePoolVault → Result PoolState
  unfolding load_admin_only init_at load_token load_mint check_seeds
  create_pool_vault rt s l a = do
    _ ← load_admin_only rt s (record { config = a.config; admin = a.admin })
    bump ← init_at rt s.pool_vaults (pool_vault_seeds a.collateral_mint) margin_pool_id a.pool_vault
    account ← load_token t l a.vault_token_account
    constraint (account.mint == a.collateral_mint)
    constraint (account.owner == a.vault_authority)
    check_seeds rt (vault_authority_seeds a.collateral_mint) margin_pool_id a.vault_authority
    _ ← load_mint t l a.collateral_mint
    let pool_vault : PoolVault = record {
      collateral_mint = a.collateral_mint;
      token_account = a.vault_token_account;
      total_deposited = 0;
      bump = bump;
      vault_authority_bump =
          (rt.find_program_address (vault_authority_seeds a.collateral_mint) margin_pool_id).1;
    }
    ok (record s { pool_vaults = insert a.pool_vault pool_vault s.pool_vaults })

unfoldable pub set_controller : Runtime → PoolState → AdminOnly → Pubkey → Result PoolState
unfolding load_admin_only
set_controller rt s a new_controller = do
  config ← load_admin_only rt s a
  require (not (new_controller == default)) MarginPoolError.zero_address
  ok (put_config s a.config (record config { controller = new_controller }))

unfoldable pub set_operator : Runtime → PoolState → AdminOnly → Pubkey → Result PoolState
unfolding load_admin_only
set_operator rt s a operator = do
  config ← load_admin_only rt s a
  require (not (operator == default)) MarginPoolError.zero_address
  ok (put_config s a.config (record config { operator = operator }))

unfoldable pub set_yield_recipient : Runtime → PoolState → AdminOnly → Pubkey → Result PoolState
unfolding load_admin_only
set_yield_recipient rt s a recipient = do
  config ← load_admin_only rt s a
  require (not (recipient == default)) MarginPoolError.zero_address
  ok (put_config s a.config (record config { yield_recipient = recipient }))
