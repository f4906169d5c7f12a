-- ===== src/Pool/Transfers.antt =====
-- `transfer_to_pool` and `transfer_to_user` of programs/margin_pool/src/lib.rs.
use options_protocol_solana.Common.{
  ℕ, Pubkey, insert, Result, ok, ◌>>=◌, ◌>>◌, ◌==◌, ltb, leb, guard, checked_add, checked_sub,
  MarginPoolError, anchor, constraint_address,
}
use options_protocol_solana.Runtime.{
  Runtime, TokenProgram, load_token, load_mint, check_seeds, constraint, invoke,
}
use options_protocol_solana.Pool.State.{
  PoolState, PoolVault, margin_pool_id, require, or_else, vault_authority_seeds, load_config,
  load_pool_vault,
}
use options_protocol_solana.Pool.Admin.{load_admin_only}

pub record TransferToPool : Type 0 where
  pub config : Pubkey
  pub pool_vault : Pubkey
  pub user_token_account : Pubkey
  pub collateral_mint : Pubkey
  pub vault_token_account : Pubkey
  pub user_authority : Pubkey

pub record TransferToUser : Type 0 where
  pub config : Pubkey
  pub admin : Pubkey
  pub pool_vault : Pubkey
  pub vault_token_account : Pubkey
  pub user_token_account : Pubkey
  pub collateral_mint : Pubkey
  pub vault_authority : Pubkey

abbrev put_total : PoolState → Pubkey → PoolVault → ℕ → PoolState
put_total s address pool_vault total = record s {
  pool_vaults = insert address (record pool_vault { total_deposited = total }) s.pool_vaults;
}

module _ {L : Type 0} (t : TokenProgram L) where
  -- The constraints; the result is the vault and the decimals of its collateral.
  unfoldable pub load_transfer_to_pool :
      Runtime → PoolState → L → TransferToPool → Result (PoolVault × ℕ)
  unfolding load_config load_pool_vault load_token load_mint
  load_transfer_to_pool rt s l a = do
    _ ← load_config rt s a.config
    pool_vault ← load_pool_vault rt s a.pool_vault
    user ← load_token t l a.user_token_account
    constraint (user.mint == pool_vault.collateral_mint)
    decimals ← load_mint t l a.collateral_mint
    require (a.collateral_mint == pool_vault.collateral_mint) MarginPoolError.collateral_mismatch
    _ ← load_token t l a.vault_token_account
    guard (a.vault_token_account == pool_vault.token_account) (anchor constraint_address)
    ok (pool_vault, decimals)

  unfoldable pub transfer_to_pool :
      Runtime → PoolState → L → TransferToPool → ℕ → Result (PoolState × L)
  unfolding load_transfer_to_pool invoke checked_add
  transfer_to_pool rt s l a amount = do
    (pool_vault, decimals) ← load_transfer_to_pool rt s l a
    require (ltb 0 amount) MarginPoolError.zero_amount
    l' ← invoke (
        t.transfer_checked l
          (record {
            from = a.user_token_account;
            mint = a.collateral_mint;
            to = a.vault_token_account;
            authority = a.user_authority;
          })
          amount decimals)
    total ← or_else (checked_add pool_vault.total_deposited amount) MarginPoolError.math_overflow
    ok (put_total s a.pool_vault pool_vault total, l')

  unfoldable pub load_transfer_to_user :
      Runtime → PoolState → L → TransferToUser → Result (PoolVault × ℕ)
  unfolding load_admin_only load_pool_vault load_token load_mint check_seeds
  load_transfer_to_user rt s l a = do
    _ ← load_admin_only rt s (record { config = a.config; admin = a.admin })
    pool_vault ← load_pool_vault rt s a.pool_vault
    _ ← load_token t l a.vault_token_account
    guard (a.vault_token_account == pool_vault.token_account) (anchor constraint_address)
    user ← load_token t l a.user_token_account
    constraint (user.mint == pool_vault.collateral_mint)
    decimals ← load_mint t l a.collateral_mint
    require (a.collateral_mint == pool_vault.collateral_mint) MarginPoolError.collateral_mismatch
    check_seeds rt (vault_authority_seeds pool_vault.collateral_mint) margin_pool_id
        a.vault_authority
    ok (pool_vault, decimals)

  unfoldable pub transfer_to_user :
      Runtime → PoolState → L → TransferToUser → ℕ → Result (PoolState × L)
  unfolding load_transfer_to_user invoke checked_sub
  transfer_to_user rt s l a amount = do
    (pool_vault, decimals) ← load_transfer_to_user rt s l a
    require (ltb 0 amount) MarginPoolError.zero_amount
    require (leb amount pool_vault.total_deposited) MarginPoolError.insufficient_balance
    l' ← invoke (
        t.transfer_checked l
          (record {
            from = a.vault_token_account;
            mint = a.collateral_mint;
            to = a.user_token_account;
            authority = a.vault_authority;
          })
          amount decimals)
    total ← or_else (checked_sub pool_vault.total_deposited amount) MarginPoolError.math_overflow
    ok (put_total s a.pool_vault pool_vault total, l')
