-- ===== src/Pool/State.antt =====
-- The accounts of programs/margin_pool/src/lib.rs.
use options_protocol_solana.Common.{
  ℕ, Bool, Option, List, [], ◌∷◌, Pubkey, Accounts, Result, ok, ◌>>=◌, ◌>>◌, guard, ok_or,
  margin_pool, MarginPoolError,
}
use options_protocol_solana.Runtime.{Runtime, Seed, text, key, load, check_bump}

-- `declare_id!`
abbrev pub margin_pool_id : Pubkey
margin_pool_id = 0xe1a4bc042e2dbde4a4bf2f4951a403bf2b67e70e468ad1d089b87c7487a9ccf9

pub record MarginPoolConfig : Type 0 where
  pub admin : Pubkey
  pub controller : Pubkey
  pub operator : Pubkey
  pub yield_recipient : Pubkey
  pub bump : ℕ

pub record PoolVault : Type 0 where
  pub collateral_mint : Pubkey
  pub token_account : Pubkey
  pub total_deposited : ℕ
  pub bump : ℕ
  pub vault_authority_bump : ℕ

-- The accounts that the program owns.
pub record PoolState : Type 0 where
  pub configs : Accounts MarginPoolConfig
  pub pool_vaults : Accounts PoolVault

abbrev pub require : Bool → MarginPoolError → Result (Unit {0})
require b e = guard b (margin_pool e)

abbrev pub or_else : Option ℕ → MarginPoolError → Result ℕ
or_else o e = ok_or o (margin_pool e)

abbrev pub config_seeds : List Seed
config_seeds = text "margin_pool_config" ∷ []

abbrev pub pool_vault_seeds : Pubkey → List Seed
pool_vault_seeds collateral_mint = text "pool_vault" ∷ key collateral_mint ∷ []

abbrev pub vault_authority_seeds : Pubkey → List Seed
vault_authority_seeds collateral_mint = text "lending_vault_auth" ∷ key collateral_mint ∷ []

unfoldable pub load_config : Runtime → PoolState → Pubkey → Result MarginPoolConfig
unfolding load check_bump
load_config rt s address = do
  config ← load s.configs address
  check_bump rt config_seeds config.bump margin_pool_id address
  ok config

unfoldable pub load_pool_vault : Runtime → PoolState → Pubkey → Result PoolVault
unfolding load check_bump
load_pool_vault rt s address = do
  pool_vault ← load s.pool_vaults address
  check_bump rt (pool_vault_seeds pool_vault.collateral_mint) pool_vault.bump margin_pool_id address
  ok pool_vault
