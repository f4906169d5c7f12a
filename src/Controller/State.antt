-- ===== src/Controller/State.antt =====
-- The accounts of programs/controller/src/lib.rs, and the loading of its config.
use options_protocol_solana.Common.{
  ℕ, ℤ, Bool, List, [], ◌∷◌, Pubkey, Accounts, Result, ok, guard, ok_or, ◌>>=◌, ◌>>◌, Option,
  controller, ControllerError,
}
use options_protocol_solana.Runtime.{Runtime, Seed, text, key, word, check_bump, load}

-- `declare_id!`
abbrev pub controller_id : Pubkey
controller_id = 0x9920a76dbfc6959913b9182397f9b43d8a77669096354127c7712bfa994820d4

pub record OTokenInfo : Type 0 where
  pub otoken_mint : Pubkey
  pub underlying : Pubkey
  pub strike_asset : Pubkey
  pub collateral_mint : Pubkey
  pub strike_price : ℕ
  pub expiry : ℤ
  pub is_put : Bool
  pub collateral_decimals : ℕ
  pub expiry_price : ℕ

pub record ControllerConfig : Type 0 where
  pub admin : Pubkey
  pub partial_pauser : Pubkey
  pub partially_paused : Bool
  pub fully_paused : Bool
  pub bump : ℕ

pub record VaultCounter : Type 0 where
  pub owner : Pubkey
  pub next_id : ℕ
  pub bump : ℕ

pub record Vault : Type 0 where
  pub owner : Pubkey
  pub vault_id : ℕ
  pub collateral_mint : Pubkey
  pub collateral_amount : ℕ
  pub otoken_mint : Pubkey
  pub short_amount : ℕ
  pub settled : Bool
  pub beneficiary : Pubkey
  pub bump : ℕ

-- The accounts that the program owns.
pub record ControllerState : Type 0 where
  pub configs : Accounts ControllerConfig
  pub counters : Accounts VaultCounter
  pub vaults : Accounts Vault
  pub infos : Accounts OTokenInfo

abbrev pub require : Bool → ControllerError → Result (Unit {0})
require b e = guard b (controller e)

abbrev pub or_else : Option ℕ → ControllerError → Result ℕ
or_else o e = ok_or o (controller e)

-- `config`, with `seeds = [b"controller_config"], bump = config.bump`.
unfoldable pub load_config : Runtime → ControllerState → Pubkey → Result ControllerConfig
unfolding load check_bump
load_config rt s address = do
  config ← load s.configs address
  check_bump rt (text "controller_config" ∷ []) config.bump controller_id address
  ok config

-- The addresses of the seeds that the accounts structs name.
abbrev pub vault_seeds : Pubkey → ℕ → List Seed
vault_seeds owner id = text "vault" ∷ key owner ∷ word id ∷ []

abbrev pub counter_seeds : Pubkey → List Seed
counter_seeds owner = text "vault_counter" ∷ key owner ∷ []

abbrev pub info_seeds : Pubkey → List Seed
info_seeds mint = text "otoken_info" ∷ key mint ∷ []

abbrev pub pool_authority_seeds : Pubkey → List Seed
pool_authority_seeds mint = text "pool_vault_auth" ∷ key mint ∷ []
