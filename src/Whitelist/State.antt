-- ===== src/Whitelist/State.antt =====
-- The accounts of programs/whitelist/src/lib.rs.
use options_protocol_solana.Common.{
  ℕ, Bool, Pubkey, Accounts, Result, guard, whitelist, WhitelistError, List, [], ◌∷◌,
}
use options_protocol_solana.Runtime.{Seed, text, key}

-- `declare_id!`
abbrev pub whitelist_id : Pubkey
whitelist_id = 0x247e9a205b44152c42c4d291a19de7106a7fec1e421f44ed05aa5dc243ca91d1

pub record WhitelistConfig : Type 0 where
  pub admin : Pubkey
  pub factory : Pubkey
  pub bump : ℕ

pub record WhitelistedOToken : Type 0 where
  pub otoken_mint : Pubkey
  pub active : Bool
  pub bump : ℕ

-- The accounts that the program owns.
pub record WhitelistState : Type 0 where
  pub configs : Accounts WhitelistConfig
  pub whitelisted_otokens : Accounts WhitelistedOToken

abbrev pub entry_seeds : Pubkey → List Seed
entry_seeds mint = text "whitelisted_otoken" ∷ key mint ∷ []

abbrev pub config_seeds : List Seed
config_seeds = text "whitelist_config" ∷ []

abbrev pub require : Bool → WhitelistError → Result (Unit {0})
require b e = guard b (whitelist e)
