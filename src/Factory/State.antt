-- ===== src/Factory/State.antt =====
-- The accounts of programs/otoken_factory/src/lib.rs.
use options_protocol_solana.Common.{
  ℕ, ℤ, Bool, Pubkey, Accounts, Result, guard, otoken_factory, FactoryError, pos, List, [], ◌∷◌,
}
use options_protocol_solana.Runtime.{Seed, text, key, word, signed, flag}

-- `declare_id!`
abbrev pub factory_id : Pubkey
factory_id = 0xacb417bd222d4899963e8307904ada20dca79d5428a1b2f5e8a6d8997efcf368

pub record FactoryConfig : Type 0 where
  pub admin : Pubkey
  pub controller : Pubkey
  pub otoken_count : ℕ
  pub bump : ℕ

pub record FactoryOperatorConfig : Type 0 where
  pub operator : Pubkey
  pub bump : ℕ

pub record OToken : Type 0 where
  pub underlying : Pubkey
  pub strike_asset : Pubkey
  pub collateral : Pubkey
  pub strike_price : ℕ
  pub expiry : ℤ
  pub is_put : Bool
  pub mint : Pubkey
  pub bump : ℕ

-- The accounts that the program owns.
pub record FactoryState : Type 0 where
  pub configs : Accounts FactoryConfig
  pub operator_configs : Accounts FactoryOperatorConfig
  pub otokens : Accounts OToken

abbrev pub otoken_seeds : Pubkey → Pubkey → Pubkey → ℕ → ℤ → Bool → List Seed
otoken_seeds underlying strike_asset collateral strike_price expiry is_put =
    text "otoken"
    ∷ key underlying
    ∷ key strike_asset
    ∷ key collateral
    ∷ word strike_price
    ∷ signed expiry
    ∷ flag is_put
    ∷ []

-- The seeds of the mint of a series.
abbrev pub mint_seeds : Pubkey → Pubkey → Pubkey → ℕ → ℤ → Bool → List Seed
mint_seeds underlying strike_asset collateral strike_price expiry is_put =
    text "otoken_mint"
    ∷ key underlying
    ∷ key strike_asset
    ∷ key collateral
    ∷ word strike_price
    ∷ signed expiry
    ∷ flag is_put
    ∷ []

abbrev pub config_seeds : List Seed
config_seeds = text "factory_config" ∷ []

abbrev pub operator_seeds : List Seed
operator_seeds = text "factory_operator_config" ∷ []

abbrev pub min_otoken_lifetime_secs : ℤ
min_otoken_lifetime_secs = pos 60

abbrev pub require : Bool → FactoryError → Result (Unit {0})
require b e = guard b (otoken_factory e)
