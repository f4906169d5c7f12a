-- ===== src/Oracle/State.antt =====
-- The accounts of programs/oracle/src/lib.rs.
use options_protocol_solana.Common.{
  ℕ, ℤ, Bool, Pubkey, Accounts, Result, guard, ok_or, Option, oracle, OracleError, List, [], ◌∷◌,
}
use options_protocol_solana.Runtime.{Seed, text, key, signed}

-- `declare_id!`
abbrev pub oracle_id : Pubkey
oracle_id = 0xd28055c2fad8dfb14a1251907ca4aabff3223b0f909628f1657612899dc074c6

pub record OracleConfig : Type 0 where
  pub admin : Pubkey
  pub pending_admin : Pubkey
  pub operator : Pubkey
  pub pyth_receiver_program : Pubkey
  pub max_staleness_secs : ℕ
  pub max_confidence_bps : ℕ
  pub price_deviation_threshold_bps : ℕ
  pub bump : ℕ

pub record PriceFeed : Type 0 where
  pub underlying : Pubkey
  pub pyth_feed_id : List ℕ
  pub active : Bool
  pub bump : ℕ

pub record ExpiryPrice : Type 0 where
  pub underlying : Pubkey
  pub expiry : ℤ
  pub price : ℕ
  pub is_finalized : Bool
  pub bump : ℕ

-- The accounts that the program owns.
pub record OracleState : Type 0 where
  pub configs : Accounts OracleConfig
  pub feeds : Accounts PriceFeed
  pub expiry_prices : Accounts ExpiryPrice

abbrev pub require : Bool → OracleError → Result (Unit {0})
require b e = guard b (oracle e)

abbrev pub expiry_price_seeds : Pubkey → ℤ → List Seed
expiry_price_seeds underlying expiry = text "expiry_price" ∷ key underlying ∷ signed expiry ∷ []

abbrev pub or_else {ℓ} : {A : Type ℓ} → Option A → OracleError → Result A
or_else o e = ok_or o (oracle e)

abbrev pub config_seeds : List Seed
config_seeds = text "oracle_config" ∷ []

abbrev pub feed_seeds : Pubkey → List Seed
feed_seeds underlying = text "feed" ∷ key underlying ∷ []
