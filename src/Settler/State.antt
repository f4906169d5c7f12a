-- ===== src/Settler/State.antt =====
-- The accounts and constants of programs/batch_settler/src/lib.rs.
use options_protocol_solana.Common.{
  ℕ, ℤ, pos, Bool, Pubkey, Accounts, Result, guard, ok_or, settler, SettlerError, List, [], ◌∷◌,
  Option, ◌+◌,
}
use options_protocol_solana.Runtime.{Seed, text, key, word}

-- `declare_id!`
abbrev pub settler_id : Pubkey
settler_id = 0x573e1e866aafddd593863c831e14df57bf6bc09da31e24a06c3b3e74abd904eb

abbrev pub max_fee_bps : ℕ
max_fee_bps = 2000

abbrev pub price_scale : ℕ
price_scale = 100_000_000

-- Three days in seconds.
abbrev pub min_escape_delay : ℤ
min_escape_delay = pos 259_200

-- The least amount of an order.
abbrev pub min_execute_amount : ℕ
min_execute_amount = 1_000_000

abbrev pub quote_fill_space : ℕ
quote_fill_space = 8 + 8 + 1 + 1

abbrev pub maker_otoken_balance_space : ℕ
maker_otoken_balance_space = 8 + 32 + 32 + 8 + 1

abbrev pub vault_mm_space : ℕ
vault_mm_space = 8 + 32 + 32 + 32 + 8 + 1

pub record SettlerConfig : Type 0 where
  pub owner : Pubkey
  pub operator : Pubkey
  pub treasury : Pubkey
  pub protocol_fee_bps : ℕ
  pub paused : Bool
  pub escape_delay : ℤ
  pub jupiter_program : Pubkey
  pub bump : ℕ

pub record MakerState : Type 0 where
  pub maker : Pubkey
  pub nonce : ℕ
  pub whitelisted : Bool
  pub bump : ℕ

pub record QuoteFill : Type 0 where
  pub filled_amount : ℕ
  pub cancelled : Bool
  pub bump : ℕ

-- The oTokens that the settler holds for a maker, of one mint.
pub record MakerOTokenBalance : Type 0 where
  pub maker : Pubkey
  pub otoken_mint : Pubkey
  pub balance : ℕ
  pub bump : ℕ

-- The maker whose custody a vault has written into, and how much of it is left.
pub record VaultMm : Type 0 where
  pub maker : Pubkey
  pub vault : Pubkey
  pub otoken_mint : Pubkey
  pub remaining_amount : ℕ
  pub bump : ℕ

-- The accounts that the program owns.
pub record SettlerState : Type 0 where
  pub configs : Accounts SettlerConfig
  pub makers : Accounts MakerState
  pub fills : Accounts QuoteFill
  pub balances : Accounts MakerOTokenBalance
  pub vault_mms : Accounts VaultMm

abbrev pub require : Bool → SettlerError → Result (Unit {0})
require b e = guard b (settler e)

abbrev pub or_else {ℓ} : {A : Type ℓ} → Option A → SettlerError → Result A
or_else o e = ok_or o (settler e)

abbrev pub config_seeds : List Seed
config_seeds = text "settler_config" ∷ []

abbrev pub maker_seeds : Pubkey → List Seed
maker_seeds maker = text "maker" ∷ key maker ∷ []

abbrev pub fill_seeds : Pubkey → ℕ → ℕ → List Seed
fill_seeds maker nonce quote_id = text "quote_fill" ∷ key maker ∷ word nonce ∷ word quote_id ∷ []

abbrev pub balance_seeds : Pubkey → Pubkey → List Seed
balance_seeds maker otoken_mint = text "mm_balance" ∷ key maker ∷ key otoken_mint ∷ []

abbrev pub vault_mm_seeds : Pubkey → List Seed
vault_mm_seeds vault = text "vault_mm" ∷ key vault ∷ []

abbrev pub rent_reserve_seeds : List Seed
rent_reserve_seeds = text "rent_reserve" ∷ []
