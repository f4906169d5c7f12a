-- ===== src/Runtime/System.antt =====
-- The system program and the rent of an account: parameters, over an unknown type of ledgers.
use options_protocol_solana.Common.{ℕ, Option, Pubkey, default}

-- Thirty-two zero bytes.
abbrev pub system_program_id : Pubkey
system_program_id = default

-- An instruction gives the ledger after it, or `none` where it fails.
pub record SystemProgram (L : Type 0) : Type 0 where
  pub lamports : L → Pubkey → ℕ
  -- The program that owns the account at an address.
  pub owner : L → Pubkey → Pubkey
  -- `Rent::get()?.minimum_balance(space)`
  pub minimum_balance : ℕ → ℕ
  -- From the first address, to the second: lamports, space and owner of the new account.
  pub create_account : L → Pubkey → Pubkey → ℕ → ℕ → Pubkey → Option L
  pub transfer : L → Pubkey → Pubkey → ℕ → Option L
  pub allocate : L → Pubkey → ℕ → Option L
  pub assign : L → Pubkey → Pubkey → Option L
