-- ===== src/Runtime/Address.antt =====
-- Program-derived addresses, and the clock. The derivation is the runtime's: a parameter.
use Prim.Native.String.{String}
use options_protocol_solana.Common.{ℕ, ℤ, Bool, false, List, Option, none, some, Pubkey, ◌==◌}

-- A seed: a byte string, a key, a u64 or an i64 in little endian, or a bool as one byte.
pub data Seed : Type 0 where
  text : String → Seed
  key : Pubkey → Seed
  word : ℕ → Seed
  signed : ℤ → Seed
  flag : Bool → Seed

pub record Runtime : Type 0 where
  -- The address of the seeds and a program, with the bump that it was found at.
  pub find_program_address : List Seed → Pubkey → Pubkey × ℕ
  pub create_program_address : List Seed → ℕ → Pubkey → Option Pubkey
  -- `Clock::get()?.unix_timestamp`.
  pub now : ℤ

-- `seeds = [..], bump = b`: the account stands at the address of the seeds and the stored bump.
unfoldable pub at_bump : Runtime → List Seed → ℕ → Pubkey → Pubkey → Bool
at_bump rt seeds bump program address = elim (rt.create_program_address seeds bump program) [
  | none ↦ false
  | some k ↦ k == address
]

-- `seeds = [..], bump`: the account stands at the canonical address of the seeds.
unfoldable pub at_seeds : Runtime → List Seed → Pubkey → Pubkey → Bool
at_seeds rt seeds program address = (rt.find_program_address seeds program).0 == address
