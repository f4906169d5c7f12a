-- ===== src/Jupiter.antt =====
-- The swap program that the tests of physical_redeem call, programs/mock_jupiter/src/lib.rs.
use options_protocol_solana.Common.{ℕ, Pubkey, Option, List, [], ◌∷◌, Result, ◌>>=◌, ◌>>◌}
use options_protocol_solana.Runtime.{
  Runtime, Seed, text, TokenProgram, load_token, check_seeds, invoke,
}

-- `declare_id!`
abbrev pub mock_jupiter_id : Pubkey
mock_jupiter_id = 0xf75e714e39ae4fa38d84a41563da73f5f1add36203143b7602e1e96bfafe352e

abbrev pub mock_authority_seeds : List Seed
mock_authority_seeds = text "mock_jupiter_auth" ∷ []

pub record Swap : Type 0 where
  pub source : Pubkey
  pub in_reserve : Pubkey
  pub out_reserve : Pubkey
  pub destination : Pubkey
  pub source_authority : Pubkey
  pub mock_authority : Pubkey

pub record SwapSplit : Type 0 where
  pub source : Pubkey
  pub in_reserve : Pubkey
  pub out_reserve : Pubkey
  pub primary_destination : Pubkey
  pub secondary_destination : Pubkey
  pub source_authority : Pubkey
  pub mock_authority : Pubkey

-- `transfer` is the token program's unchecked transfer: from, to, authority and amount.
module _ {L : Type 0} (t : TokenProgram L)
    (transfer : L → Pubkey → Pubkey → Pubkey → ℕ → Option L) where
  unfoldable pub swap : Runtime → L → Swap → ℕ → ℕ → Result L
  unfolding load_token check_seeds invoke
  swap rt l a input_amount output_amount = do
    _ ← load_token t l a.source
    _ ← load_token t l a.in_reserve
    _ ← load_token t l a.out_reserve
    _ ← load_token t l a.destination
    check_seeds rt mock_authority_seeds mock_jupiter_id a.mock_authority
    l ← invoke (transfer l a.source a.in_reserve a.source_authority input_amount)
    invoke (transfer l a.out_reserve a.destination a.mock_authority output_amount)

  -- The same, with the output split between two destinations.
  unfoldable pub swap_split : Runtime → L → SwapSplit → ℕ → ℕ → ℕ → Result L
  unfolding load_token check_seeds invoke
  swap_split rt l a input_amount output_primary output_secondary = do
    _ ← load_token t l a.source
    _ ← load_token t l a.in_reserve
    _ ← load_token t l a.out_reserve
    _ ← load_token t l a.primary_destination
    _ ← load_token t l a.secondary_destination
    check_seeds rt mock_authority_seeds mock_jupiter_id a.mock_authority
    l ← invoke (transfer l a.source a.in_reserve a.source_authority input_amount)
    l ← invoke (transfer l a.out_reserve a.primary_destination a.mock_authority output_primary)
    invoke (transfer l a.out_reserve a.secondary_destination a.mock_authority output_secondary)
