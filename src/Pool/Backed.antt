-- ===== src/Pool/Backed.antt =====
-- The deposits that programs/margin_pool/src/lib.rs counts are in its token accounts.
use options_protocol_solana.Common.{ℕ, ◌≤◌, ◌≡◌, ◌≢◌, some, lookup, Pubkey, ◌⊎◌, inl, inr, Result}
use options_protocol_solana.Runtime.{Runtime, TokenAccount, TokenProgram}
use options_protocol_solana.Pool.State.{PoolState, PoolVault}
use options_protocol_solana.Pool.Transfers.{
  TransferToPool, TransferToUser, transfer_to_pool, transfer_to_user,
}

-- A vault whose token account has what it counts as deposited.
abbrev pub IsBacked : {L : Type 0} → TokenProgram L → PoolState → L → Pubkey → Type 0
IsBacked t s l k =
    (v : PoolVault) × (x : TokenAccount) × (lookup k s.pool_vaults ≡ some v)
    × (t.account l v.token_account ≡ some x)
    × (v.total_deposited ≤ x.amount)

-- A transfer into the pool or out of it.
unfoldable pub transfer :
    {L : Type 0}
    → TokenProgram L
    → Runtime
    → PoolState
    → L
    → TransferToPool ⊎ TransferToUser
    → ℕ
    → Result (PoolState × L)
transfer t rt s l (inl a) amount = transfer_to_pool t rt s l a amount
transfer t rt s l (inr a) amount = transfer_to_user t rt s l a amount

-- The vault, its token account, the user's, and the mint.
abbrev pub vault_of : TransferToPool ⊎ TransferToUser → Pubkey
vault_of (inl a) = a.pool_vault
vault_of (inr a) = a.pool_vault

abbrev pub mint_of : TransferToPool ⊎ TransferToUser → Pubkey
mint_of (inl a) = a.collateral_mint
mint_of (inr a) = a.collateral_mint

abbrev pub IsApart : TransferToPool ⊎ TransferToUser → Type 0
IsApart (inl a) = a.user_token_account ≢ a.vault_token_account
IsApart (inr a) = a.vault_token_account ≢ a.user_token_account
