-- ===== src/Runtime/Token.antt =====
-- The token program behind `anchor_spl::token_interface` (SPL Token or Token-2022): a parameter,
-- over an unknown type of ledgers.
use options_protocol_solana.Common.{ℕ, ◌+◌, ◌≤◌, ◌≡◌, ◌≢◌, Option, some, Pubkey}

pub record TokenAccount : Type 0 where
  pub mint : Pubkey
  pub owner : Pubkey
  pub amount : ℕ

-- The accounts of a transfer; `authority` signs, as a signer or by its seeds.
pub record TransferChecked : Type 0 where
  pub from : Pubkey
  pub mint : Pubkey
  pub to : Pubkey
  pub authority : Pubkey

pub record MintTo : Type 0 where
  pub mint : Pubkey
  pub to : Pubkey
  pub authority : Pubkey

pub record BurnChecked : Type 0 where
  pub mint : Pubkey
  pub from : Pubkey
  pub authority : Pubkey

-- An operation gives the ledger after it, or `none` where it fails.
pub record TokenProgram (L : Type 0) : Type 0 where
  pub account : L → Pubkey → Option TokenAccount
  -- The decimals of a mint, if the key is a mint's.
  pub decimals : L → Pubkey → Option ℕ
  pub transfer_checked : L → TransferChecked → ℕ → ℕ → Option L
  pub mint_to : L → MintTo → ℕ → Option L
  pub burn_checked : L → BurnChecked → ℕ → ℕ → Option L

-- What is documented of a transfer between two accounts: the source is debited by the amount, which
-- it must hold; the destination is credited with at most the amount, since a Token-2022 mint may
-- withhold a fee; no other balance changes, and no mint or owner at all.
pub record TransferLaws {L : Type 0} (t : TokenProgram L) : Type 0 where
  pub debits :
      (l l' : L) (c : TransferChecked) (n d : ℕ) (a : TokenAccount)
      → t.transfer_checked l c n d ≡ some l'
      → t.account l c.from ≡ some a
      → c.from ≢ c.to
      → (a' : TokenAccount) × (t.account l' c.from ≡ some a')
        × (a'.amount + n ≡ a.amount)
        × (a'.mint ≡ a.mint)
        × (a'.owner ≡ a.owner)
  pub credits :
      (l l' : L) (c : TransferChecked) (n d : ℕ) (a : TokenAccount)
      → t.transfer_checked l c n d ≡ some l'
      → t.account l c.to ≡ some a
      → c.from ≢ c.to
      → (a' : TokenAccount) × (t.account l' c.to ≡ some a')
        × (a.amount ≤ a'.amount)
        × (a'.amount ≤ a.amount + n)
        × (a'.mint ≡ a.mint)
        × (a'.owner ≡ a.owner)
  pub keeps :
      (l l' : L) (c : TransferChecked) (n d : ℕ) (k : Pubkey)
      → t.transfer_checked l c n d ≡ some l'
      → k ≢ c.from
      → k ≢ c.to
      → t.account l' k ≡ t.account l k
  -- From an account to itself nothing moves.
  pub keeps_self :
      (l l' : L) (c : TransferChecked) (n d : ℕ)
      → t.transfer_checked l c n d ≡ some l'
      → c.from ≡ c.to
      → t.account l' c.from ≡ t.account l c.from
