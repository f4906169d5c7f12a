-- ===== src/Settler/Custody/Physical.antt =====
-- `physical_redeem` of programs/batch_settler/src/lib.rs. The swap is a program that the operator's
-- route calls: a parameter, of which nothing is known.
use options_protocol_solana.Common.{
  ℕ, Bool, not, Pubkey, List, [], ◌∷◌, Option, Result, ok, ◌>>=◌, ◌>>◌, ◌==◌, ltb, leb,
  if◌then◌else◌, insert, checked_sub, SettlerError,
}
use options_protocol_solana.Runtime.{
  Runtime, TokenAccount, TokenProgram, load, load_token, load_mint, check_bump, invoke,
}
use options_protocol_solana.Controller.State.{ControllerState}
use options_protocol_solana.Settler.State.{
  SettlerState, SettlerConfig, VaultMm, settler_id, require, or_else, vault_mm_seeds,
}
use options_protocol_solana.Settler.Quotes.{validate_itm, compute_contra_amount}
use options_protocol_solana.Settler.World.{World, load_operated}
use options_protocol_solana.Settler.Custody.Accounts.{
  CustodyAccounts, Custody, load_custody, debit_balance,
}

-- One of `remaining_accounts`.
pub record AccountInfo : Type 0 where
  pub key : Pubkey
  pub is_writable : Bool

pub record AccountMeta : Type 0 where
  pub pubkey : Pubkey
  pub is_signer : Bool
  pub is_writable : Bool

pub record PhysicalRedeem : Type 0 where
  pub operator : Pubkey
  pub custody : CustodyAccounts
  pub contra_mint : Pubkey
  pub settler_contra_account : Pubkey
  pub user : Pubkey
  pub vault : Pubkey
  pub vault_mm : Pubkey
  pub user_contra_account : Pubkey
  pub jupiter_program : Pubkey
  pub remaining_accounts : List AccountInfo

-- The accounts of a delivery as they were loaded.
pub record Delivery : Type 0 where
  pub config : SettlerConfig
  pub custody : Custody
  pub contra_decimals : ℕ
  pub vault_mm : VaultMm
  pub settler_contra : TokenAccount
  pub user_contra : TokenAccount

-- What the program at an address does, given its accounts and its data. It may call the controller
-- and move tokens; the runtime refuses it a call back into the settler.
abbrev pub ExternalProgram : Type 0 → Type 0
ExternalProgram L =
    Pubkey → List AccountMeta → List ℕ → ControllerState → L → Option (ControllerState × L)

-- The accounts of the route, of which the settler's own address signs.
abbrev pub accounts_meta : Pubkey → List AccountInfo → List AccountMeta
accounts_meta settler_config [] = []
accounts_meta settler_config (acct ∷ rest) =
    record {
      pubkey = acct.key;
      is_signer = acct.key == settler_config;
      is_writable = acct.is_writable;
    }
    ∷ accounts_meta settler_config rest

-- The tests before anything is called; the result is the contra amount that the user is owed.
unfoldable pub check_delivery : Runtime → PhysicalRedeem → Delivery → ℕ → Result ℕ
unfolding validate_itm compute_contra_amount
check_delivery rt a d amount = do
  require (ltb 0 amount) SettlerError.zero_amount
  require (not d.config.paused) SettlerError.paused
  let info = d.custody.info
  validate_itm rt info
  let expected_contra = if info.is_put then info.underlying else info.strike_asset
  require (a.contra_mint == expected_contra) SettlerError.invalid_contra_mint
  contra_amount ← compute_contra_amount amount info.strike_price info.is_put d.contra_decimals
  let expected_mm_mint = if info.is_put then info.collateral_mint else expected_contra
  require (d.custody.mm_collateral.mint == expected_mm_mint) SettlerError.invalid_custody_account
  ok contra_amount

-- The custody that the delivery takes, of the maker and of the vault.
unfoldable pub take_custody : SettlerState → PhysicalRedeem → Delivery → ℕ → Result SettlerState
unfolding debit_balance checked_sub
take_custody s a d amount = do
  require (leb amount d.custody.balance.balance) SettlerError.insufficient_mm_balance
  require (leb amount d.vault_mm.remaining_amount) SettlerError.insufficient_mm_balance
  remaining ← or_else (checked_sub d.vault_mm.remaining_amount amount) SettlerError.math_overflow
  mm_bal ← debit_balance d.custody.balance amount
  ok (record s {
    balances = insert a.custody.maker_otoken_balance mm_bal s.balances;
    vault_mms = insert a.vault_mm (record d.vault_mm { remaining_amount = remaining }) s.vault_mms;
  })

module _ {L : Type 0} (t : TokenProgram L) where
  -- The constraints.
  unfoldable pub load_physical_redeem : Runtime → World L → PhysicalRedeem → Result Delivery
  unfolding load_operated load_custody load load_token load_mint check_bump
  load_physical_redeem rt w a = do
    config ← load_operated rt w.settler a.custody.settler_config a.operator
    k ← load_custody t rt w a.custody (λ maker. maker)
    contra_decimals ← load_mint t w.ledger a.contra_mint
    settler_contra ← load_token t w.ledger a.settler_contra_account
    require (settler_contra.mint == a.contra_mint) SettlerError.invalid_contra_mint
    require (settler_contra.owner == a.custody.settler_config) SettlerError.invalid_custody_account
    vault ← load w.controller.vaults a.vault
    require (vault.otoken_mint == a.custody.otoken_mint) SettlerError.invalid_custody_account
    require (vault.beneficiary == a.user) SettlerError.unauthorized
    vault_mm ← load w.settler.vault_mms a.vault_mm
    check_bump rt (vault_mm_seeds a.vault) vault_mm.bump settler_id a.vault_mm
    require (vault_mm.vault == a.vault) SettlerError.unauthorized
    require (vault_mm.maker == k.balance.maker) SettlerError.unauthorized
    require (vault_mm.otoken_mint == a.custody.otoken_mint) SettlerError.invalid_custody_account
    user_contra ← load_token t w.ledger a.user_contra_account
    require (user_contra.mint == a.contra_mint) SettlerError.invalid_contra_mint
    require (user_contra.owner == a.user) SettlerError.invalid_custody_account
    ok (record {
      config = config;
      custody = k;
      contra_decimals = contra_decimals;
      vault_mm = vault_mm;
      settler_contra = settler_contra;
      user_contra = user_contra;
    })

  unfoldable pub invoke_jupiter_swap :
      ExternalProgram L
      → ControllerState
      → L
      → PhysicalRedeem
      → Pubkey
      → List ℕ
      → Result (ControllerState × L)
  unfolding invoke
  invoke_jupiter_swap program s l a expected route = do
    require (a.jupiter_program == expected) SettlerError.invalid_jupiter_program
    invoke (
        program a.jupiter_program (accounts_meta a.custody.settler_config a.remaining_accounts)
          route s l)
