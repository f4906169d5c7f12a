-- ===== src/Settler/Order/Steps.antt =====
-- The steps of `execute_order` in programs/batch_settler/src/lib.rs that change its accounts, call the
-- controller and move tokens.
use options_protocol_solana.Common.{
  ℕ, Pubkey, Result, ok, ◌>>=◌, ◌>>◌, ◌==◌, false, true, none, some, if◌then◌else◌, ltb, default,
  lookup, insert, err, settler, SettlerError, checked_add,
}
use options_protocol_solana.Runtime.{Runtime, TokenProgram, SystemProgram, invoke}
use options_protocol_solana.Controller.State.{ControllerState}
use options_protocol_solana.Controller.Vaults.{open_vault, deposit_collateral}
use options_protocol_solana.Controller.Mint.{mint_otoken}
use options_protocol_solana.Settler.State.{
  SettlerState, QuoteFill, MakerOTokenBalance, VaultMm, settler_id, require, or_else,
  quote_fill_space, maker_otoken_balance_space, vault_mm_space, fill_seeds, balance_seeds,
  vault_mm_seeds,
}
use options_protocol_solana.Settler.Quotes.{update_fill}
use options_protocol_solana.Settler.Rent.{create_program_pda}
use options_protocol_solana.Settler.Order.Load.{ExecuteOrder, Order}

module _ {L : Type 0} (sys : SystemProgram L) where
  -- An account that the map has not is one without data: only the program can give its addresses
  -- data, and it does so when it makes the account.
  unfoldable pub load_or_init_quote_fill :
      SettlerState → L → ExecuteOrder → ℕ → Result (QuoteFill × L)
  unfolding create_program_pda
  load_or_init_quote_fill s l a bump = elim (lookup a.quote_fill s.fills) [
    | none ↦ create_program_pda sys l a.rent_reserve a.quote_fill true quote_fill_space >>= λ l'.
        ok (record { filled_amount = 0; cancelled = false; bump = bump }, l')
    | some fill ↦ ok (fill, l)
  ]

  -- The fill that the order adds to.
  unfoldable pub fill_quote :
      Runtime → SettlerState → L → ExecuteOrder → Order → Result (SettlerState × L)
  unfolding load_or_init_quote_fill update_fill
  fill_quote rt s l a q = do
    let bump = (rt.find_program_address (fill_seeds a.maker q.maker_nonce q.quote_id) settler_id).1
    (fill, l') ← load_or_init_quote_fill s l a bump
    updated ← update_fill fill q.amount q.max_amount
    ok (record s { fills = insert a.quote_fill (record updated { bump = bump }) s.fills }, l')

  unfoldable pub load_or_init_maker_otoken_balance :
      SettlerState → L → ExecuteOrder → ℕ → Result (MakerOTokenBalance × L)
  unfolding create_program_pda
  load_or_init_maker_otoken_balance s l a bump = elim (lookup a.maker_otoken_balance s.balances) [
    | none ↦
        create_program_pda sys l a.rent_reserve a.maker_otoken_balance true
          maker_otoken_balance_space
        >>= λ l'.
            ok (record { maker = default; otoken_mint = default; balance = 0; bump = bump }, l')
    | some balance ↦ ok (balance, l)
  ]

  -- The custody ledger: the maker's balance grows by the amount.
  unfoldable pub credit_custody :
      Runtime → SettlerState → L → ExecuteOrder → ℕ → Result (SettlerState × L)
  unfolding load_or_init_maker_otoken_balance checked_add
  credit_custody rt s l a amount = do
    let bump = (rt.find_program_address (balance_seeds a.maker a.otoken_mint) settler_id).1
    (loaded, l') ← load_or_init_maker_otoken_balance s l a bump
    let mm_bal : MakerOTokenBalance =
        if loaded.maker == default
        then record loaded { maker = a.maker; otoken_mint = a.otoken_mint }
        else loaded
    require (mm_bal.maker == a.maker) SettlerError.unauthorized
    require (mm_bal.otoken_mint == a.otoken_mint) SettlerError.invalid_custody_account
    balance ← or_else (checked_add mm_bal.balance amount) SettlerError.math_overflow
    ok (
      record s {
        balances =
            insert a.maker_otoken_balance (record mm_bal { balance = balance; bump = bump })
              s.balances;
      },
      l',
    )

  unfoldable pub init_vault_mm_account : SettlerState → L → ExecuteOrder → Result L
  unfolding create_program_pda
  init_vault_mm_account s l a = elim (lookup a.vault_mm s.vault_mms) [
    | none ↦ create_program_pda sys l a.rent_reserve a.vault_mm true vault_mm_space
    | some _ ↦ err (settler SettlerError.invalid_custody_account)
  ]

  -- The vault is the maker's.
  unfoldable pub record_vault_mm :
      Runtime → SettlerState → L → ExecuteOrder → ℕ → Result (SettlerState × L)
  unfolding init_vault_mm_account
  record_vault_mm rt s l a amount = do
    l' ← init_vault_mm_account s l a
    let vault_mm : VaultMm = record {
      maker = a.maker;
      vault = a.vault;
      otoken_mint = a.otoken_mint;
      remaining_amount = amount;
      bump = (rt.find_program_address (vault_mm_seeds a.vault) settler_id).1;
    }
    ok (record s { vault_mms = insert a.vault_mm vault_mm s.vault_mms }, l')

module _ {L : Type 0} (t : TokenProgram L) where
  -- `cpi_open_vault`, `cpi_deposit_collateral` and `cpi_mint_otoken`, as the settler's own address.
  unfoldable pub cpi_open_vault :
      Runtime → ControllerState → ExecuteOrder → Pubkey → Result ControllerState
  unfolding open_vault
  cpi_open_vault rt s a collateral_mint =
      open_vault rt s
        (record {
          config = a.controller_config;
          vault = a.vault;
          vault_counter = a.vault_counter;
          owner = a.settler_config;
        })
        collateral_mint a.user

  unfoldable pub cpi_deposit_collateral :
      Runtime → ControllerState → L → ExecuteOrder → ℕ → Result (ControllerState × L)
  unfolding deposit_collateral
  cpi_deposit_collateral rt s l a amount =
      deposit_collateral t rt s l
        (record {
          config = a.controller_config;
          vault = a.vault;
          user_token_account = a.user_collateral_account;
          collateral_mint_account = a.collateral_mint_account;
          pool_token_account = a.pool_token_account;
          pool_vault_authority = a.pool_vault_authority;
          owner = a.settler_config;
        })
        amount

  unfoldable pub cpi_mint_otoken :
      Runtime → ControllerState → L → ExecuteOrder → ℕ → Result (ControllerState × L)
  unfolding mint_otoken
  cpi_mint_otoken rt s l a amount =
      mint_otoken t rt s l
        (record {
          config = a.controller_config;
          vault = a.vault;
          otoken_info = a.otoken_info;
          otoken_mint = a.otoken_mint;
          destination = a.settler_otoken_account;
          owner = a.settler_config;
        })
        amount

  -- The vault of an order: opened for the user, funded with the collateral, and written against.
  unfoldable pub write_vault :
      Runtime → ControllerState → L → ExecuteOrder → Order → Result (ControllerState × L)
  unfolding cpi_open_vault cpi_deposit_collateral cpi_mint_otoken
  write_vault rt s l a q = do
    opened ← cpi_open_vault rt s a q.collateral_mint
    (funded, l') ← cpi_deposit_collateral rt opened l a q.collateral_amount
    cpi_mint_otoken rt funded l' a q.amount

  -- One part of the premium, from the maker.
  unfoldable pub pay_premium : L → ExecuteOrder → Pubkey → ℕ → ℕ → Result L
  unfolding invoke
  pay_premium l a to amount decimals =
      if ltb 0 amount
      then invoke (
          t.transfer_checked l
            (record {
              from = a.mm_premium_account;
              mint = a.premium_mint_account;
              to = to;
              authority = a.settler_config;
            })
            amount decimals)
      else ok l

  -- The net premium to the user, and the fee to the treasury.
  unfoldable pub transfer_premium : L → ExecuteOrder → ℕ → ℕ → ℕ → Result L
  unfolding pay_premium
  transfer_premium l a decimals net fee = do
    l' ← pay_premium l a a.user_premium_account net decimals
    pay_premium l' a a.treasury_account fee decimals
