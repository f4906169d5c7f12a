-- ===== src/Settler/Rent.antt =====
-- The sponsored rent of programs/batch_settler/src/lib.rs: the accounts that the rent reserve pays
-- for, its withdrawal, and the counter of vaults that the owner pays for.
use options_protocol_solana.Common.{
  ℕ, ◌+◌, ◌-◌, Bool, Pubkey, Result, ok, ◌>>=◌, ◌>>◌, ◌==◌, ltb, leb, if◌then◌else◌, SettlerError,
}
use options_protocol_solana.Runtime.{Runtime, SystemProgram, system_program_id, invoke}
use options_protocol_solana.Controller.Vaults.{initialize_counter}
use options_protocol_solana.Settler.State.{SettlerState, settler_id, require}
use options_protocol_solana.Settler.Admin.{load_owner_action}
use options_protocol_solana.Settler.World.{World, load_rent_reserve}

pub record WithdrawRentReserve : Type 0 where
  pub settler_config : Pubkey
  pub rent_reserve : Pubkey
  pub owner : Pubkey
  pub recipient : Pubkey

pub record InitVaultCounter : Type 0 where
  pub settler_config : Pubkey
  pub owner : Pubkey
  pub vault_counter : Pubkey

module _ {L : Type 0} (sys : SystemProgram L) where
  -- An account of the program at `target`, paid for by the rent reserve: made from nothing, or out
  -- of the empty system account that someone has sent lamports to.
  unfoldable pub create_program_pda : L → Pubkey → Pubkey → Bool → ℕ → Result L
  unfolding invoke
  create_program_pda l rent_reserve target data_is_empty space =
      let lamports = sys.minimum_balance space in
      let current_lamports = sys.lamports l target in
      if current_lamports == 0
      then invoke (sys.create_account l rent_reserve target lamports space settler_id)
      else (do
        require (sys.owner l target == system_program_id) SettlerError.invalid_custody_account
        require data_is_empty SettlerError.invalid_custody_account
        funded ←
            if ltb current_lamports lamports
            then invoke (sys.transfer l rent_reserve target (lamports - current_lamports))
            else ok l
        allocated ← invoke (sys.allocate funded target space)
        invoke (sys.assign allocated target settler_id))

  -- The rent of the vault that the controller is about to open.
  unfoldable pub fund_vault_rent : L → Pubkey → Pubkey → Result L
  unfolding invoke
  fund_vault_rent l rent_reserve vault =
      let vault_space = 8 + 32 + 8 + 32 + 8 + 32 + 8 + 1 + 32 + 1 in
      invoke (sys.transfer l rent_reserve vault (sys.minimum_balance vault_space))

  unfoldable pub withdraw_rent_reserve :
      Runtime → SettlerState → L → WithdrawRentReserve → ℕ → Result L
  unfolding load_owner_action load_rent_reserve invoke
  withdraw_rent_reserve rt s l a lamports = do
    _ ← load_owner_action rt s (record { settler_config = a.settler_config; owner = a.owner })
    load_rent_reserve sys rt l a.rent_reserve
    require (ltb 0 lamports) SettlerError.zero_amount
    require (leb lamports (sys.lamports l a.rent_reserve)) SettlerError.insufficient_rent_reserve
    invoke (sys.transfer l a.rent_reserve a.recipient lamports)

  -- The counter of the settler's vaults, an account of the controller.
  unfoldable pub init_vault_counter : Runtime → World L → InitVaultCounter → Result (World L)
  unfolding load_owner_action initialize_counter invoke
  init_vault_counter rt w a = do
    _ ←
        load_owner_action rt w.settler
          (record { settler_config = a.settler_config; owner = a.owner })
    l ←
        invoke
          (sys.transfer w.ledger a.owner a.vault_counter (sys.minimum_balance (8 + 32 + 8 + 1)))
    controller ←
        initialize_counter rt w.controller
          (record { vault_counter = a.vault_counter; owner = a.settler_config })
    ok (record w { controller = controller; ledger = l })
