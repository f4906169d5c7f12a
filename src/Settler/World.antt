-- ===== src/Settler/World.antt =====
-- What an instruction of programs/batch_settler/src/lib.rs may change: its accounts, those of the
-- controller that it calls, and the ledger of the token and system programs.
use options_protocol_solana.Common.{
  Pubkey, Result, ok, ◌>>=◌, ◌>>◌, ◌==◌, guard, anchor, account_not_system_owned, SettlerError,
}
use options_protocol_solana.Runtime.{
  Runtime, load, check_bump, check_seeds, SystemProgram, system_program_id,
}
use options_protocol_solana.Controller.State.{ControllerState}
use options_protocol_solana.Settler.State.{
  SettlerState, SettlerConfig, settler_id, require, config_seeds, rent_reserve_seeds,
}

pub record World (L : Type 0) : Type 0 where
  pub settler : SettlerState
  pub controller : ControllerState
  pub ledger : L

-- `settler_config`, with its seeds and its stored bump.
unfoldable pub load_settler_config : Runtime → SettlerState → Pubkey → Result SettlerConfig
unfolding load check_bump
load_settler_config rt s address = do
  config ← load s.configs address
  check_bump rt config_seeds config.bump settler_id address
  ok config

-- The same, for an instruction that the operator signs.
unfoldable pub load_operated : Runtime → SettlerState → Pubkey → Pubkey → Result SettlerConfig
unfolding load_settler_config
load_operated rt s address operator = do
  config ← load_settler_config rt s address
  require (operator == config.operator) SettlerError.unauthorized
  ok config

module _ {L : Type 0} (sys : SystemProgram L) where
  -- `rent_reserve`, a system account at its seeds.
  unfoldable pub load_rent_reserve : Runtime → L → Pubkey → Result (Unit {0})
  unfolding check_seeds
  load_rent_reserve rt l address = do
    guard (sys.owner l address == system_program_id) (anchor account_not_system_owned)
    check_seeds rt rent_reserve_seeds settler_id address
