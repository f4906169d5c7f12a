-- ===== src/Controller/Admin.antt =====
-- `initialize` and the pause switches of programs/controller/src/lib.rs.
use options_protocol_solana.Common.{
  Bool, false, not, ◌||◌, [], ◌∷◌, Pubkey, default, insert, Result, ok, ◌>>=◌, ◌>>◌, ◌==◌,
  ControllerError,
}
use options_protocol_solana.Runtime.{Runtime, text, init_at, has_one}
use options_protocol_solana.Controller.State.{
  ControllerState, ControllerConfig, controller_id, require, load_config,
}

pub record InitializeConfig : Type 0 where
  pub config : Pubkey
  pub payer : Pubkey

unfoldable pub initialize :
    Runtime → ControllerState → InitializeConfig → Pubkey → Result ControllerState
unfolding init_at
initialize rt s a admin = do
  bump ← init_at rt s.configs (text "controller_config" ∷ []) controller_id a.config
  require (not (admin == default)) ControllerError.zero_address
  ok (record s {
    configs =
        insert a.config
          (record {
            admin = admin;
            partial_pauser = default;
            partially_paused = false;
            fully_paused = false;
            bump = bump;
          })
          s.configs;
  })

-- The accounts of an action of the admin, who signs.
pub record AdminAction : Type 0 where
  pub config : Pubkey
  pub admin : Pubkey

unfoldable pub load_admin_action : Runtime → ControllerState → AdminAction → Result ControllerConfig
unfolding load_config
load_admin_action rt s a = do
  config ← load_config rt s a.config
  has_one (config.admin == a.admin)
  ok config

-- The accounts of `set_partially_paused`: the admin or the partial pauser signs.
pub record PauseAction : Type 0 where
  pub config : Pubkey
  pub caller : Pubkey

unfoldable pub load_pause_action : Runtime → ControllerState → PauseAction → Result ControllerConfig
unfolding load_config
load_pause_action rt s a = do
  config ← load_config rt s a.config
  require (a.caller == config.admin || a.caller == config.partial_pauser)
      ControllerError.unauthorized
  ok config

abbrev put_config : ControllerState → Pubkey → ControllerConfig → ControllerState
put_config s address config = record s { configs = insert address config s.configs }

unfoldable pub set_partial_pauser :
    Runtime → ControllerState → AdminAction → Pubkey → Result ControllerState
unfolding load_admin_action
set_partial_pauser rt s a pauser = do
  config ← load_admin_action rt s a
  require (not (pauser == default)) ControllerError.zero_address
  ok (put_config s a.config (record config { partial_pauser = pauser }))

unfoldable pub set_partially_paused :
    Runtime → ControllerState → PauseAction → Bool → Result ControllerState
unfolding load_pause_action
set_partially_paused rt s a paused = do
  config ← load_pause_action rt s a
  ok (put_config s a.config (record config { partially_paused = paused }))

unfoldable pub set_fully_paused :
    Runtime → ControllerState → AdminAction → Bool → Result ControllerState
unfolding load_admin_action
set_fully_paused rt s a paused = do
  config ← load_admin_action rt s a
  ok (put_config s a.config (record config { fully_paused = paused }))
