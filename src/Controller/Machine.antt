-- ===== src/Controller/Machine.antt =====
-- The instructions of programs/controller/src/lib.rs as one machine: a transaction runs one of them
-- against the clock, the ledger and the other programs' accounts that it finds, and a failed one
-- leaves the state as it was.
pub mod History
use options_protocol_solana.Common.{ℕ, ℤ, Bool, List, [], ◌∷◌, Pubkey, Result, ok, err, ◌>>=◌}
use options_protocol_solana.Runtime.{Runtime, TokenProgram}
use options_protocol_solana.Factory.State.{FactoryState}
use options_protocol_solana.Whitelist.State.{WhitelistState}
use options_protocol_solana.Oracle.State.{OracleState}
use options_protocol_solana.Controller.State.{ControllerState}
use options_protocol_solana.Controller.Admin
use options_protocol_solana.Controller.Admin.{InitializeConfig, AdminAction, PauseAction}
use options_protocol_solana.Controller.Vaults
use options_protocol_solana.Controller.Vaults.{InitializeCounter, OpenVault, DepositCollateral}
use options_protocol_solana.Controller.Mint
use options_protocol_solana.Controller.Mint.{MintOtoken}
use options_protocol_solana.Controller.Settle
use options_protocol_solana.Controller.Settle.{SettleVault, EmergencyWithdrawVault}
use options_protocol_solana.Controller.Redeem
use options_protocol_solana.Controller.Redeem.{Redeem}
use options_protocol_solana.Controller.Series
use options_protocol_solana.Controller.Series.{CreateOTokenInfo, SetExpiryPrice}

pub data Instruction : Type 0 where
  initialize : InitializeConfig → Pubkey → Instruction
  initialize_counter : InitializeCounter → Instruction
  open_vault : OpenVault → Pubkey → Pubkey → Instruction
  deposit_collateral : DepositCollateral → ℕ → Instruction
  mint_otoken : MintOtoken → ℕ → Instruction
  settle_vault : SettleVault → Instruction
  redeem : Redeem → ℕ → Instruction
  set_partial_pauser : AdminAction → Pubkey → Instruction
  set_partially_paused : PauseAction → Bool → Instruction
  set_fully_paused : AdminAction → Bool → Instruction
  emergency_withdraw_vault : EmergencyWithdrawVault → Instruction
  create_otoken_info : CreateOTokenInfo → Instruction
  set_expiry_price : SetExpiryPrice → Instruction

-- What a transaction finds outside the controller.
pub record Outside (L : Type 0) : Type 0 where
  pub factory : FactoryState
  pub whitelist : WhitelistState
  pub oracle : OracleState
  pub ledger : L

pub record Transaction (L : Type 0) : Type 0 where
  pub now : ℤ
  pub outside : Outside L
  pub instruction : Instruction

abbrev pub at : Runtime → ℤ → Runtime
at rt now = record rt { now = now }

module _ {L : Type 0} where
  -- An instruction that calls no token program leaves the ledger alone.
  abbrev pub quiet : L → Result ControllerState → Result (ControllerState × L)
  quiet l r = r >>= λ s. ok (s, l)

  -- `redeem` writes no account of the controller.
  abbrev pub spend : ControllerState → Result L → Result (ControllerState × L)
  spend s r = r >>= λ l. ok (s, l)

  unfoldable pub execute :
      TokenProgram L
      → Runtime
      → Outside L
      → ControllerState
      → Instruction
      → Result (ControllerState × L)
  execute t rt w s (initialize a admin) = quiet w.ledger (Admin.initialize rt s a admin)
  execute t rt w s (initialize_counter a) = quiet w.ledger (Vaults.initialize_counter rt s a)
  execute t rt w s (open_vault a mint beneficiary) =
      quiet w.ledger (Vaults.open_vault rt s a mint beneficiary)
  execute t rt w s (deposit_collateral a amount) =
      Vaults.deposit_collateral t rt s w.ledger a amount
  execute t rt w s (mint_otoken a amount) = Mint.mint_otoken t rt s w.ledger a amount
  execute t rt w s (settle_vault a) = Settle.settle_vault t rt s w.ledger a
  execute t rt w s (redeem a amount) = spend s (Redeem.redeem t rt s w.ledger a amount)
  execute t rt w s (set_partial_pauser a pauser) =
      quiet w.ledger (Admin.set_partial_pauser rt s a pauser)
  execute t rt w s (set_partially_paused a paused) =
      quiet w.ledger (Admin.set_partially_paused rt s a paused)
  execute t rt w s (set_fully_paused a paused) =
      quiet w.ledger (Admin.set_fully_paused rt s a paused)
  execute t rt w s (emergency_withdraw_vault a) = Settle.emergency_withdraw_vault t rt s w.ledger a
  execute t rt w s (create_otoken_info a) =
      quiet w.ledger (Series.create_otoken_info t rt s w.factory w.whitelist w.ledger a)
  execute t rt w s (set_expiry_price a) = quiet w.ledger (Series.set_expiry_price rt s w.oracle a)

  -- The state after an instruction that had this outcome.
  abbrev pub outcome : ControllerState → Result (ControllerState × L) → ControllerState
  outcome s (ok (s', _)) = s'
  outcome s (err _) = s

  unfoldable pub step : TokenProgram L → Runtime → ControllerState → Transaction L → ControllerState
  step t rt s x = outcome s (execute t (at rt x.now) x.outside s x.instruction)

  unfoldable pub run :
      TokenProgram L → Runtime → ControllerState → List (Transaction L) → ControllerState
  run t rt s [] = s
  run t rt s (x ∷ xs) = run t rt (step t rt s x) xs

-- Before the program is initialized it owns no account.
abbrev pub empty_state : ControllerState
empty_state = record { configs = []; counters = []; vaults = []; infos = [] }
