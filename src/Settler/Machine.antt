-- ===== src/Settler/Machine.antt =====
-- The instructions of programs/batch_settler/src/lib.rs as one machine on its own accounts: a
-- transaction runs one of them against the clock, the controller and the ledger that it finds, and a
-- failed one leaves the accounts as they were.
pub mod Ledger
pub mod Postings
pub mod Steps
pub mod Counted
pub mod Tracked
pub mod Book
use options_protocol_solana.Common.{ℕ, ℤ, Bool, List, [], ◌∷◌, Pubkey, Result, ok, err, ◌>>=◌}
use options_protocol_solana.Runtime.{Runtime, TokenProgram, SystemProgram}
use options_protocol_solana.Controller.State.{ControllerState}
use options_protocol_solana.Settler.State.{SettlerState}
use options_protocol_solana.Settler.Limits
use options_protocol_solana.Settler.Admin
use options_protocol_solana.Settler.Admin.{WhitelistMaker, IncrementNonce, CancelQuote}
use options_protocol_solana.Settler.World.{World}
use options_protocol_solana.Settler.Rent
use options_protocol_solana.Settler.Rent.{WithdrawRentReserve, InitVaultCounter}
use options_protocol_solana.Settler.Order.Load.{ExecuteOrder, Order, InstructionsSysvar}
use options_protocol_solana.Settler.Order.Execute
use options_protocol_solana.Settler.Custody.Redeem
use options_protocol_solana.Settler.Custody.Redeem.{RedeemForMm, MmSelfRedeem}
use options_protocol_solana.Settler.Custody.Physical.{PhysicalRedeem, ExternalProgram}
use options_protocol_solana.Settler.Custody.Delivery
use options_protocol_solana.Settler.Custody.Emergency
use options_protocol_solana.Settler.Custody.Emergency.{SettleVaultForMaker, EmergencyWithdrawOrder}

-- `configure` is one of the instructions that write the configuration; the swap program of a delivery
-- may be another one each time.
pub data Instruction (L : Type 0) : Type 0 where
  configure : Limits.Instruction → Instruction L
  whitelist_maker : WhitelistMaker → Pubkey → Bool → Instruction L
  increment_maker_nonce : IncrementNonce → Instruction L
  cancel_quote : CancelQuote → ℕ → Instruction L
  withdraw_rent_reserve : WithdrawRentReserve → ℕ → Instruction L
  init_vault_counter : InitVaultCounter → Instruction L
  execute_order : InstructionsSysvar → ExecuteOrder → Order → Instruction L
  settle_vault : SettleVaultForMaker → Instruction L
  emergency_withdraw : EmergencyWithdrawOrder → Instruction L
  redeem_for_mm : RedeemForMm → ℕ → Instruction L
  mm_self_redeem : MmSelfRedeem → ℕ → Instruction L
  physical_redeem : ExternalProgram L → PhysicalRedeem → ℕ → ℕ → List ℕ → Instruction L

pub record Transaction (L : Type 0) : Type 0 where
  pub now : ℤ
  pub controller : ControllerState
  pub ledger : L
  pub instruction : Instruction L

abbrev pub at : Runtime → ℤ → Runtime
at rt now = record rt { now = now }

module _ {L : Type 0} where
  -- An instruction that writes the settler's accounts only, and one that writes only the ledger.
  abbrev pub own : World L → Result SettlerState → Result (World L)
  own w r = r >>= λ s. ok (record w { settler = s })

  abbrev pub paying : World L → Result L → Result (World L)
  paying w r = r >>= λ l. ok (record w { ledger = l })

  unfoldable pub execute :
      TokenProgram L → SystemProgram L → Runtime → World L → Instruction L → Result (World L)
  execute t sys rt w (configure i) = own w (Limits.execute rt w.settler i)
  execute t sys rt w (whitelist_maker a maker whitelisted) =
      own w (Admin.whitelist_maker rt w.settler a maker whitelisted)
  execute t sys rt w (increment_maker_nonce a) = own w (Admin.increment_maker_nonce rt w.settler a)
  execute t sys rt w (cancel_quote a quote_id) = own w (Admin.cancel_quote rt w.settler a quote_id)
  execute t sys rt w (withdraw_rent_reserve a lamports) =
      paying w (Rent.withdraw_rent_reserve sys rt w.settler w.ledger a lamports)
  execute t sys rt w (init_vault_counter a) = Rent.init_vault_counter sys rt w a
  execute t sys rt w (execute_order sysvar a q) = Execute.execute_order t sys rt sysvar w a q
  execute t sys rt w (settle_vault a) = Emergency.settle_vault t rt w a
  execute t sys rt w (emergency_withdraw a) = Emergency.emergency_withdraw t rt w a
  execute t sys rt w (redeem_for_mm a amount) = Redeem.redeem_for_mm t rt w a amount
  execute t sys rt w (mm_self_redeem a amount) = Redeem.mm_self_redeem t rt w a amount
  execute t sys rt w (physical_redeem program a amount most route) =
      Delivery.physical_redeem t program rt w a amount most route

  -- The accounts after an instruction that had this outcome.
  abbrev pub outcome : SettlerState → Result (World L) → SettlerState
  outcome s (ok w) = w.settler
  outcome s (err _) = s

  -- What a transaction finds.
  abbrev pub found_by : SettlerState → Transaction L → World L
  found_by s x = record { settler = s; controller = x.controller; ledger = x.ledger }

  unfoldable pub step :
      TokenProgram L → SystemProgram L → Runtime → SettlerState → Transaction L → SettlerState
  step t sys rt s x = outcome s (execute t sys (at rt x.now) (found_by s x) x.instruction)

  unfoldable pub run :
      TokenProgram L
      → SystemProgram L
      → Runtime
      → SettlerState
      → List (Transaction L)
      → SettlerState
  run t sys rt s [] = s
  run t sys rt s (x ∷ xs) = run t sys rt (step t sys rt s x) xs

-- Before the program is initialized it owns no account.
abbrev pub empty_state : SettlerState
empty_state = record { configs = []; makers = []; fills = []; balances = []; vault_mms = [] }
