-- ===== src/Factory/Machine.antt =====
-- The instructions of programs/otoken_factory/src/lib.rs as one machine: a failed transaction leaves
-- the state as it was.
use options_protocol_solana.Common.{ℕ, ℤ, Option, List, [], ◌∷◌, Pubkey, Result, ok, err, ◌>>=◌}
use options_protocol_solana.Runtime.{Runtime, TokenProgram}
use options_protocol_solana.Factory.State.{FactoryState}
use options_protocol_solana.Factory.Series
use options_protocol_solana.Factory.Series.{
  Initialize, AdminAction, SetOperator, CreateOtoken, Terms,
}

pub data Instruction : Type 0 where
  initialize : Initialize → Pubkey → Instruction
  set_controller : AdminAction → Pubkey → Instruction
  set_operator : SetOperator → Pubkey → Instruction
  create_otoken : CreateOtoken → Terms → Instruction

-- An instruction, and the time and the ledger that it finds.
pub record Transaction (L : Type 0) : Type 0 where
  pub now : ℤ
  pub ledger : L
  pub instruction : Instruction

abbrev pub at : Runtime → ℤ → Runtime
at rt now = record rt { now = now }

module _ {L : Type 0} (t : TokenProgram L)
    (initialize_mint : L → Pubkey → ℕ → Pubkey → Option L) where
  unfoldable pub execute : Runtime → L → FactoryState → Instruction → Result FactoryState
  execute rt l s (initialize a admin) = Series.initialize rt s a admin
  execute rt l s (set_controller a controller) = Series.set_controller rt s a controller
  execute rt l s (set_operator a operator) = Series.set_operator rt s a operator
  execute rt l s (create_otoken a g) =
      Series.create_otoken t initialize_mint rt s l a g >>= λ x. ok x.0

  -- The state after an instruction that had this outcome.
  abbrev pub outcome : FactoryState → Result FactoryState → FactoryState
  outcome s (ok s') = s'
  outcome s (err _) = s

  unfoldable pub run : Runtime → FactoryState → List (Transaction L) → FactoryState
  unfolding execute
  run rt s [] = s
  run rt s (x ∷ xs) = run rt (outcome s (execute (at rt x.now) x.ledger s x.instruction)) xs
