-- ===== src/Oracle/Machine.antt =====
-- The instructions of programs/oracle/src/lib.rs that write its accounts, as one machine: a failed
-- transaction leaves the state as it was.
use options_protocol_solana.Common.{ℕ, ℤ, Bool, List, [], ◌∷◌, Pubkey, Result, ok, err}
use options_protocol_solana.Runtime.{Runtime}
use options_protocol_solana.Oracle.State.{OracleState}
use options_protocol_solana.Oracle.Admin
use options_protocol_solana.Oracle.Admin.{
  InitializeOracle, InitialConfig, RegisterFeed, DeregisterFeed, AdminAction, AcceptOwnership,
}
use options_protocol_solana.Oracle.Prices
use options_protocol_solana.Oracle.Prices.{SetExpiryPrice}

pub data Instruction : Type 0 where
  initialize : InitializeOracle → InitialConfig → Instruction
  register_feed : RegisterFeed → Pubkey → List ℕ → Instruction
  deregister_feed : DeregisterFeed → Instruction
  set_feed_active : DeregisterFeed → Bool → Instruction
  set_expiry_price : SetExpiryPrice → Pubkey → ℤ → ℕ → Instruction
  set_operator : AdminAction → Pubkey → Instruction
  set_price_deviation_threshold : AdminAction → ℕ → Instruction
  set_max_staleness : AdminAction → ℕ → Instruction
  set_max_confidence : AdminAction → ℕ → Instruction
  transfer_ownership : AdminAction → Pubkey → Instruction
  accept_ownership : AcceptOwnership → Instruction

unfoldable pub execute : Runtime → OracleState → Instruction → Result OracleState
execute rt s (initialize a given) = Admin.initialize rt s a given
execute rt s (register_feed a underlying id) = Admin.register_feed rt s a underlying id
execute rt s (deregister_feed a) = Admin.deregister_feed rt s a
execute rt s (set_feed_active a active) = Admin.set_feed_active rt s a active
execute rt s (set_expiry_price a underlying expiry price) =
    Prices.set_expiry_price rt s a underlying expiry price
execute rt s (set_operator a operator) = Admin.set_operator rt s a operator
execute rt s (set_price_deviation_threshold a bps) = Admin.set_price_deviation_threshold rt s a bps
execute rt s (set_max_staleness a secs) = Admin.set_max_staleness rt s a secs
execute rt s (set_max_confidence a bps) = Admin.set_max_confidence rt s a bps
execute rt s (transfer_ownership a new_admin) = Admin.transfer_ownership rt s a new_admin
execute rt s (accept_ownership a) = Admin.accept_ownership rt s a

-- The state after an instruction that had this outcome.
abbrev pub outcome : OracleState → Result OracleState → OracleState
outcome s (ok s') = s'
outcome s (err _) = s

abbrev pub at : Runtime → ℤ → Runtime
at rt now = record rt { now = now }

-- A transaction is an instruction at a time.
unfoldable pub run : Runtime → OracleState → List (ℤ × Instruction) → OracleState
unfolding execute
run rt s [] = s
run rt s ((now, i) ∷ xs) = run rt (outcome s (execute (at rt now) s i)) xs
