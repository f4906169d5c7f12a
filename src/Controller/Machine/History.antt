-- ===== src/Controller/Machine/History.antt =====
-- Any history of transactions of programs/controller/src/lib.rs is a sequence of moves.
use options_protocol_solana.Common.{ℤ, ap, arith, ◌≡◌, refl, List, [], ◌∷◌, Result, ok, err}
use options_protocol_solana.Runtime.{Runtime, TokenProgram}
use options_protocol_solana.Controller.State.{ControllerState}
use options_protocol_solana.Controller.Machine.{
  Instruction, initialize, initialize_counter, open_vault, deposit_collateral, mint_otoken,
  settle_vault, redeem, set_partial_pauser, set_partially_paused, set_fully_paused,
  emergency_withdraw_vault, create_otoken_info, set_expiry_price, Outside, Transaction, execute, at,
  step, run, quiet, spend, outcome,
}
use options_protocol_solana.Controller.Redeem
use options_protocol_solana.Controller.Moves.{Move, keep}
use options_protocol_solana.Controller.Moves.Refines

quiet_ok :
    {L : Type 0} (l : L) (r : Result ControllerState) {s' : ControllerState} {l' : L}
    → quiet l r ≡ ok (s', l')
    → r ≡ ok s'
quiet_ok l (ok s) e = ground arith
quiet_ok l (err f) e = cc

redeem_keeps :
    {L : Type 0} (r : Result L) {s s' : ControllerState} {l' : L} → spend s r ≡ ok (s', l') → s' ≡ s
redeem_keeps (ok l) e = ground arith
redeem_keeps (err f) e = cc

module _ {L : Type 0} (t : TokenProgram L) (rt : Runtime) (w : Outside L) (s s' : ControllerState)
    {l' : L} where
  -- An instruction that succeeds makes a move.
  pub execute-Move : (i : Instruction) → execute t rt w s i ≡ ok (s', l') → Move rt s s'
  unfolding execute
  execute-Move (initialize a k) e = Refines.initialize-Move rt s s' a k (quiet_ok w.ledger _ e)
  execute-Move (initialize_counter a) e =
      Refines.initialize_counter-Move rt s s' a (quiet_ok w.ledger _ e)
  execute-Move (open_vault a m b) e = Refines.open_vault-Move rt s s' a m b (quiet_ok w.ledger _ e)
  execute-Move (deposit_collateral a n) e = Refines.deposit_collateral-Move t rt s s' w.ledger a n e
  execute-Move (mint_otoken a n) e = Refines.mint_otoken-Move t rt s s' w.ledger a n e
  execute-Move (settle_vault a) e = Refines.settle_vault-Move t rt s s' w.ledger a e
  execute-Move (redeem a n) e =
      let same = redeem_keeps (Redeem.redeem t rt s w.ledger a n) e in
      keep (ap (λ x. x.vaults) same) (ap (λ x. x.infos) same)
  execute-Move (set_partial_pauser a k) e =
      Refines.set_partial_pauser-Move rt s s' a k (quiet_ok w.ledger _ e)
  execute-Move (set_partially_paused a b) e =
      Refines.set_partially_paused-Move rt s s' a b (quiet_ok w.ledger _ e)
  execute-Move (set_fully_paused a b) e =
      Refines.set_fully_paused-Move rt s s' a b (quiet_ok w.ledger _ e)
  execute-Move (emergency_withdraw_vault a) e =
      Refines.emergency_withdraw_vault-Move t rt s s' w.ledger a e
  execute-Move (create_otoken_info a) e =
      Refines.create_otoken_info-Move t rt s s' w.ledger w.factory w.whitelist a
        (quiet_ok w.ledger _ e)
  execute-Move (set_expiry_price a) e =
      Refines.set_expiry_price-Move rt s s' w.oracle a (quiet_ok w.ledger _ e)

module _ {L : Type 0} (t : TokenProgram L) (rt : Runtime) where
  outcome-Move :
      (now : ℤ) (s : ControllerState) (r : Result (ControllerState × L))
      → ((s' : ControllerState) (l' : L) → r ≡ ok (s', l') → Move (at rt now) s s')
      → Move (at rt now) s (outcome s r)
  outcome-Move now s (ok (s', l')) h = h s' l' refl
  outcome-Move now s (err e) h = keep refl refl

  -- A transaction makes a move, also when it fails.
  pub step-Move : (s : ControllerState) (x : Transaction L) → Move (at rt x.now) s (step t rt s x)
  unfolding step
  step-Move s x =
      outcome-Move x.now s _
        (λ s' l' e. execute-Move t (at rt x.now) x.outside s s' x.instruction e)

  -- What every move keeps holds after any history.
  pub run_keeps {ℓ} :
      (P : ControllerState → Type ℓ)
      → ((now : ℤ) (s s' : ControllerState) → Move (at rt now) s s' → P s → P s')
      → (s : ControllerState) (xs : List (Transaction L)) → P s
      → P (run t rt s xs)
  unfolding run
  run_keeps P keeps s [] h = h
  run_keeps P keeps s (x ∷ xs) h =
      run_keeps P keeps (step t rt s x) xs (keeps x.now s (step t rt s x) (step-Move s x) h)
