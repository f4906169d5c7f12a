-- ===== src/Controller/Guards.antt =====
-- When the instructions of programs/controller/src/lib.rs are refused.
use options_protocol_solana.Common.{
  ℕ, ℤ, ◌≡◌, ◌≢◌, refl, ◌⊎◌, inl, inr, some, none, Option, true, false, Pubkey, lookup, Result, ok,
  err, List, arith,
}
use options_protocol_solana.Runtime.{Runtime, TokenProgram}
use options_protocol_solana.Controller.State.{ControllerState, ControllerConfig, Vault}
use options_protocol_solana.Controller.Vaults.{
  OpenVault, DepositCollateral, open_vault, deposit_collateral,
}
use options_protocol_solana.Controller.Mint.{MintOtoken, mint_otoken}
use options_protocol_solana.Controller.Settle.{SettleVault, settle_vault, emergency_withdraw_vault}
use options_protocol_solana.Controller.Redeem.{Redeem, redeem}
use options_protocol_solana.Controller.Machine
use options_protocol_solana.Controller.Machine.{Instruction, Outside, Transaction, execute, run}
use options_protocol_solana.Controller.Lifecycle.{run-Evolves}

-- The config account that an instruction is given, if it tests the pause switches: those that take
-- on new risk test both, those that pay out test the full pause only.
pub data Watch : Type 0 where
  both full neither : Watch

abbrev pub watches : Instruction → Watch × Pubkey
watches (Machine.open_vault a _ _) = (both, a.config)
watches (Machine.deposit_collateral a _) = (both, a.config)
watches (Machine.mint_otoken a _) = (both, a.config)
watches (Machine.settle_vault a) = (full, a.config)
watches (Machine.redeem a _) = (full, a.config)
watches _ = (neither, 0)

abbrev pub Stops : Watch → ControllerConfig → Type 0
Stops both c = (c.fully_paused ≡ true) ⊎ (c.partially_paused ≡ true)
Stops full c = c.fully_paused ≡ true
Stops neither c = ⊥

module _ {L : Type 0} (t : TokenProgram L) (rt : Runtime) (s : ControllerState) where
  open_vault_paused :
      (a : OpenVault) (m b : Pubkey) (c : ControllerConfig) (s' : ControllerState)
      → lookup a.config s.configs ≡ some c
      → Stops both c
      → open_vault rt s a m b ≢ ok s'
  unfolding open_vault
  open_vault_paused a m b c s' found (inl p) e = ground arith
  open_vault_paused a m b c s' found (inr p) e = ground arith

  deposit_paused :
      (l : L) (a : DepositCollateral) (n : ℕ) (c : ControllerConfig) (x : ControllerState × L)
      → lookup a.config s.configs ≡ some c
      → Stops both c
      → deposit_collateral t rt s l a n ≢ ok x
  unfolding deposit_collateral
  deposit_paused l a n c x found (inl p) e = ground arith
  deposit_paused l a n c x found (inr p) e = ground arith

  mint_paused :
      (l : L) (a : MintOtoken) (n : ℕ) (c : ControllerConfig) (x : ControllerState × L)
      → lookup a.config s.configs ≡ some c
      → Stops both c
      → mint_otoken t rt s l a n ≢ ok x
  unfolding mint_otoken
  mint_paused l a n c x found (inl p) e = ground arith
  mint_paused l a n c x found (inr p) e = ground arith

  settle_paused :
      (l : L) (a : SettleVault) (c : ControllerConfig) (x : ControllerState × L)
      → lookup a.config s.configs ≡ some c
      → Stops full c
      → settle_vault t rt s l a ≢ ok x
  unfolding settle_vault
  settle_paused l a c x found p e = ground arith

  redeem_paused :
      (l : L) (a : Redeem) (n : ℕ) (c : ControllerConfig) (x : L)
      → lookup a.config s.configs ≡ some c
      → Stops full c
      → redeem t rt s l a n ≢ ok x
  unfolding redeem
  redeem_paused l a n c x found p e = ground arith

quiet_err :
    {L : Type 0} (l : L) (r : Result ControllerState) (x : ControllerState × L)
    → ((s : ControllerState) → r ≢ ok s)
    → Machine.quiet l r ≢ ok x
quiet_err l (ok s) x never e = never s refl
quiet_err l (err f) x never e = cc

spend_err :
    {L : Type 0} (s : ControllerState) (r : Result L) (x : ControllerState × L)
    → ((l : L) → r ≢ ok l)
    → Machine.spend s r ≢ ok x
spend_err s (ok l) x never e = never l refl
spend_err s (err f) x never e = cc

-- While the switch that an instruction tests is set, the instruction fails: any of the two for
-- opening, depositing and minting, the full pause for settling and redeeming.
pub execute_paused :
    {L : Type 0} (t : TokenProgram L) (rt : Runtime) (w : Outside L) (s : ControllerState)
    (i : Instruction) (c : ControllerConfig) (x : ControllerState × L)
    → lookup (watches i).1 s.configs ≡ some c
    → Stops (watches i).0 c
    → execute t rt w s i ≢ ok x
unfolding execute
execute_paused t rt w s (Machine.open_vault a m b) c x found stops =
    quiet_err w.ledger _ x (λ s' e. open_vault_paused t rt s a m b c s' found stops e)
execute_paused t rt w s (Machine.deposit_collateral a n) c x found stops =
    deposit_paused t rt s w.ledger a n c x found stops
execute_paused t rt w s (Machine.mint_otoken a n) c x found stops =
    mint_paused t rt s w.ledger a n c x found stops
execute_paused t rt w s (Machine.settle_vault a) c x found stops =
    settle_paused t rt s w.ledger a c x found stops
execute_paused t rt w s (Machine.redeem a n) c x found stops =
    spend_err s _ x (λ l e. redeem_paused t rt s w.ledger a n c l found stops e)
execute_paused t rt w s _ c x found stops = absurd stops

-- The vault whose accounts an instruction writes, other than by opening it.
abbrev pub writes : Instruction → Option Pubkey
writes (Machine.deposit_collateral a _) = some a.vault
writes (Machine.mint_otoken a _) = some a.vault
writes (Machine.settle_vault a) = some a.vault
writes (Machine.emergency_withdraw_vault a) = some a.vault
writes _ = none

module _ {L : Type 0} (t : TokenProgram L) (rt : Runtime) (w : Outside L)
    (s : ControllerState) where
  -- An instruction that writes a settled vault fails.
  settled_rejects :
      (i : Instruction) (k : Pubkey) (v : Vault) (x : ControllerState × L)
      → lookup k s.vaults ≡ some v
      → v.settled ≡ true
      → writes i ≡ some k
      → execute t rt w s i ≢ ok x
  unfolding execute deposit_collateral mint_otoken settle_vault emergency_withdraw_vault
  settled_rejects (Machine.deposit_collateral a n) k v x found closed hits e = ground arith
  settled_rejects (Machine.mint_otoken a n) k v x found closed hits e = ground arith
  settled_rejects (Machine.settle_vault a) k v x found closed hits e = ground arith
  settled_rejects (Machine.emergency_withdraw_vault a) k v x found closed hits e = ground arith
  settled_rejects _ k v x found closed hits e = cc

-- A settled vault is settled for good: whatever happens later, no instruction that would deposit
-- into it, mint from it, settle it again or withdraw from it succeeds.
pub run-settled_rejects :
    {L : Type 0} (t : TokenProgram L) (rt : Runtime) (w : Outside L) (now : ℤ) (s : ControllerState)
    (later : List (Transaction L)) (i : Instruction) (k : Pubkey) (v : Vault)
    (x : ControllerState × L)
    → lookup k s.vaults ≡ some v
    → v.settled ≡ true
    → writes i ≡ some k
    → execute t (Machine.at rt now) w (run t rt s later) i ≢ ok x
run-settled_rejects t rt w now s later i k v x found closed hits =
    let (v', there, evolved) = run-Evolves t rt s later k v found in
    settled_rejects t (Machine.at rt now) w (run t rt s later) i k v x
      (rw (← thaw v v' closed evolved.frozen) there) closed hits
  where
    thaw : (v v' : Vault) → v.settled ≡ true → (v.settled ≡ false) ⊎ (v' ≡ v) → v' ≡ v
    thaw v v' closed (inl opened) = cc
    thaw v v' closed (inr same) = same
