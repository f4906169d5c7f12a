-- ===== src/Testing/Scenario.antt =====
-- A small history of the controller on the concrete token program: a user opens a vault, deposits
-- 500 USDC, and writes one put at a strike of 200; at expiry the price is 150.
use options_protocol_solana.Common.{
  ℤ, pos, ◌≡◌, refl, true, false, List, [], ◌∷◌, ◌++◌, lookup, insert, default,
}
use options_protocol_solana.Runtime.{Runtime}
use options_protocol_solana.Controller.State.{ControllerState, ControllerConfig, Vault, OTokenInfo}
use options_protocol_solana.Controller.Collateral.{get_required_collateral, get_payout}
use options_protocol_solana.Controller.Admin
use options_protocol_solana.Controller.Vaults
use options_protocol_solana.Controller.Vaults.{DepositCollateral, OpenVault}
use options_protocol_solana.Controller.Mint
use options_protocol_solana.Controller.Mint.{MintOtoken}
use options_protocol_solana.Controller.Settle
use options_protocol_solana.Controller.Settle.{SettleVault, EmergencyWithdrawVault}
use options_protocol_solana.Controller.Redeem
use options_protocol_solana.Controller.Redeem.{Redeem}
use options_protocol_solana.Controller.Series
use options_protocol_solana.Controller.Series.{CreateOTokenInfo, SetExpiryPrice}
use options_protocol_solana.Controller.Machine
use options_protocol_solana.Controller.Machine.{
  Instruction, Outside, Transaction, execute, step, run, empty_state,
}
use options_protocol_solana.Testing.Bank.{
  Ledger, bank, clock_at, move_tokens, add_tokens, remove_tokens,
}
use options_protocol_solana.Testing.World.{
  admin, user, usdc, otoken_mint, sol, config_key, counter_key, vault_key, info_key, ledger_of,
  outside_of, opens, deposits, mints, lists, prices,
}

abbrev pub transaction : ℤ → Ledger → Instruction → Transaction Ledger
transaction now l i = record { now = now; outside = outside_of l; instruction = i }

abbrev pub rich : Ledger
rich = ledger_of 500_000_000 0 0

abbrev pub deposited : Ledger
deposited = ledger_of 0 500_000_000 0

abbrev pub written : Ledger
written = ledger_of 0 500_000_000 100_000_000

abbrev pub history : List (Transaction Ledger)
history =
    transaction (pos 1) rich
      (Machine.initialize (record { config = config_key; payer = admin }) admin)
    ∷ transaction (pos 2) rich
        (Machine.initialize_counter (record { vault_counter = counter_key; owner = user }))
    ∷ transaction (pos 3) rich (Machine.open_vault opens usdc user)
    ∷ transaction (pos 4) rich (Machine.create_otoken_info lists)
    ∷ transaction (pos 5) rich (Machine.deposit_collateral deposits 500_000_000)
    ∷ transaction (pos 6) deposited (Machine.mint_otoken mints 100_000_000)
    ∷ []

abbrev pub expiring : List (Transaction Ledger)
expiring = transaction (pos 1000) written (Machine.set_expiry_price prices) ∷ []

unfoldable pub clock : Runtime
unfolding clock_at
clock = clock_at (pos 1000)

-- Everything that a run computes through.
unfoldable pub run_on_bank : ControllerState → List (Transaction Ledger) → ControllerState
unfolding run step execute Admin.initialize Admin.set_fully_paused Vaults.initialize_counter
    Vaults.open_vault Vaults.deposit_collateral Mint.mint_otoken Settle.settle_vault
    Settle.emergency_withdraw_vault Redeem.redeem Series.create_otoken_info Series.set_expiry_price
    get_required_collateral get_payout lookup insert bank move_tokens add_tokens remove_tokens clock
run_on_bank s xs = run bank clock s xs

abbrev pub vault_after : Vault
vault_after = record {
  owner = user;
  vault_id = 0;
  collateral_mint = usdc;
  collateral_amount = 500_000_000;
  otoken_mint = otoken_mint;
  short_amount = 100_000_000;
  settled = false;
  beneficiary = user;
  bump = 255;
}

abbrev pub config_after : ControllerConfig
config_after = record {
  admin = admin;
  partial_pauser = default;
  partially_paused = false;
  fully_paused = false;
  bump = 255;
}

abbrev pub info_after : OTokenInfo
info_after = record {
  otoken_mint = otoken_mint;
  underlying = sol;
  strike_asset = usdc;
  collateral_mint = usdc;
  strike_price = 20_000_000_000;
  expiry = pos 1000;
  is_put = true;
  collateral_decimals = 6;
  expiry_price = 0;
}

abbrev pub written_state : ControllerState
written_state = record {
  configs = (config_key, config_after) ∷ [];
  counters = (counter_key, record { owner = user; next_id = 1; bump = 255 }) ∷ [];
  vaults = (vault_key, vault_after) ∷ [];
  infos = (info_key, info_after) ∷ [];
}

abbrev pub expired_state : ControllerState
expired_state = record written_state {
  infos = (info_key, record info_after { expiry_price = 15_000_000_000 }) ∷ [];
}

pub history_writes : run bank clock empty_state history ≡ written_state
unfolding run_on_bank
history_writes = refl

pub history_expires : run bank clock empty_state (history ++ expiring) ≡ expired_state
unfolding run_on_bank
history_expires = refl
