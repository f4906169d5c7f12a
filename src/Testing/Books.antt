-- ===== src/Testing/Books.antt =====
-- The theorems on the settler's books at a history with one order, at an emergency, and at a deposit
-- into the pool.
use options_protocol_solana.Common.{
  ℕ, ℤ, pos, true, false, [], ◌∷◌, List, lookup, insert, ◌≡◌, refl, ok, default,
}
use options_protocol_solana.Controller.State.{ControllerState}
use options_protocol_solana.Controller.Collateral.{get_required_collateral}
use options_protocol_solana.Settler.Limits
use options_protocol_solana.Settler.World.{World}
use options_protocol_solana.Settler.Admin.{initialize, whitelist_maker}
use options_protocol_solana.Settler.Order.Execute.{execute_order}
use options_protocol_solana.Settler.Order.Credits.{balance_at}
use options_protocol_solana.Settler.Custody.Emergency.{EmergencyWithdrawOrder, emergency_withdraw}
use options_protocol_solana.Settler.Custody.Closed.{IsClosed, emergency_withdraw-IsClosed}
use options_protocol_solana.Settler.Machine
use options_protocol_solana.Settler.Machine.{Instruction, Transaction, run, empty_state}
use options_protocol_solana.Settler.Machine.Ledger.{Posts}
use options_protocol_solana.Settler.Machine.Counted.{AllTracked}
use options_protocol_solana.Settler.Machine.Tracked.{run-AllTracked}
use options_protocol_solana.Settler.Machine.Book.{entries_of, run-Posts}
use options_protocol_solana.Pool.State.{PoolState}
use options_protocol_solana.Pool.Transfers.{TransferToPool}
use options_protocol_solana.Testing.Bank.{
  Ledger, bank, clock_at, move_tokens, remove_tokens, add_tokens,
}
use options_protocol_solana.Testing.Paired.{paired_at, paired-DerivationLaws}
use options_protocol_solana.Testing.World.{
  admin, user, usdc, otoken_mint, config_key, authority_key, user_usdc, pool_usdc,
}
use options_protocol_solana.Testing.Desk.{
  system, signatures, before, orders, order, desk_key, maker, treasury, operator, desk_vault,
  maker_key, balance_key, vault_mm_key, custody_after, controller_after, order_vault, desk_ledger,
}

-- The maker's balance under the paired derivation.
abbrev paired_key : ℕ
paired_key = 1238

abbrev transaction : ℤ → Instruction Ledger → Transaction Ledger
transaction now i = record {
  now = now;
  controller = before.controller;
  ledger = before.ledger;
  instruction = i;
}

abbrev opening : List (Transaction Ledger)
opening =
    transaction (pos 1) (
      Machine.configure (
        Limits.initialize (record { settler_config = desk_key; payer = admin })
          (record {
            operator = operator;
            treasury = treasury;
            protocol_fee_bps = 400;
            escape_delay = pos 259_200;
            jupiter_program = 16;
          })))
    ∷ transaction (pos 2) (
        Machine.whitelist_maker
          (record { settler_config = desk_key; maker_state = maker_key; owner = admin }) maker true)
    ∷ transaction (pos 500) (
        Machine.execute_order signatures (record orders { maker_otoken_balance = paired_key })
          order)
    ∷ []

opening_runs :
    balance_at (run bank system (paired_at (pos 0)) empty_state opening) paired_key ≡ 100_000_000
unfolding balance_at run Machine.step Machine.execute bank system paired_at signatures lookup insert
    move_tokens add_tokens get_required_collateral clock_at execute_order whitelist_maker
    Limits.execute initialize
opening_runs = refl

run-AllTracked_example :
    AllTracked (paired_at (pos 0)) (run bank system (paired_at (pos 0)) empty_state opening)
run-AllTracked_example =
    run-AllTracked bank system (paired_at (pos 0)) (paired-DerivationLaws (pos 0)) opening

run-Posts_example :
    Posts
      (entries_of bank system (paired_at (pos 0)) empty_state opening)
      (balance_at empty_state)
      (balance_at (run bank system (paired_at (pos 0)) empty_state opening))
run-Posts_example = run-Posts bank system (paired_at (pos 0)) empty_state opening

abbrev halted : ControllerState
halted = record controller_after {
  configs =
      (
        config_key,
        record {
          admin = admin;
          partial_pauser = default;
          partially_paused = false;
          fully_paused = true;
          bump = 255;
        },
      )
      ∷ [];
}

abbrev emergency : World Ledger
emergency = record {
  settler = custody_after 100_000_000 100_000_000;
  controller = halted;
  ledger = desk_ledger 0 200_000_000 100_000_000 0 0;
}

abbrev closes : EmergencyWithdrawOrder
closes = record {
  settler_config = desk_key;
  beneficiary = user;
  controller_config = config_key;
  vault = desk_vault;
  pool_token_account = pool_usdc;
  collateral_mint_account = usdc;
  beneficiary_token_account = user_usdc;
  pool_vault_authority = authority_key;
  maker = maker;
  otoken_mint = otoken_mint;
  settler_otoken_account = 41;
  maker_otoken_balance = balance_key;
  vault_mm = vault_mm_key;
}

abbrev closed : World Ledger
closed = record {
  settler = custody_after 0 0;
  controller = record halted { vaults = (desk_vault, record order_vault { settled = true }) ∷ [] };
  ledger = desk_ledger 200_000_000 0 0 0 0;
}

closing_runs : emergency_withdraw bank (clock_at (pos 600)) emergency closes ≡ ok closed
unfolding emergency_withdraw bank clock_at lookup insert move_tokens remove_tokens
closing_runs = refl

emergency_withdraw-IsClosed_example : IsClosed bank (clock_at (pos 600)) emergency closed closes
emergency_withdraw-IsClosed_example =
    emergency_withdraw-IsClosed bank (clock_at (pos 600)) emergency closed closes closing_runs

abbrev pool_of : ℕ → PoolState
pool_of total = record {
  configs =
      (
        115,
        record { admin = admin; controller = 17; operator = 18; yield_recipient = 19; bump = 255 },
      )
      ∷ [];
  pool_vaults =
      (
        11456,
        record {
          collateral_mint = usdc;
          token_account = pool_usdc;
          total_deposited = total;
          bump = 255;
          vault_authority_bump = 255;
        },
      )
      ∷ [];
}

abbrev pays_in : TransferToPool
pays_in = record {
  config = 115;
  pool_vault = 11456;
  user_token_account = user_usdc;
  collateral_mint = usdc;
  vault_token_account = pool_usdc;
  user_authority = user;
}
