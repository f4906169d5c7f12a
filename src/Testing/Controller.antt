-- ===== src/Testing/Controller.antt =====
-- The theorems on the controller at the history of `Scenario`.
use options_protocol_solana.Common.{
  ℕ, pos, ◌≡◌, ◌≢◌, ◌≤◌, ◌-◌, ◌+◌, refl, subst, true, false, [], ◌∷◌, ◌++◌, some, lookup, insert,
  ok, arith,
}
use options_protocol_solana.Runtime.{TokenAccount}
use options_protocol_solana.Controller.State.{ControllerState, Vault, OTokenInfo}
use options_protocol_solana.Controller.Collateral.{get_payout}
use options_protocol_solana.Controller.Vaults.{deposit_collateral}
use options_protocol_solana.Controller.Settle.{settle_vault, emergency_withdraw_vault}
use options_protocol_solana.Controller.Redeem.{redeem}
use options_protocol_solana.Controller.Machine
use options_protocol_solana.Controller.Machine.{execute, run, empty_state}
use options_protocol_solana.Controller.Backing.{AllBacked, run-AllBacked}
use options_protocol_solana.Controller.Lifecycle.{Evolves, run-Evolves}
use options_protocol_solana.Controller.Series.Frozen.{Keeps, run-Keeps}
use options_protocol_solana.Controller.Settlement.{settle_vault-eq, closed}
use options_protocol_solana.Controller.Settlement.Money.{
  Debited, settle_vault-Debited, emergency_withdraw_vault-Debited, deposit_collateral-credits,
  redeem-Debited,
}
use options_protocol_solana.Controller.Guards.{execute_paused, run-settled_rejects}
use options_protocol_solana.Testing.Bank.{Ledger, bank}
use options_protocol_solana.Testing.BankLaws.{bank-TransferLaws}
use options_protocol_solana.Testing.World.{
  deposits, settles, withdraws, redeems, outside_of, ledger_of, vault_key, info_key, pool_usdc,
  user, config_key, otoken_mint, user_otokens,
}
use options_protocol_solana.Testing.Scenario.{
  clock, history, expiring, run_on_bank, written_state, expired_state, history_expires, vault_after,
  config_after, info_after, written,
}

run-AllBacked_example : AllBacked clock (run bank clock empty_state history)
run-AllBacked_example = run-AllBacked bank clock history

expired-AllBacked : AllBacked clock expired_state
expired-AllBacked =
    subst (AllBacked clock) history_expires (run-AllBacked bank clock (history ++ expiring))

abbrev priced_info : OTokenInfo
priced_info = record info_after { expiry_price = 15_000_000_000 }

settle_vault-eq_example :
    (payout : ℕ) × (get_payout 20_000_000_000 15_000_000_000 true 6 100_000_000 ≡ ok payout)
    × (payout ≤ 500_000_000)
    × (settle_vault bank clock expired_state written settles
        ≡ closed bank clock expired_state written settles vault_after 6 (500_000_000 - payout))
unfolding run_on_bank
settle_vault-eq_example =
    settle_vault-eq bank clock expired_state written settles config_after vault_after priced_info 6
      expired-AllBacked refl refl refl (omega arith) (omega arith) (omega arith)

abbrev closed_state : ControllerState
closed_state = record expired_state {
  vaults = (vault_key, record vault_after { settled = true }) ∷ [];
}

-- 300 USDC go back to the user, and the payout of 200 stays.
abbrev returned : Ledger
returned = ledger_of 300_000_000 200_000_000 100_000_000

settle_runs : settle_vault bank clock expired_state written settles ≡ ok (closed_state, returned)
unfolding run_on_bank
settle_runs = refl

settle_vault-Debited_example :
    (v : Vault) × (info : OTokenInfo) × (payout : ℕ) × (lookup vault_key expired_state.vaults
      ≡ some v)
    × (lookup info_key expired_state.infos ≡ some info)
    × (get_payout info.strike_price info.expiry_price info.is_put info.collateral_decimals
          v.short_amount
        ≡ ok payout)
    × (payout ≤ v.collateral_amount)
    × Debited bank written returned pool_usdc (v.collateral_amount - payout)
settle_vault-Debited_example =
    settle_vault-Debited bank clock expired_state closed_state written returned bank-TransferLaws
      settles (omega arith) settle_runs

run-settled_rejects_example :
    execute bank
      (Machine.at clock (pos 2000))
      (outside_of returned)
      (run bank clock closed_state expiring)
      (Machine.settle_vault settles)
    ≢ ok (closed_state, returned)
unfolding run_on_bank
run-settled_rejects_example =
    run-settled_rejects bank clock (outside_of returned) (pos 2000) closed_state expiring
      (Machine.settle_vault settles) vault_key (record vault_after { settled = true })
      (closed_state, returned) refl refl refl

run-Evolves_example :
    (v' : Vault) × (lookup vault_key (run bank clock written_state expiring).vaults ≡ some v')
    × Evolves vault_after v'
unfolding lookup
run-Evolves_example = run-Evolves bank clock written_state expiring vault_key vault_after refl

run-Keeps_example : Keeps info_key info_after (run bank clock written_state expiring)
unfolding lookup
run-Keeps_example = run-Keeps bank clock written_state expiring info_key info_after refl

abbrev paused_state : ControllerState
paused_state = record written_state {
  configs = (config_key, record config_after { fully_paused = true }) ∷ [];
}

execute_paused_example :
    execute bank clock (outside_of returned) paused_state (Machine.redeem redeems 5)
    ≢ ok (paused_state, returned)
unfolding lookup
execute_paused_example =
    execute_paused bank clock (outside_of returned) paused_state (Machine.redeem redeems 5)
      (record config_after { fully_paused = true }) (paused_state, returned) refl refl

-- The user withdraws in an emergency, and keeps the oTokens.
emergency_runs :
    emergency_withdraw_vault bank clock paused_state written withdraws
    ≡ ok (
      record paused_state { vaults = (vault_key, record vault_after { settled = true }) ∷ [] },
      ledger_of 500_000_000 0 100_000_000,
    )
unfolding run_on_bank
emergency_runs = refl

emergency_withdraw_vault-Debited_example :
    (v : Vault) × (lookup vault_key paused_state.vaults ≡ some v)
    × (v.settled ≡ false)
    × ((vault_key, record vault_after { settled = true }) ∷ []
        ≡ insert vault_key (record v { settled = true }) paused_state.vaults)
    × Debited bank written (ledger_of 500_000_000 0 100_000_000) pool_usdc v.collateral_amount
emergency_withdraw_vault-Debited_example =
    emergency_withdraw_vault-Debited bank clock paused_state
      (record paused_state { vaults = (vault_key, record vault_after { settled = true }) ∷ [] })
      written (ledger_of 500_000_000 0 100_000_000) bank-TransferLaws withdraws (omega arith)
      emergency_runs

abbrev topped_up : ControllerState
topped_up = record written_state {
  vaults = (vault_key, record vault_after { collateral_amount = 500_000_007 }) ∷ [];
}

deposit_runs :
    deposit_collateral bank clock written_state (ledger_of 10 500_000_000 0) deposits 7
    ≡ ok (topped_up, ledger_of 3 500_000_007 0)
unfolding run_on_bank
deposit_runs = refl

deposit_collateral-credits_example :
    (v : Vault) × (before : TokenAccount) × (after : TokenAccount) × (lookup vault_key
        written_state.vaults
      ≡ some v)
    × (bank.account (ledger_of 10 500_000_000 0) pool_usdc ≡ some before)
    × (bank.account (ledger_of 3 500_000_007 0) pool_usdc ≡ some after)
    × (after.amount ≡ before.amount + 7)
    × (topped_up.vaults
        ≡ insert vault_key
            (record v { collateral_amount = v.collateral_amount + 7 })
            written_state.vaults)
deposit_collateral-credits_example =
    deposit_collateral-credits bank clock written_state topped_up (ledger_of 10 500_000_000 0)
      (ledger_of 3 500_000_007 0) deposits 7 deposit_runs

redeem_runs :
    redeem bank clock expired_state written redeems 50_000_000
    ≡ ok (ledger_of 100_000_000 400_000_000 50_000_000)
unfolding run_on_bank
redeem_runs = refl

redeem-Debited_example :
    (info : OTokenInfo) × (payout : ℕ) × (d : ℕ) × (burnt : Ledger) × (lookup info_key
        expired_state.infos
      ≡ some info)
    × (get_payout info.strike_price info.expiry_price info.is_put info.collateral_decimals
          50_000_000
        ≡ ok payout)
    × (bank.burn_checked written
          (record { mint = otoken_mint; from = user_otokens; authority = user })
          50_000_000
          d
        ≡ some burnt)
    × Debited bank burnt (ledger_of 100_000_000 400_000_000 50_000_000) pool_usdc payout
redeem-Debited_example =
    redeem-Debited bank clock expired_state expired_state written
      (ledger_of 100_000_000 400_000_000 50_000_000) bank-TransferLaws redeems 50_000_000
      (omega arith) redeem_runs
