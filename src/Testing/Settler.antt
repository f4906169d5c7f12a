-- ===== src/Testing/Settler.antt =====
-- The theorems on the settler at concrete quotes.
use options_protocol_solana.Common.{
  pos, ◌≡◌, ◌↔◌, ◌≤ℤ◌, ◌≤◌, ◌<◌, ◌*◌, ◌+◌, ◌^◌, refl, false, List, [], ◌∷◌, lookup, ok, arith, sum,
}
use options_protocol_solana.Controller.State.{OTokenInfo}
use options_protocol_solana.Controller.Collateral.{get_payout, get_required_collateral}
use options_protocol_solana.Settler.State.{SettlerState, QuoteFill}
use options_protocol_solana.Settler.Quotes.{
  compute_premium_split, validate_itm, compute_contra_amount,
}
use options_protocol_solana.Settler.Premium.{premium_of, fee_of, compute_premium_split_iff}
use options_protocol_solana.Settler.Fills.{fill_all, fill_all_iff}
use options_protocol_solana.Settler.Exercise.{
  validate_itm-get_payout, contra, compute_contra_amount_iff,
}
use options_protocol_solana.Settler.Limits
use options_protocol_solana.Settler.Limits.{AllLimited, run, run-AllLimited}
use options_protocol_solana.Testing.Bank.{clock_at}
use options_protocol_solana.Testing.Scenario.{info_after}

compute_premium_split_iff_example :
    (compute_premium_split 100_000_000 5_000_000 400 ≡ ok (5_000_000, 200_000, 4_800_000)) ↔ (
      (5_000_000 ≡ premium_of 100_000_000 5_000_000)
      × (200_000 ≡ fee_of 5_000_000 400)
      × (200_000 + 4_800_000 ≡ 5_000_000)
      × (4 * 5_000_000 ≤ 5 * 4_800_000)
      × (5_000_000 < 2 ^ 64)
      × (5_000_000 * 400 < 2 ^ 64))
compute_premium_split_iff_example =
    compute_premium_split_iff 100_000_000 5_000_000 400 5_000_000 200_000 4_800_000 (omega arith)
      (omega arith) (omega arith)

split_runs : compute_premium_split 100_000_000 5_000_000 400 ≡ ok (5_000_000, 200_000, 4_800_000)
unfolding compute_premium_split
split_runs = refl

abbrev untouched : QuoteFill
untouched = record { filled_amount = 0; cancelled = false; bump = 255 }

fill_all_iff_example :
    (fill_all untouched 10 (3 ∷ 4 ∷ []) ≡ ok (record untouched { filled_amount = 7 })) ↔ (
      (record untouched { filled_amount = 7 }
        ≡ record untouched { filled_amount = 0 + sum (3 ∷ 4 ∷ []) })
      × (0 + sum (3 ∷ 4 ∷ []) ≤ 10))
fill_all_iff_example =
    fill_all_iff untouched (record untouched { filled_amount = 7 }) 10 (3 ∷ 4 ∷ []) refl
      (omega arith) (omega arith)

abbrev in_the_money_info : OTokenInfo
in_the_money_info = record info_after { expiry_price = 15_000_000_000 }

itm_runs : validate_itm (clock_at (pos 5000)) in_the_money_info ≡ ok tt
unfolding validate_itm clock_at
itm_runs = refl

validate_itm-get_payout_example :
    (in_the_money_info.expiry ≤ℤ pos 5000)
    × (0 < 15_000_000_000)
    × (get_payout in_the_money_info.strike_price 15_000_000_000 in_the_money_info.is_put
          in_the_money_info.collateral_decimals 100_000_000
        ≡ get_required_collateral in_the_money_info.strike_price in_the_money_info.is_put
            in_the_money_info.collateral_decimals 100_000_000)
unfolding clock_at
validate_itm-get_payout_example =
    validate_itm-get_payout (clock_at (pos 5000)) in_the_money_info 100_000_000 itm_runs

compute_contra_amount_iff_example :
    (compute_contra_amount 100_000_000 20_000_000_000 false 6 ≡ ok 200_000_000) ↔ (
      (200_000_000 ≡ contra 100_000_000 20_000_000_000 false 6)
      × (0 < 200_000_000)
      × (200_000_000 < 2 ^ 64))
compute_contra_amount_iff_example =
    compute_contra_amount_iff 100_000_000 20_000_000_000 false 6 200_000_000 (omega arith)
      (omega arith) (omega arith, omega arith)

abbrev nothing : SettlerState
nothing = record { configs = []; makers = []; fills = []; balances = []; vault_mms = [] }

nothing-AllLimited : AllLimited nothing
unfolding lookup
nothing-AllLimited k c found = absurd cc

-- The address of the settler's config under the tests' derivation.
abbrev setting_up : List Limits.Instruction
setting_up =
    Limits.initialize (record { settler_config = 111; payer = 11 })
      (record {
        operator = 12;
        treasury = 13;
        protocol_fee_bps = 400;
        escape_delay = pos 259_200;
        jupiter_program = 14;
      })
    ∷ Limits.set_protocol_fee (record { settler_config = 111; owner = 11 }) 2001
    ∷ Limits.set_protocol_fee (record { settler_config = 111; owner = 11 }) 2000
    ∷ []

run-AllLimited_example : AllLimited (run (clock_at (pos 0)) nothing setting_up)
run-AllLimited_example = run-AllLimited (clock_at (pos 0)) nothing setting_up nothing-AllLimited
