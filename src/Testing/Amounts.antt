-- ===== src/Testing/Amounts.antt =====
-- The theorems on the controller's collateral and payouts at concrete amounts.
use options_protocol_solana.Common.{
  ℕ, ◌≡◌, ◌≤◌, ◌+◌, refl, true, false, [], ◌∷◌, ok, err, panic, arith,
}
use options_protocol_solana.Controller.Collateral.{
  required_put, get_required_collateral, get_payout,
}
use options_protocol_solana.Controller.Collateral.Exact.{
  get_required_collateral-eq, get_payout-eq, required_put_panics, fitted, needed, owed,
}
use options_protocol_solana.Controller.Collateral.Rounding.{payouts, payouts_bounds}

get_required_collateral-eq_example :
    get_required_collateral 20_000_000_000 true 6 100_000_000
    ≡ fitted (needed 20_000_000_000 true 6 100_000_000)
get_required_collateral-eq_example =
    get_required_collateral-eq 20_000_000_000 true 6 100_000_000 (omega arith) (omega arith)
      (omega arith)

get_payout-eq_example :
    get_payout 20_000_000_000 30_000_000_000 false 9 100_000_000
    ≡ fitted (owed 20_000_000_000 30_000_000_000 false 9 100_000_000)
get_payout-eq_example =
    get_payout-eq 20_000_000_000 30_000_000_000 false 9 100_000_000 (omega arith) (omega arith)
      (omega arith)

required_put_panics_example : required_put 20_000_000_000 17 100_000_000 ≡ err panic
required_put_panics_example =
    required_put_panics 20_000_000_000 17 100_000_000 (omega arith) (omega arith) (omega arith)

-- Three calls of 50 oToken units each on 6 decimals are worth 0 one by one, and 1 together.
payouts_bounds_example :
    (q : ℕ) × (payouts 5 6 false 6 (50 ∷ 50 ∷ 50 ∷ []) ≡ ok q) × (q ≤ 1) × (1 ≤ q + 3)
unfolding get_payout
payouts_bounds_example =
    payouts_bounds 5 6 false 6 (omega arith) (omega arith) (50 ∷ 50 ∷ 50 ∷ []) 1 (omega arith) refl
