-- ===== src/Controller/Collateral/Rounding.antt =====
-- How the rounded collateral of programs/controller/src/lib.rs adds up over several redemptions.
use native.Mathlib.Nat.{
  le-div_iff_mul-le, div-lt_iff_lt-mul, lt-div-mul-add, mul-div-le, div-le_self,
}
use options_protocol_solana.Common.{
  ℕ, ◌+◌, ◌*◌, ◌/◌, ◌≤◌, ◌<◌, ◌≡◌, refl, Bool, List, [], ◌∷◌, Result, ok, ◌>>=◌, IsU64, arith,
  length, sum,
}
use options_protocol_solana.Controller.Collateral.{get_payout}
use options_protocol_solana.Controller.Collateral.Exact.{
  needed, scale, unit, unit_pos, max_decimals, owed, fitted_ok, fitted-eq, get_payout-eq,
}

quotient_mono : (x y u : ℕ) → 0 < u → x ≤ y → x / u ≤ y / u
quotient_mono x y u h le = (le-div_iff_mul-le h).1 (omega (arith, mul-div-le x u))

quotients_add :
    (x y u : ℕ) → 0 < u → (x / u + y / u ≤ (x + y) / u) × ((x + y) / u < x / u + y / u + 2)
quotients_add x y u h = (
  (le-div_iff_mul-le h).1 (omega (arith, mul-div-le x u, mul-div-le y u)),
  (div-lt_iff_lt-mul h).1
      (omega (arith, lt-div-mul-add {a = x} {b = u} h, lt-div-mul-add {a = y} {b = u} h)),
)

-- Rounding down loses at most one unit for each split.
pub needed_add :
    (strike : ℕ) (is_put : Bool) (decimals a b : ℕ)
    → (needed strike is_put decimals a + needed strike is_put decimals b
        ≤ needed strike is_put decimals (a + b))
      × (needed strike is_put decimals (a + b)
          ≤ needed strike is_put decimals a + needed strike is_put decimals b + 1)
unfolding needed
needed_add strike is_put decimals a b = grind (
  arith,
  quotients_add (a * scale strike is_put decimals) (b * scale strike is_put decimals)
      (unit is_put decimals) (unit_pos is_put decimals),
)

pub needed_mono :
    (strike : ℕ) (is_put : Bool) (decimals a b : ℕ)
    → a ≤ b
    → needed strike is_put decimals a ≤ needed strike is_put decimals b
unfolding needed
needed_mono strike is_put decimals a b h =
    quotient_mono (a * scale strike is_put decimals) (b * scale strike is_put decimals)
      (unit is_put decimals) (unit_pos is_put decimals) (grind arith)

-- The payouts of several redemptions, one after the other.
unfoldable pub payouts : ℕ → ℕ → Bool → ℕ → List ℕ → Result ℕ
unfolding get_payout
payouts strike price is_put decimals [] = ok 0
payouts strike price is_put decimals (a ∷ rest) = do
  first ← get_payout strike price is_put decimals a
  later ← payouts strike price is_put decimals rest
  ok (first + later)

module _ (strike price : ℕ) (is_put : Bool) (decimals : ℕ) where
  pub owed_add :
      (a b : ℕ)
      → (owed strike price is_put decimals a + owed strike price is_put decimals b
          ≤ owed strike price is_put decimals (a + b))
        × (owed strike price is_put decimals (a + b)
            ≤ owed strike price is_put decimals a + owed strike price is_put decimals b + 1)
  owed_add a b = ground (arith, needed_add strike is_put decimals a b)

  owed_zero : owed strike price is_put decimals 0 ≡ 0
  unfolding needed
  owed_zero = ground (arith, div-le_self (0 * scale strike is_put decimals) (unit is_put decimals))

  module _ (hs : IsU64 strike) (hd : decimals ≤ max_decimals is_put) where
    -- A payout that is paid in two parts.
    payout_parts :
        (a b p : ℕ)
        → IsU64 (a + b)
        → get_payout strike price is_put decimals (a + b) ≡ ok p
        → (first : ℕ) × (second : ℕ) × (get_payout strike price is_put decimals a ≡ ok first)
          × (get_payout strike price is_put decimals b ≡ ok second)
          × (first + second ≤ p)
          × (p ≤ first + second + 1)
    payout_parts a b p hn e =
        let whole =
          fitted_ok (owed strike price is_put decimals (a + b)) p
            (rw (← get_payout-eq strike price is_put decimals (a + b) hs hn hd) e) in
        let parts = owed_add a b in
        (
          owed strike price is_put decimals a,
          owed strike price is_put decimals b,
          rw (get_payout-eq strike price is_put decimals a hs (omega arith) hd)
              (fitted-eq (owed strike price is_put decimals a) (omega arith)),
          rw (get_payout-eq strike price is_put decimals b hs (omega arith) hd)
              (fitted-eq (owed strike price is_put decimals b) (omega arith)),
          omega arith,
          omega arith,
        )

    -- On the supported decimals, paying an amount in pieces pays each of them, and together at
    -- most what paying it at once does and at least that less one unit for each piece.
    pub payouts_bounds :
        (pieces : List ℕ) (p : ℕ)
        → IsU64 (sum pieces)
        → get_payout strike price is_put decimals (sum pieces) ≡ ok p
        → (q : ℕ) × (payouts strike price is_put decimals pieces ≡ ok q)
          × (q ≤ p)
          × (p ≤ q + length pieces)
    unfolding payouts
    payouts_bounds [] p hn e =
        let none_owed =
          fitted_ok (owed strike price is_put decimals 0) p
            (rw (← get_payout-eq strike price is_put decimals 0 hs hn hd) e) in
        (0, refl, omega arith, omega (arith, owed_zero))
    payouts_bounds (a ∷ rest) p hn e =
        let (first, second, pays_first, pays_second, le, ge) = payout_parts a (sum rest) p hn e in
        let (later, pays_later, le_later, ge_later) =
          payouts_bounds rest second (omega arith) pays_second in
        (first + later, rw (pays_first, pays_later) refl, omega arith, omega arith)
