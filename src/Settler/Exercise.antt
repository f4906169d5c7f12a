-- ===== src/Settler/Exercise.antt =====
-- When programs/batch_settler/src/lib.rs exercises an option, and how much of the other asset it
-- owes.
use options_protocol_solana.Common.{
  ℕ, ◌-◌, ◌*◌, ◌/◌, ◌^◌, ◌<◌, ◌≤◌, ◌≡◌, subst, ap, sym, ◌∙◌, ten_pow_pos, ◌↔◌, ok, arith, IsU64,
  true, false, Bool, mul-lt_u128, ten_pow-le, ◌≤ℤ◌,
}
use options_protocol_solana.Runtime.{Runtime}
use options_protocol_solana.Controller.State.{OTokenInfo}
use options_protocol_solana.Controller.Collateral.{get_payout, get_required_collateral}
use options_protocol_solana.Settler.Quotes.{validate_itm, compute_contra_amount}

-- An option that passes the settler's test has expired with a price, and the controller pays all
-- the collateral that it required of it.
pub validate_itm-get_payout :
    (rt : Runtime) (info : OTokenInfo) (amount : ℕ)
    → validate_itm rt info ≡ ok tt
    → (info.expiry ≤ℤ rt.now)
      × (0 < info.expiry_price)
      × (get_payout info.strike_price info.expiry_price info.is_put info.collateral_decimals amount
          ≡ get_required_collateral info.strike_price info.is_put info.collateral_decimals amount)
unfolding validate_itm get_payout
validate_itm-get_payout rt info amount e = ground arith

-- The amount owed over unbounded numbers, and the decimals that the code prices.
abbrev pub contra : ℕ → ℕ → Bool → ℕ → ℕ
contra amount strike true decimals = amount * 10 ^ (decimals - 8)
contra amount strike false decimals = amount * strike / 10 ^ (16 - decimals)

abbrev pub IsPriced : Bool → ℕ → Type 0
IsPriced true decimals = (8 ≤ decimals) × (decimals ≤ 18)
IsPriced false decimals = (6 ≤ decimals) × (decimals ≤ 16)

contra_put_ok :
    (amount strike decimals r : ℕ)
    → compute_contra_amount amount strike true decimals ≡ ok r
    → (r ≡ contra amount strike true decimals) × (0 < r) × (r < 2 ^ 64)
unfolding compute_contra_amount
contra_put_ok amount strike decimals r e = ground arith

contra_call_ok :
    (amount strike decimals r : ℕ)
    → compute_contra_amount amount strike false decimals ≡ ok r
    → (r ≡ contra amount strike false decimals) × (0 < r) × (r < 2 ^ 64)
unfolding compute_contra_amount
contra_call_ok amount strike decimals r e = ground arith

contra_put-eq :
    (amount strike decimals : ℕ)
    → IsPriced true decimals
    → 10 ^ (decimals - 8) ≤ 10 ^ 10
    → 0 < contra amount strike true decimals
    → contra amount strike true decimals < 2 ^ 64
    → compute_contra_amount amount strike true decimals ≡ ok (contra amount strike true decimals)
unfolding compute_contra_amount
contra_put-eq amount strike decimals priced le positive fits = ground arith

contra_call-eq :
    (amount strike decimals : ℕ)
    → IsPriced false decimals
    → 10 ^ (16 - decimals) ≤ 10 ^ 10
    → 0 < 10 ^ (16 - decimals)
    → amount * strike < 2 ^ 128
    → 0 < contra amount strike false decimals
    → contra amount strike false decimals < 2 ^ 64
    → compute_contra_amount amount strike false decimals ≡ ok (contra amount strike false decimals)
unfolding compute_contra_amount
contra_call-eq amount strike decimals priced le some_divisor product positive fits = ground arith

-- On u64 arguments and the decimals that the code prices, the amount owed is the exact one rounded
-- down, and it is given exactly when that is positive and a u64.
pub compute_contra_amount_iff :
    (amount strike : ℕ) (is_put : Bool) (decimals r : ℕ)
    → IsU64 amount
    → IsU64 strike
    → IsPriced is_put decimals
    → (compute_contra_amount amount strike is_put decimals ≡ ok r)
      ↔ ((r ≡ contra amount strike is_put decimals) × (0 < r) × (r < 2 ^ 64))
compute_contra_amount_iff amount strike true decimals r ha hs priced = (
  (λ e. contra_put_ok amount strike decimals r e),
  (λ (same, positive, fits).
      contra_put-eq amount strike decimals priced
        (ten_pow-le (decimals - 8) 10 (omega (arith, priced))) (subst (λ n. 0 < n) same positive)
        (subst (λ n. n < 2 ^ 64) same fits)
      ∙ ap ok (sym same)),
)
compute_contra_amount_iff amount strike false decimals r ha hs priced = (
  (λ e. contra_call_ok amount strike decimals r e),
  (λ (same, positive, fits).
      contra_call-eq amount strike decimals priced
        (ten_pow-le (16 - decimals) 10 (omega (arith, priced))) (ten_pow_pos (16 - decimals))
        (mul-lt_u128 amount strike ha hs) (subst (λ n. 0 < n) same positive)
        (subst (λ n. n < 2 ^ 64) same fits)
      ∙ ap ok (sym same)),
)
