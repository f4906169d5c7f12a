-- ===== src/Controller/Collateral/Exact.antt =====
-- What `get_required_collateral` computes, against a specification over unbounded numbers.
use native.Mathlib.Nat.{div-le_self}
use options_protocol_solana.Common.{
  ℕ, ◌-◌, ◌*◌, ◌/◌, ◌^◌, ◌≤◌, ◌<◌, ◌≡◌, refl, Bool, true, false, Result, ok, err, panic, controller,
  math_overflow, leb, ltb, if◌then◌else◌, IsU64, arith, inl, inr, mul-lt_u128, ten_pow-le,
  ten_pow_pos, Bool-cases, leb→le, ap,
}
use options_protocol_solana.Controller.Collateral.{
  required_put, required_call, get_required_collateral, get_payout,
}

-- The collateral behind an amount of oTokens, as a fraction rounded down: amount * scale / unit.
abbrev pub scale : ℕ → Bool → ℕ → ℕ
scale strike true decimals = strike
scale strike false decimals = 10 ^ (decimals - 8)

abbrev pub unit : Bool → ℕ → ℕ
unit true decimals = 10 ^ (16 - decimals)
unit false decimals = 10 ^ (8 - decimals)

unfoldable pub needed : ℕ → Bool → ℕ → ℕ → ℕ
needed strike is_put decimals amount = amount * scale strike is_put decimals / unit is_put decimals

abbrev pub fitted : ℕ → Result ℕ
fitted n = if ltb n (2 ^ 64) then ok n else err (controller math_overflow)

pub required_put-eq :
    (strike decimals amount : ℕ)
    → IsU64 strike
    → IsU64 amount
    → decimals ≤ 16
    → required_put strike decimals amount ≡ fitted (amount * strike / 10 ^ (16 - decimals))
unfolding required_put
required_put-eq strike decimals amount hs ha hd = ground (
  arith,
  mul-lt_u128 amount strike ha hs,
  ten_pow-le (16 - decimals) 16,
  ten_pow_pos (16 - decimals),
)

-- With 17 or more decimals of collateral a put with u64 terms cannot be priced: the exponent 16 -
-- decimals overflows, and the code panics.
pub required_put_panics :
    (strike decimals amount : ℕ)
    → IsU64 strike
    → IsU64 amount
    → 16 < decimals
    → required_put strike decimals amount ≡ err panic
unfolding required_put
required_put_panics strike decimals amount hs ha hd =
    ground (arith, mul-lt_u128 amount strike ha hs)

div_one : (a b : ℕ) → b ≡ 1 → a / b ≡ a
div_one a b h = rw h (omega arith)

mul_one : (a b : ℕ) → b ≡ 1 → a * b ≡ a
mul_one a b h = rw h (omega arith)

ten_pow_zero : (k : ℕ) → k ≡ 0 → 10 ^ k ≡ 1
ten_pow_zero k h = rw h refl

needed_call_up :
    (strike decimals amount : ℕ)
    → 8 ≤ decimals
    → needed strike false decimals amount ≡ amount * 10 ^ (decimals - 8)
unfolding needed
needed_call_up strike decimals amount h =
    div_one (amount * 10 ^ (decimals - 8)) (10 ^ (8 - decimals))
      (ten_pow_zero (8 - decimals) (omega arith))

needed_call_down :
    (strike decimals amount : ℕ)
    → decimals ≤ 8
    → needed strike false decimals amount ≡ amount / 10 ^ (8 - decimals)
unfolding needed
needed_call_down strike decimals amount h =
    ap (λ n. n / 10 ^ (8 - decimals))
      (mul_one amount (10 ^ (decimals - 8)) (ten_pow_zero (decimals - 8) (omega arith)))

pub required_call-eq :
    (strike decimals amount : ℕ)
    → IsU64 amount
    → decimals ≤ 18
    → required_call decimals amount ≡ fitted (needed strike false decimals amount)
unfolding required_call
required_call-eq strike decimals amount ha hd = elim (Bool-cases (leb 8 decimals)) [
  | inl up ↦ ground (
    arith,
    needed_call_up strike decimals amount (leb→le 8 decimals up),
    ten_pow-le (decimals - 8) 10,
  )
  | inr down ↦ ground (
    arith,
    needed_call_down strike decimals amount,
    div-le_self amount (10 ^ (8 - decimals)),
    ten_pow-le (8 - decimals) 8,
    ten_pow_pos (8 - decimals),
  )
]

-- The decimals that the programs can price: 16 for a put, and 18, the limit of
-- `create_otoken_info`, for a call.
abbrev pub max_decimals : Bool → ℕ
max_decimals true = 16
max_decimals false = 18

-- On the supported decimals the required collateral is amount * scale / unit over unbounded
-- numbers, rounded down, and the code fails with MathOverflow exactly when that is no u64.
pub get_required_collateral-eq :
    (strike : ℕ) (is_put : Bool) (decimals amount : ℕ)
    → IsU64 strike
    → IsU64 amount
    → decimals ≤ max_decimals is_put
    → get_required_collateral strike is_put decimals amount
      ≡ fitted (needed strike is_put decimals amount)
unfolding get_required_collateral needed
get_required_collateral-eq strike true decimals amount hs ha hd =
    unfold needed in required_put-eq strike decimals amount hs ha hd
get_required_collateral-eq strike false decimals amount hs ha hd =
    required_call-eq strike decimals amount ha hd

-- Whether the holder of the option is owed anything at the expiry price.
abbrev pub in_the_money : ℕ → ℕ → Bool → Bool
in_the_money strike price true = ltb price strike
in_the_money strike price false = ltb strike price

-- What an amount of oTokens is worth in collateral at the expiry price.
abbrev pub owed : ℕ → ℕ → Bool → ℕ → ℕ → ℕ
owed strike price is_put decimals amount =
    if in_the_money strike price is_put then needed strike is_put decimals amount else 0

-- On the supported decimals the payout is nothing out of the money and the whole required
-- collateral in the money, or MathOverflow when that is no u64.
pub get_payout-eq :
    (strike price : ℕ) (is_put : Bool) (decimals amount : ℕ)
    → IsU64 strike
    → IsU64 amount
    → decimals ≤ max_decimals is_put
    → get_payout strike price is_put decimals amount
      ≡ fitted (owed strike price is_put decimals amount)
unfolding get_payout
get_payout-eq strike price true decimals amount hs ha hd =
    ground (arith, get_required_collateral-eq strike true decimals amount hs ha hd)
get_payout-eq strike price false decimals amount hs ha hd =
    ground (arith, get_required_collateral-eq strike false decimals amount hs ha hd)

pub fitted_ok : (n p : ℕ) → fitted n ≡ ok p → (n ≡ p) × (n < 2 ^ 64)
fitted_ok n p h = ground arith

pub fitted-eq : (n : ℕ) → n < 2 ^ 64 → fitted n ≡ ok n
fitted-eq n h = ground arith

pub unit_pos : (is_put : Bool) (decimals : ℕ) → 0 < unit is_put decimals
unit_pos true decimals = ten_pow_pos (16 - decimals)
unit_pos false decimals = ten_pow_pos (8 - decimals)
