-- ===== src/Settler/Premium.antt =====
-- How programs/batch_settler/src/lib.rs splits a premium.
use native.Mathlib.Nat.{mul-le-mul_left}
use options_protocol_solana.Common.{
  ℕ, ◌+◌, ◌-◌, ◌*◌, ◌/◌, ◌^◌, ◌<◌, ◌≤◌, ◌≡◌, ◌↔◌, ◌∙◌, sym, ap, ok, arith, IsU64, mul-lt_u128,
}
use options_protocol_solana.Settler.State.{max_fee_bps}
use options_protocol_solana.Settler.Quotes.{compute_premium_split}

abbrev pub premium_of : ℕ → ℕ → ℕ
premium_of amount bid_price = amount * bid_price / 100_000_000

abbrev pub fee_of : ℕ → ℕ → ℕ
fee_of premium fee_bps = premium * fee_bps / 10_000

split_ok :
    (amount bid_price fee_bps premium fee net : ℕ)
    → compute_premium_split amount bid_price fee_bps ≡ ok (premium, fee, net)
    → (premium ≡ premium_of amount bid_price)
      × (premium * fee_bps < 2 ^ 64)
      × (fee ≡ fee_of premium fee_bps)
      × (premium < 2 ^ 64)
      × (fee + net ≡ premium)
unfolding compute_premium_split
split_ok amount bid_price fee_bps premium fee net e = ground arith

split-eq :
    (amount bid_price fee_bps : ℕ)
    → amount * bid_price < 2 ^ 128
    → premium_of amount bid_price < 2 ^ 64
    → premium_of amount bid_price * fee_bps < 2 ^ 64
    → fee_of (premium_of amount bid_price) fee_bps ≤ premium_of amount bid_price
    → compute_premium_split amount bid_price fee_bps
      ≡ ok (
        premium_of amount bid_price,
        fee_of (premium_of amount bid_price) fee_bps,
        premium_of amount bid_price - fee_of (premium_of amount bid_price) fee_bps,
      )
unfolding compute_premium_split
split-eq amount bid_price fee_bps wide premium_fits scaled_fits le = ground arith

-- An admitted fee rate takes at most a fifth.
pub fee_of-fifth :
    (premium fee_bps : ℕ) → fee_bps ≤ max_fee_bps → 5 * fee_of premium fee_bps ≤ premium
fee_of-fifth premium fee_bps h = omega (arith, mul-le-mul_left premium h)

triple :
    {a a' b b' c c' : ℕ} → a ≡ a' → b ≡ b' → c ≡ c' → ◌≡◌ {A = ℕ × ℕ × ℕ} (a, b, c) (a', b', c')
triple ea eb ec = cc

-- On u64 arguments and an admitted fee rate the split gives the premium and the fee rounded down
-- from the exact ones, and the rest as the net premium, which is at least four fifths; and it gives
-- them exactly when the premium, and the premium times the rate, are u64.
pub compute_premium_split_iff :
    (amount bid_price fee_bps premium fee net : ℕ)
    → IsU64 amount
    → IsU64 bid_price
    → fee_bps ≤ max_fee_bps
    → (compute_premium_split amount bid_price fee_bps ≡ ok (premium, fee, net)) ↔ (
        (premium ≡ premium_of amount bid_price)
        × (fee ≡ fee_of premium fee_bps)
        × (fee + net ≡ premium)
        × (4 * premium ≤ 5 * net)
        × (premium < 2 ^ 64)
        × (premium * fee_bps < 2 ^ 64))
compute_premium_split_iff amount bid_price fee_bps premium fee net ha hb h = (
  (λ e.
      let (p, small, f, word, whole) = split_ok amount bid_price fee_bps premium fee net e in
      (p, f, whole, omega (arith, fee_of-fifth premium fee_bps h), word, small)),
  (λ (p, f, whole, _, word, small).
      split-eq amount bid_price fee_bps (mul-lt_u128 amount bid_price ha hb) (rw (← p) word)
        (rw (← p) small) (omega (arith, fee_of-fifth (premium_of amount bid_price) fee_bps h))
      ∙ ap ok (triple (sym p) (rw (← p) (sym f)) (rest p f whole))),
)
  where
    rest :
        premium ≡ premium_of amount bid_price
        → fee ≡ fee_of premium fee_bps
        → fee + net ≡ premium
        → premium_of amount bid_price - fee_of (premium_of amount bid_price) fee_bps ≡ net
    rest p f whole = rw (← p, ← f) (omega arith)
