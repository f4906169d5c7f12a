-- ===== src/Oracle/Normalize.antt =====
-- What `normalize_to_8_decimals` of programs/oracle/src/lib.rs computes.
use native.Mathlib.Nat.{le-div_iff_mul-le, div-le_self, le-mul_of_pos_right}
use options_protocol_solana.Common.{
  ℕ, ℤ, zero, suc, pos, negsuc, pos_part, neg_part, ◌+◌, ◌*◌, ◌/◌, ◌^◌, ◌<◌, ◌≤◌, ◌≡◌, refl, sym,
  ap, ◌∙◌, ◌↔◌, true, ◌-ℤ◌, ok, arith, fits_signed, ten_pow_pos,
}
use options_protocol_solana.Oracle.Checks.{rescale, normalize_to_8_decimals}

-- The value of a scaled price over unbounded numbers.
abbrev pub scaled : ℕ → ℤ → ℕ
scaled p d = p * 10 ^ pos_part d / 10 ^ neg_part d

abbrev IsPrice : ℕ → ℕ → Type 0
IsPrice q r = (r ≡ q) × (0 < q) × (q < 2 ^ 64)

over_one : (a b : ℕ) → b ≡ 1 → a / b ≡ a
over_one a b h = rw h (omega arith)

up_ok :
    (p diff r : ℕ)
    → 0 < diff
    → rescale p (pos diff) ≡ ok r
    → (r ≡ p * 10 ^ diff) × (p * 10 ^ diff < 2 ^ 64)
unfolding rescale
up_ok p diff r h e = ground arith

up_eq :
    (p diff : ℕ)
    → 0 < diff
    → 10 ^ diff ≤ p * 10 ^ diff
    → p * 10 ^ diff < 2 ^ 64
    → rescale p (pos diff) ≡ ok (p * 10 ^ diff)
unfolding rescale
up_eq p diff h le lt = ground arith

down_ok :
    (p n r : ℕ) → rescale p (negsuc n) ≡ ok r → (r ≡ p / 10 ^ (n + 1)) × (0 < p / 10 ^ (n + 1))
unfolding rescale
down_ok p n r e = ground arith

down_eq :
    (p n : ℕ)
    → 10 ^ (n + 1) < 2 ^ 64
    → 0 < p / 10 ^ (n + 1)
    → rescale p (negsuc n) ≡ ok (p / 10 ^ (n + 1))
unfolding rescale
down_eq p n lt h = ground arith

rescale_iff :
    (p : ℕ) (d : ℤ) (r : ℕ) → 0 < p → p < 2 ^ 63 → (rescale p d ≡ ok r) ↔ IsPrice (scaled p d) r
rescale_iff p (pos zero) r h lt =
    (λ e. unfold rescale in ground arith, λ q. unfold rescale in ground arith)
rescale_iff p (pos (suc n)) r h lt = (
  (λ e.
      let (same, small) = up_ok p (suc n) r (omega arith) e in
      rw (over_one (p * 10 ^ suc n) 1 refl)
        (same, omega (arith, grows, ten_pow_pos (suc n)), small)),
  (λ (same, positive, small).
      let whole = over_one (p * 10 ^ suc n) 1 refl in
      up_eq p (suc n) (omega arith) grows (omega arith) ∙ ap ok (sym (same ∙ whole))),
)
  where
    grows : 10 ^ suc n ≤ p * 10 ^ suc n
    grows = omega (arith, le-mul_of_pos_right (10 ^ suc n) h)
rescale_iff p (negsuc n) r h lt = (
  (λ e.
      let (same, positive) = down_ok p n r e in
      rw one_more (same, positive, omega (arith, div-le_self p (10 ^ (n + 1))))),
  (λ (same, positive, _).
      let positive' : 0 < p / 10 ^ (n + 1) = rw (← one_more) positive in
      down_eq p n (omega (arith, (le-div_iff_mul-le {y = p} (ten_pow_pos (n + 1))).0 positive'))
        positive'
      ∙ ap ok (sym (same ∙ one_more))),
)
  where
    suc_eq : (k : ℕ) → suc k ≡ k + 1
    suc_eq k = omega arith

    one_more : p * 1 / 10 ^ suc n ≡ p / 10 ^ (n + 1)
    one_more = ap (λ a. a / 10 ^ suc n) (omega arith) ∙ ap (λ k. p / 10 ^ k) (suc_eq n)

-- For a positive i64 price, and an exponent whose difference to -8 is an i32, the result is the
-- price in 8 decimals rounded down, and there is one exactly when that is positive and a u64.
pub normalize_to_8_decimals_iff :
    (p : ℕ) (exponent : ℤ) (r : ℕ)
    → 0 < p
    → p < 2 ^ 63
    → fits_signed (2 ^ 31) (exponent -ℤ negsuc 7) ≡ true
    → (normalize_to_8_decimals (pos p) exponent ≡ ok r) ↔ (
        (r ≡ scaled p (exponent -ℤ negsuc 7))
        × (0 < scaled p (exponent -ℤ negsuc 7))
        × (scaled p (exponent -ℤ negsuc 7) < 2 ^ 64))
unfolding normalize_to_8_decimals
normalize_to_8_decimals_iff p exponent r h lt fits =
    ground (arith, rescale_iff p (exponent -ℤ negsuc 7) r h lt)
