-- ===== src/Oracle/Deviation.antt =====
-- What `validate_price_deviation` of programs/oracle/src/lib.rs accepts.
use native.Mathlib.Nat.{div-lt_iff_lt-mul}
use options_protocol_solana.Common.{ℕ, ◌+◌, ◌*◌, ◌/◌, ◌^◌, ◌<◌, ◌≡◌, ◌↔◌, ok, arith, abs_diff}
use options_protocol_solana.Oracle.Checks.{validate_price_deviation}

-- The test as the code writes it.
accepted :
    (submitted reference threshold : ℕ)
    → 0 < threshold
    → validate_price_deviation submitted reference threshold ≡ ok tt
    → (0 < reference)
      × (abs_diff submitted reference * 10_000 < 2 ^ 64)
      × (abs_diff submitted reference * 10_000 / reference < threshold + 1)
unfolding validate_price_deviation
accepted submitted reference threshold h e = ground arith

accepts :
    (submitted reference threshold : ℕ)
    → 0 < reference
    → abs_diff submitted reference * 10_000 < 2 ^ 64
    → abs_diff submitted reference * 10_000 / reference < threshold + 1
    → validate_price_deviation submitted reference threshold ≡ ok tt
unfolding validate_price_deviation
accepts submitted reference threshold positive fits close = ground arith

-- With a threshold set, the deviation is accepted exactly when the reference is positive and the
-- difference is below threshold + 1 basis points of the reference and fits in the code's product.
pub validate_price_deviation_iff :
    (submitted reference threshold : ℕ)
    → 0 < threshold
    → (validate_price_deviation submitted reference threshold ≡ ok tt) ↔ (
        (0 < reference)
        × (abs_diff submitted reference * 10_000 < 2 ^ 64)
        × (abs_diff submitted reference * 10_000 < (threshold + 1) * reference))
validate_price_deviation_iff submitted reference threshold h = (
  (λ e.
      let (positive, fits, close) = accepted submitted reference threshold h e in
      (positive, fits, (div-lt_iff_lt-mul positive).0 close)),
  (λ (positive, fits, close).
      accepts submitted reference threshold positive fits ((div-lt_iff_lt-mul positive).1 close)),
)
