-- ===== src/Testing/Oracle.antt =====
-- The theorems on the oracle at a concrete feed.
use options_protocol_solana.Common.{
  ℕ, ℤ, pos, negsuc, ◌≡◌, ◌↔◌, ◌≤ℤ◌, ◌<◌, ◌*◌, ◌+◌, ◌-ℤ◌, ◌^◌, refl, true, List, [], ◌∷◌, ◌++◌,
  some, none, Pubkey, lookup, insert, ok, arith, abs_diff, fits_signed,
}
use options_protocol_solana.Runtime.{load, init_at, vacant}
use options_protocol_solana.Oracle.State.{OracleState, OracleConfig, PriceFeed, ExpiryPrice}
use options_protocol_solana.Oracle.Pyth.{AccountInfo, price_update_v2_discriminator}
use options_protocol_solana.Oracle.Checks.{validate_price_deviation, normalize_to_8_decimals}
use options_protocol_solana.Oracle.Deviation.{validate_price_deviation_iff}
use options_protocol_solana.Oracle.Normalize.{scaled, normalize_to_8_decimals_iff}
use options_protocol_solana.Oracle.Prices.{SetExpiryPrice, live_price, set_expiry_price}
use options_protocol_solana.Oracle.Finality.{set_expiry_price-close, run-expiry_price}
use options_protocol_solana.Oracle.Machine
use options_protocol_solana.Oracle.Machine.{Instruction, run}
use options_protocol_solana.Testing.Bank.{clock_at}
use options_protocol_solana.Testing.World.{admin, sol}

abbrev config_key : Pubkey
config_key = 110

abbrev feed_key : Pubkey
feed_key = 11_644

abbrev price_key : Pubkey
price_key = 10_323_916

abbrev pub feed_id : List ℕ
feed_id =
    7 ∷ 7 ∷ 7 ∷ 7 ∷ 7 ∷ 7 ∷ 7 ∷ 7 ∷ 7 ∷ 7 ∷ 7 ∷ 7 ∷ 7 ∷ 7 ∷ 7 ∷ 7 ∷ 7 ∷ 7 ∷ 7 ∷ 7 ∷ 7 ∷ 7 ∷ 7 ∷ 7
    ∷ 7 ∷ 7 ∷ 7 ∷ 7 ∷ 7 ∷ 7 ∷ 7 ∷ 7 ∷ []

-- 162.97 dollars, published at time 990.
abbrev pub update : AccountInfo
update = record {
  owner = 77;
  bytes =
      price_update_v2_discriminator
      ++ 0 ∷ 0 ∷ 0 ∷ 0 ∷ 0 ∷ 0 ∷ 0 ∷ 0 ∷ 0 ∷ 0 ∷ 0 ∷ 0 ∷ 0 ∷ 0 ∷ 0 ∷ 0 ∷ 0 ∷ 0 ∷ 0 ∷ 0 ∷ 0 ∷ 0 ∷ 0
        ∷ 0 ∷ 0 ∷ 0 ∷ 0 ∷ 0 ∷ 0 ∷ 0 ∷ 0 ∷ 0 ∷ 1 ∷ 7 ∷ 7 ∷ 7 ∷ 7 ∷ 7 ∷ 7 ∷ 7 ∷ 7 ∷ 7 ∷ 7 ∷ 7 ∷ 7 ∷ 7
        ∷ 7 ∷ 7 ∷ 7 ∷ 7 ∷ 7 ∷ 7 ∷ 7 ∷ 7 ∷ 7 ∷ 7 ∷ 7 ∷ 7 ∷ 7 ∷ 7 ∷ 7 ∷ 7 ∷ 7 ∷ 7 ∷ 7 ∷ 40 ∷ 172 ∷ 248
        ∷ 0 ∷ 0 ∷ 0 ∷ 0 ∷ 0 ∷ 232 ∷ 3 ∷ 0 ∷ 0 ∷ 0 ∷ 0 ∷ 0 ∷ 0 ∷ 251 ∷ 255 ∷ 255 ∷ 255 ∷ 222 ∷ 3 ∷ 0
        ∷ 0 ∷ 0 ∷ 0 ∷ 0 ∷ 0 ∷ 0 ∷ 0 ∷ 0 ∷ 0 ∷ 0 ∷ 0 ∷ 0 ∷ 0 ∷ 0 ∷ 0 ∷ 0 ∷ 0 ∷ 0 ∷ 0 ∷ 0 ∷ 0 ∷ [];
}

abbrev pub config : OracleConfig
config = record {
  admin = admin;
  pending_admin = 0;
  operator = 0;
  pyth_receiver_program = 77;
  max_staleness_secs = 60;
  max_confidence_bps = 100;
  price_deviation_threshold_bps = 50;
  bump = 255;
}

abbrev feed : PriceFeed
feed = record { underlying = sol; pyth_feed_id = feed_id; active = true; bump = 255 }

abbrev before : OracleState
before = record {
  configs = (config_key, config) ∷ [];
  feeds = (feed_key, feed) ∷ [];
  expiry_prices = [];
}

abbrev sets : SetExpiryPrice
sets = record {
  expiry_price = price_key;
  config = config_key;
  feed = feed_key;
  pyth_price_update = update;
  caller = admin;
}

abbrev fixed : ExpiryPrice
fixed = record {
  underlying = sol;
  expiry = pos 1000;
  price = 16_300_000_000;
  is_finalized = true;
  bump = 255;
}

abbrev after : OracleState
after = record before { expiry_prices = (price_key, fixed) ∷ [] }

set_runs :
    set_expiry_price (clock_at (pos 1000)) before sets sol (pos 1000) 16_300_000_000 ≡ ok after
unfolding set_expiry_price clock_at lookup insert load init_at vacant ◌-ℤ◌
set_runs = refl

set_expiry_price-close_example :
    (c : OracleConfig) × (f : PriceFeed) × (bump : ℕ) × (reference : ℕ) × (lookup config_key
        before.configs
      ≡ some c)
    × (lookup feed_key before.feeds ≡ some f)
    × (lookup price_key before.expiry_prices ≡ none)
    × (f.active ≡ true)
    × (pos 1000 ≤ℤ pos 1000)
    × (0 < 16_300_000_000)
    × (live_price (clock_at (pos 1000)) c f update ≡ ok reference)
    × (abs_diff 16_300_000_000 reference * 10_000
        < (c.price_deviation_threshold_bps + 1) * reference)
    × (after.expiry_prices ≡ insert price_key (record fixed { bump = bump }) before.expiry_prices)
unfolding clock_at
set_expiry_price-close_example =
    set_expiry_price-close (clock_at (pos 1000)) before after sets sol (pos 1000) 16_300_000_000
      set_runs

-- A second attempt, and a feed that is switched off.
abbrev again : List (ℤ × Instruction)
again =
    (pos 1500, Machine.set_expiry_price sets sol (pos 1000) 16_297_000_000)
    ∷ (
      pos 1501,
      Machine.deregister_feed (record { feed = feed_key; config = config_key; admin = admin }),
    )
    ∷ []

run-expiry_price_example :
    lookup price_key (run (clock_at (pos 0)) after again).expiry_prices ≡ some fixed
unfolding lookup
run-expiry_price_example = run-expiry_price (clock_at (pos 0)) after again price_key fixed refl

normalize_to_8_decimals_iff_example :
    (normalize_to_8_decimals (pos 16_297_000) (negsuc 4) ≡ ok 16_297_000_000) ↔ (
      (16_297_000_000 ≡ scaled 16_297_000 (negsuc 4 -ℤ negsuc 7))
      × (0 < scaled 16_297_000 (negsuc 4 -ℤ negsuc 7))
      × (scaled 16_297_000 (negsuc 4 -ℤ negsuc 7) < 2 ^ 64))
unfolding fits_signed ◌-ℤ◌
normalize_to_8_decimals_iff_example =
    normalize_to_8_decimals_iff 16_297_000 (negsuc 4) 16_297_000_000 (omega arith) (omega arith)
      refl

validate_price_deviation_iff_example :
    (validate_price_deviation 16_300_000_000 16_297_000_000 50 ≡ ok tt) ↔ (
      (0 < 16_297_000_000)
      × (abs_diff 16_300_000_000 16_297_000_000 * 10_000 < 2 ^ 64)
      × (abs_diff 16_300_000_000 16_297_000_000 * 10_000 < (50 + 1) * 16_297_000_000))
validate_price_deviation_iff_example =
    validate_price_deviation_iff 16_300_000_000 16_297_000_000 50 (omega arith)
