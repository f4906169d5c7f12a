-- ===== src/Oracle/Prices.antt =====
-- `get_price`, `set_expiry_price` and `get_expiry_price` of programs/oracle/src/lib.rs.
use options_protocol_solana.Common.{
  ℕ, ℤ, true, ◌||◌, leb_ℤ, ltb, ◌==◌, Pubkey, insert, Result, ok, ◌>>=◌, ◌>>◌, OracleError,
}
use options_protocol_solana.Runtime.{Runtime, load, init_at, check_bump}
use options_protocol_solana.Oracle.State.{
  OracleState, OracleConfig, PriceFeed, oracle_id, require, feed_seeds, expiry_price_seeds,
}
use options_protocol_solana.Oracle.Pyth.{AccountInfo, parse_pyth_price_update}
use options_protocol_solana.Oracle.Checks.{
  validate_staleness, validate_confidence, normalize_to_8_decimals, validate_price_deviation,
}
use options_protocol_solana.Oracle.Admin.{load_config}

-- `feed`, with its seeds and its stored bump.
unfoldable pub load_feed : Runtime → OracleState → Pubkey → Pubkey → Result PriceFeed
unfolding load check_bump
load_feed rt s address underlying = do
  feed ← load s.feeds address
  check_bump rt (feed_seeds underlying) feed.bump oracle_id address
  ok feed

-- The price of a feed from the Pyth account: parsed, fresh, with a narrow confidence interval, and
-- normalized.
unfoldable pub live_price : Runtime → OracleConfig → PriceFeed → AccountInfo → Result ℕ
unfolding parse_pyth_price_update validate_staleness validate_confidence normalize_to_8_decimals
live_price rt config feed account = do
  pyth ← parse_pyth_price_update account config.pyth_receiver_program feed.pyth_feed_id
  validate_staleness rt pyth.publish_time config.max_staleness_secs
  validate_confidence pyth.price pyth.conf config.max_confidence_bps
  normalize_to_8_decimals pyth.price pyth.exponent

pub record GetPrice : Type 0 where
  pub config : Pubkey
  pub feed : Pubkey
  pub pyth_price_update : AccountInfo

unfoldable pub get_price : Runtime → OracleState → GetPrice → Result ℕ
unfolding load_config load check_bump live_price
get_price rt s a = do
  config ← load_config rt s a.config
  feed ← load s.feeds a.feed
  check_bump rt (feed_seeds feed.underlying) feed.bump oracle_id a.feed
  require feed.active OracleError.feed_not_active
  live_price rt config feed a.pyth_price_update

pub record SetExpiryPrice : Type 0 where
  pub expiry_price : Pubkey
  pub config : Pubkey
  pub feed : Pubkey
  pub pyth_price_update : AccountInfo
  pub caller : Pubkey

-- The constraints; the result is the bump of the new account, the config and the feed.
unfoldable pub load_set_expiry_price :
    Runtime → OracleState → SetExpiryPrice → Pubkey → ℤ → Result (ℕ × OracleConfig × PriceFeed)
unfolding init_at load_config load_feed
load_set_expiry_price rt s a underlying expiry = do
  bump ← init_at rt s.expiry_prices (expiry_price_seeds underlying expiry) oracle_id a.expiry_price
  config ← load_config rt s a.config
  require (a.caller == config.admin || a.caller == config.operator) OracleError.unauthorized
  feed ← load_feed rt s a.feed underlying
  ok (bump, config, feed)

unfoldable pub set_expiry_price :
    Runtime → OracleState → SetExpiryPrice → Pubkey → ℤ → ℕ → Result OracleState
unfolding load_set_expiry_price live_price validate_price_deviation
set_expiry_price rt s a underlying expiry price = do
  (bump, config, feed) ← load_set_expiry_price rt s a underlying expiry
  require (ltb 0 price) OracleError.invalid_price
  require (leb_ℤ expiry rt.now) OracleError.expiry_not_reached
  require feed.active OracleError.feed_not_active
  require (ltb 0 config.price_deviation_threshold_bps) OracleError.invalid_deviation_threshold
  reference ← live_price rt config feed a.pyth_price_update
  validate_price_deviation price reference config.price_deviation_threshold_bps
  ok (record s {
    expiry_prices =
        insert a.expiry_price
          (record {
            underlying = underlying;
            expiry = expiry;
            price = price;
            is_finalized = true;
            bump = bump;
          })
          s.expiry_prices;
  })

unfoldable pub get_expiry_price : Runtime → OracleState → Pubkey → Pubkey → ℤ → Result ℕ
unfolding load check_bump
get_expiry_price rt s address underlying expiry = do
  price ← load s.expiry_prices address
  check_bump rt (expiry_price_seeds underlying expiry) price.bump oracle_id address
  require price.is_finalized OracleError.expiry_price_not_set
  ok price.price
