-- ===== src/Oracle/Admin.antt =====
-- The configuration, the feeds and the ownership of programs/oracle/src/lib.rs.
use options_protocol_solana.Common.{
  ℕ, Bool, true, false, not, ltb, ◌==◌, List, Pubkey, default, insert, Result, ok, ◌>>=◌, ◌>>◌,
  OracleError,
}
use options_protocol_solana.Runtime.{Runtime, load, init_at, check_bump, has_one}
use options_protocol_solana.Oracle.State.{
  OracleState, OracleConfig, PriceFeed, oracle_id, require, config_seeds, feed_seeds,
}

pub record InitializeOracle : Type 0 where
  pub config : Pubkey
  pub payer : Pubkey

-- The arguments of `initialize`.
pub record InitialConfig : Type 0 where
  pub admin : Pubkey
  pub operator : Pubkey
  pub pyth_receiver_program : Pubkey
  pub max_staleness_secs : ℕ
  pub max_confidence_bps : ℕ
  pub price_deviation_threshold_bps : ℕ

abbrev put_config : OracleState → Pubkey → OracleConfig → OracleState
put_config s address config = record s { configs = insert address config s.configs }

abbrev put_feed : OracleState → Pubkey → PriceFeed → OracleState
put_feed s address feed = record s { feeds = insert address feed s.feeds }

unfoldable pub initialize :
    Runtime → OracleState → InitializeOracle → InitialConfig → Result OracleState
unfolding init_at
initialize rt s a given = do
  bump ← init_at rt s.configs config_seeds oracle_id a.config
  require (not (given.admin == default)) OracleError.zero_address
  require (ltb 0 given.price_deviation_threshold_bps) OracleError.invalid_deviation_threshold
  ok (
      put_config s a.config (record {
        admin = given.admin;
        pending_admin = default;
        operator = given.operator;
        pyth_receiver_program = given.pyth_receiver_program;
        max_staleness_secs = given.max_staleness_secs;
        max_confidence_bps = given.max_confidence_bps;
        price_deviation_threshold_bps = given.price_deviation_threshold_bps;
        bump = bump;
      }))

-- `config`, with its seeds and its stored bump.
unfoldable pub load_config : Runtime → OracleState → Pubkey → Result OracleConfig
unfolding load check_bump
load_config rt s address = do
  config ← load s.configs address
  check_bump rt config_seeds config.bump oracle_id address
  ok config

pub record RegisterFeed : Type 0 where
  pub feed : Pubkey
  pub config : Pubkey
  pub admin : Pubkey

unfoldable pub register_feed :
    Runtime → OracleState → RegisterFeed → Pubkey → List ℕ → Result OracleState
unfolding init_at load_config
register_feed rt s a underlying pyth_feed_id = do
  bump ← init_at rt s.feeds (feed_seeds underlying) oracle_id a.feed
  config ← load_config rt s a.config
  has_one (config.admin == a.admin)
  ok (
      put_feed s a.feed (record {
        underlying = underlying;
        pyth_feed_id = pyth_feed_id;
        active = true;
        bump = bump;
      }))

pub record DeregisterFeed : Type 0 where
  pub feed : Pubkey
  pub config : Pubkey
  pub admin : Pubkey

unfoldable pub load_deregister_feed : Runtime → OracleState → DeregisterFeed → Result PriceFeed
unfolding load check_bump load_config
load_deregister_feed rt s a = do
  feed ← load s.feeds a.feed
  check_bump rt (feed_seeds feed.underlying) feed.bump oracle_id a.feed
  config ← load_config rt s a.config
  has_one (config.admin == a.admin)
  ok feed

unfoldable pub deregister_feed : Runtime → OracleState → DeregisterFeed → Result OracleState
unfolding load_deregister_feed
deregister_feed rt s a = do
  feed ← load_deregister_feed rt s a
  require feed.active OracleError.feed_not_active
  ok (put_feed s a.feed (record feed { active = false }))

unfoldable pub set_feed_active : Runtime → OracleState → DeregisterFeed → Bool → Result OracleState
unfolding load_deregister_feed
set_feed_active rt s a active = do
  feed ← load_deregister_feed rt s a
  ok (put_feed s a.feed (record feed { active = active }))

pub record AdminAction : Type 0 where
  pub config : Pubkey
  pub admin : Pubkey

unfoldable pub load_admin_action : Runtime → OracleState → AdminAction → Result OracleConfig
unfolding load_config
load_admin_action rt s a = do
  config ← load_config rt s a.config
  has_one (config.admin == a.admin)
  ok config

unfoldable pub set_operator : Runtime → OracleState → AdminAction → Pubkey → Result OracleState
unfolding load_admin_action
set_operator rt s a operator = do
  config ← load_admin_action rt s a
  require (not (operator == default)) OracleError.zero_address
  ok (put_config s a.config (record config { operator = operator }))

unfoldable pub set_price_deviation_threshold :
    Runtime → OracleState → AdminAction → ℕ → Result OracleState
unfolding load_admin_action
set_price_deviation_threshold rt s a threshold_bps = do
  config ← load_admin_action rt s a
  require (ltb 0 threshold_bps) OracleError.invalid_deviation_threshold
  ok (put_config s a.config (record config { price_deviation_threshold_bps = threshold_bps }))

unfoldable pub set_max_staleness : Runtime → OracleState → AdminAction → ℕ → Result OracleState
unfolding load_admin_action
set_max_staleness rt s a max_staleness_secs = do
  config ← load_admin_action rt s a
  ok (put_config s a.config (record config { max_staleness_secs = max_staleness_secs }))

unfoldable pub set_max_confidence : Runtime → OracleState → AdminAction → ℕ → Result OracleState
unfolding load_admin_action
set_max_confidence rt s a max_confidence_bps = do
  config ← load_admin_action rt s a
  ok (put_config s a.config (record config { max_confidence_bps = max_confidence_bps }))

unfoldable pub transfer_ownership :
    Runtime → OracleState → AdminAction → Pubkey → Result OracleState
unfolding load_admin_action
transfer_ownership rt s a new_admin = do
  config ← load_admin_action rt s a
  require (not (new_admin == default)) OracleError.zero_address
  ok (put_config s a.config (record config { pending_admin = new_admin }))

pub record AcceptOwnership : Type 0 where
  pub config : Pubkey
  pub new_admin : Pubkey

unfoldable pub accept_ownership : Runtime → OracleState → AcceptOwnership → Result OracleState
unfolding load_config
accept_ownership rt s a = do
  config ← load_config rt s a.config
  require (a.new_admin == config.pending_admin) OracleError.not_pending_admin
  ok (
      put_config s a.config
        (record config { admin = config.pending_admin; pending_admin = default }))
