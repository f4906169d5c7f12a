-- ===== src/Factory/Series.antt =====
-- The instructions of programs/otoken_factory/src/lib.rs.
use options_protocol_solana.Common.{
  ℕ, ℤ, Bool, not, ◌||◌, ◌==◌, ltb, ltb_ℤ, Option, List, Pubkey, default, insert, Result, ok, err,
  anchor, account_in_use, none, some, ◌>>=◌, ◌>>◌, FactoryError, checked_add, add_i64_or_panic,
  otoken_factory, ok_or,
}
use options_protocol_solana.Runtime.{
  Runtime, Seed, TokenProgram, load, init_at, check_bump, check_seeds, has_one, invoke,
}
use options_protocol_solana.Factory.State.{
  FactoryState, FactoryConfig, FactoryOperatorConfig, factory_id, config_seeds, operator_seeds,
  otoken_seeds, mint_seeds, min_otoken_lifetime_secs, require,
}

pub record Initialize : Type 0 where
  pub factory_config : Pubkey
  pub payer : Pubkey

unfoldable pub initialize : Runtime → FactoryState → Initialize → Pubkey → Result FactoryState
unfolding init_at
initialize rt s a admin = do
  bump ← init_at rt s.configs config_seeds factory_id a.factory_config
  require (not (admin == default)) FactoryError.zero_address
  ok (record s {
    configs =
        insert a.factory_config
          (record { admin = admin; controller = default; otoken_count = 0; bump = bump }) s.configs;
  })

-- `factory_config`, with its seeds and its stored bump.
unfoldable pub load_config : Runtime → FactoryState → Pubkey → Result FactoryConfig
unfolding load check_bump
load_config rt s address = do
  config ← load s.configs address
  check_bump rt config_seeds config.bump factory_id address
  ok config

pub record AdminAction : Type 0 where
  pub factory_config : Pubkey
  pub admin : Pubkey

unfoldable pub set_controller : Runtime → FactoryState → AdminAction → Pubkey → Result FactoryState
unfolding load_config
set_controller rt s a controller = do
  config ← load_config rt s a.factory_config
  has_one (config.admin == a.admin)
  require (not (controller == default)) FactoryError.zero_address
  ok (record s {
    configs = insert a.factory_config (record config { controller = controller }) s.configs;
  })

pub record SetOperator : Type 0 where
  pub factory_config : Pubkey
  pub operator_config : Pubkey
  pub admin : Pubkey

-- `operator_config` is initialized if it does not exist; both of its fields are written.
unfoldable pub set_operator : Runtime → FactoryState → SetOperator → Pubkey → Result FactoryState
unfolding load_config check_seeds
set_operator rt s a operator = do
  config ← load_config rt s a.factory_config
  has_one (config.admin == a.admin)
  check_seeds rt operator_seeds factory_id a.operator_config
  require (not (operator == default)) FactoryError.zero_address
  let bump = (rt.find_program_address operator_seeds factory_id).1
  ok (record s {
    operator_configs =
        insert a.operator_config (record { operator = operator; bump = bump }) s.operator_configs;
  })

-- The arguments of `create_otoken`.
pub record Terms : Type 0 where
  pub underlying : Pubkey
  pub strike_asset : Pubkey
  pub collateral : Pubkey
  pub strike_price : ℕ
  pub expiry : ℤ
  pub is_put : Bool

abbrev pub series_seeds : Terms → List Seed
series_seeds g =
    otoken_seeds g.underlying g.strike_asset g.collateral g.strike_price g.expiry g.is_put

pub record CreateOtoken : Type 0 where
  pub factory_config : Pubkey
  pub operator_config : Pubkey
  pub otoken : Pubkey
  pub otoken_mint : Pubkey
  pub controller_authority : Pubkey
  pub admin : Pubkey

module _ {L : Type 0} (t : TokenProgram L)
    (initialize_mint : L → Pubkey → ℕ → Pubkey → Option L) where
  -- `init` of a mint with 8 decimals, by the token program's `initialize_mint`.
  unfoldable pub init_mint : Runtime → L → List Seed → Pubkey → Pubkey → Result L
  unfolding check_seeds invoke
  init_mint rt l seeds mint authority = do
    elim (t.decimals l mint) [ none ↦ ok tt | some _ ↦ err (anchor account_in_use) ]
    check_seeds rt seeds factory_id mint
    invoke (initialize_mint l mint 8 authority)

  -- The constraints; the result is the config, the operator's config, the bump of the new account,
  -- and the ledger with the mint.
  unfoldable pub load_create_otoken :
      Runtime
      → FactoryState
      → L
      → CreateOtoken
      → Terms
      → Result (FactoryConfig × FactoryOperatorConfig × ℕ × L)
  unfolding load_config load check_bump init_at init_mint
  load_create_otoken rt s l a g = do
    config ← load_config rt s a.factory_config
    require (not (config.controller == default)) FactoryError.controller_not_set
    operator_config ← load s.operator_configs a.operator_config
    check_bump rt operator_seeds operator_config.bump factory_id a.operator_config
    bump ← init_at rt s.otokens (series_seeds g) factory_id a.otoken
    l' ←
        init_mint rt l
          (mint_seeds g.underlying g.strike_asset g.collateral g.strike_price g.expiry g.is_put)
          a.otoken_mint a.controller_authority
    require (a.controller_authority == config.controller) FactoryError.invalid_controller
    ok (config, operator_config, bump, l')

  unfoldable pub create_otoken :
      Runtime → FactoryState → L → CreateOtoken → Terms → Result (FactoryState × L)
  unfolding load_create_otoken add_i64_or_panic checked_add
  create_otoken rt s l a g = do
    (config, operator_config, bump, l') ← load_create_otoken rt s l a g
    require (a.admin == config.admin || a.admin == operator_config.operator)
        FactoryError.unauthorized
    require (not (g.underlying == default)) FactoryError.zero_address
    require (not (g.strike_asset == default)) FactoryError.zero_address
    require (not (g.collateral == default)) FactoryError.zero_address
    require (ltb 0 g.strike_price) FactoryError.invalid_strike_price
    earliest ← add_i64_or_panic rt.now min_otoken_lifetime_secs
    require (ltb_ℤ earliest g.expiry) FactoryError.invalid_expiry
    count ← ok_or (checked_add config.otoken_count 1) (otoken_factory FactoryError.math_overflow)
    ok (
      record s {
        otokens =
            insert a.otoken
              (record {
                underlying = g.underlying;
                strike_asset = g.strike_asset;
                collateral = g.collateral;
                strike_price = g.strike_price;
                expiry = g.expiry;
                is_put = g.is_put;
                mint = a.otoken_mint;
                bump = bump;
              })
              s.otokens;
        configs = insert a.factory_config (record config { otoken_count = count }) s.configs;
      },
      l',
    )
