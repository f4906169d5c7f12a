-- ===== src/Settler/Order/Load.antt =====
-- The accounts, the arguments and the tests of `execute_order` in
-- programs/batch_settler/src/lib.rs.
use options_protocol_solana.Common.{
  ℕ, ℤ, Pubkey, List, Result, ok, ◌>>=◌, ◌>>◌, ◌==◌, not, leb, ltb, leb_ℤ, to_le_bytes,
  SettlerError,
}
use options_protocol_solana.Runtime.{
  Runtime, TokenAccount, TokenProgram, SystemProgram, load, load_token, load_mint, check_bump,
  check_seeds,
}
use options_protocol_solana.Controller.State.{controller_id, pool_authority_seeds}
use options_protocol_solana.Settler.State.{
  SettlerConfig, MakerState, settler_id, require, min_execute_amount, maker_seeds, fill_seeds,
  balance_seeds, vault_mm_seeds,
}
use options_protocol_solana.Settler.Quotes.{validate_maker}
use options_protocol_solana.Settler.Signature.{
  Instruction, Quote, build_quote_message, verify_ed25519_signature,
}
use options_protocol_solana.Settler.World.{World, load_settler_config, load_rent_reserve}

pub record ExecuteOrder : Type 0 where
  pub settler_config : Pubkey
  pub rent_reserve : Pubkey
  pub maker_state : Pubkey
  pub quote_fill : Pubkey
  pub controller_config : Pubkey
  pub vault : Pubkey
  pub vault_counter : Pubkey
  pub otoken_info : Pubkey
  pub otoken_mint : Pubkey
  pub collateral_mint_account : Pubkey
  pub premium_mint_account : Pubkey
  pub user_collateral_account : Pubkey
  pub pool_token_account : Pubkey
  pub pool_vault_authority : Pubkey
  pub settler_otoken_account : Pubkey
  pub mm_premium_account : Pubkey
  pub user_premium_account : Pubkey
  pub treasury_account : Pubkey
  pub maker_otoken_balance : Pubkey
  pub vault_mm : Pubkey
  pub user : Pubkey
  pub maker : Pubkey

-- The arguments of `execute_order`.
pub record Order : Type 0 where
  pub amount : ℕ
  pub bid_price : ℕ
  pub deadline : ℤ
  pub quote_id : ℕ
  pub max_amount : ℕ
  pub maker_nonce : ℕ
  pub premium_mint : Pubkey
  pub collateral_amount : ℕ
  pub collateral_mint : Pubkey

-- The instructions sysvar, up to the current instruction, and the address of the ed25519 program.
pub record InstructionsSysvar : Type 0 where
  pub ed25519_id : Pubkey
  pub earlier : List Instruction

-- The accounts of an order as they were loaded.
pub record LoadedOrder : Type 0 where
  pub config : SettlerConfig
  pub maker_state : MakerState
  pub premium_decimals : ℕ
  pub user_collateral : TokenAccount
  pub pool : TokenAccount
  pub settler_otokens : TokenAccount
  pub mm_premium : TokenAccount
  pub user_premium : TokenAccount
  pub treasury : TokenAccount

-- The terms of this order, whose message a call of the ed25519 program must have.
abbrev pub quote_of : ExecuteOrder → Order → Quote
quote_of a q = record {
  otoken_mint = a.otoken_mint;
  bid_price = q.bid_price;
  deadline = q.deadline;
  quote_id = q.quote_id;
  max_amount = q.max_amount;
  maker_nonce = q.maker_nonce;
  premium_mint = q.premium_mint;
}

module _ {L : Type 0} (t : TokenProgram L) (sys : SystemProgram L) where
  -- The constraints.
  unfoldable pub load_execute_order : Runtime → World L → ExecuteOrder → Order → Result LoadedOrder
  unfolding load_settler_config load_rent_reserve load load_token load_mint check_bump check_seeds
  load_execute_order rt w a q = do
    config ← load_settler_config rt w.settler a.settler_config
    load_rent_reserve sys rt w.ledger a.rent_reserve
    maker_state ← load w.settler.makers a.maker_state
    check_bump rt (maker_seeds a.maker) maker_state.bump settler_id a.maker_state
    check_seeds rt (fill_seeds a.maker q.maker_nonce q.quote_id) settler_id a.quote_fill
    _ ← load_mint t w.ledger a.otoken_mint
    _ ← load_mint t w.ledger a.collateral_mint_account
    require (a.collateral_mint_account == q.collateral_mint) SettlerError.invalid_collateral_mint
    premium_decimals ← load_mint t w.ledger a.premium_mint_account
    require (a.premium_mint_account == q.premium_mint) SettlerError.invalid_premium_mint
    user_collateral ← load_token t w.ledger a.user_collateral_account
    pool ← load_token t w.ledger a.pool_token_account
    settler_otokens ← load_token t w.ledger a.settler_otoken_account
    mm_premium ← load_token t w.ledger a.mm_premium_account
    user_premium ← load_token t w.ledger a.user_premium_account
    treasury ← load_token t w.ledger a.treasury_account
    check_seeds rt (balance_seeds a.maker a.otoken_mint) settler_id a.maker_otoken_balance
    check_seeds rt (vault_mm_seeds a.vault) settler_id a.vault_mm
    ok (record {
      config = config;
      maker_state = maker_state;
      premium_decimals = premium_decimals;
      user_collateral = user_collateral;
      pool = pool;
      settler_otokens = settler_otokens;
      mm_premium = mm_premium;
      user_premium = user_premium;
      treasury = treasury;
    })

-- The tests on the order and on the accounts, at the head of the instruction.
unfoldable pub check_order : Runtime → ExecuteOrder → Order → LoadedOrder → Result (Unit {0})
check_order rt a q o = do
  require (ltb 0 q.amount) SettlerError.zero_amount
  require (leb min_execute_amount q.amount) SettlerError.amount_too_small
  require (ltb 0 q.bid_price) SettlerError.zero_amount
  require (not o.config.paused) SettlerError.paused
  require (o.maker_state.maker == a.maker) SettlerError.unauthorized
  require (o.user_collateral.owner == a.user) SettlerError.unauthorized
  require (o.pool.mint == q.collateral_mint) SettlerError.invalid_custody_account
  let expected_pool_authority =
      (rt.find_program_address (pool_authority_seeds q.collateral_mint) controller_id).0
  require (a.pool_vault_authority == expected_pool_authority) SettlerError.unauthorized
  require (o.pool.owner == expected_pool_authority) SettlerError.unauthorized
  require (o.settler_otokens.mint == a.otoken_mint) SettlerError.invalid_custody_account
  require (o.settler_otokens.owner == a.settler_config) SettlerError.invalid_custody_account
  require (o.mm_premium.owner == a.maker) SettlerError.invalid_custody_account
  require (o.mm_premium.mint == q.premium_mint) SettlerError.invalid_custody_account
  require (o.user_premium.owner == a.user) SettlerError.unauthorized
  require (o.user_premium.mint == q.premium_mint) SettlerError.invalid_custody_account
  require (o.treasury.owner == o.config.treasury) SettlerError.invalid_treasury
  require (o.treasury.mint == q.premium_mint) SettlerError.invalid_treasury

-- The maker, the signature and the deadline.
unfoldable pub check_quote :
    Runtime → InstructionsSysvar → ExecuteOrder → Order → MakerState → Result (Unit {0})
unfolding validate_maker build_quote_message verify_ed25519_signature
check_quote rt sysvar a q maker_state = do
  validate_maker maker_state q.maker_nonce
  verify_ed25519_signature sysvar.ed25519_id sysvar.earlier (to_le_bytes 32 a.maker)
      (build_quote_message (quote_of a q))
  require (leb_ℤ rt.now q.deadline) SettlerError.quote_expired
