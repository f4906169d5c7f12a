-- ===== src/Settler/Admin.antt =====
-- The configuration, the makers and the cancelling of quotes of programs/batch_settler/src/lib.rs.
use options_protocol_solana.Common.{
  ℕ, ℤ, Bool, false, true, not, leb, leb_ℤ, ◌==◌, if◌then◌else◌, none, some, Accounts, Pubkey,
  default, lookup, insert, Result, ok, ◌>>=◌, ◌>>◌, SettlerError, checked_add,
}
use options_protocol_solana.Runtime.{Runtime, load, init_at, check_bump, check_seeds, has_one}
use options_protocol_solana.Settler.State.{
  SettlerState, SettlerConfig, MakerState, settler_id, require, or_else, max_fee_bps,
  min_escape_delay, config_seeds, maker_seeds, fill_seeds,
}

abbrev put_config : SettlerState → Pubkey → SettlerConfig → SettlerState
put_config s address config = record s { configs = insert address config s.configs }

pub record Initialize : Type 0 where
  pub settler_config : Pubkey
  pub payer : Pubkey

-- The arguments of `initialize`.
pub record InitialConfig : Type 0 where
  pub operator : Pubkey
  pub treasury : Pubkey
  pub protocol_fee_bps : ℕ
  pub escape_delay : ℤ
  pub jupiter_program : Pubkey

abbrev pub fresh_config : Pubkey → InitialConfig → ℕ → SettlerConfig
fresh_config owner given bump = record {
  owner = owner;
  operator = given.operator;
  treasury = given.treasury;
  protocol_fee_bps = given.protocol_fee_bps;
  paused = false;
  escape_delay = given.escape_delay;
  jupiter_program = given.jupiter_program;
  bump = bump;
}

unfoldable pub initialize :
    Runtime → SettlerState → Initialize → InitialConfig → Result SettlerState
unfolding init_at
initialize rt s a given = do
  bump ← init_at rt s.configs config_seeds settler_id a.settler_config
  require (not (given.operator == default)) SettlerError.zero_address
  require (not (given.treasury == default)) SettlerError.zero_address
  require (leb given.protocol_fee_bps max_fee_bps) SettlerError.fee_too_high
  require (leb_ℤ min_escape_delay given.escape_delay) SettlerError.escape_delay_too_short
  ok (put_config s a.settler_config (fresh_config a.payer given bump))

pub record OwnerAction : Type 0 where
  pub settler_config : Pubkey
  pub owner : Pubkey

unfoldable pub load_owner_action : Runtime → SettlerState → OwnerAction → Result SettlerConfig
unfolding load check_bump
load_owner_action rt s a = do
  config ← load s.configs a.settler_config
  has_one (config.owner == a.owner)
  check_bump rt config_seeds config.bump settler_id a.settler_config
  ok config

unfoldable pub set_treasury : Runtime → SettlerState → OwnerAction → Pubkey → Result SettlerState
unfolding load_owner_action
set_treasury rt s a treasury = do
  config ← load_owner_action rt s a
  require (not (treasury == default)) SettlerError.zero_address
  ok (put_config s a.settler_config (record config { treasury = treasury }))

unfoldable pub set_protocol_fee : Runtime → SettlerState → OwnerAction → ℕ → Result SettlerState
unfolding load_owner_action
set_protocol_fee rt s a protocol_fee_bps = do
  config ← load_owner_action rt s a
  require (leb protocol_fee_bps max_fee_bps) SettlerError.fee_too_high
  ok (put_config s a.settler_config (record config { protocol_fee_bps = protocol_fee_bps }))

unfoldable pub set_operator : Runtime → SettlerState → OwnerAction → Pubkey → Result SettlerState
unfolding load_owner_action
set_operator rt s a operator = do
  config ← load_owner_action rt s a
  require (not (operator == default)) SettlerError.zero_address
  ok (put_config s a.settler_config (record config { operator = operator }))

unfoldable pub pause : Runtime → SettlerState → OwnerAction → Bool → Result SettlerState
unfolding load_owner_action
pause rt s a paused = do
  config ← load_owner_action rt s a
  ok (put_config s a.settler_config (record config { paused = paused }))

unfoldable pub set_escape_delay : Runtime → SettlerState → OwnerAction → ℤ → Result SettlerState
unfolding load_owner_action
set_escape_delay rt s a escape_delay = do
  config ← load_owner_action rt s a
  require (leb_ℤ min_escape_delay escape_delay) SettlerError.escape_delay_too_short
  ok (put_config s a.settler_config (record config { escape_delay = escape_delay }))

unfoldable pub set_jupiter_program :
    Runtime → SettlerState → OwnerAction → Pubkey → Result SettlerState
unfolding load_owner_action
set_jupiter_program rt s a jupiter_program = do
  config ← load_owner_action rt s a
  require (not (jupiter_program == default)) SettlerError.zero_address
  ok (put_config s a.settler_config (record config { jupiter_program = jupiter_program }))

-- `init_if_needed`: the account at an address, or a zeroed one.
abbrev account_or {ℓ} : {A : Type ℓ} → Accounts A → Pubkey → A → A
account_or accounts address zeroed = elim (lookup address accounts) [ none ↦ zeroed | some a ↦ a ]

pub record WhitelistMaker : Type 0 where
  pub settler_config : Pubkey
  pub maker_state : Pubkey
  pub owner : Pubkey

unfoldable pub whitelist_maker :
    Runtime → SettlerState → WhitelistMaker → Pubkey → Bool → Result SettlerState
unfolding load_owner_action check_seeds
whitelist_maker rt s a maker whitelisted = do
  config ← load_owner_action rt s (record { settler_config = a.settler_config; owner = a.owner })
  check_seeds rt (maker_seeds maker) settler_id a.maker_state
  let state =
      account_or s.makers a.maker_state
        (record { maker = default; nonce = 0; whitelisted = false; bump = 0 })
  let named : MakerState =
      if state.maker == default then record state { maker = maker; nonce = 0 } else state
  let bump = (rt.find_program_address (maker_seeds maker) settler_id).1
  ok (record s {
    makers =
        insert a.maker_state (record named { whitelisted = whitelisted; bump = bump }) s.makers;
  })

pub record IncrementNonce : Type 0 where
  pub maker_state : Pubkey
  pub maker : Pubkey

-- `maker_state`, with its seeds, its stored bump and the maker, who signs.
unfoldable pub load_maker : Runtime → SettlerState → Pubkey → Pubkey → Result MakerState
unfolding load check_bump
load_maker rt s address maker = do
  state ← load s.makers address
  check_bump rt (maker_seeds maker) state.bump settler_id address
  has_one (state.maker == maker)
  ok state

unfoldable pub increment_maker_nonce : Runtime → SettlerState → IncrementNonce → Result SettlerState
unfolding load_maker checked_add
increment_maker_nonce rt s a = do
  state ← load_maker rt s a.maker_state a.maker
  nonce ← or_else (checked_add state.nonce 1) SettlerError.math_overflow
  ok (record s { makers = insert a.maker_state (record state { nonce = nonce }) s.makers })

pub record CancelQuote : Type 0 where
  pub quote_fill : Pubkey
  pub maker_state : Pubkey
  pub maker : Pubkey

unfoldable pub cancel_quote : Runtime → SettlerState → CancelQuote → ℕ → Result SettlerState
unfolding load_maker check_seeds
cancel_quote rt s a quote_id = do
  state ← load_maker rt s a.maker_state a.maker
  check_seeds rt (fill_seeds a.maker state.nonce quote_id) settler_id a.quote_fill
  let fill =
      account_or s.fills a.quote_fill (record { filled_amount = 0; cancelled = false; bump = 0 })
  require (not fill.cancelled) SettlerError.quote_already_cancelled
  let bump = (rt.find_program_address (fill_seeds a.maker state.nonce quote_id) settler_id).1
  ok (record s {
    fills = insert a.quote_fill (record fill { cancelled = true; bump = bump }) s.fills;
  })
