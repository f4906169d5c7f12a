-- ===== src/Whitelist/Entries.antt =====
-- The instructions of programs/whitelist/src/lib.rs.
use options_protocol_solana.Common.{
  ℕ, Bool, true, false, not, ◌||◌, ◌&&◌, ◌==◌, none, some, [], ◌∷◌, Pubkey, default, lookup, insert,
  Result, ok, ◌>>=◌, ◌>>◌, WhitelistError,
}
use options_protocol_solana.Runtime.{Runtime, text, load, init_at, check_bump, check_seeds, has_one}
use options_protocol_solana.Factory.State.{FactoryState, factory_id}
use options_protocol_solana.Whitelist.State.{
  WhitelistState, WhitelistConfig, whitelist_id, config_seeds, entry_seeds, require,
}

pub record InitializeWhitelist : Type 0 where
  pub config : Pubkey
  pub payer : Pubkey

unfoldable pub initialize :
    Runtime → WhitelistState → InitializeWhitelist → Pubkey → Result WhitelistState
unfolding init_at
initialize rt s a admin = do
  bump ← init_at rt s.configs config_seeds whitelist_id a.config
  require (not (admin == default)) WhitelistError.zero_address
  ok (record s {
    configs = insert a.config (record { admin = admin; factory = default; bump = bump }) s.configs;
  })

-- `config`, with its seeds and its stored bump.
unfoldable pub load_config : Runtime → WhitelistState → Pubkey → Result WhitelistConfig
unfolding load check_bump
load_config rt s address = do
  config ← load s.configs address
  check_bump rt config_seeds config.bump whitelist_id address
  ok config

pub record AdminAction : Type 0 where
  pub config : Pubkey
  pub admin : Pubkey

unfoldable pub set_factory : Runtime → WhitelistState → AdminAction → Pubkey → Result WhitelistState
unfolding load_config
set_factory rt s a factory = do
  config ← load_config rt s a.config
  has_one (config.admin == a.admin)
  require (not (factory == default)) WhitelistError.zero_address
  ok (record s { configs = insert a.config (record config { factory = factory }) s.configs })

pub record WhitelistOToken : Type 0 where
  pub whitelisted_otoken : Pubkey
  pub config : Pubkey
  pub factory_otoken : Pubkey
  pub factory_operator_config : Pubkey
  pub caller : Pubkey

-- An account that the factory does not own, or that does not deserialize, is none of its operator
-- configs.
unfoldable pub is_factory_operator : FactoryState → Pubkey → Pubkey → Bool
is_factory_operator f account caller = elim (lookup account f.operator_configs) [
  | none ↦ false
  | some operator_config ↦ caller == operator_config.operator
]

-- The constraints; the result is the bump of the new account and the config.
unfoldable pub load_whitelist_otoken :
    Runtime
    → WhitelistState
    → FactoryState
    → WhitelistOToken
    → Pubkey
    → Result (ℕ × WhitelistConfig)
unfolding init_at load_config load check_seeds
load_whitelist_otoken rt s f a otoken_mint = do
  bump ←
      init_at rt s.whitelisted_otokens (entry_seeds otoken_mint) whitelist_id a.whitelisted_otoken
  config ← load_config rt s a.config
  otoken ← load f.otokens a.factory_otoken
  require (otoken.mint == otoken_mint) WhitelistError.otoken_mismatch
  check_seeds rt (text "factory_operator_config" ∷ []) factory_id a.factory_operator_config
  ok (bump, config)

unfoldable pub whitelist_otoken :
    Runtime → WhitelistState → FactoryState → WhitelistOToken → Pubkey → Result WhitelistState
unfolding load_whitelist_otoken is_factory_operator
whitelist_otoken rt s f a otoken_mint = do
  (bump, config) ← load_whitelist_otoken rt s f a otoken_mint
  require
      (a.caller == config.admin
        || (not (config.factory == default) && a.caller == config.factory)
        || is_factory_operator f a.factory_operator_config a.caller)
      WhitelistError.unauthorized
  ok (record s {
    whitelisted_otokens =
        insert a.whitelisted_otoken
          (record { otoken_mint = otoken_mint; active = true; bump = bump }) s.whitelisted_otokens;
  })
