-- ===== src/Testing/World.antt =====
-- The keys and accounts of a small history of the controller on the concrete token program.
use options_protocol_solana.Common.{ℕ, pos, true, [], ◌∷◌, Pubkey}
use options_protocol_solana.Factory.State.{OToken}
use options_protocol_solana.Whitelist.State.{WhitelistedOToken}
use options_protocol_solana.Oracle.State.{ExpiryPrice}
use options_protocol_solana.Controller.Vaults.{DepositCollateral, OpenVault}
use options_protocol_solana.Controller.Mint.{MintOtoken}
use options_protocol_solana.Controller.Settle.{SettleVault, EmergencyWithdrawVault}
use options_protocol_solana.Controller.Redeem.{Redeem}
use options_protocol_solana.Controller.Series.{CreateOTokenInfo, SetExpiryPrice}
use options_protocol_solana.Controller.Machine.{Outside}
use options_protocol_solana.Testing.Bank.{Ledger}

abbrev pub admin : Pubkey
admin = 11

abbrev pub user : Pubkey
user = 12

abbrev pub usdc : Pubkey
usdc = 21

abbrev pub otoken_mint : Pubkey
otoken_mint = 22

abbrev pub sol : Pubkey
sol = 23

abbrev pub user_usdc : Pubkey
user_usdc = 31

abbrev pub pool_usdc : Pubkey
pool_usdc = 32

abbrev pub user_otokens : Pubkey
user_otokens = 33

abbrev pub config_key : Pubkey
config_key = 114

abbrev pub counter_key : Pubkey
counter_key = 10586

abbrev pub vault_key : Pubkey
vault_key = 913842

abbrev pub info_key : Pubkey
info_key = 11554

abbrev pub authority_key : Pubkey
authority_key = 11461

abbrev pub series : OToken
series = record {
  underlying = sol;
  strike_asset = usdc;
  collateral = usdc;
  strike_price = 20_000_000_000;
  expiry = pos 1000;
  is_put = true;
  mint = otoken_mint;
  bump = 255;
}

abbrev pub entry : WhitelistedOToken
entry = record { otoken_mint = otoken_mint; active = true; bump = 255 }

abbrev pub settled_price : ExpiryPrice
settled_price = record {
  underlying = sol;
  expiry = pos 1000;
  price = 15_000_000_000;
  is_finalized = true;
  bump = 255;
}

-- The ledger with this much USDC at the user and in the pool, and this many oTokens.
abbrev pub ledger_of : ℕ → ℕ → ℕ → Ledger
ledger_of mine pooled otokens = record {
  accounts =
      (user_usdc, record { mint = usdc; owner = user; amount = mine })
      ∷ (pool_usdc, record { mint = usdc; owner = authority_key; amount = pooled })
      ∷ (user_otokens, record { mint = otoken_mint; owner = user; amount = otokens })
      ∷ [];
  mints = (usdc, 6) ∷ (otoken_mint, 8) ∷ [];
}

abbrev pub outside_of : Ledger → Outside Ledger
outside_of l = record {
  factory = record {
    configs = [];
    operator_configs = [];
    otokens = (1770675838616106001, series) ∷ [];
  };
  whitelist = record { configs = []; whitelisted_otokens = (11561, entry) ∷ [] };
  oracle = record { configs = []; feeds = []; expiry_prices = (10323916, settled_price) ∷ [] };
  ledger = l;
}

abbrev pub opens : OpenVault
opens = record { config = config_key; vault = vault_key; vault_counter = counter_key; owner = user }

abbrev pub deposits : DepositCollateral
deposits = record {
  config = config_key;
  vault = vault_key;
  user_token_account = user_usdc;
  collateral_mint_account = usdc;
  pool_token_account = pool_usdc;
  pool_vault_authority = authority_key;
  owner = user;
}

abbrev pub mints : MintOtoken
mints = record {
  config = config_key;
  vault = vault_key;
  otoken_info = info_key;
  otoken_mint = otoken_mint;
  destination = user_otokens;
  owner = user;
}

abbrev pub settles : SettleVault
settles = record {
  config = config_key;
  vault = vault_key;
  otoken_info = info_key;
  pool_token_account = pool_usdc;
  collateral_mint_account = usdc;
  beneficiary_token_account = user_usdc;
  pool_vault_authority = authority_key;
  admin = admin;
}

abbrev pub withdraws : EmergencyWithdrawVault
withdraws = record {
  config = config_key;
  vault = vault_key;
  pool_token_account = pool_usdc;
  collateral_mint_account = usdc;
  beneficiary_token_account = user_usdc;
  pool_vault_authority = authority_key;
  owner = user;
}

abbrev pub redeems : Redeem
redeems = record {
  config = config_key;
  otoken_info = info_key;
  otoken_mint = otoken_mint;
  redeemer_otoken_account = user_otokens;
  redeemer_collateral_account = user_usdc;
  pool_token_account = pool_usdc;
  collateral_mint_account = usdc;
  pool_vault_authority = authority_key;
  redeemer = user;
}

abbrev pub lists : CreateOTokenInfo
lists = record {
  config = config_key;
  otoken_info = info_key;
  otoken_mint = otoken_mint;
  factory_otoken = 1770675838616106001;
  collateral_mint_account = usdc;
  whitelisted_otoken = 11561;
  factory_operator_config = 120;
  admin = admin;
}

abbrev pub prices : SetExpiryPrice
prices = record {
  config = config_key;
  otoken_info = info_key;
  oracle_expiry_price = 10323916;
  admin = admin;
}
