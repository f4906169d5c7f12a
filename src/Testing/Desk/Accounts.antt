-- ===== src/Testing/Desk/Accounts.antt =====
-- The settler's keys and accounts on the concrete token program, before an order.
use options_protocol_solana.Common.{ℕ, pos, true, false, [], ◌∷◌, Pubkey, some, default}
use options_protocol_solana.Runtime.{SystemProgram}
use options_protocol_solana.Controller.State.{ControllerState, OTokenInfo}
use options_protocol_solana.Settler.State.{SettlerState, SettlerConfig}
use options_protocol_solana.Settler.World.{World}
use options_protocol_solana.Testing.Bank.{Ledger}
use options_protocol_solana.Testing.World.{
  admin, user, usdc, otoken_mint, sol, config_key, info_key, authority_key, user_usdc, pool_usdc,
}

-- Lamports are free, and every address is the system program's.
unfoldable pub system : SystemProgram Ledger
system = record {
  lamports = λ l k. 0;
  owner = λ l k. 0;
  minimum_balance = λ space. space;
  create_account = λ l from to lamports space owner. some l;
  transfer = λ l from to lamports. some l;
  allocate = λ l k space. some l;
  assign = λ l k owner. some l;
}

abbrev pub desk_key : Pubkey
desk_key = 111

abbrev pub maker : Pubkey
maker = 13

abbrev pub treasury : Pubkey
treasury = 14

abbrev pub operator : Pubkey
operator = 15

abbrev pub desk_vault : Pubkey
desk_vault = 923445

abbrev pub desk_counter : Pubkey
desk_counter = 20189

abbrev pub maker_key : Pubkey
maker_key = 10675

abbrev pub fill_key : Pubkey
fill_key = 89443225

abbrev pub balance_key : Pubkey
balance_key = 1120942

abbrev pub vault_mm_key : Pubkey
vault_mm_key = 89583582

abbrev pub desk_config : SettlerConfig
desk_config = record {
  owner = admin;
  operator = operator;
  treasury = treasury;
  protocol_fee_bps = 400;
  paused = false;
  escape_delay = pos 259_200;
  jupiter_program = 16;
  bump = 255;
}

abbrev pub put_info : OTokenInfo
put_info = record {
  otoken_mint = otoken_mint;
  underlying = sol;
  strike_asset = usdc;
  collateral_mint = usdc;
  strike_price = 20_000_000_000;
  expiry = pos 1000;
  is_put = true;
  collateral_decimals = 6;
  expiry_price = 0;
}

abbrev pub controller_before : ControllerState
controller_before = record {
  configs =
      (
        config_key,
        record {
          admin = admin;
          partial_pauser = default;
          partially_paused = false;
          fully_paused = false;
          bump = 255;
        },
      )
      ∷ [];
  counters = (desk_counter, record { owner = desk_key; next_id = 0; bump = 255 }) ∷ [];
  vaults = [];
  infos = (info_key, put_info) ∷ [];
}

abbrev pub settler_before : SettlerState
settler_before = record {
  configs = (desk_key, desk_config) ∷ [];
  makers = (maker_key, record { maker = maker; nonce = 0; whitelisted = true; bump = 255 }) ∷ [];
  fills = [];
  balances = [];
  vault_mms = [];
}

-- USDC of the user, the pool, the maker and the treasury, and the oTokens of the settler; what the
-- settler has of SOL and of USDC, and the maker and the user of SOL.
abbrev pub desk_ledger : ℕ → ℕ → ℕ → ℕ → ℕ → Ledger
desk_ledger mine pooled otokens premium fees = record {
  accounts =
      (user_usdc, record { mint = usdc; owner = user; amount = mine })
      ∷ (pool_usdc, record { mint = usdc; owner = authority_key; amount = pooled })
      ∷ (41, record { mint = otoken_mint; owner = desk_key; amount = otokens })
      ∷ (42, record { mint = usdc; owner = maker; amount = premium })
      ∷ (43, record { mint = usdc; owner = treasury; amount = fees })
      ∷ [];
  mints = (usdc, 6) ∷ (otoken_mint, 8) ∷ (sol, 9) ∷ [];
}

abbrev pub before : World Ledger
before = record {
  settler = settler_before;
  controller = controller_before;
  ledger = desk_ledger 200_000_000 0 0 10_000_000 0;
}
