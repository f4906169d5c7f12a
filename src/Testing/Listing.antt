-- ===== src/Testing/Listing.antt =====
-- The theorems on the factory and the whitelist at a concrete series.
use options_protocol_solana.Common.{
  ℕ, pos, ◌≡◌, refl, true, List, [], ◌∷◌, Option, some, none, Pubkey, lookup, insert, ok, ◌+ℤ◌,
}
use options_protocol_solana.Runtime.{load, init_at, vacant}
use options_protocol_solana.Factory.State.{FactoryState, OToken}
use options_protocol_solana.Factory.Series
use options_protocol_solana.Factory.Series.{CreateOtoken, Terms}
use options_protocol_solana.Factory.Machine
use options_protocol_solana.Factory.Machine.{Transaction, run}
use options_protocol_solana.Factory.Placement.{IsPlaced, no_series, run-IsPlaced, run-otoken}
use options_protocol_solana.Whitelist.State.{WhitelistState, WhitelistConfig}
use options_protocol_solana.Whitelist.Entries.{WhitelistOToken, whitelist_otoken}
use options_protocol_solana.Whitelist.Authority.{IsAuthorized, whitelist_otoken-IsAuthorized}
use options_protocol_solana.Testing.Bank.{Ledger, bank, clock_at}
use options_protocol_solana.Testing.World.{admin, sol, usdc, ledger_of}

-- A token program that always makes the mint.
abbrev make_mint : Ledger → Pubkey → ℕ → Pubkey → Option Ledger
make_mint l mint decimals authority = some (record l { mints = (mint, decimals) ∷ l.mints })

abbrev factory_key : Pubkey
factory_key = 111

abbrev operator_key : Pubkey
operator_key = 120

abbrev series_key : Pubkey
series_key = 1770675838616106001

abbrev mint_key : Pubkey
mint_key = 1770675838616106006

abbrev terms : Terms
terms = record {
  underlying = sol;
  strike_asset = usdc;
  collateral = usdc;
  strike_price = 20_000_000_000;
  expiry = pos 1000;
  is_put = true;
}

abbrev creates : CreateOtoken
creates = record {
  factory_config = factory_key;
  operator_config = operator_key;
  otoken = series_key;
  otoken_mint = mint_key;
  controller_authority = 114;
  admin = admin;
}

abbrev at_100 : Machine.Instruction → Transaction Ledger
at_100 i = record { now = pos 100; ledger = ledger_of 0 0 0; instruction = i }

abbrev creation : List (Transaction Ledger)
creation =
    at_100 (Machine.initialize (record { factory_config = factory_key; payer = admin }) admin)
    ∷ at_100 (Machine.set_controller (record { factory_config = factory_key; admin = admin }) 114)
    ∷ at_100 (
        Machine.set_operator
          (record { factory_config = factory_key; operator_config = operator_key; admin = admin })
          12)
    ∷ at_100 (Machine.create_otoken creates terms)
    ∷ []

abbrev series : OToken
series = record {
  underlying = sol;
  strike_asset = usdc;
  collateral = usdc;
  strike_price = 20_000_000_000;
  expiry = pos 1000;
  is_put = true;
  mint = mint_key;
  bump = 255;
}

creation_runs :
    lookup series_key (run bank make_mint (clock_at (pos 0)) no_series creation).otokens
    ≡ some series
unfolding run clock_at bank lookup insert load init_at vacant ◌+ℤ◌ Series.create_otoken
    Series.set_operator Series.set_controller Series.initialize
creation_runs = refl

run-IsPlaced_example : IsPlaced (clock_at (pos 0)).find_program_address series_key series
run-IsPlaced_example =
    run-IsPlaced bank make_mint (clock_at (pos 0)) creation series_key series creation_runs

abbrev factory : FactoryState
factory = record no_series { otokens = (series_key, series) ∷ [] }

run-otoken_example :
    lookup series_key (run bank make_mint (clock_at (pos 0)) factory creation).otokens ≡ some series
unfolding lookup
run-otoken_example =
    run-otoken bank make_mint (clock_at (pos 0)) factory creation series_key series refl

abbrev list_config : WhitelistConfig
list_config = record { admin = admin; factory = 0; bump = 255 }

abbrev unlisted : WhitelistState
unlisted = record { configs = (113, list_config) ∷ []; whitelisted_otokens = [] }

abbrev lists : WhitelistOToken
lists = record {
  whitelisted_otoken = 171755556345762292009;
  config = 113;
  factory_otoken = series_key;
  factory_operator_config = operator_key;
  caller = admin;
}

abbrev listed : WhitelistState
listed = record unlisted {
  whitelisted_otokens =
      (171755556345762292009, record { otoken_mint = mint_key; active = true; bump = 255 }) ∷ [];
}

listing_runs : whitelist_otoken (clock_at (pos 0)) unlisted factory lists mint_key ≡ ok listed
unfolding whitelist_otoken clock_at lookup insert load init_at vacant
listing_runs = refl

whitelist_otoken-IsAuthorized_example :
    (config : WhitelistConfig) × (otoken : OToken) × (bump : ℕ) × (lookup 113 unlisted.configs
      ≡ some config)
    × (lookup series_key factory.otokens ≡ some otoken)
    × (otoken.mint ≡ mint_key)
    × IsAuthorized factory config operator_key admin
    × (lookup 171755556345762292009 unlisted.whitelisted_otokens ≡ none)
    × (listed.whitelisted_otokens
        ≡ insert 171755556345762292009
            (record { otoken_mint = mint_key; active = true; bump = bump })
            unlisted.whitelisted_otokens)
whitelist_otoken-IsAuthorized_example =
    whitelist_otoken-IsAuthorized (clock_at (pos 0)) unlisted factory lists mint_key listed
      listing_runs
