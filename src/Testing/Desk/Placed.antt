-- ===== src/Testing/Desk/Placed.antt =====
-- One order of the settler on these accounts, and what it leaves.
use options_protocol_solana.Common.{
  ℕ, pos, false, [], ◌∷◌, ◌++◌, ◌≡◌, refl, to_le_bytes, ok, lookup, insert,
}
use options_protocol_solana.Controller.State.{ControllerState, Vault}
use options_protocol_solana.Controller.Collateral.{get_required_collateral}
use options_protocol_solana.Settler.State.{SettlerState}
use options_protocol_solana.Settler.Signature.{build_quote_message}
use options_protocol_solana.Settler.World.{World}
use options_protocol_solana.Settler.Order.Load.{ExecuteOrder, Order, InstructionsSysvar, quote_of}
use options_protocol_solana.Settler.Order.Execute.{execute_order}
use options_protocol_solana.Testing.Bank.{Ledger, bank, clock_at, move_tokens, add_tokens}
use options_protocol_solana.Testing.World.{
  user, usdc, otoken_mint, config_key, info_key, authority_key, user_usdc, pool_usdc,
}
use options_protocol_solana.Testing.Desk.Accounts.{
  system, desk_key, maker, desk_vault, desk_counter, maker_key, fill_key, balance_key, vault_mm_key,
  controller_before, settler_before, desk_ledger, before,
}

abbrev pub orders : ExecuteOrder
orders = record {
  settler_config = desk_key;
  rent_reserve = 109;
  maker_state = maker_key;
  quote_fill = fill_key;
  controller_config = config_key;
  vault = desk_vault;
  vault_counter = desk_counter;
  otoken_info = info_key;
  otoken_mint = otoken_mint;
  collateral_mint_account = usdc;
  premium_mint_account = usdc;
  user_collateral_account = user_usdc;
  pool_token_account = pool_usdc;
  pool_vault_authority = authority_key;
  settler_otoken_account = 41;
  mm_premium_account = 42;
  user_premium_account = user_usdc;
  treasury_account = 43;
  maker_otoken_balance = balance_key;
  vault_mm = vault_mm_key;
  user = user;
  maker = maker;
}

abbrev pub order : Order
order = record {
  amount = 100_000_000;
  bid_price = 5_000_000;
  deadline = pos 2000;
  quote_id = 1;
  max_amount = 100_000_000;
  maker_nonce = 0;
  premium_mint = usdc;
  collateral_amount = 200_000_000;
  collateral_mint = usdc;
}

-- The instruction before the order: a call of the ed25519 program on the maker's key, at 16, and the
-- message, of 104 bytes at 48.
unfoldable pub signatures : InstructionsSysvar
unfolding build_quote_message to_le_bytes
signatures = record {
  ed25519_id = 99;
  earlier =
      record {
        program_id = 99;
        bytes =
            (1 ∷ 0 ∷ 0 ∷ 0 ∷ 0 ∷ 0 ∷ 16 ∷ 0 ∷ 0 ∷ 0 ∷ 48 ∷ 0 ∷ 104 ∷ 0 ∷ 0 ∷ 0 ∷ [])
            ++ (to_le_bytes 32 maker ++ build_quote_message (quote_of orders order));
      }
      ∷ [];
}

abbrev pub order_vault : Vault
order_vault = record {
  owner = desk_key;
  vault_id = 0;
  collateral_mint = usdc;
  collateral_amount = 200_000_000;
  otoken_mint = otoken_mint;
  short_amount = 100_000_000;
  settled = false;
  beneficiary = user;
  bump = 255;
}

abbrev pub custody_after : ℕ → ℕ → SettlerState
custody_after balance remaining = record settler_before {
  fills = (fill_key, record { filled_amount = 100_000_000; cancelled = false; bump = 255 }) ∷ [];
  balances =
      (
        balance_key,
        record { maker = maker; otoken_mint = otoken_mint; balance = balance; bump = 255 },
      )
      ∷ [];
  vault_mms =
      (
        vault_mm_key,
        record {
          maker = maker;
          vault = desk_vault;
          otoken_mint = otoken_mint;
          remaining_amount = remaining;
          bump = 255;
        },
      )
      ∷ [];
}

abbrev pub controller_after : ControllerState
controller_after = record controller_before {
  counters = (desk_counter, record { owner = desk_key; next_id = 1; bump = 255 }) ∷ [];
  vaults = (desk_vault, order_vault) ∷ [];
}

abbrev pub after : World Ledger
after = record {
  settler = custody_after 100_000_000 100_000_000;
  controller = controller_after;
  ledger = desk_ledger 4_800_000 200_000_000 100_000_000 5_000_000 200_000;
}

pub order_runs :
    execute_order bank system (clock_at (pos 500)) signatures before orders order ≡ ok after
unfolding execute_order bank system clock_at signatures lookup insert move_tokens add_tokens
    get_required_collateral
order_runs = refl
