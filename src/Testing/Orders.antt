-- ===== src/Testing/Orders.antt =====
-- The theorems on orders at the settler's order.
use options_protocol_solana.Common.{pos, none, some, lookup, ◌≡◌, ◌≤◌, ◌+◌}
use options_protocol_solana.Settler.State.{MakerOTokenBalance, VaultMm}
use options_protocol_solana.Settler.Order.Load.{LoadedOrder}
use options_protocol_solana.Settler.Order.Loaded.{AreLoaded, IsBound}
use options_protocol_solana.Settler.Order.Terms.{IsQuoted, filled_at}
use options_protocol_solana.Settler.Order.Credits.{balance_at, IsOpenTo}
use options_protocol_solana.Settler.Order.Agreement.{execute_order-IsQuoted, execute_order-credits}
use options_protocol_solana.Settler.Order.Vault.{IsWritten, execute_order-IsWritten}
use options_protocol_solana.Testing.Bank.{bank, clock_at}
use options_protocol_solana.Testing.Desk.{
  system, signatures, before, after, orders, order, order_runs, maker, fill_key, balance_key,
  vault_mm_key, desk_vault,
}
use options_protocol_solana.Testing.World.{otoken_mint}

execute_order-IsQuoted_example :
    (o : LoadedOrder) × AreLoaded bank (clock_at (pos 500)) before orders order o
    × IsBound orders order o
    × IsQuoted (clock_at (pos 500)) signatures orders order o.maker_state
    × (filled_at after.settler fill_key ≡ filled_at before.settler fill_key + 100_000_000)
    × (filled_at after.settler fill_key ≤ 100_000_000)
execute_order-IsQuoted_example =
    execute_order-IsQuoted bank system (clock_at (pos 500)) signatures before after orders order
      order_runs

execute_order-credits_example :
    (b : MakerOTokenBalance) × (v : VaultMm) × (lookup balance_key after.settler.balances ≡ some b)
    × (lookup vault_mm_key after.settler.vault_mms ≡ some v)
    × (lookup vault_mm_key before.settler.vault_mms ≡ none)
    × IsOpenTo before.settler balance_key maker otoken_mint
    × (b.maker ≡ maker)
    × (b.otoken_mint ≡ otoken_mint)
    × (b.balance ≡ balance_at before.settler balance_key + 100_000_000)
    × (v.maker ≡ maker)
    × (v.vault ≡ desk_vault)
    × (v.otoken_mint ≡ otoken_mint)
    × (v.remaining_amount ≡ 100_000_000)
execute_order-credits_example =
    execute_order-credits bank system (clock_at (pos 500)) signatures before after orders order
      order_runs

execute_order-IsWritten_example : IsWritten before.controller after.controller orders order
execute_order-IsWritten_example =
    execute_order-IsWritten bank system (clock_at (pos 500)) signatures before after orders order
      order_runs
