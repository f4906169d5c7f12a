-- ===== src/Testing/Escape.antt =====
-- The escape hatch at the settler's order, long after the expiry, while the settler is paused.
use options_protocol_solana.Common.{pos, true, [], ◌∷◌, lookup, insert, ◌≡◌, ◌↔◌, ◌+ℤ◌, refl, ok}
use options_protocol_solana.Controller.Collateral.{get_payout}
use options_protocol_solana.Settler.World.{World}
use options_protocol_solana.Settler.Custody.Redeem.{MmSelfRedeem, mm_self_redeem}
use options_protocol_solana.Settler.Custody.Escape.{IsEscape, mm_self_redeem_iff}
use options_protocol_solana.Testing.Bank.{Ledger, bank, clock_at, move_tokens, remove_tokens}
use options_protocol_solana.Testing.Desk.{desk_key, desk_config, maker, maker_key}
use options_protocol_solana.Testing.Redemptions.{holding, redeemed, custody}

abbrev paused : World Ledger
paused = record holding {
  settler = record holding.settler {
    configs = (desk_key, record desk_config { paused = true }) ∷ [];
  };
}

abbrev leaves : MmSelfRedeem
leaves = record { maker_state = maker_key; maker = maker; custody = custody }

abbrev left : World Ledger
left = record redeemed {
  settler = record redeemed.settler {
    configs = (desk_key, record desk_config { paused = true }) ∷ [];
  };
}

leaving_runs : mm_self_redeem bank (clock_at (pos 260_200)) paused leaves 40_000_000 ≡ ok left
unfolding mm_self_redeem bank clock_at lookup insert move_tokens remove_tokens get_payout ◌+ℤ◌
leaving_runs = refl

mm_self_redeem_iff_example :
    (mm_self_redeem bank (clock_at (pos 260_200)) paused leaves 40_000_000 ≡ ok left)
    ↔ IsEscape bank (clock_at (pos 260_200)) paused left leaves 40_000_000
mm_self_redeem_iff_example =
    mm_self_redeem_iff bank (clock_at (pos 260_200)) paused left leaves 40_000_000
