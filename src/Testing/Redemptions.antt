-- ===== src/Testing/Redemptions.antt =====
-- The theorems on custody at the settler's order, after the expiry: a redemption by the operator, and a
-- delivery through the tests' swap program.
use options_protocol_solana.Common.{
  ℕ, pos, true, false, [], ◌∷◌, none, some, lookup, insert, ◌≡◌, refl, inl, ok, err, Option, Result,
  arith,
}
use options_protocol_solana.Runtime.{Runtime}
use options_protocol_solana.Controller.State.{ControllerState}
use options_protocol_solana.Controller.Collateral.{get_payout}
use options_protocol_solana.Settler.World.{World}
use options_protocol_solana.Settler.Custody.Accounts.{CustodyAccounts}
use options_protocol_solana.Settler.Custody.Redeem.{RedeemForMm, redeem_for_mm}
use options_protocol_solana.Settler.Custody.Redeemed.{
  IsRedeemed, redeem_custody, redeem_custody-IsRedeemed,
}
use options_protocol_solana.Settler.Custody.Physical.{PhysicalRedeem, ExternalProgram}
use options_protocol_solana.Settler.Custody.Delivery.{physical_redeem}
use options_protocol_solana.Settler.Custody.Delivered.{AreApart}
use options_protocol_solana.Settler.Custody.Promise.{IsDelivered, physical_redeem-IsDelivered}
use options_protocol_solana.Jupiter.{Swap, swap}
use options_protocol_solana.Testing.Bank.{Ledger, bank, clock_at, move_tokens, remove_tokens}
use options_protocol_solana.Testing.BankLaws.{bank-TransferLaws, bank-NoFee}
use options_protocol_solana.Testing.World.{
  user, usdc, otoken_mint, sol, config_key, info_key, authority_key, pool_usdc,
}
use options_protocol_solana.Testing.Desk.{
  desk_key, maker, operator, desk_vault, balance_key, vault_mm_key, custody_after, controller_after,
  put_info,
}

abbrev later : Runtime
later = clock_at (pos 5000)

-- The pool's collateral, the settler's oTokens, its collateral and the maker's; the reserves of the
-- swap, and the settler's and the user's SOL.
abbrev ledger_at : ℕ → ℕ → ℕ → ℕ → ℕ → ℕ → ℕ → Ledger
ledger_at pooled otokens own theirs reserve output delivered = record {
  accounts =
      (pool_usdc, record { mint = usdc; owner = authority_key; amount = pooled })
      ∷ (41, record { mint = otoken_mint; owner = desk_key; amount = otokens })
      ∷ (44, record { mint = usdc; owner = desk_key; amount = own })
      ∷ (45, record { mint = usdc; owner = maker; amount = theirs })
      ∷ (46, record { mint = sol; owner = desk_key; amount = 3 })
      ∷ (47, record { mint = sol; owner = user; amount = delivered })
      ∷ (48, record { mint = usdc; owner = 50; amount = reserve })
      ∷ (49, record { mint = sol; owner = 50; amount = output })
      ∷ [];
  mints = (usdc, 6) ∷ (otoken_mint, 8) ∷ (sol, 9) ∷ [];
}

abbrev expired : ControllerState
expired = record controller_after {
  infos = (info_key, record put_info { expiry_price = 15_000_000_000 }) ∷ [];
}

-- The settler's collateral account holds 7 of someone's donation.
abbrev pub holding : World Ledger
holding = record {
  settler = custody_after 100_000_000 100_000_000;
  controller = expired;
  ledger = ledger_at 200_000_000 100_000_000 7 0 0 5_000_000_000 0;
}

abbrev pub custody : CustodyAccounts
custody = record {
  settler_config = desk_key;
  maker_otoken_balance = balance_key;
  controller_config = config_key;
  otoken_info = info_key;
  otoken_mint = otoken_mint;
  collateral_mint_account = usdc;
  settler_otoken_account = 41;
  settler_collateral_account = 44;
  mm_collateral_account = 45;
  pool_token_account = pool_usdc;
  pool_vault_authority = authority_key;
}

abbrev for_mm : RedeemForMm
for_mm = record { operator = operator; custody = custody }

abbrev pub redeemed : World Ledger
redeemed = record {
  settler = custody_after 60_000_000 100_000_000;
  controller = expired;
  ledger = ledger_at 120_000_000 60_000_000 7 80_000_000 0 5_000_000_000 0;
}

redeem_runs : redeem_custody bank later holding (inl for_mm) 40_000_000 ≡ ok redeemed
unfolding redeem_custody redeem_for_mm bank clock_at lookup insert move_tokens remove_tokens
    get_payout
redeem_runs = refl

redeem_custody-IsRedeemed_example : IsRedeemed bank (pos 5000) holding redeemed custody 40_000_000
unfolding clock_at
redeem_custody-IsRedeemed_example =
    redeem_custody-IsRedeemed bank bank-TransferLaws later holding redeemed (inl for_mm) 40_000_000
      (λ same. omega arith) redeem_runs

abbrev swaps : Swap
swaps = record {
  source = 44;
  in_reserve = 48;
  out_reserve = 49;
  destination = 47;
  source_authority = desk_key;
  mock_authority = 114;
}

abbrev done_or_failed : ControllerState → Result Ledger → Option (ControllerState × Ledger)
done_or_failed s (ok l) = some (s, l)
done_or_failed s (err _) = none

-- The swap program, called with 60 USDC for 0.4 SOL.
unfoldable mock_jupiter : ExternalProgram Ledger
unfolding swap bank move_tokens clock_at
mock_jupiter program metas route s l = done_or_failed s (
    swap bank (λ l from to authority n. move_tokens l from to n) later l swaps 60_000_000
      400_000_000)

abbrev delivers : PhysicalRedeem
delivers = record {
  operator = operator;
  custody = custody;
  contra_mint = sol;
  settler_contra_account = 46;
  user = user;
  vault = desk_vault;
  vault_mm = vault_mm_key;
  user_contra_account = 47;
  jupiter_program = 16;
  remaining_accounts =
      record { key = 44; is_writable = true } ∷ record { key = desk_key; is_writable = false } ∷ [];
}

-- 0.4 of the option: 80 USDC of collateral, of which the swap takes 60 and the maker gets 20.
abbrev delivered : World Ledger
delivered = record {
  settler = custody_after 60_000_000 60_000_000;
  controller = expired;
  ledger = ledger_at 120_000_000 60_000_000 7 20_000_000 60_000_000 4_600_000_000 400_000_000;
}

delivery_runs :
    physical_redeem bank mock_jupiter later holding delivers 40_000_000 70_000_000 [] ≡ ok delivered
unfolding physical_redeem mock_jupiter bank clock_at lookup insert move_tokens remove_tokens
    get_payout
delivery_runs = refl

delivers-AreApart : AreApart delivers
delivers-AreApart = record {
  collateral_contra = λ same. omega arith;
  collateral_user = λ same. omega arith;
  collateral_mm = λ same. omega arith;
  contra_user = λ same. omega arith;
  contra_mm = λ same. omega arith;
}

physical_redeem-IsDelivered_example :
    IsDelivered bank mock_jupiter later holding delivered delivers 40_000_000 70_000_000 []
physical_redeem-IsDelivered_example =
    physical_redeem-IsDelivered bank bank-TransferLaws mock_jupiter later holding delivered delivers
      40_000_000 70_000_000 [] (bank-NoFee sol) delivers-AreApart delivery_runs
