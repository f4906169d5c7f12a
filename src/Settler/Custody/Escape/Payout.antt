-- ===== src/Settler/Custody/Escape/Payout.antt =====
-- The redemption at the controller, and the forwarding of its payout, of
-- programs/batch_settler/src/lib.rs.
use options_protocol_solana.Common.{
  ℕ, ◌+◌, ◌-◌, ◌≤◌, ◌<◌, ◌≡◌, ◌⊎◌, inl, inr, some, ok, Result, Bool-cases, ltb, if◌then◌else◌, ap,
  sym, subst, checked_sub, checked_sub-eq, >>=-eq-ok, >>=-ok, SettlerError, arith,
}
use options_protocol_solana.Runtime.{
  Runtime, TokenAccount, TokenProgram, TransferChecked, load_token, load_token-eq, load_token-ok,
  invoke, invoke-eq,
}
use options_protocol_solana.Controller.State.{ControllerState}
use options_protocol_solana.Controller.Redeem
use options_protocol_solana.Settler.State.{or_else}
use options_protocol_solana.Settler.Custody.Accounts.{CustodyAccounts, Custody, cpi_redeem}
use options_protocol_solana.Settler.Custody.Redeem.{redeem_and_forward}

-- The accounts of the controller's `redeem`, for the settler's own oTokens.
abbrev pub controller_accounts : CustodyAccounts → Redeem.Redeem
controller_accounts c = record {
  config = c.controller_config;
  otoken_info = c.otoken_info;
  otoken_mint = c.otoken_mint;
  redeemer_otoken_account = c.settler_otoken_account;
  redeemer_collateral_account = c.settler_collateral_account;
  pool_token_account = c.pool_token_account;
  collateral_mint_account = c.collateral_mint_account;
  pool_vault_authority = c.pool_vault_authority;
  redeemer = c.settler_config;
}

-- The transfer of collateral from the settler to the maker.
abbrev pub to_maker : CustodyAccounts → TransferChecked
to_maker c = record {
  from = c.settler_collateral_account;
  mint = c.collateral_mint_account;
  to = c.mm_collateral_account;
  authority = c.settler_config;
}

-- The controller redeems the amount; the settler's collateral account then has no less than before;
-- and what it has more is transferred to the maker, if it is anything.
pub record IsForwarded {L : Type 0} (t : TokenProgram L) (rt : Runtime) (s : ControllerState)
    (l l' : L) (c : CustodyAccounts) (k : Custody) (amount : ℕ) : Type 0 where
  pub redeemed_ledger : L
  pub redeemed : Redeem.redeem t rt s l (controller_accounts c) amount ≡ ok redeemed_ledger
  pub after : TokenAccount
  pub there : t.account redeemed_ledger c.settler_collateral_account ≡ some after
  pub no_less : k.settler_collateral.amount ≤ after.amount
  pub forwarded :
      ((after.amount ≡ k.settler_collateral.amount) × (l' ≡ redeemed_ledger))
      ⊎ ((k.settler_collateral.amount < after.amount)
          × (t.transfer_checked redeemed_ledger
                (to_maker c)
                (after.amount - k.settler_collateral.amount)
                k.collateral_decimals
              ≡ some l'))

module _ {L : Type 0} (t : TokenProgram L) (rt : Runtime) (s : ControllerState) (l l' : L)
    (c : CustodyAccounts) (k : Custody) (amount : ℕ) where
  -- The last step, with what the redemption has brought in.
  abbrev paid : L → ℕ → Result L
  paid l1 payout =
      if ltb 0 payout
      then invoke (t.transfer_checked l1 (to_maker c) payout k.collateral_decimals)
      else ok l1

  paid-forwarded :
      (l1 : L) (payout : ℕ)
      → paid l1 payout ≡ ok l'
      → ((payout ≡ 0) × (l' ≡ l1))
        ⊎ ((0 < payout)
            × (t.transfer_checked l1 (to_maker c) payout k.collateral_decimals ≡ some l'))
  paid-forwarded l1 payout e = elim (Bool-cases (ltb 0 payout)) [
    | inl some_payout ↦ inr (ground arith, invoke-eq _ (ground arith))
    | inr no_payout ↦ inl (ground arith, ground arith)
  ]

  difference : (p b a : ℕ) → p + b ≡ a → p ≡ a - b
  difference p b a e = omega arith

  pub forwards-IsForwarded :
      redeem_and_forward t rt s l c k amount ≡ ok l' → IsForwarded t rt s l l' c k amount
  unfolding redeem_and_forward cpi_redeem
  forwards-IsForwarded e =
      let (l1, redeemed, e) = >>=-eq-ok (cpi_redeem t rt s l c amount) _ e in
      let (after, ea, e) = >>=-eq-ok (load_token t l1 c.settler_collateral_account) _ e in
      let (payout, ep, e) =
        >>=-eq-ok (or_else (checked_sub after.amount k.settler_collateral.amount) _) _ e in
      let sum = checked_sub-eq _ _ _ _ ep in
      record {
        redeemed_ledger = l1;
        redeemed = redeemed;
        after = after;
        there = load_token-eq t l1 c.settler_collateral_account ea;
        no_less = omega arith;
        forwarded = elim (paid-forwarded l1 payout e) [
          | inl (nothing, same) ↦ inl (omega arith, same)
          | inr (something, transferred) ↦ inr (
            omega arith,
            subst (λ n. t.transfer_checked l1 (to_maker c) n k.collateral_decimals ≡ some l')
                (difference _ _ _ sum) transferred,
          )
        ];
      }

  subtracts : (f : SettlerError) (m n : ℕ) → n ≤ m → or_else (checked_sub m n) f ≡ ok (m - n)
  unfolding checked_sub
  subtracts f m n h = ground arith

  pays :
      (l1 : L) (after : TokenAccount)
      → ((after.amount ≡ k.settler_collateral.amount) × (l' ≡ l1))
        ⊎ ((k.settler_collateral.amount < after.amount)
            × (t.transfer_checked l1
                  (to_maker c)
                  (after.amount - k.settler_collateral.amount)
                  k.collateral_decimals
                ≡ some l'))
      → paid l1 (after.amount - k.settler_collateral.amount) ≡ ok l'
  unfolding invoke
  pays l1 after (inl (same, kept)) =
      let nothing : after.amount - k.settler_collateral.amount ≡ 0 = omega arith in
      rw nothing (ap ok (sym kept))
  pays l1 after (inr (more, transferred)) = ground (arith, transferred)

  pub forwarded-forwards :
      IsForwarded t rt s l l' c k amount → redeem_and_forward t rt s l c k amount ≡ ok l'
  unfolding redeem_and_forward cpi_redeem
  forwarded-forwards h = >>=-ok _ h.redeemed (
      >>=-ok _ (load_token-ok t h.redeemed_ledger c.settler_collateral_account h.there) (
        >>=-ok _ (subtracts _ h.after.amount k.settler_collateral.amount h.no_less)
          (pays h.redeemed_ledger h.after h.forwarded)))
