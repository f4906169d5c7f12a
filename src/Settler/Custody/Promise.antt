-- ===== src/Settler/Custody/Promise.antt =====
-- A whole `physical_redeem` of programs/batch_settler/src/lib.rs.
use options_protocol_solana.Common.{
  ℕ, ◌+◌, ◌≤◌, ◌≡◌, ◌∙◌, subst, some, true, false, ok, >>=-eq-ok, ltb, not, ◌==◌, if◌then◌else◌,
  guard-eq, checked_sub-eq, List, Bool, Bool-cases, Result, inl, inr, arith,
}
use options_protocol_solana.Runtime.{
  Runtime, TokenAccount, TokenProgram, TransferLaws, load_token-eq, invoke-eq,
}
use options_protocol_solana.Controller.State.{ControllerState}
use options_protocol_solana.Settler.State.{require}
use options_protocol_solana.Settler.Quotes.{validate_itm, compute_contra_amount}
use options_protocol_solana.Settler.World.{World}
use options_protocol_solana.Settler.Custody.Accounts.{cpi_redeem}
use options_protocol_solana.Settler.Custody.Physical.{
  PhysicalRedeem, Delivery, ExternalProgram, check_delivery, invoke_jupiter_swap, accounts_meta,
}
use options_protocol_solana.Settler.Custody.Delivery.{physical_redeem}
use options_protocol_solana.Settler.Custody.Payments.{NoFee}
use options_protocol_solana.Settler.Custody.Delivered.{
  AreApart, measure_swap-Measured, IsPaid, deliver_put-IsPaid, deliver_call-IsPaid,
}
use options_protocol_solana.Settler.Custody.Taken.{
  DeliveryLoaded, load_physical_redeem-Loaded, taken, take_custody-eq,
}
use options_protocol_solana.Settler.Custody.Swapped.{Ran, physical_redeem-Ran}

-- What a delivery has gone by: the terms, the price at which it is owed, and the swap.
pub record IsDelivered {L : Type 0} (t : TokenProgram L) (program : ExternalProgram L)
    (rt : Runtime) (w w' : World L) (a : PhysicalRedeem) (amount most : ℕ) (route : List ℕ)
    : Type 0 where
  pub d : Delivery
  pub contra_amount : ℕ
  pub loaded : DeliveryLoaded t rt w a d
  pub in_the_money : validate_itm rt d.custody.info ≡ ok tt
  pub asset :
      a.contra_mint
      ≡ (if d.custody.info.is_put then d.custody.info.underlying else d.custody.info.strike_asset)
  pub owed :
      compute_contra_amount amount d.custody.info.strike_price d.custody.info.is_put
        d.contra_decimals
      ≡ ok contra_amount
  pub enough : amount ≤ d.custody.balance.balance
  pub remaining : amount ≤ d.vault_mm.remaining_amount
  pub left : w'.settler ≡ taken w.settler a d amount
  -- The collateral that the swap has taken, between the ledgers before and after it.
  pub redeemed : L
  pub swapped : L
  pub had : TokenAccount
  pub has : TokenAccount
  pub redeems : cpi_redeem t rt w.controller w.ledger a.custody amount ≡ ok redeemed
  pub swaps :
      program d.config.jupiter_program
        (accounts_meta a.custody.settler_config a.remaining_accounts)
        route
        w.controller
        redeemed
      ≡ some (w'.controller, swapped)
  pub had_collateral : t.account redeemed a.custody.settler_collateral_account ≡ some had
  pub has_collateral : t.account swapped a.custody.settler_collateral_account ≡ some has
  pub limited : had.amount ≤ has.amount + most
  pub paid : IsPaid t a d w'.ledger contra_amount d.custody.settler_collateral.amount

check_delivery-eq :
    (rt : Runtime) (a : PhysicalRedeem) (d : Delivery) (amount contra_amount : ℕ)
    → check_delivery rt a d amount ≡ ok contra_amount
    → (validate_itm rt d.custody.info ≡ ok tt)
      × (a.contra_mint ≡ (
          if d.custody.info.is_put then d.custody.info.underlying else d.custody.info.strike_asset))
      × (compute_contra_amount amount d.custody.info.strike_price d.custody.info.is_put
            d.contra_decimals
          ≡ ok contra_amount)
unfolding check_delivery
check_delivery-eq rt a d amount contra_amount e =
    let info = d.custody.info in
    let expected = if info.is_put then info.underlying else info.strike_asset in
    let (_, _, e) = >>=-eq-ok (require (ltb 0 amount) _) _ e in
    let (_, _, e) = >>=-eq-ok (require (not d.config.paused) _) _ e in
    let (_, itm, e) = >>=-eq-ok (validate_itm rt info) _ e in
    let (_, mint, e) = >>=-eq-ok (require (a.contra_mint == expected) _) _ e in
    let (n, owed, e) =
      >>=-eq-ok (compute_contra_amount amount info.strike_price info.is_put d.contra_decimals) _
        e in
    let (_, _, e) =
      >>=-eq-ok
        (require
          (d.custody.mm_collateral.mint == (if info.is_put then info.collateral_mint else expected))
          _)
        _ e in
    (itm, guard-eq _ a.contra_mint expected mint, owed ∙ e)

invoke_jupiter_swap-eq :
    {L : Type 0} (t : TokenProgram L) (program : ExternalProgram L) (s s' : ControllerState)
    (l l' : L) (a : PhysicalRedeem) (expected : ℕ) (route : List ℕ)
    → invoke_jupiter_swap t program s l a expected route ≡ ok (s', l')
    → program expected (accounts_meta a.custody.settler_config a.remaining_accounts) route s l
      ≡ some (s', l')
unfolding invoke_jupiter_swap
invoke_jupiter_swap-eq t program s s' l l' a expected route e =
    let (_, same, e) = >>=-eq-ok (require (a.jupiter_program == expected) _) _ e in
    subst
      (λ p.
        program p (accounts_meta a.custody.settler_config a.remaining_accounts) route s l
        ≡ some (s', l'))
      (guard-eq _ a.jupiter_program expected same) (invoke-eq _ e)

chosen :
    {L : Type 0} {l : L} (b : Bool) (A B : Result L)
    → b ≡ true
    → (if b then A else B) ≡ ok l
    → A ≡ ok l
chosen true A B y e = e
chosen false A B y e = cc

refused :
    {L : Type 0} {l : L} (b : Bool) (A B : Result L)
    → b ≡ false
    → (if b then A else B) ≡ ok l
    → B ≡ ok l
refused true A B y e = cc
refused false A B y e = e

module _ {L : Type 0} (t : TokenProgram L) (program : ExternalProgram L) (rt : Runtime)
    (w w' : World L) (a : PhysicalRedeem) (amount most : ℕ) (route : List ℕ) where
  module _ (laws : TransferLaws t) (exact : NoFee t a.contra_mint) (apart : AreApart a) where
    Ran-IsPaid :
        (r : Ran t program rt w w' a amount most route)
        → IsPaid t a r.d w'.ledger r.contra r.d.custody.settler_collateral.amount
    Ran-IsPaid r =
        let before = r.d.custody.settler_collateral.amount in
        let m = measure_swap-Measured t a r.d r.l2 r.received r.had.amount most r.x r.measures in
        let whole = checked_sub-eq _ r.had.amount before r.received r.receives in
        elim (Bool-cases r.d.custody.info.is_put) [
          | inl put ↦
              deliver_put-IsPaid t a r.d laws apart r.l2 w'.ledger r.contra before r.received
                r.had.amount most r.x m whole (chosen r.d.custody.info.is_put _ _ put r.delivers)
          | inr call ↦
              deliver_call-IsPaid t a r.d laws apart r.l2 w'.ledger r.contra before r.received
                r.had.amount most r.x m whole exact
                (refused r.d.custody.info.is_put _ _ call r.delivers)
        ]

    Ran-IsDelivered :
        Ran t program rt w w' a amount most route
        → IsDelivered t program rt w w' a amount most route
    Ran-IsDelivered r =
        let m = measure_swap-Measured t a r.d r.l2 r.received r.had.amount most r.x r.measures in
        let (itm, asset, owed) = check_delivery-eq rt a r.d amount r.contra r.checks in
        let (enough, remaining, left) = take_custody-eq w.settler w'.settler a r.d amount r.takes in
        record {
          d = r.d;
          contra_amount = r.contra;
          loaded = load_physical_redeem-Loaded t rt w a r.d r.loads;
          in_the_money = itm;
          asset = asset;
          owed = owed;
          enough = enough;
          remaining = remaining;
          left = left;
          redeemed = r.l1;
          swapped = r.l2;
          had = r.had;
          has = m.collateral;
          redeems = r.redeems;
          swaps =
              invoke_jupiter_swap-eq t program w.controller w'.controller r.l1 r.l2 a
                r.d.config.jupiter_program route r.swaps;
          had_collateral = load_token-eq t r.l1 a.custody.settler_collateral_account r.finds;
          has_collateral = m.has_collateral;
          limited = omega (arith, m.used, m.limited);
          paid = Ran-IsPaid r;
        }

-- Whatever the swap does, a delivery that succeeds is of an expired series in the money, owes the
-- amount of the other asset that the terms price, and takes exactly its amount from the custody of the
-- maker and of the vault, which held it; the swap has used no more than the operator's limit; the
-- user's account, which is the user's, has gained what is owed, and the settler's accounts have as much
-- as before. The token program keeps the laws of a transfer, the contra mint has no fee, and the
-- accounts are apart.
pub physical_redeem-IsDelivered :
    {L : Type 0} (t : TokenProgram L)
    → TransferLaws t
    → (program : ExternalProgram L) (rt : Runtime) (w w' : World L) (a : PhysicalRedeem)
      (amount most : ℕ) (route : List ℕ)
    → NoFee t a.contra_mint
    → AreApart a
    → physical_redeem t program rt w a amount most route ≡ ok w'
    → IsDelivered t program rt w w' a amount most route
physical_redeem-IsDelivered t laws program rt w w' a amount most route exact apart e =
    Ran-IsDelivered t program rt w w' a amount most route laws exact apart
      (physical_redeem-Ran t program rt w w' a amount most route e)
