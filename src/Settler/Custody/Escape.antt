-- ===== src/Settler/Custody/Escape.antt =====
-- The escape hatch of programs/batch_settler/src/lib.rs: `mm_self_redeem`.
pub mod Held
pub mod Accounts
pub mod Payout
use options_protocol_solana.Common.{
  >>=-ok, Error, SettlerError, guard, refl, sym, ok_inj, ◌∙◌, ℕ, ℤ, ◌-◌, checked_sub, pos, ◌≤◌, ◌<◌,
  ◌≤ℤ◌, ◌<ℤ◌, ◌≡◌, ◌↔◌, ap, some, ok, >>=-eq-ok, ltb, ltb_ℤ, leb_ℤ, guard-lt, guard-lt_ℤ,
  guard-le_ℤ, checked_add_i64, arith,
}
use options_protocol_solana.Runtime.{Runtime, TokenProgram, ok_or-eq}
use options_protocol_solana.Settler.State.{require, or_else, MakerOTokenBalance}
use options_protocol_solana.Settler.World.{World}
use options_protocol_solana.Settler.Custody.Accounts.{Custody, debit_balance, put_balance}
use options_protocol_solana.Settler.Custody.Redeem.{
  MmSelfRedeem, load_mm_self_redeem, redeem_and_forward, mm_self_redeem,
}
use options_protocol_solana.Settler.Custody.Forward.{debit_balance-eq}
use options_protocol_solana.Settler.Custody.Escape.Accounts.{IsMakers, loads-IsMakers, makers-load}
use options_protocol_solana.Settler.Custody.Escape.Payout.{
  IsForwarded, forwards-IsForwarded, forwarded-forwards,
}

-- When a maker may leave: the amount is in custody, and the delay after the expiry has passed.
pub record IsReady (now delay : ℤ) (k : Custody) (amount : ℕ) : Type 0 where
  pub positive : 0 < amount
  pub enough : amount ≤ k.balance.balance
  pub delayed : pos 0 <ℤ delay
  pub escape_time : ℤ
  pub escape : checked_add_i64 k.info.expiry delay ≡ some escape_time
  pub reached : escape_time ≤ℤ now
  pub priced : 0 < k.info.expiry_price

-- The accounts are the maker's, the maker may leave, the controller's redemption and the transfer of
-- its payout succeed, and nothing else changes but the balance, which is less by the amount.
pub record IsEscape {L : Type 0} (t : TokenProgram L) (rt : Runtime) (w w' : World L)
    (a : MmSelfRedeem) (amount : ℕ) : Type 0 where
  pub delay : ℤ
  pub k : Custody
  pub ledger : L
  pub accounts : IsMakers t rt w a delay k
  pub ready : IsReady rt.now delay k amount
  pub payout : IsForwarded t rt w.controller w.ledger ledger a.custody k amount
  pub left : w' ≡ record w {
    settler =
        put_balance w.settler a.custody.maker_otoken_balance
          (record k.balance { balance = k.balance.balance - amount });
    ledger = ledger;
  }

module _ {L : Type 0} (t : TokenProgram L) (rt : Runtime) (w : World L) (a : MmSelfRedeem) where
  redeems-IsEscape :
      (w' : World L) (amount : ℕ)
      → mm_self_redeem t rt w a amount ≡ ok w'
      → IsEscape t rt w w' a amount
  unfolding mm_self_redeem
  redeems-IsEscape w' amount e =
      let ((delay, k), loaded, e) = >>=-eq-ok (load_mm_self_redeem t rt w a) _ e in
      let (_, positive, e) = >>=-eq-ok (require (ltb 0 amount) _) _ e in
      let (_, delayed, e) = >>=-eq-ok (require (ltb_ℤ (pos 0) delay) _) _ e in
      let (escape, sum, e) = >>=-eq-ok (or_else (checked_add_i64 k.info.expiry delay) _) _ e in
      let (_, reached, e) = >>=-eq-ok (require (leb_ℤ escape rt.now) _) _ e in
      let (_, priced, e) = >>=-eq-ok (require (ltb 0 k.info.expiry_price) _) _ e in
      let (b, debited, e) = >>=-eq-ok (debit_balance k.balance amount) _ e in
      let (l, forwarded, e) =
        >>=-eq-ok (redeem_and_forward t rt w.controller w.ledger a.custody k amount) _ e in
      let (enough, debit) = debit_balance-eq k.balance b amount debited in
      record {
        delay = delay;
        k = k;
        ledger = l;
        accounts = loads-IsMakers t rt w a delay k loaded;
        ready = record {
          positive = guard-lt _ 0 amount positive;
          enough = enough;
          delayed = guard-lt_ℤ _ (pos 0) delay delayed;
          escape_time = escape;
          escape = ok_or-eq _ _ sum;
          reached = guard-le_ℤ _ escape rt.now reached;
          priced = guard-lt _ 0 k.info.expiry_price priced;
        };
        payout = forwards-IsForwarded t rt w.controller w.ledger l a.custody k amount forwarded;
        left =
            sym (ok_inj e)
            ∙ ap
                (λ b. record w {
                  settler = put_balance w.settler a.custody.maker_otoken_balance b;
                  ledger = l;
                })
                debit;
      }

  debits :
      (b : MakerOTokenBalance) (amount : ℕ)
      → amount ≤ b.balance
      → debit_balance b amount ≡ ok (record b { balance = b.balance - amount })
  unfolding debit_balance checked_sub
  debits b amount le = ground arith

  ready-redeems :
      (amount : ℕ) (delay : ℤ) (k : Custody) (l : L)
      → load_mm_self_redeem t rt w a ≡ ok (delay, k)
      → IsReady rt.now delay k amount
      → redeem_and_forward t rt w.controller w.ledger a.custody k amount ≡ ok l
      → mm_self_redeem t rt w a amount
        ≡ ok (record w {
          settler =
              put_balance w.settler a.custody.maker_otoken_balance
                (record k.balance { balance = k.balance.balance - amount });
          ledger = l;
        })
  unfolding mm_self_redeem
  ready-redeems amount delay k l loaded r forwarded = >>=-ok _ loaded (
      >>=-ok _ (tested_lt _ amount r.positive) (
        >>=-ok _ (tested_delay _ r.delayed) (
          >>=-ok _ (ap (λ o. or_else o SettlerError.math_overflow) r.escape) (
            >>=-ok _ (tested_time _ r.escape_time r.reached) (
              >>=-ok _ (tested_lt _ k.info.expiry_price r.priced)
                (>>=-ok _ (debits k.balance amount r.enough) (>>=-ok _ forwarded refl)))))))
    where
      tested_lt : (f : Error) (n : ℕ) → 0 < n → guard (ltb 0 n) f ≡ ok tt
      tested_lt f n h = ground arith

      tested_delay : (f : Error) → pos 0 <ℤ delay → guard (ltb_ℤ (pos 0) delay) f ≡ ok tt
      tested_delay f h = ground arith

      tested_time : (f : Error) (z : ℤ) → z ≤ℤ rt.now → guard (leb_ℤ z rt.now) f ≡ ok tt
      tested_time f z h = ground arith

-- A maker redeems without the operator exactly when the accounts are the maker's and the maker is
-- whitelisted, the amount is positive and in custody, the expiry has a price and is past by a positive
-- escape delay, and the controller's redemption and the transfer of its payout succeed; the balance is
-- then less by the amount. Whether the settler is paused is no part of it.
pub mm_self_redeem_iff :
    {L : Type 0} (t : TokenProgram L) (rt : Runtime) (w w' : World L) (a : MmSelfRedeem)
    (amount : ℕ)
    → (mm_self_redeem t rt w a amount ≡ ok w') ↔ IsEscape t rt w w' a amount
mm_self_redeem_iff t rt w w' a amount = (
  (λ e. redeems-IsEscape t rt w a w' amount e),
  (λ x.
      ready-redeems t rt w a amount x.delay x.k x.ledger
        (makers-load t rt w a x.delay x.k x.accounts) x.ready
        (forwarded-forwards t rt w.controller w.ledger x.ledger a.custody x.k amount x.payout)
      ∙ ap ok (sym x.left)),
)
