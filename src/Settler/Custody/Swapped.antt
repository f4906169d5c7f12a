-- ===== src/Settler/Custody/Swapped.antt =====
-- The steps of a `physical_redeem` of programs/batch_settler/src/lib.rs that has succeeded.
use options_protocol_solana.Common.{
  ℕ, ◌≡◌, subst, ok, >>=-eq-ok, ok_inj, ltb, if◌then◌else◌, checked_sub, List, SettlerError,
}
use options_protocol_solana.Runtime.{Runtime, TokenAccount, TokenProgram, load_token}
use options_protocol_solana.Settler.State.{require, or_else}
use options_protocol_solana.Settler.World.{World}
use options_protocol_solana.Settler.Custody.Accounts.{cpi_redeem}
use options_protocol_solana.Settler.Custody.Physical.{
  PhysicalRedeem, Delivery, ExternalProgram, load_physical_redeem, check_delivery, take_custody,
  invoke_jupiter_swap,
}
use options_protocol_solana.Settler.Custody.Delivery.{
  SwapDeltas, deliver_put, deliver_call, measure_swap, physical_redeem,
}

-- The steps of a delivery that has succeeded.
pub record Ran {L : Type 0} (t : TokenProgram L) (program : ExternalProgram L) (rt : Runtime)
    (w w' : World L) (a : PhysicalRedeem) (amount most : ℕ) (route : List ℕ) : Type 0 where
  pub d : Delivery
  pub contra : ℕ
  pub l1 : L
  pub l2 : L
  pub had : TokenAccount
  pub received : ℕ
  pub x : SwapDeltas
  pub loads : load_physical_redeem t rt w a ≡ ok d
  pub checks : check_delivery rt a d amount ≡ ok contra
  pub takes : take_custody w.settler a d amount ≡ ok w'.settler
  pub redeems : cpi_redeem t rt w.controller w.ledger a.custody amount ≡ ok l1
  pub finds : load_token t l1 a.custody.settler_collateral_account ≡ ok had
  pub receives :
      or_else
        (checked_sub had.amount d.custody.settler_collateral.amount)
        SettlerError.math_overflow
      ≡ ok received
  pub swaps :
      invoke_jupiter_swap t program w.controller l1 a d.config.jupiter_program route
      ≡ ok (w'.controller, l2)
  pub measures : measure_swap t l2 a d received had.amount most ≡ ok x
  pub delivers :
      (if d.custody.info.is_put
        then deliver_put t l2 a d contra x
        else deliver_call t l2 a d contra x)
      ≡ ok w'.ledger

module _ {L : Type 0} (t : TokenProgram L) (program : ExternalProgram L) (rt : Runtime)
    (w w' : World L) (a : PhysicalRedeem) (amount most : ℕ) (route : List ℕ) where
  pub physical_redeem-Ran :
      physical_redeem t program rt w a amount most route ≡ ok w'
      → Ran t program rt w w' a amount most route
  unfolding physical_redeem
  physical_redeem-Ran e =
      let c = a.custody in
      let (d, ed, e) = >>=-eq-ok (load_physical_redeem t rt w a) _ e in
      let (contra, ec, e) = >>=-eq-ok (check_delivery rt a d amount) _ e in
      let (s, et, e) = >>=-eq-ok (take_custody w.settler a d amount) _ e in
      let (l1, er, e) = >>=-eq-ok (cpi_redeem t rt w.controller w.ledger c amount) _ e in
      let (had, eh, e) = >>=-eq-ok (load_token t l1 c.settler_collateral_account) _ e in
      let (received, es, e) =
        >>=-eq-ok
          (or_else (checked_sub had.amount d.custody.settler_collateral.amount)
            SettlerError.math_overflow)
          _ e in
      let (_, _, e) = >>=-eq-ok (require (ltb 0 received) _) _ e in
      let ((controller, l2), ej, e) =
        >>=-eq-ok (invoke_jupiter_swap t program w.controller l1 a d.config.jupiter_program route) _
          e in
      let (x, ex, e) = >>=-eq-ok (measure_swap t l2 a d received had.amount most) _ e in
      let (l3, el, e) =
        >>=-eq-ok
          (if d.custody.info.is_put
            then deliver_put t l2 a d contra x
            else deliver_call t l2 a d contra x)
          _ e in
      subst (λ v. Ran t program rt w v a amount most route) (ok_inj e)
        (record {
          d = d;
          contra = contra;
          l1 = l1;
          l2 = l2;
          had = had;
          received = received;
          x = x;
          loads = ed;
          checks = ec;
          takes = et;
          redeems = er;
          finds = eh;
          receives = es;
          swaps = ej;
          measures = ex;
          delivers = el;
        })
