-- ===== src/Settler/Order/Ran.antt =====
-- The steps of an `execute_order` of programs/batch_settler/src/lib.rs that has succeeded.
use options_protocol_solana.Common.{ℕ, ◌≡◌, subst, ok, >>=-eq-ok, ok_inj}
use options_protocol_solana.Runtime.{Runtime, TokenProgram, SystemProgram}
use options_protocol_solana.Settler.State.{SettlerState}
use options_protocol_solana.Settler.Quotes.{compute_premium_split}
use options_protocol_solana.Settler.World.{World}
use options_protocol_solana.Settler.Rent.{fund_vault_rent}
use options_protocol_solana.Settler.Order.Load.{
  ExecuteOrder, Order, InstructionsSysvar, LoadedOrder, load_execute_order, check_order,
  check_quote,
}
use options_protocol_solana.Settler.Order.Steps.{
  fill_quote, write_vault, credit_custody, record_vault_mm, transfer_premium,
}
use options_protocol_solana.Settler.Order.Execute.{execute_order}

module _ {L : Type 0} (t : TokenProgram L) (sys : SystemProgram L) where
  pub record Ran (rt : Runtime) (sysvar : InstructionsSysvar) (w : World L) (a : ExecuteOrder)
      (q : Order) (w' : World L) : Type 0 where
    pub o : LoadedOrder
    pub filled : SettlerState
    pub credited : SettlerState
    pub l1 : L
    pub l2 : L
    pub l3 : L
    pub l4 : L
    pub l5 : L
    pub premium : ℕ
    pub fee : ℕ
    pub net : ℕ
    pub loads : load_execute_order t sys rt w a q ≡ ok o
    pub passes : check_order rt a q o ≡ ok tt
    pub quoted : check_quote rt sysvar a q o.maker_state ≡ ok tt
    pub fills : fill_quote sys rt w.settler w.ledger a q ≡ ok (filled, l1)
    pub splits :
        compute_premium_split q.amount q.bid_price o.config.protocol_fee_bps
        ≡ ok (premium, fee, net)
    pub funds : fund_vault_rent sys l1 a.rent_reserve a.vault ≡ ok l2
    pub writes : write_vault t rt w.controller l2 a q ≡ ok (w'.controller, l3)
    pub credits : credit_custody sys rt filled l3 a q.amount ≡ ok (credited, l4)
    pub records : record_vault_mm sys rt credited l4 a q.amount ≡ ok (w'.settler, l5)
    pub pays : transfer_premium t l5 a o.premium_decimals net fee ≡ ok w'.ledger

  module _ (rt : Runtime) (sysvar : InstructionsSysvar) (w : World L) (a : ExecuteOrder) (q : Order)
      (w' : World L) where
    pub execute_order-Ran : execute_order t sys rt sysvar w a q ≡ ok w' → Ran rt sysvar w a q w'
    unfolding execute_order
    execute_order-Ran e =
        let (o, loads, e) = >>=-eq-ok (load_execute_order t sys rt w a q) _ e in
        let (_, passes, e) = >>=-eq-ok (check_order rt a q o) _ e in
        let (_, quoted, e) = >>=-eq-ok (check_quote rt sysvar a q o.maker_state) _ e in
        let ((filled, l1), fills, e) = >>=-eq-ok (fill_quote sys rt w.settler w.ledger a q) _ e in
        let ((premium, fee, net), splits, e) =
          >>=-eq-ok (compute_premium_split q.amount q.bid_price o.config.protocol_fee_bps) _ e in
        let (l2, funds, e) = >>=-eq-ok (fund_vault_rent sys l1 a.rent_reserve a.vault) _ e in
        let ((controller, l3), writes, e) = >>=-eq-ok (write_vault t rt w.controller l2 a q) _ e in
        let ((credited, l4), credits, e) =
          >>=-eq-ok (credit_custody sys rt filled l3 a q.amount) _ e in
        let ((recorded, l5), records, e) =
          >>=-eq-ok (record_vault_mm sys rt credited l4 a q.amount) _ e in
        let (l6, pays, e) = >>=-eq-ok (transfer_premium t l5 a o.premium_decimals net fee) _ e in
        subst (Ran rt sysvar w a q) (ok_inj e) (record {
          o = o;
          filled = filled;
          credited = credited;
          l1 = l1;
          l2 = l2;
          l3 = l3;
          l4 = l4;
          l5 = l5;
          premium = premium;
          fee = fee;
          net = net;
          loads = loads;
          passes = passes;
          quoted = quoted;
          fills = fills;
          splits = splits;
          funds = funds;
          writes = writes;
          credits = credits;
          records = records;
          pays = pays;
        })
