-- ===== src/Settler/Order/Execute.antt =====
-- `execute_order` of programs/batch_settler/src/lib.rs, as a whole.
use options_protocol_solana.Common.{Result, ok, ◌>>=◌, ◌>>◌}
use options_protocol_solana.Runtime.{Runtime, TokenProgram, SystemProgram}
use options_protocol_solana.Settler.Quotes.{compute_premium_split}
use options_protocol_solana.Settler.World.{World}
use options_protocol_solana.Settler.Rent.{fund_vault_rent}
use options_protocol_solana.Settler.Order.Load.{
  ExecuteOrder, Order, InstructionsSysvar, load_execute_order, check_order, check_quote,
}
use options_protocol_solana.Settler.Order.Steps.{
  fill_quote, write_vault, credit_custody, record_vault_mm, transfer_premium,
}

module _ {L : Type 0} (t : TokenProgram L) (sys : SystemProgram L) where
  unfoldable pub execute_order :
      Runtime → InstructionsSysvar → World L → ExecuteOrder → Order → Result (World L)
  unfolding load_execute_order check_order check_quote fill_quote compute_premium_split
      fund_vault_rent write_vault credit_custody record_vault_mm transfer_premium
  execute_order rt sysvar w a q = do
    o ← load_execute_order t sys rt w a q
    check_order rt a q o
    check_quote rt sysvar a q o.maker_state
    (filled, l) ← fill_quote sys rt w.settler w.ledger a q
    (premium, fee, net) ← compute_premium_split q.amount q.bid_price o.config.protocol_fee_bps
    l ← fund_vault_rent sys l a.rent_reserve a.vault
    (controller, l) ← write_vault t rt w.controller l a q
    (credited, l) ← credit_custody sys rt filled l a q.amount
    (recorded, l) ← record_vault_mm sys rt credited l a q.amount
    l ← transfer_premium t l a o.premium_decimals net fee
    ok (record { settler = recorded; controller = controller; ledger = l })
