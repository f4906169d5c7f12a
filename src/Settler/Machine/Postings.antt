-- ===== src/Settler/Machine/Postings.antt =====
-- What each instruction of programs/batch_settler/src/lib.rs does to the custody ledger: one of a few
-- postings.
use options_protocol_solana.Common.{
  ℕ, ◌+◌, ◌-◌, ◌≤◌, ◌≡◌, refl, sym, ap, ◌∙◌, min, some, none, List, lookup, insert, Pubkey, ok,
  >>=-eq-ok, ok_inj, ltb, leb_ℤ, ltb_ℤ, pos, not, arith, checked_add_i64,
}
use options_protocol_solana.Runtime.{Runtime, TokenProgram, SystemProgram}
use options_protocol_solana.Settler.State.{
  SettlerState, MakerOTokenBalance, VaultMm, settler_id, balance_seeds, require, or_else,
}
use options_protocol_solana.Settler.World.{World, load_operated}
use options_protocol_solana.Settler.Order.Load.{ExecuteOrder, Order, InstructionsSysvar}
use options_protocol_solana.Settler.Order.Loaded.{load_execute_order-AreLoaded}
use options_protocol_solana.Settler.Order.Credits.{balance_at, balance_at-some}
use options_protocol_solana.Settler.Order.Ran.{execute_order-Ran}
use options_protocol_solana.Settler.Order.Agreement.{Ran-Writes}
use options_protocol_solana.Settler.Order.Execute.{execute_order}
use options_protocol_solana.Settler.Custody.Accounts.{debit_balance}
use options_protocol_solana.Settler.Custody.Redeem.{
  RedeemForMm, MmSelfRedeem, load_redeemed, load_mm_self_redeem, redeem_and_forward, redeem_for_mm,
  mm_self_redeem,
}
use options_protocol_solana.Settler.Custody.Redeemed.{
  load_redeemed-Loaded, load_mm_self_redeem-Loaded,
}
use options_protocol_solana.Settler.Custody.Forward.{debit_balance-eq}
use options_protocol_solana.Settler.Custody.Physical.{PhysicalRedeem, ExternalProgram}
use options_protocol_solana.Settler.Custody.Delivery.{physical_redeem}
use options_protocol_solana.Settler.Custody.Swapped.{physical_redeem-Ran}
use options_protocol_solana.Settler.Custody.Taken.{load_physical_redeem-Loaded, take_custody-eq}
use options_protocol_solana.Settler.Custody.Emergency.{EmergencyWithdrawOrder, emergency_withdraw}
use options_protocol_solana.Settler.Custody.Closed.{emergency_withdraw-IsClosed}
use options_protocol_solana.Settler.Machine.Ledger.{Entry, nothing, credit, debit, remaining_at}

-- The address belongs to the maker and the oToken, under some bump.
abbrev pub Belongs : Runtime → Pubkey → Pubkey → ℕ → Pubkey → Type 0
Belongs rt maker mint bump k =
    rt.create_program_address (balance_seeds maker mint) bump settler_id ≡ some k

-- `k` is the address of a balance, and `j` that of a vault's record.
pub data Posting (rt : Runtime) (s s' : SettlerState) (entry : Entry) : Type 0 where
  -- Nothing happens to the ledger.
  keep :
      s'.balances ≡ s.balances
      → s'.vault_mms ≡ s.vault_mms
      → entry ≡ nothing
      → Posting rt s s' entry
  -- An order: what the balance gains is what a new vault's record starts with.
  order :
      (k j : Pubkey) (b : MakerOTokenBalance) (v : VaultMm)
      → lookup j s.vault_mms ≡ none
      → rt.find_program_address (balance_seeds b.maker b.otoken_mint) settler_id ≡ (k, b.bump)
      → v.maker ≡ b.maker
      → v.otoken_mint ≡ b.otoken_mint
      → b.balance ≡ balance_at s k + v.remaining_amount
      → s'.balances ≡ insert k b s.balances
      → s'.vault_mms ≡ insert j v s.vault_mms
      → entry ≡ credit k v.remaining_amount
      → Posting rt s s' entry
  -- A redemption takes from the balance alone.
  redeem :
      (k : Pubkey) (b : MakerOTokenBalance) (amount : ℕ)
      → lookup k s.balances ≡ some b
      → amount ≤ b.balance
      → s'.balances ≡ insert k (record b { balance = b.balance - amount }) s.balances
      → s'.vault_mms ≡ s.vault_mms
      → entry ≡ debit k amount
      → Posting rt s s' entry
  -- A delivery takes the same from the balance and from a vault of the maker.
  deliver :
      (k j : Pubkey) (b : MakerOTokenBalance) (v : VaultMm) (maker amount : ℕ)
      → lookup k s.balances ≡ some b
      → lookup j s.vault_mms ≡ some v
      → amount ≤ b.balance
      → amount ≤ v.remaining_amount
      → v.maker ≡ b.maker
      → Belongs rt maker v.otoken_mint b.bump k
      → s'.balances ≡ insert k (record b { balance = b.balance - amount }) s.balances
      → s'.vault_mms
        ≡ insert j (record v { remaining_amount = v.remaining_amount - amount }) s.vault_mms
      → entry ≡ debit k amount
      → Posting rt s s' entry
  -- An emergency takes what it can of what is left to a vault, and leaves nothing to it.
  close :
      (k j : Pubkey) (b : MakerOTokenBalance) (v : VaultMm) (maker : ℕ)
      → lookup k s.balances ≡ some b
      → lookup j s.vault_mms ≡ some v
      → v.maker ≡ b.maker
      → Belongs rt maker v.otoken_mint b.bump k
      → s'.balances
        ≡ insert k (record b { balance = b.balance - min v.remaining_amount b.balance }) s.balances
      → s'.vault_mms ≡ insert j (record v { remaining_amount = 0 }) s.vault_mms
      → entry ≡ debit k (min v.remaining_amount b.balance)
      → Posting rt s s' entry

remaining_at-some :
    (s : SettlerState) (j : Pubkey) (v : VaultMm)
    → lookup j s.vault_mms ≡ some v
    → remaining_at s j ≡ v.remaining_amount
unfolding remaining_at
remaining_at-some s j v e = ground arith

module _ {L : Type 0} (t : TokenProgram L) (rt : Runtime) (w w' : World L) where
  pub execute_order-Posting :
      (sys : SystemProgram L) (sysvar : InstructionsSysvar) (a : ExecuteOrder) (q : Order)
      → execute_order t sys rt sysvar w a q ≡ ok w'
      → Posting rt w.settler w'.settler (credit a.maker_otoken_balance q.amount)
  execute_order-Posting sys sysvar a q e =
      let r = execute_order-Ran t sys rt sysvar w a q w' e in
      let x = Ran-Writes t sys rt sysvar w w' a q r in
      let loaded = load_execute_order-AreLoaded t sys rt w a q r.o r.loads in
      order a.maker_otoken_balance a.vault_mm x.balance x.vault_mm x.vacant
        (placed x.balance x.maker x.otoken_mint x.bump loaded.balance_key)
        (x.vault_maker ∙ sym x.maker) (x.vault_otoken ∙ sym x.otoken_mint)
        (x.credited ∙ ap (λ n. balance_at w.settler a.maker_otoken_balance + n) (sym x.remaining))
        x.balances x.vault_mms (ap (credit a.maker_otoken_balance) (sym x.remaining))
    where
      both : {p : Pubkey × ℕ} {k : Pubkey} {n : ℕ} → p.0 ≡ k → n ≡ p.1 → p ≡ (k, n)
      both ek en = cc

      placed :
          (b : MakerOTokenBalance)
          → b.maker ≡ a.maker
          → b.otoken_mint ≡ a.otoken_mint
          → b.bump ≡ (rt.find_program_address (balance_seeds a.maker a.otoken_mint) settler_id).1
          → (rt.find_program_address (balance_seeds a.maker a.otoken_mint) settler_id).0
            ≡ a.maker_otoken_balance
          → rt.find_program_address (balance_seeds b.maker b.otoken_mint) settler_id
            ≡ (a.maker_otoken_balance, b.bump)
      placed b em eo eb ek =
          ap (λ m. rt.find_program_address (balance_seeds m b.otoken_mint) settler_id) em
          ∙ ap (λ o. rt.find_program_address (balance_seeds a.maker o) settler_id) eo
          ∙ both ek eb

  pub redeem_for_mm-Posting :
      (a : RedeemForMm) (amount : ℕ)
      → redeem_for_mm t rt w a amount ≡ ok w'
      → Posting rt w.settler w'.settler (debit a.custody.maker_otoken_balance amount)
  unfolding redeem_for_mm
  redeem_for_mm-Posting a amount e =
      let c = a.custody in
      let (config, _, e) = >>=-eq-ok (load_operated rt w.settler c.settler_config a.operator) _ e in
      let (k, loaded, e) = >>=-eq-ok (load_redeemed t rt w c (λ maker. maker)) _ e in
      let (_, _, e) = >>=-eq-ok (require (ltb 0 amount) _) _ e in
      let (_, _, e) = >>=-eq-ok (require (not config.paused) _) _ e in
      let (_, _, e) = >>=-eq-ok (require (leb_ℤ k.info.expiry rt.now) _) _ e in
      let (_, _, e) = >>=-eq-ok (require (ltb 0 k.info.expiry_price) _) _ e in
      let (b, debited, e) = >>=-eq-ok (debit_balance k.balance amount) _ e in
      let (l, _, e) = >>=-eq-ok (redeem_and_forward t rt w.controller w.ledger c k amount) _ e in
      let (enough, left) = debit_balance-eq k.balance b amount debited in
      redeem c.maker_otoken_balance k.balance amount
        (load_redeemed-Loaded t rt w c (λ maker. maker) k loaded).balance enough
        (ap (λ v. v.settler.balances) (sym (ok_inj e))
          ∙ ap (λ x. insert c.maker_otoken_balance x w.settler.balances) left)
        (ap (λ v. v.settler.vault_mms) (sym (ok_inj e))) refl

  pub mm_self_redeem-Posting :
      (a : MmSelfRedeem) (amount : ℕ)
      → mm_self_redeem t rt w a amount ≡ ok w'
      → Posting rt w.settler w'.settler (debit a.custody.maker_otoken_balance amount)
  unfolding mm_self_redeem
  mm_self_redeem-Posting a amount e =
      let c = a.custody in
      let ((delay, k), loaded, e) = >>=-eq-ok (load_mm_self_redeem t rt w a) _ e in
      let (_, _, e) = >>=-eq-ok (require (ltb 0 amount) _) _ e in
      let (_, _, e) = >>=-eq-ok (require (ltb_ℤ (pos 0) delay) _) _ e in
      let (escape, _, e) = >>=-eq-ok (or_else (checked_add_i64 k.info.expiry delay) _) _ e in
      let (_, _, e) = >>=-eq-ok (require (leb_ℤ escape rt.now) _) _ e in
      let (_, _, e) = >>=-eq-ok (require (ltb 0 k.info.expiry_price) _) _ e in
      let (b, debited, e) = >>=-eq-ok (debit_balance k.balance amount) _ e in
      let (l, _, e) = >>=-eq-ok (redeem_and_forward t rt w.controller w.ledger c k amount) _ e in
      let (enough, left) = debit_balance-eq k.balance b amount debited in
      redeem c.maker_otoken_balance k.balance amount
        (load_mm_self_redeem-Loaded t rt w a delay k loaded).balance enough
        (ap (λ v. v.settler.balances) (sym (ok_inj e))
          ∙ ap (λ x. insert c.maker_otoken_balance x w.settler.balances) left)
        (ap (λ v. v.settler.vault_mms) (sym (ok_inj e))) refl

  pub physical_redeem-Posting :
      (program : ExternalProgram L) (a : PhysicalRedeem) (amount most : ℕ) (route : List ℕ)
      → physical_redeem t program rt w a amount most route ≡ ok w'
      → Posting rt w.settler w'.settler (debit a.custody.maker_otoken_balance amount)
  physical_redeem-Posting program a amount most route e =
      let r = physical_redeem-Ran t program rt w w' a amount most route e in
      let x = load_physical_redeem-Loaded t rt w a r.d r.loads in
      let (enough, remaining, left) = take_custody-eq w.settler w'.settler a r.d amount r.takes in
      deliver a.custody.maker_otoken_balance a.vault_mm r.d.custody.balance r.d.vault_mm
        r.d.custody.balance.maker amount x.custody.balance x.vault_mm enough remaining x.same_maker
        (rw x.same_otoken x.balance_key) (ap (λ s. s.balances) left) (ap (λ s. s.vault_mms) left)
        refl

  pub emergency_withdraw-Posting :
      (a : EmergencyWithdrawOrder)
      → emergency_withdraw t rt w a ≡ ok w'
      → Posting rt w.settler w'.settler (
          debit a.maker_otoken_balance
            (min (remaining_at w.settler a.vault_mm) (balance_at w.settler a.maker_otoken_balance)))
  emergency_withdraw-Posting a e =
      let x = emergency_withdraw-IsClosed t rt w w' a e in
      close a.maker_otoken_balance a.vault_mm x.held x.vault_mm a.maker x.loaded.balance
        x.loaded.vault_mm x.loaded.same_maker (rw x.loaded.same_otoken x.loaded.balance_key)
        (ap (λ s. s.balances) x.left) (ap (λ s. s.vault_mms) x.left)
        (ap
            (λ m.
              debit a.maker_otoken_balance (min m (balance_at w.settler a.maker_otoken_balance)))
            (remaining_at-some w.settler a.vault_mm x.vault_mm x.loaded.vault_mm)
          ∙ ap (λ m. debit a.maker_otoken_balance (min x.vault_mm.remaining_amount m))
              (balance_at-some w.settler a.maker_otoken_balance x.held x.loaded.balance))
