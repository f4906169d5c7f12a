-- ===== src/Settler/Order/Agreement.antt =====
-- What a successful `execute_order` of programs/batch_settler/src/lib.rs has gone by, and what it has
-- written to the settler's own accounts.
use options_protocol_solana.Common.{
  ◌+◌, ◌≤◌, ◌^◌, ◌<◌, ◌≡◌, sym, ap, ◌∙◌, subst, some, none, lookup, insert, lookup-insert_self, ok,
}
use options_protocol_solana.Runtime.{Runtime, TokenProgram, SystemProgram}
use options_protocol_solana.Settler.State.{
  SettlerState, MakerOTokenBalance, VaultMm, QuoteFill, balance_seeds, settler_id,
}
use options_protocol_solana.Settler.World.{World}
use options_protocol_solana.Settler.Order.Load.{
  ExecuteOrder, Order, InstructionsSysvar, LoadedOrder,
}
use options_protocol_solana.Settler.Order.Loaded.{
  AreLoaded, IsBound, load_execute_order-AreLoaded, check_order-IsBound,
}
use options_protocol_solana.Settler.Order.Terms.{
  IsQuoted, check_quote-IsQuoted, filled_at, filled_at-some, fill_quote-eq,
}
use options_protocol_solana.Settler.Order.Credits.{
  balance_at, IsOpenTo, credit_custody-eq, record_vault_mm-eq,
}
use options_protocol_solana.Settler.Order.Execute.{execute_order}
use options_protocol_solana.Settler.Order.Ran.{Ran, execute_order-Ran}

-- The three writes of an order to the settler's accounts.
pub record Writes (rt : Runtime) (s s' : SettlerState) (a : ExecuteOrder) (q : Order) : Type 0 where
  pub fill : QuoteFill
  pub balance : MakerOTokenBalance
  pub vault_mm : VaultMm
  pub fills : s'.fills ≡ insert a.quote_fill fill s.fills
  pub balances : s'.balances ≡ insert a.maker_otoken_balance balance s.balances
  pub vault_mms : s'.vault_mms ≡ insert a.vault_mm vault_mm s.vault_mms
  pub configs : s'.configs ≡ s.configs
  pub makers : s'.makers ≡ s.makers
  pub filled : fill.filled_amount ≡ filled_at s a.quote_fill + q.amount
  pub within : fill.filled_amount ≤ q.max_amount
  pub maker : balance.maker ≡ a.maker
  pub otoken_mint : balance.otoken_mint ≡ a.otoken_mint
  pub credited : balance.balance ≡ balance_at s a.maker_otoken_balance + q.amount
  pub fits : balance.balance < 2 ^ 64
  pub bump :
      balance.bump ≡ (rt.find_program_address (balance_seeds a.maker a.otoken_mint) settler_id).1
  pub open_to : IsOpenTo s a.maker_otoken_balance a.maker a.otoken_mint
  pub vacant : lookup a.vault_mm s.vault_mms ≡ none
  pub vault_maker : vault_mm.maker ≡ a.maker
  pub vault : vault_mm.vault ≡ a.vault
  pub vault_otoken : vault_mm.otoken_mint ≡ a.otoken_mint
  pub remaining : vault_mm.remaining_amount ≡ q.amount

module _ {L : Type 0} (t : TokenProgram L) (sys : SystemProgram L) (rt : Runtime)
    (sysvar : InstructionsSysvar) (w w' : World L) (a : ExecuteOrder) (q : Order) where
  pub Ran-Writes : Ran t sys rt sysvar w a q w' → Writes rt w.settler w'.settler a q
  unfolding balance_at
  Ran-Writes r =
      let (fill, e1, filled, within, _) =
        fill_quote-eq sys rt w.settler r.filled w.ledger r.l1 a q r.fills in
      let (b, e2, maker, mint, credited, fits, bump, place) =
        credit_custody-eq sys rt r.filled r.credited r.l3 r.l4 a q.amount r.credits in
      let (v, e3, vacant, vm, vv, vo, rem) =
        record_vault_mm-eq sys rt r.credited w'.settler r.l4 r.l5 a q.amount r.records in
      record {
        fill = fill;
        balance = b;
        vault_mm = v;
        fills = ap (λ s. s.fills) e3 ∙ ap (λ s. s.fills) e2 ∙ ap (λ s. s.fills) e1;
        balances =
            ap (λ s. s.balances) e3
            ∙ ap (λ s. s.balances) e2
            ∙ ap (λ s. insert a.maker_otoken_balance b s.balances) e1;
        vault_mms =
            ap (λ s. s.vault_mms) e3
            ∙ ap (λ s. insert a.vault_mm v s.vault_mms) e2
            ∙ ap (λ s. insert a.vault_mm v s.vault_mms) e1;
        configs = ap (λ s. s.configs) e3 ∙ ap (λ s. s.configs) e2 ∙ ap (λ s. s.configs) e1;
        makers = ap (λ s. s.makers) e3 ∙ ap (λ s. s.makers) e2 ∙ ap (λ s. s.makers) e1;
        filled = filled;
        within = within;
        maker = maker;
        otoken_mint = mint;
        credited = credited ∙ ap (λ s. balance_at s a.maker_otoken_balance + q.amount) e1;
        fits = fits;
        bump = bump;
        open_to = subst (λ s. IsOpenTo s a.maker_otoken_balance a.maker a.otoken_mint) e1 place;
        vacant =
            sym (ap (λ s. lookup a.vault_mm s.vault_mms) e1)
            ∙ (sym (ap (λ s. lookup a.vault_mm s.vault_mms) e2) ∙ vacant);
        vault_maker = vm;
        vault = vv;
        vault_otoken = vo;
        remaining = rem;
      }

-- An order that is executed is of at least the least amount, and the settler is not paused; its maker
-- is whitelisted at the nonce; an earlier instruction calls the ed25519 program with data that have the
-- maker's key and the message of its terms at the offsets that they give; the deadline has not passed;
-- the premium accounts are the maker's, the user's and the treasury's, in the mint of the terms, and the
-- oTokens go to the settler's own account; and the fill of the quote grows by the amount and stays
-- within the terms' maximum.
pub execute_order-IsQuoted :
    {L : Type 0} (t : TokenProgram L) (sys : SystemProgram L) (rt : Runtime)
    (sysvar : InstructionsSysvar) (w w' : World L) (a : ExecuteOrder) (q : Order)
    → execute_order t sys rt sysvar w a q ≡ ok w'
    → (o : LoadedOrder) × AreLoaded t rt w a q o
      × IsBound a q o
      × IsQuoted rt sysvar a q o.maker_state
      × (filled_at w'.settler a.quote_fill ≡ filled_at w.settler a.quote_fill + q.amount)
      × (filled_at w'.settler a.quote_fill ≤ q.max_amount)
execute_order-IsQuoted t sys rt sysvar w w' a q e =
    let r = execute_order-Ran t sys rt sysvar w a q w' e in
    let x = Ran-Writes t sys rt sysvar w w' a q r in
    let after =
      filled_at-some w'.settler a.quote_fill x.fill (
        ap (lookup a.quote_fill) x.fills
        ∙ lookup-insert_self a.quote_fill x.fill w.settler.fills) in
    (
      r.o,
      load_execute_order-AreLoaded t sys rt w a q r.o r.loads,
      check_order-IsBound rt a q r.o r.passes,
      check_quote-IsQuoted rt sysvar a q r.o.maker_state r.quoted,
      after ∙ x.filled,
      subst (λ n. n ≤ q.max_amount) (sym after) x.within,
    )

-- An order that is executed finds no record of its vault, and leaves one of the maker and the oToken
-- with the whole amount; and the maker's balance of that oToken grows by the amount, in an account
-- that held it before or held nothing.
pub execute_order-credits :
    {L : Type 0} (t : TokenProgram L) (sys : SystemProgram L) (rt : Runtime)
    (sysvar : InstructionsSysvar) (w w' : World L) (a : ExecuteOrder) (q : Order)
    → execute_order t sys rt sysvar w a q ≡ ok w'
    → (b : MakerOTokenBalance) × (v : VaultMm) × (lookup a.maker_otoken_balance w'.settler.balances
        ≡ some b)
      × (lookup a.vault_mm w'.settler.vault_mms ≡ some v)
      × (lookup a.vault_mm w.settler.vault_mms ≡ none)
      × IsOpenTo w.settler a.maker_otoken_balance a.maker a.otoken_mint
      × (b.maker ≡ a.maker)
      × (b.otoken_mint ≡ a.otoken_mint)
      × (b.balance ≡ balance_at w.settler a.maker_otoken_balance + q.amount)
      × (v.maker ≡ a.maker)
      × (v.vault ≡ a.vault)
      × (v.otoken_mint ≡ a.otoken_mint)
      × (v.remaining_amount ≡ q.amount)
execute_order-credits t sys rt sysvar w w' a q e =
    let r = execute_order-Ran t sys rt sysvar w a q w' e in
    let x = Ran-Writes t sys rt sysvar w w' a q r in
    (
      x.balance,
      x.vault_mm,
      ap (lookup a.maker_otoken_balance) x.balances ∙ lookup-insert_self _ _ w.settler.balances,
      ap (lookup a.vault_mm) x.vault_mms ∙ lookup-insert_self _ _ w.settler.vault_mms,
      x.vacant,
      x.open_to,
      x.maker,
      x.otoken_mint,
      x.credited,
      x.vault_maker,
      x.vault,
      x.vault_otoken,
      x.remaining,
    )
