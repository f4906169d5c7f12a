-- ===== src/Settler/Custody/Taken.antt =====
-- The accounts of a `physical_redeem` of programs/batch_settler/src/lib.rs, and the custody that it takes.
use options_protocol_solana.Common.{
  ℕ, ◌-◌, ◌≤◌, ◌≡◌, sym, ◌∙◌, subst, some, lookup, insert, ok, >>=-eq-ok, ok_inj, leb, ◌==◌,
  guard-eq, guard-le, checked_sub, checked_sub-eq, Pubkey, arith,
}
use options_protocol_solana.Runtime.{
  Runtime, TokenProgram, load, load_token, load_mint, check_bump, load-eq, load_token-eq, ok_or-eq,
}
use options_protocol_solana.Settler.State.{
  SettlerState, MakerOTokenBalance, settler_id, require, or_else, vault_mm_seeds, balance_seeds,
}
use options_protocol_solana.Settler.World.{World, load_operated}
use options_protocol_solana.Settler.Custody.Accounts.{load_custody, debit_balance}
use options_protocol_solana.Settler.Custody.Physical.{
  PhysicalRedeem, Delivery, load_physical_redeem, take_custody,
}
use options_protocol_solana.Settler.Custody.Forward.{
  CustodyLoaded, load_custody-Loaded, debit_balance-eq,
}

module _ {L : Type 0} (t : TokenProgram L) where
  -- The accounts of a delivery, where they were found, and the links between them.
  pub record DeliveryLoaded (rt : Runtime) (w : World L) (a : PhysicalRedeem) (d : Delivery)
      : Type 0 where
    pub custody : CustodyLoaded t w a.custody d.custody
    pub balance_key :
        rt.create_program_address
          (balance_seeds d.custody.balance.maker a.custody.otoken_mint)
          d.custody.balance.bump
          settler_id
        ≡ some a.custody.maker_otoken_balance
    pub decimals : t.decimals w.ledger a.contra_mint ≡ some d.contra_decimals
    pub vault_mm : lookup a.vault_mm w.settler.vault_mms ≡ some d.vault_mm
    pub same_vault : d.vault_mm.vault ≡ a.vault
    pub same_maker : d.vault_mm.maker ≡ d.custody.balance.maker
    pub same_otoken : d.vault_mm.otoken_mint ≡ a.custody.otoken_mint
    pub settler_contra : t.account w.ledger a.settler_contra_account ≡ some d.settler_contra
    pub user_contra : t.account w.ledger a.user_contra_account ≡ some d.user_contra
    pub user : d.user_contra.owner ≡ a.user

  pub load_physical_redeem-Loaded :
      (rt : Runtime) (w : World L) (a : PhysicalRedeem) (d : Delivery)
      → load_physical_redeem t rt w a ≡ ok d
      → DeliveryLoaded rt w a d
  unfolding load_physical_redeem
  load_physical_redeem-Loaded rt w a d e =
      let c = a.custody in
      let (config, _, e) = >>=-eq-ok (load_operated rt w.settler c.settler_config a.operator) _ e in
      let (k, ek, e) = >>=-eq-ok (load_custody t rt w c (λ maker. maker)) _ e in
      let (decimals, ed, e) = >>=-eq-ok (load_mint t w.ledger a.contra_mint) _ e in
      let (own, eo, e) = >>=-eq-ok (load_token t w.ledger a.settler_contra_account) _ e in
      let (_, _, e) = >>=-eq-ok (require (own.mint == a.contra_mint) _) _ e in
      let (_, _, e) = >>=-eq-ok (require (own.owner == c.settler_config) _) _ e in
      let (vault, _, e) = >>=-eq-ok (load w.controller.vaults a.vault) _ e in
      let (_, _, e) = >>=-eq-ok (require (vault.otoken_mint == c.otoken_mint) _) _ e in
      let (_, _, e) = >>=-eq-ok (require (vault.beneficiary == a.user) _) _ e in
      let (v, ev, e) = >>=-eq-ok (load w.settler.vault_mms a.vault_mm) _ e in
      let (_, _, e) =
        >>=-eq-ok (check_bump rt (vault_mm_seeds a.vault) v.bump settler_id a.vault_mm) _ e in
      let (_, e1, e) = >>=-eq-ok (require (v.vault == a.vault) _) _ e in
      let (_, e2, e) = >>=-eq-ok (require (v.maker == k.balance.maker) _) _ e in
      let (_, e3, e) = >>=-eq-ok (require (v.otoken_mint == c.otoken_mint) _) _ e in
      let (user, eu, e) = >>=-eq-ok (load_token t w.ledger a.user_contra_account) _ e in
      let (_, _, e) = >>=-eq-ok (require (user.mint == a.contra_mint) _) _ e in
      let (_, e4, e) = >>=-eq-ok (require (user.owner == a.user) _) _ e in
      let (loaded, key) = load_custody-Loaded t rt w c (λ maker. maker) k ek in
      subst (DeliveryLoaded rt w a) (ok_inj e) (record {
        custody = loaded;
        balance_key = key;
        decimals = load_mint-eq w.ledger a.contra_mint ed;
        vault_mm = load-eq w.settler.vault_mms a.vault_mm ev;
        same_vault = guard-eq _ v.vault a.vault e1;
        same_maker = guard-eq _ v.maker k.balance.maker e2;
        same_otoken = guard-eq _ v.otoken_mint c.otoken_mint e3;
        settler_contra = load_token-eq t w.ledger a.settler_contra_account eo;
        user_contra = load_token-eq t w.ledger a.user_contra_account eu;
        user = guard-eq _ user.owner a.user e4;
      })
    where
      load_mint-eq : (l : L) (k : Pubkey) {n : ℕ} → load_mint t l k ≡ ok n → t.decimals l k ≡ some n
      load_mint-eq l k e = ok_or-eq (t.decimals l k) _ e

-- The custody after a delivery: less by the amount, of the maker and of the vault.
abbrev pub taken : SettlerState → PhysicalRedeem → Delivery → ℕ → SettlerState
taken s a d amount = record s {
  balances =
      insert a.custody.maker_otoken_balance
        (record d.custody.balance { balance = d.custody.balance.balance - amount }) s.balances;
  vault_mms =
      insert a.vault_mm
        (record d.vault_mm { remaining_amount = d.vault_mm.remaining_amount - amount }) s.vault_mms;
}

pub take_custody-eq :
    (s s' : SettlerState) (a : PhysicalRedeem) (d : Delivery) (amount : ℕ)
    → take_custody s a d amount ≡ ok s'
    → (amount ≤ d.custody.balance.balance)
      × (amount ≤ d.vault_mm.remaining_amount)
      × (s' ≡ taken s a d amount)
unfolding take_custody
take_custody-eq s s' a d amount e =
    let (_, _, e) = >>=-eq-ok (require (leb amount d.custody.balance.balance) _) _ e in
    let (_, le, e) = >>=-eq-ok (require (leb amount d.vault_mm.remaining_amount) _) _ e in
    let (rest, sub, e) =
      >>=-eq-ok (or_else (checked_sub d.vault_mm.remaining_amount amount) _) _ e in
    let (b, debited, e) = >>=-eq-ok (debit_balance d.custody.balance amount) _ e in
    let (enough, less) = debit_balance-eq d.custody.balance b amount debited in
    let sum = checked_sub-eq _ d.vault_mm.remaining_amount amount rest sub in
    let left : rest ≡ d.vault_mm.remaining_amount - amount = omega arith in
    (
      enough,
      guard-le _ amount d.vault_mm.remaining_amount le,
      sym (ok_inj e) ∙ written b rest less left,
    )
  where
    written :
        (b : MakerOTokenBalance) (n : ℕ)
        → b ≡ record d.custody.balance { balance = d.custody.balance.balance - amount }
        → n ≡ d.vault_mm.remaining_amount - amount
        → record s {
          balances = insert a.custody.maker_otoken_balance b s.balances;
          vault_mms = insert a.vault_mm (record d.vault_mm { remaining_amount = n }) s.vault_mms;
        }
          ≡ taken s a d amount
    written b n eb en = cc
