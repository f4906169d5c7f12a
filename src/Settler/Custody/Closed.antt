-- ===== src/Settler/Custody/Closed.antt =====
-- What `emergency_withdraw` of programs/batch_settler/src/lib.rs leaves of a vault and of its custody.
use options_protocol_solana.Common.{
  ℕ, ◌-◌, ◌≡◌, sym, ap, ◌∙◌, subst, min, some, true, false, lookup, insert, lookup-insert_self, ok,
  >>=-eq-ok, ok_inj, ◌==◌, guard-eq, checked_sub, checked_sub-eq, arith, some_inj,
}
use options_protocol_solana.Runtime.{
  Runtime, TokenProgram, load, load_token, load_mint, check_bump, load-eq, check_bump-eq,
}
use options_protocol_solana.Controller.State.{ControllerState, ControllerConfig, Vault}
use options_protocol_solana.Controller.Settle.{
  EmergencyWithdrawVault, emergency_withdraw_vault, load_emergency_withdraw_vault,
}
use options_protocol_solana.Settler.State.{
  MakerOTokenBalance, VaultMm, settler_id, require, or_else, balance_seeds, vault_mm_seeds,
}
use options_protocol_solana.Settler.World.{World, load_settler_config}
use options_protocol_solana.Settler.Custody.Emergency.{
  EmergencyWithdrawOrder, load_emergency_withdraw, burn_custody, emergency_withdraw,
}

module _ {L : Type 0} (t : TokenProgram L) (rt : Runtime) where
  -- The vault, its record and the maker's balance, where they were found.
  pub record ClosingLoaded (w : World L) (a : EmergencyWithdrawOrder) (b : MakerOTokenBalance)
      (v : VaultMm) : Type 0 where
    pub vault : Vault
    pub found : lookup a.vault w.controller.vaults ≡ some vault
    pub beneficiary : a.beneficiary ≡ vault.beneficiary
    pub owner : vault.owner ≡ a.settler_config
    pub balance : lookup a.maker_otoken_balance w.settler.balances ≡ some b
    pub balance_key :
        rt.create_program_address (balance_seeds a.maker a.otoken_mint) b.bump settler_id
        ≡ some a.maker_otoken_balance
    pub vault_mm : lookup a.vault_mm w.settler.vault_mms ≡ some v
    pub same_vault : v.vault ≡ a.vault
    pub same_maker : v.maker ≡ b.maker
    pub same_otoken : v.otoken_mint ≡ a.otoken_mint

  pub load_emergency_withdraw-Loaded :
      (w : World L) (a : EmergencyWithdrawOrder) (b : MakerOTokenBalance) (v : VaultMm) (n : ℕ)
      → load_emergency_withdraw t rt w a ≡ ok (b, v, n)
      → ClosingLoaded w a b v
  unfolding load_emergency_withdraw
  load_emergency_withdraw-Loaded w a b v n e =
      let (_, _, e) = >>=-eq-ok (load_settler_config rt w.settler a.settler_config) _ e in
      let (vault, ev, e) = >>=-eq-ok (load w.controller.vaults a.vault) _ e in
      let (_, e1, e) = >>=-eq-ok (require (a.beneficiary == vault.beneficiary) _) _ e in
      let (_, e2, e) = >>=-eq-ok (require (vault.owner == a.settler_config) _) _ e in
      let (_, _, e) = >>=-eq-ok (load_token t w.ledger a.pool_token_account) _ e in
      let (_, _, e) = >>=-eq-ok (load_mint t w.ledger a.collateral_mint_account) _ e in
      let (_, _, e) = >>=-eq-ok (load_token t w.ledger a.beneficiary_token_account) _ e in
      let (_, _, e) = >>=-eq-ok (load_mint t w.ledger a.otoken_mint) _ e in
      let (otokens, _, e) = >>=-eq-ok (load_token t w.ledger a.settler_otoken_account) _ e in
      let (_, _, e) = >>=-eq-ok (require (otokens.owner == a.settler_config) _) _ e in
      let (_, _, e) = >>=-eq-ok (require (otokens.mint == a.otoken_mint) _) _ e in
      let (c, ec, e) = >>=-eq-ok (load w.settler.balances a.maker_otoken_balance) _ e in
      let (_, e3, e) =
        >>=-eq-ok
          (check_bump rt (balance_seeds a.maker a.otoken_mint) c.bump settler_id
            a.maker_otoken_balance)
          _ e in
      let (u, eu, e) = >>=-eq-ok (load w.settler.vault_mms a.vault_mm) _ e in
      let (_, _, e) =
        >>=-eq-ok (check_bump rt (vault_mm_seeds a.vault) u.bump settler_id a.vault_mm) _ e in
      let (_, e4, e) = >>=-eq-ok (require (u.vault == a.vault) _) _ e in
      let (_, e5, e) = >>=-eq-ok (require (u.maker == c.maker) _) _ e in
      let (_, e6, e) = >>=-eq-ok (require (u.otoken_mint == a.otoken_mint) _) _ e in
      subst (λ ((b, v, _) : MakerOTokenBalance × VaultMm × ℕ). ClosingLoaded w a b v) (ok_inj e)
        (record {
          vault = vault;
          found = load-eq w.controller.vaults a.vault ev;
          beneficiary = guard-eq _ a.beneficiary vault.beneficiary e1;
          owner = guard-eq _ vault.owner a.settler_config e2;
          balance = load-eq w.settler.balances a.maker_otoken_balance ec;
          balance_key = check_bump-eq rt _ _ _ _ e3;
          vault_mm = load-eq w.settler.vault_mms a.vault_mm eu;
          same_vault = guard-eq _ u.vault a.vault e4;
          same_maker = guard-eq _ u.maker c.maker e5;
          same_otoken = guard-eq _ u.otoken_mint a.otoken_mint e6;
        })

  closed :
      (s s' : ControllerState) (l l' : L) (a : EmergencyWithdrawVault)
      → emergency_withdraw_vault t rt s l a ≡ ok (s', l')
      → (c : ControllerConfig) × (v : Vault) × (lookup a.config s.configs ≡ some c)
        × (c.fully_paused ≡ true)
        × (lookup a.vault s.vaults ≡ some v)
        × (v.settled ≡ false)
        × (s'.vaults ≡ insert a.vault (record v { settled = true }) s.vaults)
  unfolding emergency_withdraw_vault
  closed s s' l l' a e =
      let ((config, vault, decimals), loaded, rest) =
        >>=-eq-ok (load_emergency_withdraw_vault t rt s l a) _ e in
      (config, vault, ground arith, ground arith, ground arith, ground arith, ground arith)

  -- What an emergency withdrawal has gone by, and what it leaves.
  pub record IsClosed (w w' : World L) (a : EmergencyWithdrawOrder) : Type 0 where
    pub config : ControllerConfig
    pub held : MakerOTokenBalance
    pub vault_mm : VaultMm
    pub loaded : ClosingLoaded w a held vault_mm
    pub listed : lookup a.controller_config w.controller.configs ≡ some config
    pub emergency : config.fully_paused ≡ true
    pub live : loaded.vault.settled ≡ false
    pub settled :
        lookup a.vault w'.controller.vaults ≡ some (record loaded.vault { settled = true })
    pub left : w'.settler ≡ record w.settler {
      balances =
          insert a.maker_otoken_balance
            (record held { balance = held.balance - min vault_mm.remaining_amount held.balance })
            w.settler.balances;
      vault_mms = insert a.vault_mm (record vault_mm { remaining_amount = 0 }) w.settler.vault_mms;
    }

-- An emergency withdrawal that succeeds is asked for by the beneficiary of a vault of the settler that
-- is not settled, while the controller is fully paused; it settles the vault, takes the vault's
-- remaining custody from the maker's balance as far as that goes, and leaves none of it to the vault.
pub emergency_withdraw-IsClosed :
    {L : Type 0} (t : TokenProgram L) (rt : Runtime) (w w' : World L) (a : EmergencyWithdrawOrder)
    → emergency_withdraw t rt w a ≡ ok w'
    → IsClosed t rt w w' a
unfolding emergency_withdraw
emergency_withdraw-IsClosed {L} t rt w w' a e =
    let ((b, v, n), el, e) = >>=-eq-ok (load_emergency_withdraw t rt w a) _ e in
    let burn_amount = min v.remaining_amount b.balance in
    let (l1, _, e) = >>=-eq-ok (burn_custody t w.ledger a burn_amount n) _ e in
    let (balance, es, e) = >>=-eq-ok (or_else (checked_sub b.balance burn_amount) _) _ e in
    let ((controller, l2), ec, e) =
      >>=-eq-ok (emergency_withdraw_vault t rt w.controller l1 _) _ e in
    let (config, vault, listed, paused, found, live, written) =
      closed t rt w.controller controller l1 l2 _ ec in
    let loaded = load_emergency_withdraw-Loaded t rt w a b v n el in
    let same : vault ≡ loaded.vault = some_inj (sym found ∙ loaded.found) in
    let sum = checked_sub-eq _ b.balance burn_amount balance es in
    let less : balance ≡ b.balance - burn_amount = omega arith in
    subst (λ w'. IsClosed t rt w w' a) (ok_inj e)
      (record {
        config = config;
        held = b;
        vault_mm = v;
        loaded = loaded;
        listed = listed;
        emergency = paused;
        live = sym (ap (λ (x : Vault). x.settled) same) ∙ live;
        settled =
            ap (lookup a.vault) written
            ∙ (lookup-insert_self a.vault (record vault { settled = true }) w.controller.vaults
                ∙ ap (λ (x : Vault). some (record x { settled = true })) same);
        left =
            ap
              (λ m. record w.settler {
                balances =
                    insert a.maker_otoken_balance (record b { balance = m }) w.settler.balances;
                vault_mms =
                    insert a.vault_mm (record v { remaining_amount = 0 }) w.settler.vault_mms;
              })
              less;
      })
