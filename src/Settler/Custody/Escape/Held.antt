-- ===== src/Settler/Custody/Escape/Held.antt =====
-- The custody accounts of `mm_self_redeem` in programs/batch_settler/src/lib.rs.
use options_protocol_solana.Common.{
  ℕ, ◌≡◌, refl, some, lookup, ok, ok_inj, >>=-eq-ok, >>=-ok, ap, sym, subst, ◌∙◌, ◌==◌, guard-eq,
  guard_same,
}
use options_protocol_solana.Runtime.{
  Runtime, TokenAccount, TokenProgram, load, load_token, load_mint, check_bump, load-eq, load-ok,
  load_token-eq, load_token-ok, load_mint-eq, load_mint-ok, check_bump-eq, check_bump-ok,
}
use options_protocol_solana.Settler.State.{settler_id, require, balance_seeds}
use options_protocol_solana.Settler.World.{World}
use options_protocol_solana.Settler.Custody.Accounts.{CustodyAccounts, Custody, load_custody}
use options_protocol_solana.Settler.Custody.Redeem.{load_redeemed}

-- The custody of a maker: the balance at the maker's seeds, the series, the two mints, the settler's
-- accounts of the oToken and of the collateral, the maker's account of the collateral, and the pool's.
pub record IsCustodyOf {L : Type 0} (t : TokenProgram L) (rt : Runtime) (w : World L)
    (c : CustodyAccounts) (maker : ℕ) (k : Custody) : Type 0 where
  pub balance : lookup c.maker_otoken_balance w.settler.balances ≡ some k.balance
  pub balance_place :
      rt.create_program_address (balance_seeds maker c.otoken_mint) k.balance.bump settler_id
      ≡ some c.maker_otoken_balance
  pub info : lookup c.otoken_info w.controller.infos ≡ some k.info
  pub otoken_decimals : ℕ
  pub otoken : t.decimals w.ledger c.otoken_mint ≡ some otoken_decimals
  pub collateral : t.decimals w.ledger c.collateral_mint_account ≡ some k.collateral_decimals
  pub otokens : TokenAccount
  pub settler_otokens : t.account w.ledger c.settler_otoken_account ≡ some otokens
  pub otokens_mint : otokens.mint ≡ c.otoken_mint
  pub otokens_owner : otokens.owner ≡ c.settler_config
  pub settler_collateral :
      t.account w.ledger c.settler_collateral_account ≡ some k.settler_collateral
  pub collateral_mint : k.settler_collateral.mint ≡ k.info.collateral_mint
  pub collateral_owner : k.settler_collateral.owner ≡ c.settler_config
  pub mm_collateral : t.account w.ledger c.mm_collateral_account ≡ some k.mm_collateral
  pub mm_owner : k.mm_collateral.owner ≡ maker
  pub mm_mint : k.mm_collateral.mint ≡ k.info.collateral_mint
  pub pool : TokenAccount
  pub pool_account : t.account w.ledger c.pool_token_account ≡ some pool

module _ {L : Type 0} (t : TokenProgram L) (rt : Runtime) (w : World L) where
  module _ (c : CustodyAccounts) (maker : ℕ) (k : Custody) where
    pub redeemed-IsCustodyOf :
        load_redeemed t rt w c (λ _. maker) ≡ ok k → IsCustodyOf t rt w c maker k
    unfolding load_redeemed load_custody
    redeemed-IsCustodyOf e =
        let (j, e, mint) = >>=-eq-ok (load_custody t rt w c (λ _. maker)) _ e in
        let (_, mm_mint, last) =
          >>=-eq-ok (require (j.mm_collateral.mint == j.info.collateral_mint) _) _ mint in
        let (b, eb, e) = >>=-eq-ok (load w.settler.balances c.maker_otoken_balance) _ e in
        let (_, bump, e) =
          >>=-eq-ok
            (check_bump rt (balance_seeds maker c.otoken_mint) b.bump settler_id
              c.maker_otoken_balance)
            _ e in
        let (info, ei, e) = >>=-eq-ok (load w.controller.infos c.otoken_info) _ e in
        let (n, en, e) = >>=-eq-ok (load_mint t w.ledger c.otoken_mint) _ e in
        let (d, ed, e) = >>=-eq-ok (load_mint t w.ledger c.collateral_mint_account) _ e in
        let (otokens, eo, e) = >>=-eq-ok (load_token t w.ledger c.settler_otoken_account) _ e in
        let (_, omint, e) = >>=-eq-ok (require (otokens.mint == c.otoken_mint) _) _ e in
        let (_, oowner, e) = >>=-eq-ok (require (otokens.owner == c.settler_config) _) _ e in
        let (x, ex, e) = >>=-eq-ok (load_token t w.ledger c.settler_collateral_account) _ e in
        let (_, xmint, e) = >>=-eq-ok (require (x.mint == info.collateral_mint) _) _ e in
        let (_, xowner, e) = >>=-eq-ok (require (x.owner == c.settler_config) _) _ e in
        let (y, ey, e) = >>=-eq-ok (load_token t w.ledger c.mm_collateral_account) _ e in
        let (_, yowner, e) = >>=-eq-ok (require (y.owner == maker) _) _ e in
        let (pool, ep, e) = >>=-eq-ok (load_token t w.ledger c.pool_token_account) _ e in
        let here : Custody = record {
          balance = b;
          info = info;
          collateral_decimals = d;
          settler_collateral = x;
          mm_collateral = y;
        } in
        let same : here ≡ j = ok_inj e in
        subst (IsCustodyOf t rt w c maker) (same ∙ ok_inj last) (record {
          balance = load-eq w.settler.balances c.maker_otoken_balance eb;
          balance_place = check_bump-eq rt _ _ _ _ bump;
          info = load-eq w.controller.infos c.otoken_info ei;
          otoken_decimals = n;
          otoken = load_mint-eq t w.ledger c.otoken_mint en;
          collateral = load_mint-eq t w.ledger c.collateral_mint_account ed;
          otokens = otokens;
          settler_otokens = load_token-eq t w.ledger c.settler_otoken_account eo;
          otokens_mint = guard-eq _ _ _ omint;
          otokens_owner = guard-eq _ _ _ oowner;
          settler_collateral = load_token-eq t w.ledger c.settler_collateral_account ex;
          collateral_mint = guard-eq _ _ _ xmint;
          collateral_owner = guard-eq _ _ _ xowner;
          mm_collateral = load_token-eq t w.ledger c.mm_collateral_account ey;
          mm_owner = guard-eq _ _ _ yowner;
          mm_mint =
              ap (λ (q : Custody). q.mm_collateral.mint) same
              ∙ guard-eq _ _ _ mm_mint
              ∙ ap (λ (q : Custody). q.info.collateral_mint) (sym same);
          pool = pool;
          pool_account = load_token-eq t w.ledger c.pool_token_account ep;
        })

    pub custody-redeemed : IsCustodyOf t rt w c maker k → load_redeemed t rt w c (λ _. maker) ≡ ok k
    unfolding load_redeemed load_custody
    custody-redeemed h = >>=-ok _ loads (>>=-ok _ (guard_same _ h.mm_mint) refl)
      where
        loads : load_custody t rt w c (λ _. maker) ≡ ok k
        loads = >>=-ok _ (load-ok w.settler.balances c.maker_otoken_balance h.balance) (
            >>=-ok _ (check_bump-ok rt _ _ _ _ h.balance_place) (
              >>=-ok _ (load-ok w.controller.infos c.otoken_info h.info) (
                >>=-ok _ (load_mint-ok t w.ledger c.otoken_mint h.otoken) (
                  >>=-ok _ (load_mint-ok t w.ledger c.collateral_mint_account h.collateral) (
                    >>=-ok _ (load_token-ok t w.ledger c.settler_otoken_account h.settler_otokens) (
                      >>=-ok _ (guard_same _ h.otokens_mint) (
                        >>=-ok _ (guard_same _ h.otokens_owner) (
                          >>=-ok _
                            (load_token-ok t w.ledger c.settler_collateral_account
                              h.settler_collateral)
                            (>>=-ok _ (guard_same _ h.collateral_mint) (
                              >>=-ok _ (guard_same _ h.collateral_owner) (
                                >>=-ok _
                                  (load_token-ok t w.ledger c.mm_collateral_account h.mm_collateral)
                                  (>>=-ok _ (guard_same _ h.mm_owner) (
                                    >>=-ok _
                                      (load_token-ok t w.ledger c.pool_token_account h.pool_account)
                                      refl)))))))))))))
