-- ===== src/Settler/Order/Loaded.antt =====
-- What the constraints and the tests of `execute_order` in programs/batch_settler/src/lib.rs say of
-- its accounts.
use options_protocol_solana.Common.{
  not, ltb, leb, ◌==◌, subst, ◌≡◌, ◌≤◌, ap, ◌∙◌, false, some, lookup, ok, >>=-eq-ok, ok_inj,
  guard-eq, guard-le, guard-not, Pubkey,
}
use options_protocol_solana.Runtime.{
  Runtime, TokenProgram, SystemProgram, load, load_mint, load_token, check_bump, check_seeds,
  load-eq, load_token-eq, check_seeds-eq,
}
use options_protocol_solana.Controller.State.{controller_id, pool_authority_seeds}
use options_protocol_solana.Settler.State.{
  SettlerState, SettlerConfig, config_seeds, settler_id, require, maker_seeds, fill_seeds,
  balance_seeds, vault_mm_seeds, min_execute_amount,
}
use options_protocol_solana.Settler.World.{World, load_settler_config, load_rent_reserve}
use options_protocol_solana.Settler.Order.Load.{
  ExecuteOrder, Order, LoadedOrder, load_execute_order, check_order,
}

load_settler_config-eq :
    (rt : Runtime) (s : SettlerState) (k : Pubkey) (c : SettlerConfig)
    → load_settler_config rt s k ≡ ok c
    → lookup k s.configs ≡ some c
unfolding load_settler_config
load_settler_config-eq rt s k c e =
    let (config, found, e) = >>=-eq-ok (load s.configs k) _ e in
    let (_, _, e) = >>=-eq-ok (check_bump rt config_seeds config.bump settler_id k) _ e in
    load-eq s.configs k found ∙ ap some (ok_inj e)

module _ {L : Type 0} (t : TokenProgram L) where
  -- The accounts of the order, where they were found.
  pub record AreLoaded (rt : Runtime) (w : World L) (a : ExecuteOrder) (q : Order) (o : LoadedOrder)
      : Type 0 where
    pub config : lookup a.settler_config w.settler.configs ≡ some o.config
    pub maker_state : lookup a.maker_state w.settler.makers ≡ some o.maker_state
    pub user_collateral : t.account w.ledger a.user_collateral_account ≡ some o.user_collateral
    pub settler_otokens : t.account w.ledger a.settler_otoken_account ≡ some o.settler_otokens
    pub mm_premium : t.account w.ledger a.mm_premium_account ≡ some o.mm_premium
    pub user_premium : t.account w.ledger a.user_premium_account ≡ some o.user_premium
    pub treasury : t.account w.ledger a.treasury_account ≡ some o.treasury
    pub fill_key :
        (rt.find_program_address (fill_seeds a.maker q.maker_nonce q.quote_id) settler_id).0
        ≡ a.quote_fill
    pub balance_key :
        (rt.find_program_address (balance_seeds a.maker a.otoken_mint) settler_id).0
        ≡ a.maker_otoken_balance
    pub vault_mm_key : (rt.find_program_address (vault_mm_seeds a.vault) settler_id).0 ≡ a.vault_mm

  module _ (sys : SystemProgram L) (rt : Runtime) (w : World L) (a : ExecuteOrder) (q : Order) where
    pub load_execute_order-AreLoaded :
        (o : LoadedOrder) → load_execute_order t sys rt w a q ≡ ok o → AreLoaded rt w a q o
    unfolding load_execute_order
    load_execute_order-AreLoaded o e =
        let (config, c, e) = >>=-eq-ok (load_settler_config rt w.settler a.settler_config) _ e in
        let (_, _, e) = >>=-eq-ok (load_rent_reserve sys rt w.ledger a.rent_reserve) _ e in
        let (maker, m, e) = >>=-eq-ok (load w.settler.makers a.maker_state) _ e in
        let (_, _, e) =
          >>=-eq-ok (check_bump rt (maker_seeds a.maker) maker.bump settler_id a.maker_state) _ e in
        let (_, fill, e) =
          >>=-eq-ok
            (check_seeds rt (fill_seeds a.maker q.maker_nonce q.quote_id) settler_id a.quote_fill) _
            e in
        let (_, _, e) = >>=-eq-ok (load_mint t w.ledger a.otoken_mint) _ e in
        let (_, _, e) = >>=-eq-ok (load_mint t w.ledger a.collateral_mint_account) _ e in
        let (_, _, e) =
          >>=-eq-ok (require (a.collateral_mint_account == q.collateral_mint) _) _ e in
        let (_, _, e) = >>=-eq-ok (load_mint t w.ledger a.premium_mint_account) _ e in
        let (_, _, e) = >>=-eq-ok (require (a.premium_mint_account == q.premium_mint) _) _ e in
        let (_, x1, e) = >>=-eq-ok (load_token t w.ledger a.user_collateral_account) _ e in
        let (_, _, e) = >>=-eq-ok (load_token t w.ledger a.pool_token_account) _ e in
        let (_, x2, e) = >>=-eq-ok (load_token t w.ledger a.settler_otoken_account) _ e in
        let (_, x3, e) = >>=-eq-ok (load_token t w.ledger a.mm_premium_account) _ e in
        let (_, x4, e) = >>=-eq-ok (load_token t w.ledger a.user_premium_account) _ e in
        let (_, x5, e) = >>=-eq-ok (load_token t w.ledger a.treasury_account) _ e in
        let (_, balance, e) =
          >>=-eq-ok
            (check_seeds rt (balance_seeds a.maker a.otoken_mint) settler_id a.maker_otoken_balance)
            _ e in
        let (_, vault_mm, e) =
          >>=-eq-ok (check_seeds rt (vault_mm_seeds a.vault) settler_id a.vault_mm) _ e in
        subst (AreLoaded rt w a q) (ok_inj e) (record {
          config = load_settler_config-eq rt w.settler a.settler_config config c;
          maker_state = load-eq w.settler.makers a.maker_state m;
          user_collateral = load_token-eq t w.ledger a.user_collateral_account x1;
          settler_otokens = load_token-eq t w.ledger a.settler_otoken_account x2;
          mm_premium = load_token-eq t w.ledger a.mm_premium_account x3;
          user_premium = load_token-eq t w.ledger a.user_premium_account x4;
          treasury = load_token-eq t w.ledger a.treasury_account x5;
          fill_key = check_seeds-eq rt _ _ _ fill;
          balance_key = check_seeds-eq rt _ _ _ balance;
          vault_mm_key = check_seeds-eq rt _ _ _ vault_mm;
        })

-- The premium goes from the maker's account to the user's and to the treasury's, all in the premium's
-- mint, and the oTokens to the settler's own account.
pub record IsBound (a : ExecuteOrder) (q : Order) (o : LoadedOrder) : Type 0 where
  pub least : min_execute_amount ≤ q.amount
  pub live : o.config.paused ≡ false
  pub maker : o.maker_state.maker ≡ a.maker
  pub user_collateral : o.user_collateral.owner ≡ a.user
  pub otokens :
      (o.settler_otokens.mint ≡ a.otoken_mint) × (o.settler_otokens.owner ≡ a.settler_config)
  pub mm_premium : (o.mm_premium.owner ≡ a.maker) × (o.mm_premium.mint ≡ q.premium_mint)
  pub user_premium : (o.user_premium.owner ≡ a.user) × (o.user_premium.mint ≡ q.premium_mint)
  pub treasury : (o.treasury.owner ≡ o.config.treasury) × (o.treasury.mint ≡ q.premium_mint)

pub check_order-IsBound :
    (rt : Runtime) (a : ExecuteOrder) (q : Order) (o : LoadedOrder)
    → check_order rt a q o ≡ ok tt
    → IsBound a q o
unfolding check_order
check_order-IsBound rt a q o e =
    let (_, _, e) = >>=-eq-ok (require (ltb 0 q.amount) _) _ e in
    let (_, least, e) = >>=-eq-ok (require (leb min_execute_amount q.amount) _) _ e in
    let (_, _, e) = >>=-eq-ok (require (ltb 0 q.bid_price) _) _ e in
    let (_, live, e) = >>=-eq-ok (require (not o.config.paused) _) _ e in
    let (_, maker, e) = >>=-eq-ok (require (o.maker_state.maker == a.maker) _) _ e in
    let (_, user, e) = >>=-eq-ok (require (o.user_collateral.owner == a.user) _) _ e in
    let (_, _, e) = >>=-eq-ok (require (o.pool.mint == q.collateral_mint) _) _ e in
    let pool = (rt.find_program_address (pool_authority_seeds q.collateral_mint) controller_id).0 in
    let (_, _, e) = >>=-eq-ok (require (a.pool_vault_authority == pool) _) _ e in
    let (_, _, e) = >>=-eq-ok (require (o.pool.owner == pool) _) _ e in
    let (_, otoken_mint, e) = >>=-eq-ok (require (o.settler_otokens.mint == a.otoken_mint) _) _ e in
    let (_, otoken_owner, e) =
      >>=-eq-ok (require (o.settler_otokens.owner == a.settler_config) _) _ e in
    let (_, mm_owner, e) = >>=-eq-ok (require (o.mm_premium.owner == a.maker) _) _ e in
    let (_, mm_mint, e) = >>=-eq-ok (require (o.mm_premium.mint == q.premium_mint) _) _ e in
    let (_, user_owner, e) = >>=-eq-ok (require (o.user_premium.owner == a.user) _) _ e in
    let (_, user_mint, e) = >>=-eq-ok (require (o.user_premium.mint == q.premium_mint) _) _ e in
    let (_, fee_owner, e) = >>=-eq-ok (require (o.treasury.owner == o.config.treasury) _) _ e in
    record {
      least = guard-le _ _ _ least;
      live = guard-not _ _ live;
      maker = guard-eq _ _ _ maker;
      user_collateral = guard-eq _ _ _ user;
      otokens = (guard-eq _ _ _ otoken_mint, guard-eq _ _ _ otoken_owner);
      mm_premium = (guard-eq _ _ _ mm_owner, guard-eq _ _ _ mm_mint);
      user_premium = (guard-eq _ _ _ user_owner, guard-eq _ _ _ user_mint);
      treasury = (guard-eq _ _ _ fee_owner, guard-eq _ _ _ e);
    }
