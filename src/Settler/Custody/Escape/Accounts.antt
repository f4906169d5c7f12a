-- ===== src/Settler/Custody/Escape/Accounts.antt =====
-- The accounts of `mm_self_redeem` in programs/batch_settler/src/lib.rs.
use options_protocol_solana.Common.{
  ℕ, ℤ, ◌≡◌, refl, true, some, lookup, ok, ok_inj, >>=-eq-ok, >>=-ok, ap, sym, subst, ◌∙◌, ◌==◌,
  guard-eq, guard-true, guard_same, guard_of,
}
use options_protocol_solana.Runtime.{
  Runtime, TokenProgram, load, check_bump, load-eq, load-ok, check_bump-eq, check_bump-ok, has_one,
}
use options_protocol_solana.Settler.State.{
  SettlerConfig, MakerState, settler_id, require, config_seeds, maker_seeds,
}
use options_protocol_solana.Settler.Admin.{load_maker}
use options_protocol_solana.Settler.World.{World, load_settler_config}
use options_protocol_solana.Settler.Custody.Accounts.{Custody}
use options_protocol_solana.Settler.Custody.Redeem.{
  MmSelfRedeem, load_mm_self_redeem, load_redeemed,
}
use options_protocol_solana.Settler.Custody.Escape.Held.{
  IsCustodyOf, redeemed-IsCustodyOf, custody-redeemed,
}

-- The settler's configuration and the maker's state, each at its address, the maker whitelisted, and
-- the custody of this maker. Nothing is asked of the switch that pauses the settler.
pub record IsMakers {L : Type 0} (t : TokenProgram L) (rt : Runtime) (w : World L)
    (a : MmSelfRedeem) (delay : ℤ) (k : Custody) : Type 0 where
  pub config : SettlerConfig
  pub config_found : lookup a.custody.settler_config w.settler.configs ≡ some config
  pub config_place :
      rt.create_program_address config_seeds config.bump settler_id ≡ some a.custody.settler_config
  pub config_delay : delay ≡ config.escape_delay
  pub state : MakerState
  pub state_found : lookup a.maker_state w.settler.makers ≡ some state
  pub state_place :
      rt.create_program_address (maker_seeds a.maker) state.bump settler_id ≡ some a.maker_state
  pub named : state.maker ≡ a.maker
  pub whitelisted : state.whitelisted ≡ true
  pub custody : IsCustodyOf t rt w a.custody a.maker k

module _ {L : Type 0} (t : TokenProgram L) (rt : Runtime) (w : World L) where
  settler_config-eq :
      (address : ℕ) (config : SettlerConfig)
      → load_settler_config rt w.settler address ≡ ok config
      → (lookup address w.settler.configs ≡ some config)
        × (rt.create_program_address config_seeds config.bump settler_id ≡ some address)
  unfolding load_settler_config
  settler_config-eq address config e =
      let (x, found, e) = >>=-eq-ok (load w.settler.configs address) _ e in
      let (_, place, e) = >>=-eq-ok (check_bump rt config_seeds x.bump settler_id address) _ e in
      let same : x ≡ config = ok_inj e in
      (
        load-eq w.settler.configs address found ∙ ap some same,
        subst
            (λ (c : SettlerConfig).
              rt.create_program_address config_seeds c.bump settler_id ≡ some address)
            same (check_bump-eq rt _ _ _ _ place),
      )

  maker-eq :
      (address maker : ℕ) (state : MakerState)
      → load_maker rt w.settler address maker ≡ ok state
      → (lookup address w.settler.makers ≡ some state)
        × (rt.create_program_address (maker_seeds maker) state.bump settler_id ≡ some address)
        × (state.maker ≡ maker)
  unfolding load_maker
  maker-eq address maker state e =
      let (x, found, e) = >>=-eq-ok (load w.settler.makers address) _ e in
      let (_, place, e) =
        >>=-eq-ok (check_bump rt (maker_seeds maker) x.bump settler_id address) _ e in
      let (_, named, e) = >>=-eq-ok (has_one (x.maker == maker)) _ e in
      let same : x ≡ state = ok_inj e in
      (
        load-eq w.settler.makers address found ∙ ap some same,
        subst
            (λ (m : MakerState).
              rt.create_program_address (maker_seeds maker) m.bump settler_id ≡ some address)
            same (check_bump-eq rt _ _ _ _ place),
        ap (λ (m : MakerState). m.maker) (sym same) ∙ guard-eq _ _ _ named,
      )

  -- The accounts load exactly when they are the maker's.
  module _ (a : MmSelfRedeem) (delay : ℤ) (k : Custody) where
    pub loads-IsMakers : load_mm_self_redeem t rt w a ≡ ok (delay, k) → IsMakers t rt w a delay k
    unfolding load_mm_self_redeem
    loads-IsMakers e =
        let c = a.custody in
        let (config, loads, e) =
          >>=-eq-ok (load_settler_config rt w.settler c.settler_config) _ e in
        let (state, maker, e) = >>=-eq-ok (load_maker rt w.settler a.maker_state a.maker) _ e in
        let (_, white, e) = >>=-eq-ok (require state.whitelisted _) _ e in
        let (j, custody, e) = >>=-eq-ok (load_redeemed t rt w c (λ _. a.maker)) _ e in
        let (found, place) = settler_config-eq c.settler_config config loads in
        let (state_found, state_place, named) = maker-eq a.maker_state a.maker state maker in
        record {
          config = config;
          config_found = found;
          config_place = place;
          config_delay = ap (λ p. p.0) (sym (ok_inj e));
          state = state;
          state_found = state_found;
          state_place = state_place;
          named = named;
          whitelisted = guard-true _ _ white;
          custody =
              subst (IsCustodyOf t rt w c a.maker) (ap (λ p. p.1) (ok_inj e))
                (redeemed-IsCustodyOf t rt w c a.maker j custody);
        }

    pub makers-load : IsMakers t rt w a delay k → load_mm_self_redeem t rt w a ≡ ok (delay, k)
    unfolding load_mm_self_redeem load_settler_config load_maker
    makers-load h = >>=-ok _ config_loads (
        >>=-ok _ maker_loads (
          >>=-ok _ (guard_of _ h.whitelisted) (
            >>=-ok _ (custody-redeemed t rt w a.custody a.maker k h.custody)
              (ap (λ z. ok (z, k)) (sym h.config_delay)))))
      where
        config_loads : load_settler_config rt w.settler a.custody.settler_config ≡ ok h.config
        config_loads =
            >>=-ok _ (load-ok w.settler.configs a.custody.settler_config h.config_found)
              (>>=-ok _ (check_bump-ok rt _ _ _ _ h.config_place) refl)

        maker_loads : load_maker rt w.settler a.maker_state a.maker ≡ ok h.state
        maker_loads = >>=-ok _ (load-ok w.settler.makers a.maker_state h.state_found) (
            >>=-ok _ (check_bump-ok rt _ _ _ _ h.state_place)
              (>>=-ok _ (guard_same _ h.named) refl))
