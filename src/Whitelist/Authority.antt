-- ===== src/Whitelist/Authority.antt =====
-- Who may put a series on the list of programs/whitelist/src/lib.rs.
use options_protocol_solana.Common.{
  guard-true, ok_inj, ℕ, ap, sym, inl, inr, not, ◌&&◌, ◌||◌, ◌==◌, ==_iff, Bool-cases, Option-cases,
  WhitelistError, ◌≡◌, ◌≢◌, ◌⊎◌, true, some, none, Pubkey, default, lookup, insert, ok, >>=-eq-ok,
  arith,
}
use options_protocol_solana.Runtime.{Runtime}
use options_protocol_solana.Factory.State.{FactoryState, OToken, FactoryOperatorConfig}
use options_protocol_solana.Whitelist.State.{WhitelistState, WhitelistConfig, require}
use options_protocol_solana.Whitelist.Entries.{
  WhitelistOToken, whitelist_otoken, load_whitelist_otoken, is_factory_operator,
}

-- The caller is the admin, the factory if one is set, or the operator that the factory names.
abbrev pub IsAuthorized : FactoryState → WhitelistConfig → Pubkey → Pubkey → Type 0
IsAuthorized f config operator_config caller =
    (caller ≡ config.admin)
    ⊎ ((config.factory ≢ default) × (caller ≡ config.factory))
    ⊎ ((c : FactoryOperatorConfig) × (lookup operator_config f.operator_configs ≡ some c)
        × (caller ≡ c.operator))

operator_of :
    (f : FactoryState) (account caller : Pubkey)
    → is_factory_operator f account caller ≡ true
    → (c : FactoryOperatorConfig) × (lookup account f.operator_configs ≡ some c)
      × (caller ≡ c.operator)
unfolding is_factory_operator
operator_of f account caller e = elim (Option-cases (lookup account f.operator_configs)) [
  | inl missing ↦ absurd (ground arith)
  | inr (c, there) ↦ (c, there, ground arith)
]

authorized :
    (f : FactoryState) (config : WhitelistConfig) (account caller : Pubkey)
    → (caller == config.admin
        || (not (config.factory == default) && caller == config.factory)
        || is_factory_operator f account caller)
      ≡ true
    → IsAuthorized f config account caller
authorized f config account caller e = elim (Bool-cases (is_factory_operator f account caller)) [
  | inl operates ↦ inr (inr (operator_of f account caller operates))
  | inr other ↦ elim (Bool-cases (caller == config.admin)) [
    | inl admin ↦ inl ((==_iff caller config.admin).0 admin)
    | inr another ↦ inr (inl (ground arith, ground arith))
  ]
]

module _ (rt : Runtime) (s : WhitelistState) (f : FactoryState) (a : WhitelistOToken)
    (otoken_mint : Pubkey) where
  loaded_accounts :
      (bump : ℕ) (config : WhitelistConfig)
      → load_whitelist_otoken rt s f a otoken_mint ≡ ok (bump, config)
      → (lookup a.whitelisted_otoken s.whitelisted_otokens ≡ none)
        × (lookup a.config s.configs ≡ some config)
        × ((otoken : OToken) × (lookup a.factory_otoken f.otokens ≡ some otoken)
            × (otoken.mint ≡ otoken_mint))
  unfolding load_whitelist_otoken
  loaded_accounts bump config e = elim (Option-cases (lookup a.factory_otoken f.otokens)) [
    | inl missing ↦ absurd (ground arith)
    | inr (otoken, there) ↦ (ground arith, ground arith, (otoken, there, ground arith))
  ]

  -- A series is listed only by a caller with the authority, only with a record of the factory,
  -- and only once: its entry was vacant, and is then active.
  pub whitelist_otoken-IsAuthorized :
      (s' : WhitelistState)
      → whitelist_otoken rt s f a otoken_mint ≡ ok s'
      → (config : WhitelistConfig) × (otoken : OToken) × (bump : ℕ) × (lookup a.config s.configs
          ≡ some config)
        × (lookup a.factory_otoken f.otokens ≡ some otoken)
        × (otoken.mint ≡ otoken_mint)
        × IsAuthorized f config a.factory_operator_config a.caller
        × (lookup a.whitelisted_otoken s.whitelisted_otokens ≡ none)
        × (s'.whitelisted_otokens
            ≡ insert a.whitelisted_otoken
                (record { otoken_mint = otoken_mint; active = true; bump = bump })
                s.whitelisted_otokens)
  unfolding whitelist_otoken
  whitelist_otoken-IsAuthorized s' e =
      let ((bump, config), loaded, rest) =
        >>=-eq-ok (load_whitelist_otoken rt s f a otoken_mint) _ e in
      let (vacant, config_there, (otoken, there, same)) = loaded_accounts bump config loaded in
      let (_, allowed, written) =
        >>=-eq-ok
          (require
            (a.caller == config.admin
              || (not (config.factory == default) && a.caller == config.factory)
              || is_factory_operator f a.factory_operator_config a.caller)
            WhitelistError.unauthorized)
          _ rest in
      (
        config,
        otoken,
        bump,
        config_there,
        there,
        same,
        authorized f config a.factory_operator_config a.caller (guard-true _ _ allowed),
        vacant,
        ap (λ w. w.whitelisted_otokens) (sym (ok_inj written)),
      )
