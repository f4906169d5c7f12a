-- ===== src/Oracle/Finality.antt =====
-- What programs/oracle/src/lib.rs promises of an expiry price: where it comes from, and that it is
-- final.
use options_protocol_solana.Common.{
  guard-true, guard-le_ℤ, guard-lt, ok_inj, ℕ, ℤ, ◌+◌, ◌*◌, ◌<◌, ◌≤ℤ◌, ◌≡◌, inl, inr, refl, ap, sym,
  ◌∙◌, true, some, none, List, [], ◌∷◌, Pubkey, lookup, insert, OracleError, ltb, leb_ℤ,
  lookup-insert_vacant, ok, >>=-eq-ok, Result-cases, arith, abs_diff, subst,
}
use options_protocol_solana.Runtime.{Runtime}
use options_protocol_solana.Oracle.State.{
  OracleState, OracleConfig, PriceFeed, ExpiryPrice, require,
}
use options_protocol_solana.Oracle.Checks.{validate_price_deviation}
use options_protocol_solana.Oracle.Deviation.{validate_price_deviation_iff}
use options_protocol_solana.Oracle.Prices.{
  SetExpiryPrice, live_price, load_set_expiry_price, set_expiry_price,
}
use options_protocol_solana.Oracle.Admin
use options_protocol_solana.Oracle.Machine
use options_protocol_solana.Oracle.Machine.{Instruction, execute, run}

module _ (rt : Runtime) (s s' : OracleState) where
  loaded_accounts :
      (a : SetExpiryPrice) (underlying : Pubkey) (expiry : ℤ) (bump : ℕ) (config : OracleConfig)
      (feed : PriceFeed)
      → load_set_expiry_price rt s a underlying expiry ≡ ok (bump, config, feed)
      → (lookup a.config s.configs ≡ some config)
        × (lookup a.feed s.feeds ≡ some feed)
        × (lookup a.expiry_price s.expiry_prices ≡ none)
  unfolding load_set_expiry_price
  loaded_accounts a underlying expiry bump config feed e = ground arith

  -- An expiry price that is set is written to a vacant account after the expiry, and it is
  -- positive and within threshold + 1 basis points of the live price of an active feed.
  pub set_expiry_price-close :
      (a : SetExpiryPrice) (underlying : Pubkey) (expiry : ℤ) (price : ℕ)
      → set_expiry_price rt s a underlying expiry price ≡ ok s'
      → (config : OracleConfig) × (feed : PriceFeed) × (bump : ℕ) × (reference : ℕ) × (lookup
            a.config s.configs
          ≡ some config)
        × (lookup a.feed s.feeds ≡ some feed)
        × (lookup a.expiry_price s.expiry_prices ≡ none)
        × (feed.active ≡ true)
        × (expiry ≤ℤ rt.now)
        × (0 < price)
        × (live_price rt config feed a.pyth_price_update ≡ ok reference)
        × (abs_diff price reference * 10_000
            < (config.price_deviation_threshold_bps + 1) * reference)
        × (s'.expiry_prices
            ≡ insert a.expiry_price
                (record {
                  underlying = underlying;
                  expiry = expiry;
                  price = price;
                  is_finalized = true;
                  bump = bump;
                })
                s.expiry_prices)
  unfolding set_expiry_price
  set_expiry_price-close a underlying expiry price e =
      let ((bump, config, feed), loaded, rest) =
        >>=-eq-ok (load_set_expiry_price rt s a underlying expiry) _ e in
      let (_, positive, rest) =
        >>=-eq-ok (require (ltb 0 price) OracleError.invalid_price) _ rest in
      let (_, expired, rest) =
        >>=-eq-ok (require (leb_ℤ expiry rt.now) OracleError.expiry_not_reached) _ rest in
      let (_, active, rest) = >>=-eq-ok (require feed.active OracleError.feed_not_active) _ rest in
      let (_, limited, rest) =
        >>=-eq-ok
          (require (ltb 0 config.price_deviation_threshold_bps)
            OracleError.invalid_deviation_threshold)
          _ rest in
      let (reference, live, rest) =
        >>=-eq-ok (live_price rt config feed a.pyth_price_update) _ rest in
      let (_, accepted, rest) =
        >>=-eq-ok (validate_price_deviation price reference config.price_deviation_threshold_bps) _
          rest in
      let (config_there, feed_there, vacant) =
        loaded_accounts a underlying expiry bump config feed loaded in
      let (_, _, close) =
        (validate_price_deviation_iff price reference config.price_deviation_threshold_bps
            (guard-lt _ 0 _ limited)).0
          accepted in
      (
        config,
        feed,
        bump,
        reference,
        config_there,
        feed_there,
        vacant,
        guard-true _ _ active,
        guard-le_ℤ _ expiry rt.now expired,
        guard-lt _ 0 _ positive,
        live,
        close,
        ap (λ o. o.expiry_prices) (sym (ok_inj rest)),
      )

-- A write of the program: it leaves the expiry prices alone, or it adds a final one at a vacant
-- address.
data Write : OracleState → OracleState → Type 0 where
  other : {s s' : OracleState} → s'.expiry_prices ≡ s.expiry_prices → Write s s'
  price :
      {s s' : OracleState} (k : Pubkey) (p : ExpiryPrice)
      → lookup k s.expiry_prices ≡ none
      → p.is_finalized ≡ true
      → 0 < p.price
      → s'.expiry_prices ≡ insert k p s.expiry_prices
      → Write s s'

module _ (rt : Runtime) (s s' : OracleState) where
  execute-Write : (i : Instruction) → execute rt s i ≡ ok s' → Write s s'
  unfolding execute Admin.initialize Admin.register_feed Admin.deregister_feed Admin.set_feed_active
      Admin.set_operator Admin.set_price_deviation_threshold Admin.set_max_staleness
      Admin.set_max_confidence Admin.transfer_ownership Admin.accept_ownership
  execute-Write (Machine.initialize a given) e = other (ground arith)
  execute-Write (Machine.register_feed a underlying id) e = other (ground arith)
  execute-Write (Machine.deregister_feed a) e = other (ground arith)
  execute-Write (Machine.set_feed_active a active) e = other (ground arith)
  execute-Write (Machine.set_operator a operator) e = other (ground arith)
  execute-Write (Machine.set_price_deviation_threshold a bps) e = other (ground arith)
  execute-Write (Machine.set_max_staleness a secs) e = other (ground arith)
  execute-Write (Machine.set_max_confidence a bps) e = other (ground arith)
  execute-Write (Machine.transfer_ownership a new_admin) e = other (ground arith)
  execute-Write (Machine.accept_ownership a) e = other (ground arith)
  execute-Write (Machine.set_expiry_price a underlying expiry n) e =
      let (_, _, bump, _, _, _, vacant, _, _, positive, _, _, written) =
        set_expiry_price-close rt s s' a underlying expiry n e in
      price a.expiry_price _ vacant refl positive written

-- What every write keeps, every history keeps.
run_keeps :
    (rt : Runtime) (P : OracleState → Type 0)
    → ((s s' : OracleState) → Write s s' → P s → P s')
    → (s : OracleState) (xs : List (ℤ × Instruction)) → P s
    → P (run rt s xs)
unfolding run
run_keeps rt P kept s [] h = h
run_keeps rt P kept s ((now, i) ∷ xs) h = elim (Result-cases (execute (Machine.at rt now) s i)) [
  | inl (s', e) ↦
      subst (λ r. P (run rt (Machine.outcome s r) xs)) (sym e)
        (run_keeps rt P kept s' xs (kept s s' (execute-Write (Machine.at rt now) s s' i e) h))
  | inr (f, e) ↦
      subst (λ r. P (run rt (Machine.outcome s r) xs)) (sym e) (run_keeps rt P kept s xs h)
]

-- An expiry price that is set stays what it is, whatever instructions follow.
pub run-expiry_price :
    (rt : Runtime) (s : OracleState) (xs : List (ℤ × Instruction)) (k : Pubkey) (p : ExpiryPrice)
    → lookup k s.expiry_prices ≡ some p
    → lookup k (run rt s xs).expiry_prices ≡ some p
run-expiry_price rt s xs k p here =
    run_keeps rt (λ o. lookup k o.expiry_prices ≡ some p) kept s xs here
  where
    kept :
        (s s' : OracleState)
        → Write s s'
        → lookup k s.expiry_prices ≡ some p
        → lookup k s'.expiry_prices ≡ some p
    kept s s' (other same) h = ap (lookup k) same ∙ h
    kept s s' (price j q vacant final positive written) h =
        ap (lookup k) written ∙ lookup-insert_vacant k j q p s.expiry_prices vacant h
