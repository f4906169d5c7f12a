-- ===== src/Settler/Machine/Steps.antt =====
-- Every step of programs/batch_settler/src/lib.rs is a posting, and what postings keep, histories keep.
use options_protocol_solana.Common.{
  ℕ, ℤ, Bool, ◌≡◌, refl, sym, ap, subst, inl, inr, List, [], ◌∷◌, Pubkey, ok, >>=-eq-ok, ok_inj,
  Result-cases, arith,
}
use options_protocol_solana.Runtime.{Runtime, TokenProgram, SystemProgram, load_token, load_mint}
use options_protocol_solana.Controller.Settle
use options_protocol_solana.Settler.State.{SettlerState}
use options_protocol_solana.Settler.Limits
use options_protocol_solana.Settler.Admin
use options_protocol_solana.Settler.Admin.{
  WhitelistMaker, IncrementNonce, CancelQuote, load_owner_action,
}
use options_protocol_solana.Settler.World.{World, load_operated}
use options_protocol_solana.Settler.Rent
use options_protocol_solana.Settler.Rent.{InitVaultCounter}
use options_protocol_solana.Settler.Custody.Emergency
use options_protocol_solana.Settler.Custody.Emergency.{SettleVaultForMaker}
use options_protocol_solana.Settler.Machine.{
  Instruction, Transaction, execute, step, run, outcome, found_by, at, configure, whitelist_maker,
  increment_maker_nonce, cancel_quote, withdraw_rent_reserve, init_vault_counter, execute_order,
  settle_vault, emergency_withdraw, redeem_for_mm, mm_self_redeem, physical_redeem,
}
use options_protocol_solana.Settler.Machine.Ledger.{Entry, nothing, intent}
use options_protocol_solana.Settler.Machine.Postings.{
  Posting, keep, execute_order-Posting, redeem_for_mm-Posting, mm_self_redeem-Posting,
  physical_redeem-Posting, emergency_withdraw-Posting,
}

module _ (rt : Runtime) (s s' : SettlerState) where
  configure-Posting :
      (i : Limits.Instruction) → Limits.execute rt s i ≡ ok s' → Posting rt s s' nothing
  unfolding Limits.execute Admin.initialize Admin.set_treasury Admin.set_protocol_fee
      Admin.set_operator Admin.pause Admin.set_escape_delay Admin.set_jupiter_program
  configure-Posting (Limits.initialize a given) e = keep (ground arith) (ground arith) refl
  configure-Posting (Limits.set_treasury a treasury) e = keep (ground arith) (ground arith) refl
  configure-Posting (Limits.set_protocol_fee a bps) e = keep (ground arith) (ground arith) refl
  configure-Posting (Limits.set_operator a operator) e = keep (ground arith) (ground arith) refl
  configure-Posting (Limits.pause a paused) e = keep (ground arith) (ground arith) refl
  configure-Posting (Limits.set_escape_delay a delay) e = keep (ground arith) (ground arith) refl
  configure-Posting (Limits.set_jupiter_program a program) e =
      keep (ground arith) (ground arith) refl

  whitelist_maker-Posting :
      (a : WhitelistMaker) (maker : Pubkey) (whitelisted : Bool)
      → Admin.whitelist_maker rt s a maker whitelisted ≡ ok s'
      → Posting rt s s' nothing
  unfolding Admin.whitelist_maker
  whitelist_maker-Posting a maker whitelisted e =
      let (_, _, e) =
        >>=-eq-ok
          (load_owner_action rt s (record { settler_config = a.settler_config; owner = a.owner })) _
          e in
      keep (ground arith) (ground arith) refl

  increment_maker_nonce-Posting :
      (a : IncrementNonce) → Admin.increment_maker_nonce rt s a ≡ ok s' → Posting rt s s' nothing
  unfolding Admin.increment_maker_nonce
  increment_maker_nonce-Posting a e = keep (ground arith) (ground arith) refl

  cancel_quote-Posting :
      (a : CancelQuote) (quote_id : ℕ)
      → Admin.cancel_quote rt s a quote_id ≡ ok s'
      → Posting rt s s' nothing
  unfolding Admin.cancel_quote
  cancel_quote-Posting a quote_id e = keep (ground arith) (ground arith) refl

module _ {L : Type 0} (t : TokenProgram L) (sys : SystemProgram L) (rt : Runtime) where
  -- The same settler's accounts.
  same-Posting : (s s' : SettlerState) → s ≡ s' → Posting rt s s' nothing
  same-Posting s s' e = keep (ap (λ x. x.balances) (sym e)) (ap (λ x. x.vault_mms) (sym e)) refl

  init_vault_counter-same :
      (w w' : World L) (a : InitVaultCounter)
      → Rent.init_vault_counter sys rt w a ≡ ok w'
      → w.settler ≡ w'.settler
  unfolding Rent.init_vault_counter
  init_vault_counter-same w w' a e = ground arith

  settle_vault-same :
      (w w' : World L) (a : SettleVaultForMaker)
      → Emergency.settle_vault t rt w a ≡ ok w'
      → w.settler ≡ w'.settler
  unfolding Emergency.settle_vault
  settle_vault-same w w' a e =
      let (_, _, e) = >>=-eq-ok (load_operated rt w.settler a.settler_config a.operator) _ e in
      let (_, _, e) = >>=-eq-ok (load_token t w.ledger a.pool_token_account) _ e in
      let (_, _, e) = >>=-eq-ok (load_mint t w.ledger a.collateral_mint_account) _ e in
      let (_, _, e) = >>=-eq-ok (load_token t w.ledger a.beneficiary_token_account) _ e in
      let (_, _, e) = >>=-eq-ok (Settle.settle_vault t rt w.controller w.ledger _) _ e in
      ap (λ v. v.settler) (ok_inj e)

  pub execute-Posting :
      (w w' : World L) (i : Instruction L)
      → execute t sys rt w i ≡ ok w'
      → Posting rt w.settler w'.settler (intent w.settler i)
  unfolding execute
  execute-Posting w w' (configure i) e =
      let (s, ran, e) = >>=-eq-ok (Limits.execute rt w.settler i) _ e in
      subst (λ s. Posting rt w.settler s nothing) (ap (λ v. v.settler) (ok_inj e))
        (configure-Posting rt w.settler s i ran)
  execute-Posting w w' (whitelist_maker a maker whitelisted) e =
      let (s, ran, e) = >>=-eq-ok (Admin.whitelist_maker rt w.settler a maker whitelisted) _ e in
      subst (λ s. Posting rt w.settler s nothing) (ap (λ v. v.settler) (ok_inj e))
        (whitelist_maker-Posting rt w.settler s a maker whitelisted ran)
  execute-Posting w w' (increment_maker_nonce a) e =
      let (s, ran, e) = >>=-eq-ok (Admin.increment_maker_nonce rt w.settler a) _ e in
      subst (λ s. Posting rt w.settler s nothing) (ap (λ v. v.settler) (ok_inj e))
        (increment_maker_nonce-Posting rt w.settler s a ran)
  execute-Posting w w' (cancel_quote a quote_id) e =
      let (s, ran, e) = >>=-eq-ok (Admin.cancel_quote rt w.settler a quote_id) _ e in
      subst (λ s. Posting rt w.settler s nothing) (ap (λ v. v.settler) (ok_inj e))
        (cancel_quote-Posting rt w.settler s a quote_id ran)
  execute-Posting w w' (withdraw_rent_reserve a lamports) e =
      let (_, _, e) =
        >>=-eq-ok (Rent.withdraw_rent_reserve sys rt w.settler w.ledger a lamports) _ e in
      same-Posting w.settler w'.settler (ap (λ v. v.settler) (ok_inj e))
  execute-Posting w w' (init_vault_counter a) e =
      same-Posting w.settler w'.settler (init_vault_counter-same w w' a e)
  execute-Posting w w' (execute_order sysvar a q) e =
      execute_order-Posting t rt w w' sys sysvar a q e
  execute-Posting w w' (settle_vault a) e =
      same-Posting w.settler w'.settler (settle_vault-same w w' a e)
  execute-Posting w w' (emergency_withdraw a) e = emergency_withdraw-Posting t rt w w' a e
  execute-Posting w w' (redeem_for_mm a amount) e = redeem_for_mm-Posting t rt w w' a amount e
  execute-Posting w w' (mm_self_redeem a amount) e = mm_self_redeem-Posting t rt w w' a amount e
  execute-Posting w w' (physical_redeem program a amount most route) e =
      physical_redeem-Posting t rt w w' program a amount most route e

module _ {L : Type 0} (t : TokenProgram L) (sys : SystemProgram L) (rt : Runtime)
    (P : SettlerState → Type 0)
    (keeps : (now : ℤ) (s s' : SettlerState) (entry : Entry)
      → Posting (at rt now) s s' entry
      → P s
      → P s') where
  -- What every posting keeps, whatever the clock, a step keeps, and a history.
  pub step_keeps : (s : SettlerState) (x : Transaction L) → P s → P (step t sys rt s x)
  unfolding step
  step_keeps s x h =
      elim (Result-cases (execute t sys (at rt x.now) (found_by s x) x.instruction)) [
        | inl (w, e) ↦
            subst (λ r. P (outcome s r)) (sym e)
              (keeps x.now s w.settler (intent s x.instruction)
                (execute-Posting t sys (at rt x.now) (found_by s x) w x.instruction e) h)
        | inr (f, e) ↦ subst (λ r. P (outcome s r)) (sym e) h
      ]

  pub run_keeps : (s : SettlerState) (xs : List (Transaction L)) → P s → P (run t sys rt s xs)
  unfolding run
  run_keeps s [] h = h
  run_keeps s (x ∷ xs) h = run_keeps (step t sys rt s x) xs (step_keeps s x h)
