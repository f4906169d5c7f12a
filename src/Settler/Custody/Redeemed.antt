-- ===== src/Settler/Custody/Redeemed.antt =====
-- What `redeem_for_mm` and `mm_self_redeem` of programs/batch_settler/src/lib.rs do with a maker's
-- custody.
use options_protocol_solana.Common.{
  ℕ, ℤ, pos, ◌-◌, ◌≤◌, ◌<◌, ◌≤ℤ◌, ◌≡◌, ◌≢◌, ◌⊎◌, inl, inr, sym, ap, ◌∙◌, subst, some, lookup, ok,
  >>=-eq-ok, ok_inj, Result, ltb, ltb_ℤ, leb_ℤ, not, ◌==◌, guard-lt, guard-le_ℤ, guard-lt_ℤ,
  checked_add_i64, arith, Pubkey,
}
use options_protocol_solana.Runtime.{Runtime, TokenAccount, TokenProgram, TransferLaws, ok_or-eq}
use options_protocol_solana.Controller.State.{OTokenInfo}
use options_protocol_solana.Settler.State.{MakerOTokenBalance, require, or_else}
use options_protocol_solana.Settler.Admin.{load_maker}
use options_protocol_solana.Settler.World.{World, load_settler_config, load_operated}
use options_protocol_solana.Settler.Custody.Accounts.{
  CustodyAccounts, Custody, load_custody, debit_balance, put_balance,
}
use options_protocol_solana.Settler.Custody.Redeem.{
  RedeemForMm, MmSelfRedeem, redeem_and_forward, load_redeemed, redeem_for_mm, load_mm_self_redeem,
  mm_self_redeem,
}
use options_protocol_solana.Settler.Custody.Forward.{
  debit_balance-eq, later, CustodyLoaded, load_custody-Loaded, redeem_and_forward-passes,
}

-- What a redemption of custody has gone by, and what it leaves.
pub record IsRedeemed {L : Type 0} (t : TokenProgram L) (now : ℤ) (w w' : World L)
    (c : CustodyAccounts) (amount : ℕ) : Type 0 where
  pub info : OTokenInfo
  pub held : MakerOTokenBalance
  pub before : TokenAccount
  pub after : TokenAccount
  pub listed : lookup c.otoken_info w.controller.infos ≡ some info
  pub expired : info.expiry ≤ℤ now
  pub priced : 0 < info.expiry_price
  pub found : lookup c.maker_otoken_balance w.settler.balances ≡ some held
  pub enough : amount ≤ held.balance
  pub left :
      w'.settler
      ≡ put_balance w.settler c.maker_otoken_balance
          (record held { balance = held.balance - amount })
  pub same_controller : w'.controller ≡ w.controller
  pub had : t.account w.ledger c.settler_collateral_account ≡ some before
  pub has : t.account w'.ledger c.settler_collateral_account ≡ some after
  pub passed : after.amount ≡ before.amount

module _ {L : Type 0} (t : TokenProgram L) (rt : Runtime) (w : World L) where
  pub load_redeemed-Loaded :
      (c : CustodyAccounts) (maker_of : Pubkey → Pubkey) (k : Custody)
      → load_redeemed t rt w c maker_of ≡ ok k
      → CustodyLoaded t w c k
  unfolding load_redeemed
  load_redeemed-Loaded c maker_of k e =
      let (j, loaded, e) = >>=-eq-ok (load_custody t rt w c maker_of) _ e in
      let (_, _, e) = >>=-eq-ok (require (j.mm_collateral.mint == j.info.collateral_mint) _) _ e in
      subst (CustodyLoaded t w c) (ok_inj e) (load_custody-Loaded t rt w c maker_of j loaded).0

  pub load_mm_self_redeem-Loaded :
      (a : MmSelfRedeem) (delay : ℤ) (k : Custody)
      → load_mm_self_redeem t rt w a ≡ ok (delay, k)
      → CustodyLoaded t w a.custody k
  unfolding load_mm_self_redeem
  load_mm_self_redeem-Loaded a delay k e =
      let c = a.custody in
      let (config, _, e) = >>=-eq-ok (load_settler_config rt w.settler c.settler_config) _ e in
      let (maker, _, e) = >>=-eq-ok (load_maker rt w.settler a.maker_state a.maker) _ e in
      let (_, _, e) = >>=-eq-ok (require maker.whitelisted _) _ e in
      let (j, custody, e) = >>=-eq-ok (load_redeemed t rt w c (λ _. a.maker)) _ e in
      subst (CustodyLoaded t w c) (ap (λ p. p.1) (ok_inj e))
        (load_redeemed-Loaded c (λ _. a.maker) j custody)

module _ {L : Type 0} (t : TokenProgram L) (laws : TransferLaws t) (rt : Runtime) (w w' : World L)
    (amount : ℕ) where
  -- The end of both instructions.
  finish-IsRedeemed :
      (c : CustodyAccounts) (k : Custody) (b : MakerOTokenBalance) (l : L)
      → c.settler_collateral_account ≢ c.mm_collateral_account
      → CustodyLoaded t w c k
      → k.info.expiry ≤ℤ rt.now
      → 0 < k.info.expiry_price
      → debit_balance k.balance amount ≡ ok b
      → redeem_and_forward t rt w.controller w.ledger c k amount ≡ ok l
      → w' ≡ record w { settler = put_balance w.settler c.maker_otoken_balance b; ledger = l }
      → IsRedeemed t rt.now w w' c amount
  finish-IsRedeemed c k b l apart loaded expired priced debited forwarded e =
      let (enough, left) = debit_balance-eq k.balance b amount debited in
      let (after, there, passed) =
        redeem_and_forward-passes t laws rt w.controller w.ledger l c k amount apart forwarded in
      record {
        info = k.info;
        held = k.balance;
        before = k.settler_collateral;
        after = after;
        listed = loaded.info;
        expired = expired;
        priced = priced;
        found = loaded.balance;
        enough = enough;
        left = ap (λ v. v.settler) e ∙ ap (put_balance w.settler c.maker_otoken_balance) left;
        same_controller = ap (λ v. v.controller) e;
        had = loaded.settler_collateral;
        has =
            subst (λ m. t.account m c.settler_collateral_account ≡ some after)
              (sym (ap (λ v. v.ledger) e)) there;
        passed = passed;
      }

  redeem_for_mm-IsRedeemed :
      (a : RedeemForMm)
      → a.custody.settler_collateral_account ≢ a.custody.mm_collateral_account
      → redeem_for_mm t rt w a amount ≡ ok w'
      → IsRedeemed t rt.now w w' a.custody amount
  unfolding redeem_for_mm
  redeem_for_mm-IsRedeemed a apart e =
      let c = a.custody in
      let (config, _, e) = >>=-eq-ok (load_operated rt w.settler c.settler_config a.operator) _ e in
      let (k, loaded, e) = >>=-eq-ok (load_redeemed t rt w c (λ maker. maker)) _ e in
      let (_, _, e) = >>=-eq-ok (require (ltb 0 amount) _) _ e in
      let (_, _, e) = >>=-eq-ok (require (not config.paused) _) _ e in
      let (_, expired, e) = >>=-eq-ok (require (leb_ℤ k.info.expiry rt.now) _) _ e in
      let (_, priced, e) = >>=-eq-ok (require (ltb 0 k.info.expiry_price) _) _ e in
      let (b, debited, e) = >>=-eq-ok (debit_balance k.balance amount) _ e in
      let (l, forwarded, e) =
        >>=-eq-ok (redeem_and_forward t rt w.controller w.ledger c k amount) _ e in
      finish-IsRedeemed c k b l apart (load_redeemed-Loaded t rt w c (λ maker. maker) k loaded)
        (guard-le_ℤ _ k.info.expiry rt.now expired) (guard-lt _ 0 k.info.expiry_price priced)
        debited forwarded (sym (ok_inj e))

  mm_self_redeem-IsRedeemed :
      (a : MmSelfRedeem)
      → a.custody.settler_collateral_account ≢ a.custody.mm_collateral_account
      → mm_self_redeem t rt w a amount ≡ ok w'
      → IsRedeemed t rt.now w w' a.custody amount
  unfolding mm_self_redeem
  mm_self_redeem-IsRedeemed a apart e =
      let c = a.custody in
      let ((delay, k), loaded, e) = >>=-eq-ok (load_mm_self_redeem t rt w a) _ e in
      let (_, _, e) = >>=-eq-ok (require (ltb 0 amount) _) _ e in
      let (_, positive, e) = >>=-eq-ok (require (ltb_ℤ (pos 0) delay) _) _ e in
      let (escape, sum, e) = >>=-eq-ok (or_else (checked_add_i64 k.info.expiry delay) _) _ e in
      let (_, ready, e) = >>=-eq-ok (require (leb_ℤ escape rt.now) _) _ e in
      let (_, priced, e) = >>=-eq-ok (require (ltb 0 k.info.expiry_price) _) _ e in
      let (b, debited, e) = >>=-eq-ok (debit_balance k.balance amount) _ e in
      let (l, forwarded, e) =
        >>=-eq-ok (redeem_and_forward t rt w.controller w.ledger c k amount) _ e in
      let after =
        later k.info.expiry delay escape (ok_or-eq _ _ sum) (guard-lt_ℤ _ (pos 0) delay positive) in
      let reached = guard-le_ℤ _ escape rt.now ready in
      finish-IsRedeemed c k b l apart (load_mm_self_redeem-Loaded t rt w a delay k loaded)
        (omega arith) (guard-lt _ 0 k.info.expiry_price priced) debited forwarded (sym (ok_inj e))

-- A redemption of custody, by the operator or by the maker.
unfoldable pub redeem_custody :
    {L : Type 0}
    → TokenProgram L
    → Runtime
    → World L
    → RedeemForMm ⊎ MmSelfRedeem
    → ℕ
    → Result (World L)
redeem_custody t rt w (inl a) amount = redeem_for_mm t rt w a amount
redeem_custody t rt w (inr a) amount = mm_self_redeem t rt w a amount

abbrev pub custody_of : RedeemForMm ⊎ MmSelfRedeem → CustodyAccounts
custody_of (inl a) = a.custody
custody_of (inr a) = a.custody

-- By the operator or by the maker: if a redemption of custody succeeds, and the settler's collateral
-- account is not the maker's, then the series has expired with a price, the balance held the amount
-- and is less by it, nothing else of the settler or the controller has changed, and the settler's
-- collateral account has as much as before.
pub redeem_custody-IsRedeemed :
    {L : Type 0} (t : TokenProgram L)
    → TransferLaws t
    → (rt : Runtime) (w w' : World L) (x : RedeemForMm ⊎ MmSelfRedeem) (amount : ℕ)
    → (custody_of x).settler_collateral_account ≢ (custody_of x).mm_collateral_account
    → redeem_custody t rt w x amount ≡ ok w'
    → IsRedeemed t rt.now w w' (custody_of x) amount
unfolding redeem_custody
redeem_custody-IsRedeemed t laws rt w w' (inl a) amount apart e =
    redeem_for_mm-IsRedeemed t laws rt w w' amount a apart e
redeem_custody-IsRedeemed t laws rt w w' (inr a) amount apart e =
    mm_self_redeem-IsRedeemed t laws rt w w' amount a apart e
