-- ===== src/Settler/Custody/Forward.antt =====
-- The steps that the redemptions of custody in programs/batch_settler/src/lib.rs share.
use options_protocol_solana.Common.{
  ℕ, ℤ, pos, ◌-◌, ◌≤◌, ◌≤ℤ◌, ◌≡◌, ◌≢◌, inl, inr, subst, some, lookup, ok, >>=-eq-ok, ok_inj, Result,
  ltb, ◌==◌, if◌then◌else◌, Bool-cases, checked_add_i64, checked_sub, checked_sub-eq, arith, true,
  false, ◌<ℤ◌, Pubkey, +ℤ_parts,
}
use options_protocol_solana.Runtime.{
  Runtime, TokenAccount, TokenProgram, TransferLaws, load, load_token, load_mint, check_bump,
  load-eq, load_token-eq, invoke-eq, check_bump-eq,
}
use options_protocol_solana.Controller.State.{ControllerState}
use options_protocol_solana.Settler.State.{
  MakerOTokenBalance, settler_id, require, or_else, balance_seeds,
}
use options_protocol_solana.Settler.World.{World}
use options_protocol_solana.Settler.Custody.Accounts.{
  CustodyAccounts, Custody, load_custody, cpi_redeem, debit_balance,
}
use options_protocol_solana.Settler.Custody.Redeem.{redeem_and_forward}

pub debit_balance-eq :
    (b b' : MakerOTokenBalance) (amount : ℕ)
    → debit_balance b amount ≡ ok b'
    → (amount ≤ b.balance) × (b' ≡ record b { balance = b.balance - amount })
unfolding debit_balance checked_sub
debit_balance-eq b b' amount e = (ground arith, ground arith)

-- The sum that does not overflow, of a positive delay, is later.
pub later : (a b c : ℤ) → checked_add_i64 a b ≡ some c → pos 0 <ℤ b → a ≤ℤ c
unfolding checked_add_i64
later a b c e positive = let parts = +ℤ_parts a b in ground arith

module _ {L : Type 0} (t : TokenProgram L) where
  -- The custody accounts, where they were found.
  pub record CustodyLoaded (w : World L) (c : CustodyAccounts) (k : Custody) : Type 0 where
    pub balance : lookup c.maker_otoken_balance w.settler.balances ≡ some k.balance
    pub info : lookup c.otoken_info w.controller.infos ≡ some k.info
    pub settler_collateral :
        t.account w.ledger c.settler_collateral_account ≡ some k.settler_collateral
    pub mm_collateral : t.account w.ledger c.mm_collateral_account ≡ some k.mm_collateral

  pub load_custody-Loaded :
      (rt : Runtime) (w : World L) (c : CustodyAccounts) (maker_of : Pubkey → Pubkey) (k : Custody)
      → load_custody t rt w c maker_of ≡ ok k
      → CustodyLoaded w c k
        × (rt.create_program_address
              (balance_seeds (maker_of k.balance.maker) c.otoken_mint)
              k.balance.bump
              settler_id
            ≡ some c.maker_otoken_balance)
  unfolding load_custody
  load_custody-Loaded rt w c maker_of k e =
      let (b, eb, e) = >>=-eq-ok (load w.settler.balances c.maker_otoken_balance) _ e in
      let (_, bump, e) =
        >>=-eq-ok
          (check_bump rt (balance_seeds (maker_of b.maker) c.otoken_mint) b.bump settler_id
            c.maker_otoken_balance)
          _ e in
      let (info, ei, e) = >>=-eq-ok (load w.controller.infos c.otoken_info) _ e in
      let (_, _, e) = >>=-eq-ok (load_mint t w.ledger c.otoken_mint) _ e in
      let (d, _, e) = >>=-eq-ok (load_mint t w.ledger c.collateral_mint_account) _ e in
      let (otokens, _, e) = >>=-eq-ok (load_token t w.ledger c.settler_otoken_account) _ e in
      let (_, _, e) = >>=-eq-ok (require (otokens.mint == c.otoken_mint) _) _ e in
      let (_, _, e) = >>=-eq-ok (require (otokens.owner == c.settler_config) _) _ e in
      let (x, ex, e) = >>=-eq-ok (load_token t w.ledger c.settler_collateral_account) _ e in
      let (_, _, e) = >>=-eq-ok (require (x.mint == info.collateral_mint) _) _ e in
      let (_, _, e) = >>=-eq-ok (require (x.owner == c.settler_config) _) _ e in
      let (y, ey, e) = >>=-eq-ok (load_token t w.ledger c.mm_collateral_account) _ e in
      let (_, _, e) = >>=-eq-ok (require (y.owner == maker_of b.maker) _) _ e in
      let (_, _, e) = >>=-eq-ok (load_token t w.ledger c.pool_token_account) _ e in
      subst
        (λ (k : Custody).
          CustodyLoaded w c k
          × (rt.create_program_address (balance_seeds (maker_of k.balance.maker) c.otoken_mint)
                k.balance.bump settler_id
              ≡ some c.maker_otoken_balance))
        (ok_inj e)
        (
          record {
            balance = load-eq w.settler.balances c.maker_otoken_balance eb;
            info = load-eq w.controller.infos c.otoken_info ei;
            settler_collateral = load_token-eq t w.ledger c.settler_collateral_account ex;
            mm_collateral = load_token-eq t w.ledger c.mm_collateral_account ey;
          },
          check_bump-eq rt _ _ _ _ bump,
        )

  module _ (laws : TransferLaws t) where
    -- What the settler's collateral account had before, it has after.
    pub redeem_and_forward-passes :
        (rt : Runtime) (s : ControllerState) (l l' : L) (c : CustodyAccounts) (k : Custody)
        (amount : ℕ)
        → c.settler_collateral_account ≢ c.mm_collateral_account
        → redeem_and_forward t rt s l c k amount ≡ ok l'
        → (x : TokenAccount) × (t.account l' c.settler_collateral_account ≡ some x)
          × (x.amount ≡ k.settler_collateral.amount)
    unfolding redeem_and_forward
    redeem_and_forward-passes rt s l l' c k amount apart e =
        let (l1, _, e) = >>=-eq-ok (cpi_redeem t rt s l c amount) _ e in
        let (after, ea, e) = >>=-eq-ok (load_token t l1 c.settler_collateral_account) _ e in
        let (payout, ep, e) =
          >>=-eq-ok (or_else (checked_sub after.amount k.settler_collateral.amount) _) _ e in
        let here = load_token-eq t l1 c.settler_collateral_account ea in
        let sum = checked_sub-eq _ _ _ _ ep in
        elim (Bool-cases (ltb 0 payout)) [
          | inl some_payout ↦
              let (x, there, less, _, _) =
                laws.debits l1 l' _ payout k.collateral_decimals after
                  (invoke-eq _ (forwarded _ _ payout some_payout e)) here apart in
              (x, there, omega arith)
          | inr no_payout ↦ (
            after,
            subst (λ m. t.account m c.settler_collateral_account ≡ some after)
                (kept _ _ payout no_payout e) here,
            ground arith,
          )
        ]
      where
        forwarded :
            (A B : Result L) (n : ℕ)
            → ltb 0 n ≡ true
            → (if ltb 0 n then A else B) ≡ ok l'
            → A ≡ ok l'
        forwarded n y e = ground arith

        kept :
            (A : Result L) (l1 : L) (n : ℕ)
            → ltb 0 n ≡ false
            → (if ltb 0 n then A else ok l1) ≡ ok l'
            → l1 ≡ l'
        kept n y e = ground arith
