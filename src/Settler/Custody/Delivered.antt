-- ===== src/Settler/Custody/Delivered.antt =====
-- What `physical_redeem` of programs/batch_settler/src/lib.rs guarantees of a delivery, whatever the
-- swap does.
use options_protocol_solana.Common.{
  ℕ, ◌+◌, ◌≤◌, ◌≡◌, ◌≢◌, refl, sym, ◌∙◌, subst, some, ok, >>=-eq-ok, ok_inj, ltb, leb, ◌==◌,
  guard-eq, guard-le, checked_sub, checked_sub-eq, arith,
}
use options_protocol_solana.Runtime.{
  TokenAccount, TokenProgram, TransferLaws, load_token, invoke, load_token-eq, invoke-eq,
}
use options_protocol_solana.Settler.State.{require, or_else}
use options_protocol_solana.Settler.Custody.Physical.{PhysicalRedeem, Delivery}
use options_protocol_solana.Settler.Custody.Delivery.{
  SwapDeltas, deliver_put, deliver_call, measure_swap,
}
use options_protocol_solana.Settler.Custody.Payments.{NoFee, pay-debits, pay-grows, pay-keeps}

-- The accounts that the delivery tells apart.
pub record AreApart (a : PhysicalRedeem) : Type 0 where
  pub collateral_contra : a.custody.settler_collateral_account ≢ a.settler_contra_account
  pub collateral_user : a.custody.settler_collateral_account ≢ a.user_contra_account
  pub collateral_mm : a.custody.settler_collateral_account ≢ a.custody.mm_collateral_account
  pub contra_user : a.settler_contra_account ≢ a.user_contra_account
  pub contra_mm : a.settler_contra_account ≢ a.custody.mm_collateral_account

module _ {L : Type 0} (t : TokenProgram L) (a : PhysicalRedeem) (d : Delivery) where
  -- The three accounts after the swap, and what has moved.
  pub record Measured (l : L) (received redeemed most : ℕ) (x : SwapDeltas) : Type 0 where
    pub collateral : TokenAccount
    pub user_contra : TokenAccount
    pub settler_contra : TokenAccount
    pub has_collateral : t.account l a.custody.settler_collateral_account ≡ some collateral
    pub has_user : t.account l a.user_contra_account ≡ some user_contra
    pub has_contra : t.account l a.settler_contra_account ≡ some settler_contra
    pub same_received : x.collateral_received ≡ received
    pub used : x.collateral_used + collateral.amount ≡ redeemed
    pub limited : x.collateral_used ≤ most
    pub user_gain : x.user_contra_delta + d.user_contra.amount ≡ user_contra.amount
    pub settler_gain : x.settler_contra_delta + d.settler_contra.amount ≡ settler_contra.amount

  pub measure_swap-Measured :
      (l : L) (received redeemed most : ℕ) (x : SwapDeltas)
      → measure_swap t l a d received redeemed most ≡ ok x
      → Measured l received redeemed most x
  unfolding measure_swap
  measure_swap-Measured l received redeemed most x e =
      let (c, ec, e) = >>=-eq-ok (load_token t l a.custody.settler_collateral_account) _ e in
      let (u, eu, e) = >>=-eq-ok (load_token t l a.user_contra_account) _ e in
      let (k, ek, e) = >>=-eq-ok (load_token t l a.settler_contra_account) _ e in
      let (used, e1, e) = >>=-eq-ok (or_else (checked_sub redeemed c.amount) _) _ e in
      let (_, e2, e) = >>=-eq-ok (require (leb used most) _) _ e in
      let (user, e3, e) = >>=-eq-ok (or_else (checked_sub u.amount d.user_contra.amount) _) _ e in
      let (own, e4, e) = >>=-eq-ok (or_else (checked_sub k.amount d.settler_contra.amount) _) _ e in
      subst (Measured l received redeemed most) (ok_inj e) (record {
        collateral = c;
        user_contra = u;
        settler_contra = k;
        has_collateral = load_token-eq t l a.custody.settler_collateral_account ec;
        has_user = load_token-eq t l a.user_contra_account eu;
        has_contra = load_token-eq t l a.settler_contra_account ek;
        same_received = refl;
        used = checked_sub-eq _ _ _ _ e1;
        limited = guard-le _ used most e2;
        user_gain = checked_sub-eq _ _ _ _ e3;
        settler_gain = checked_sub-eq _ _ _ _ e4;
      })

  -- The accounts in the end: the user is paid, and the settler keeps nothing and loses nothing.
  pub record IsPaid (l : L) (contra_amount before : ℕ) : Type 0 where
    pub user : TokenAccount
    pub collateral : TokenAccount
    pub contra : TokenAccount
    pub has_user : t.account l a.user_contra_account ≡ some user
    pub has_collateral : t.account l a.custody.settler_collateral_account ≡ some collateral
    pub has_contra : t.account l a.settler_contra_account ≡ some contra
    pub delivered : d.user_contra.amount + contra_amount ≤ user.amount
    pub collateral_passed : collateral.amount ≡ before
    pub contra_passed : contra.amount ≡ d.settler_contra.amount

  module _ (laws : TransferLaws t) (apart : AreApart a) (l l' : L)
      (contra_amount before received redeemed most : ℕ) (x : SwapDeltas)
      (m : Measured l received redeemed most x) (whole : received + before ≡ redeemed) where
    pub deliver_put-IsPaid :
        deliver_put t l a d contra_amount x ≡ ok l' → IsPaid l' contra_amount before
    unfolding deliver_put
    deliver_put-IsPaid e =
        let (_, e1, e) = >>=-eq-ok (require (leb contra_amount x.user_contra_delta) _) _ e in
        let (_, e2, e) = >>=-eq-ok (require (x.settler_contra_delta == 0) _) _ e in
        let (_, e3, e) = >>=-eq-ok (require (ltb 0 x.collateral_used) _) _ e in
        let (surplus, e4, e) =
          >>=-eq-ok (or_else (checked_sub x.collateral_received x.collateral_used) _) _ e in
        let enough = guard-le _ contra_amount x.user_contra_delta e1 in
        let untouched = guard-eq _ x.settler_contra_delta 0 e2 in
        let sum = checked_sub-eq _ x.collateral_received x.collateral_used surplus e4 in
        let c = a.custody in
        let (kept, has_kept, rest) =
          pay-debits t laws l l' _ _ _ _ surplus _ apart.collateral_mm m.collateral e
            m.has_collateral in
        let (user, has_user, grown) =
          pay-grows t laws l l' _ _ _ _ surplus _ apart.collateral_mm a.user_contra_account
            m.user_contra e (λ s. apart.collateral_user (sym s)) m.has_user in
        let same =
          pay-keeps t laws l l' _ _ _ _ surplus _ apart.collateral_mm a.settler_contra_account e
            (λ s. apart.collateral_contra (sym s)) apart.contra_mm in
        record {
          user = user;
          collateral = kept;
          contra = m.settler_contra;
          has_user = has_user;
          has_collateral = has_kept;
          has_contra = same ∙ m.has_contra;
          delivered = omega (arith, m.user_gain);
          collateral_passed = omega (arith, m.used, m.same_received);
          contra_passed = omega (arith, m.settler_gain);
        }

    pub deliver_call-IsPaid :
        NoFee t a.contra_mint
        → deliver_call t l a d contra_amount x ≡ ok l'
        → IsPaid l' contra_amount before
    unfolding deliver_call
    deliver_call-IsPaid exact e =
        let (_, e1, e) = >>=-eq-ok (require (x.collateral_used == x.collateral_received) _) _ e in
        let (_, e2, e) = >>=-eq-ok (require (leb contra_amount x.settler_contra_delta) _) _ e in
        let (_, e3, e) = >>=-eq-ok (require (x.user_contra_delta == 0) _) _ e in
        let (l1, e4, e) = >>=-eq-ok (invoke (t.transfer_checked l _ contra_amount _)) _ e in
        let (surplus, e5, e) =
          >>=-eq-ok (or_else (checked_sub x.settler_contra_delta contra_amount) _) _ e in
        let all = guard-eq _ x.collateral_used x.collateral_received e1 in
        let none_direct = guard-eq _ x.user_contra_delta 0 e3 in
        let sum = checked_sub-eq _ x.settler_contra_delta contra_amount surplus e5 in
        let paid = invoke-eq _ e4 in
        let (u1, has_u1, gained) =
          exact l l1 _ contra_amount _ m.user_contra paid refl m.has_user apart.contra_user in
        let (k1, has_k1, spent, _, _) =
          laws.debits l l1 _ contra_amount _ m.settler_contra paid m.has_contra apart.contra_user in
        let c1 =
          laws.keeps l l1 _ contra_amount _ a.custody.settler_collateral_account paid
            apart.collateral_contra apart.collateral_user in
        let (k2, has_k2, rest) =
          pay-debits t laws l1 l' _ _ _ _ surplus _ apart.contra_mm k1 e has_k1 in
        let (u2, has_u2, grown) =
          pay-grows t laws l1 l' _ _ _ _ surplus _ apart.contra_mm a.user_contra_account u1 e
            (λ s. apart.contra_user (sym s)) has_u1 in
        let c2 =
          pay-keeps t laws l1 l' _ _ _ _ surplus _ apart.contra_mm
            a.custody.settler_collateral_account e apart.collateral_contra apart.collateral_mm in
        record {
          user = u2;
          collateral = m.collateral;
          contra = k2;
          has_user = has_u2;
          has_collateral = c2 ∙ (c1 ∙ m.has_collateral);
          has_contra = has_k2;
          delivered = omega (arith, m.user_gain);
          collateral_passed = omega (arith, m.used, m.same_received);
          contra_passed = omega (arith, m.settler_gain);
        }
