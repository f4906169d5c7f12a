-- ===== src/Settler/Custody/Payments.antt =====
-- The payments of `physical_redeem` in programs/batch_settler/src/lib.rs, seen from the accounts that
-- they touch.
use options_protocol_solana.Common.{
  ℕ, ◌+◌, ◌≤◌, ◌≡◌, ◌≢◌, ◌⊎◌, inl, inr, sym, ap, ◌∙◌, subst, some, ok, true, false, Bool-cases,
  Result, ltb, ==_iff, ◌==◌, if◌then◌else◌, arith, Pubkey,
}
use options_protocol_solana.Runtime.{
  TokenAccount, TokenProgram, TransferChecked, TransferLaws, invoke-eq,
}
use options_protocol_solana.Settler.Custody.Delivery.{pay_if_positive}

-- What is documented of a transfer in a mint without a fee: all of it arrives.
abbrev pub NoFee : {L : Type 0} → TokenProgram L → Pubkey → Type 0
NoFee {L} t mint =
    (l l' : L) (c : TransferChecked) (n d : ℕ) (a : TokenAccount)
    → t.transfer_checked l c n d ≡ some l'
    → c.mint ≡ mint
    → t.account l c.to ≡ some a
    → c.from ≢ c.to
    → (a' : TokenAccount) × (t.account l' c.to ≡ some a') × (a'.amount ≡ a.amount + n)

module _ {L : Type 0} (t : TokenProgram L) (laws : TransferLaws t) where
  -- An account that does not pay does not lose.
  pub transfer-grows :
      (l l' : L) (c : TransferChecked) (n d : ℕ) (k : Pubkey) (a : TokenAccount)
      → t.transfer_checked l c n d ≡ some l'
      → c.from ≢ c.to
      → k ≢ c.from
      → t.account l k ≡ some a
      → (a' : TokenAccount) × (t.account l' k ≡ some a') × (a.amount ≤ a'.amount)
  transfer-grows l l' c n d k a e apart other here = elim (Bool-cases (k == c.to)) [
    | inl same ↦
        let is_to = (==_iff k c.to).0 same in
        let (a', there, le, _, _, _) =
          laws.credits l l' c n d a e (subst (λ j. t.account l j ≡ some a) is_to here) apart in
        (a', subst (λ j. t.account l' j ≡ some a') (sym is_to) there, le)
    | inr differs ↦ (a, laws.keeps l l' c n d k e other (λ is_to. ground arith) ∙ here, omega arith)
  ]

  module _ (l l' : L) (from mint to authority : Pubkey) (n d : ℕ) (apart : from ≢ to) where
    -- Either there was nothing to pay, or it has been paid.
    paid :
        pay_if_positive t l from mint to authority n d ≡ ok l'
        → ((n ≡ 0) × (l ≡ l'))
          ⊎ (t.transfer_checked l
                (record { from = from; mint = mint; to = to; authority = authority })
                n
                d
              ≡ some l')
    unfolding pay_if_positive
    paid e = elim (Bool-cases (ltb 0 n)) [
      | inl some_n ↦ inr (invoke-eq _ (positive n _ _ some_n e))
      | inr no_n ↦ inl (ground arith, zero_paid n _ l no_n e)
    ]
      where
        positive :
            (m : ℕ) (A B : Result L)
            → ltb 0 m ≡ true
            → (if ltb 0 m then A else B) ≡ ok l'
            → A ≡ ok l'
        positive m A B y e = ground arith

        zero_paid :
            (m : ℕ) (A : Result L) (k : L)
            → ltb 0 m ≡ false
            → (if ltb 0 m then A else ok k) ≡ ok l'
            → k ≡ l'
        zero_paid m A k y e = ground arith

    pub pay-debits :
        (a : TokenAccount)
        → pay_if_positive t l from mint to authority n d ≡ ok l'
        → t.account l from ≡ some a
        → (a' : TokenAccount) × (t.account l' from ≡ some a') × (a'.amount + n ≡ a.amount)
    pay-debits a e here = elim (paid e) [
      | inl (none_due, same) ↦ (a, subst (λ m. t.account m from ≡ some a) same here, omega arith)
      | inr done ↦
          let (a', there, sum, _, _) = laws.debits l l' _ n d a done here apart in (a', there, sum)
    ]

    pub pay-grows :
        (k : Pubkey) (a : TokenAccount)
        → pay_if_positive t l from mint to authority n d ≡ ok l'
        → k ≢ from
        → t.account l k ≡ some a
        → (a' : TokenAccount) × (t.account l' k ≡ some a') × (a.amount ≤ a'.amount)
    pay-grows k a e other here = elim (paid e) [
      | inl (none_due, same) ↦ (a, subst (λ m. t.account m k ≡ some a) same here, omega arith)
      | inr done ↦ transfer-grows l l' _ n d k a done apart other here
    ]

    pub pay-keeps :
        (k : Pubkey)
        → pay_if_positive t l from mint to authority n d ≡ ok l'
        → k ≢ from
        → k ≢ to
        → t.account l' k ≡ t.account l k
    pay-keeps k e other another = elim (paid e) [
      | inl (none_due, same) ↦ ap (λ m. t.account m k) (sym same)
      | inr done ↦ laws.keeps l l' _ n d k done other another
    ]
