-- ===== src/Settler/Order/Credits.antt =====
-- What `execute_order` of programs/batch_settler/src/lib.rs writes to the custody ledger.
use options_protocol_solana.Common.{
  ℕ, ◌+◌, ◌^◌, ◌<◌, ◌≡◌, ◌⊎◌, refl, sym, ap, ◌∙◌, some, none, lookup, insert, ok, >>=-eq-ok, ok_inj,
  guard-eq, checked_add, checked_add-eq, Option-cases, Bool-cases, inl, inr, arith, Pubkey, default,
  ◌==◌, ==_iff, if◌then◌else◌,
}
use options_protocol_solana.Runtime.{Runtime, SystemProgram}
use options_protocol_solana.Settler.State.{
  SettlerState, MakerOTokenBalance, VaultMm, require, or_else, balance_seeds, settler_id,
}
use options_protocol_solana.Settler.Order.Load.{ExecuteOrder}
use options_protocol_solana.Settler.Order.Steps.{
  load_or_init_maker_otoken_balance, credit_custody, init_vault_mm_account, record_vault_mm,
}

-- The balance at an address, which is nothing where there is no account.
unfoldable pub balance_at : SettlerState → Pubkey → ℕ
balance_at s k = elim (lookup k s.balances) [ none ↦ 0 | some b ↦ b.balance ]

pub balance_at-none :
    (s : SettlerState) (k : Pubkey) → lookup k s.balances ≡ none → balance_at s k ≡ 0
unfolding balance_at
balance_at-none s k e = ground arith

pub balance_at-some :
    (s : SettlerState) (k : Pubkey) (b : MakerOTokenBalance)
    → lookup k s.balances ≡ some b
    → balance_at s k ≡ b.balance
unfolding balance_at
balance_at-some s k b e = ground arith

-- The account at the address was of this maker and mint, or of nobody yet.
abbrev pub IsOpenTo : SettlerState → Pubkey → Pubkey → Pubkey → Type 0
IsOpenTo s k maker mint =
    (lookup k s.balances ≡ none)
    ⊎ ((b : MakerOTokenBalance) × (lookup k s.balances ≡ some b)
        × ((b.maker ≡ default) ⊎ ((b.maker ≡ maker) × (b.otoken_mint ≡ mint))))

module _ {L : Type 0} (sys : SystemProgram L) (rt : Runtime) where
  load_or_init-balance :
      (s : SettlerState) (l l' : L) (a : ExecuteOrder) (bump : ℕ) (b : MakerOTokenBalance)
      → load_or_init_maker_otoken_balance sys s l a bump ≡ ok (b, l')
      → (balance_at s a.maker_otoken_balance ≡ b.balance)
        × ((lookup a.maker_otoken_balance s.balances ≡ none)
            ⊎ (lookup a.maker_otoken_balance s.balances ≡ some b))
  unfolding load_or_init_maker_otoken_balance balance_at
  load_or_init-balance s l l' a bump b e =
      elim (Option-cases (lookup a.maker_otoken_balance s.balances)) [
        | inl missing ↦ (ground arith, inl missing)
        | inr (f, found) ↦ (ground arith, inr (ground arith))
      ]

  -- The account after the order: the maker's, of the mint, with the amount added.
  pub credit_custody-eq :
      (s s' : SettlerState) (l l' : L) (a : ExecuteOrder) (amount : ℕ)
      → credit_custody sys rt s l a amount ≡ ok (s', l')
      → (b : MakerOTokenBalance) × (s'
          ≡ record s { balances = insert a.maker_otoken_balance b s.balances })
        × (b.maker ≡ a.maker)
        × (b.otoken_mint ≡ a.otoken_mint)
        × (b.balance ≡ balance_at s a.maker_otoken_balance + amount)
        × (b.balance < 2 ^ 64)
        × (b.bump ≡ (rt.find_program_address (balance_seeds a.maker a.otoken_mint) settler_id).1)
        × IsOpenTo s a.maker_otoken_balance a.maker a.otoken_mint
  unfolding credit_custody
  credit_custody-eq s s' l l' a amount e =
      let bump = (rt.find_program_address (balance_seeds a.maker a.otoken_mint) settler_id).1 in
      let ((old, l1), loaded, e) =
        >>=-eq-ok (load_or_init_maker_otoken_balance sys s l a bump) _ e in
      let named : MakerOTokenBalance =
        if old.maker == default
        then record old { maker = a.maker; otoken_mint = a.otoken_mint }
        else old in
      let (_, maker, e) = >>=-eq-ok (require (named.maker == a.maker) _) _ e in
      let (_, mint, e) = >>=-eq-ok (require (named.otoken_mint == a.otoken_mint) _) _ e in
      let (balance, added, e) = >>=-eq-ok (or_else (checked_add named.balance amount) _) _ e in
      let (sum, fits) = checked_add-eq _ _ _ _ added in
      let (before, place) = load_or_init-balance s l l1 a bump old loaded in
      (
        record named { balance = balance; bump = bump },
        ap (λ p. p.0) (sym (ok_inj e)),
        guard-eq _ _ _ maker,
        guard-eq _ _ _ mint,
        sum ∙ ap (λ n. n + amount) (same old ∙ sym before),
        fits,
        refl,
        elim place [
          | inl missing ↦ inl missing
          | inr found ↦ inr (old, found, owned old (guard-eq _ _ _ maker) (guard-eq _ _ _ mint))
        ],
      )
    where
      same :
          (b : MakerOTokenBalance)
          → (if b.maker == default
              then record b { maker = a.maker; otoken_mint = a.otoken_mint }
              else b).balance
            ≡ b.balance
      same b = ground arith

      owned :
          (b : MakerOTokenBalance)
          → (if b.maker == default
              then record b { maker = a.maker; otoken_mint = a.otoken_mint }
              else b).maker
            ≡ a.maker
          → (if b.maker == default
              then record b { maker = a.maker; otoken_mint = a.otoken_mint }
              else b).otoken_mint
            ≡ a.otoken_mint
          → (b.maker ≡ default) ⊎ ((b.maker ≡ a.maker) × (b.otoken_mint ≡ a.otoken_mint))
      owned b em eo = elim (Bool-cases (b.maker == default)) [
        | inl none_yet ↦ inl ((==_iff _ _).0 none_yet)
        | inr other ↦ inr (ground arith, ground arith)
      ]

  init_vault_mm-vacant :
      (s : SettlerState) (l l' : L) (a : ExecuteOrder)
      → init_vault_mm_account sys s l a ≡ ok l'
      → lookup a.vault_mm s.vault_mms ≡ none
  unfolding init_vault_mm_account
  init_vault_mm-vacant s l l' a e = elim (Option-cases (lookup a.vault_mm s.vault_mms)) [
    | inl missing ↦ missing
    | inr (v, found) ↦ absurd (ground arith)
  ]

  -- A vault is recorded once.
  pub record_vault_mm-eq :
      (s s' : SettlerState) (l l' : L) (a : ExecuteOrder) (amount : ℕ)
      → record_vault_mm sys rt s l a amount ≡ ok (s', l')
      → (v : VaultMm) × (s' ≡ record s { vault_mms = insert a.vault_mm v s.vault_mms })
        × (lookup a.vault_mm s.vault_mms ≡ none)
        × (v.maker ≡ a.maker)
        × (v.vault ≡ a.vault)
        × (v.otoken_mint ≡ a.otoken_mint)
        × (v.remaining_amount ≡ amount)
  unfolding record_vault_mm
  record_vault_mm-eq s s' l l' a amount e =
      let (l1, made, e) = >>=-eq-ok (init_vault_mm_account sys s l a) _ e in
      (
        _,
        ap (λ p. p.0) (sym (ok_inj e)),
        init_vault_mm-vacant s l l1 a made,
        refl,
        refl,
        refl,
        refl,
      )
