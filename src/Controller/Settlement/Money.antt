-- ===== src/Controller/Settlement/Money.antt =====
-- How much each instruction of programs/controller/src/lib.rs takes out of the pool, or puts in.
use options_protocol_solana.Common.{
  ℕ, ◌+◌, ◌-◌, ◌≤◌, ◌≡◌, ◌≢◌, some, true, false, Pubkey, lookup, insert, ok, >>=-eq-ok,
  Result-cases, Option-cases, arith, inl, inr, ltb, Bool-cases,
}
use options_protocol_solana.Runtime.{
  Runtime, TokenProgram, TokenAccount, TransferLaws, TransferChecked,
}
use options_protocol_solana.Controller.State.{ControllerState, Vault, OTokenInfo}
use options_protocol_solana.Controller.Collateral.{get_payout}
use options_protocol_solana.Controller.Vaults.{
  DepositCollateral, deposit_collateral, load_deposit_collateral,
}
use options_protocol_solana.Controller.Settle.{
  SettleVault, settle_vault, load_settle_vault, pay_from_pool, EmergencyWithdrawVault,
  emergency_withdraw_vault, load_emergency_withdraw_vault,
}
use options_protocol_solana.Controller.Redeem.{Redeem, redeem, load_redeem}

module _ {L : Type 0} (t : TokenProgram L) where
  -- The account has lost exactly this amount.
  abbrev pub Debited : L → L → Pubkey → ℕ → Type 0
  Debited l l' k n =
      (p : TokenAccount)
      → t.account l k ≡ some p
      → (p' : TokenAccount) × (t.account l' k ≡ some p') × (p'.amount + n ≡ p.amount)

  pub pay_from_pool-Debited :
      TransferLaws t
      → (l l' : L) (pool mint to authority : Pubkey) (n d : ℕ) → pool ≢ to
      → pay_from_pool t l pool mint to authority n d ≡ ok l'
      → Debited l l' pool n
  unfolding pay_from_pool
  pay_from_pool-Debited laws l l' pool mint to authority n d apart paid p here =
      elim (Bool-cases (ltb 0 n)) [
        | inr zero_amount ↦ (p, ground arith, ground arith)
        | inl some_amount ↦
            let c : TransferChecked = record {
              from = pool;
              mint = mint;
              to = to;
              authority = authority;
            } in
            let (p', there, less, _, _) = laws.debits l l' c n d p (ground arith) here apart in
            (p', there, less)
      ]

  module _ (rt : Runtime) (s s' : ControllerState) (l l' : L) where
    -- Where the token program moves what it is asked to and the beneficiary is not the pool
    -- account, a settlement takes from the pool exactly the vault's collateral less the payout
    -- of its oTokens.
    pub settle_vault-Debited :
        TransferLaws t
        → (a : SettleVault) → a.pool_token_account ≢ a.beneficiary_token_account
        → settle_vault t rt s l a ≡ ok (s', l')
        → (v : Vault) × (info : OTokenInfo) × (payout : ℕ) × (lookup a.vault s.vaults ≡ some v)
          × (lookup a.otoken_info s.infos ≡ some info)
          × (get_payout info.strike_price info.expiry_price info.is_put info.collateral_decimals
                v.short_amount
              ≡ ok payout)
          × (payout ≤ v.collateral_amount)
          × Debited l l' a.pool_token_account (v.collateral_amount - payout)
    unfolding settle_vault
    settle_vault-Debited laws a apart e =
        let ((config, v, info, d), loaded, rest) = >>=-eq-ok (load_settle_vault t rt s l a) _ e in
        elim (Result-cases (
          get_payout info.strike_price info.expiry_price info.is_put info.collateral_decimals
            v.short_amount)) [
              | inr (_, failed) ↦ absurd (ground arith)
              | inl (payout, pays) ↦ (
                v,
                info,
                payout,
                ground arith,
                ground arith,
                pays,
                ground arith,
                pay_from_pool-Debited laws l l' a.pool_token_account a.collateral_mint_account
                    a.beneficiary_token_account a.pool_vault_authority
                    (v.collateral_amount - payout) d apart (ground arith),
              )
            ]

    -- Where the token program moves what it is asked to and the beneficiary is not the pool
    -- account, an emergency withdrawal takes the whole collateral of an open vault from the
    -- pool, and settles the vault.
    pub emergency_withdraw_vault-Debited :
        TransferLaws t
        → (a : EmergencyWithdrawVault) → a.pool_token_account ≢ a.beneficiary_token_account
        → emergency_withdraw_vault t rt s l a ≡ ok (s', l')
        → (v : Vault) × (lookup a.vault s.vaults ≡ some v)
          × (v.settled ≡ false)
          × (s'.vaults ≡ insert a.vault (record v { settled = true }) s.vaults)
          × Debited l l' a.pool_token_account v.collateral_amount
    unfolding emergency_withdraw_vault
    emergency_withdraw_vault-Debited laws a apart e =
        let ((config, v, d), loaded, rest) =
          >>=-eq-ok (load_emergency_withdraw_vault t rt s l a) _ e in
        (
          v,
          ground arith,
          ground arith,
          ground arith,
          pay_from_pool-Debited laws l l' a.pool_token_account a.collateral_mint_account
              a.beneficiary_token_account a.pool_vault_authority v.collateral_amount d apart
              (ground arith),
        )

    -- A deposit that succeeds has put exactly its amount into the pool account, and the vault
    -- is credited with the same amount.
    pub deposit_collateral-credits :
        (a : DepositCollateral) (amount : ℕ)
        → deposit_collateral t rt s l a amount ≡ ok (s', l')
        → (v : Vault) × (before : TokenAccount) × (after : TokenAccount) × (lookup a.vault s.vaults
            ≡ some v)
          × (t.account l a.pool_token_account ≡ some before)
          × (t.account l' a.pool_token_account ≡ some after)
          × (after.amount ≡ before.amount + amount)
          × (s'.vaults
              ≡ insert a.vault
                  (record v { collateral_amount = v.collateral_amount + amount })
                  s.vaults)
    unfolding deposit_collateral
    deposit_collateral-credits a amount e =
        let ((config, v, user, before, d), loaded, rest) =
          >>=-eq-ok (load_deposit_collateral t rt s l a) _ e in
        elim (Option-cases (t.account l' a.pool_token_account)) [
          | inl missing ↦ absurd (ground arith)
          | inr (after, there) ↦
              (v, before, after, ground arith, ground arith, there, ground arith, ground arith)
        ]

    -- Where the token program moves what it is asked to and the redeemer's collateral account
    -- is not the pool account, a redemption burns its amount and takes the payout of that
    -- amount from the pool.
    pub redeem-Debited :
        TransferLaws t
        → (a : Redeem) (amount : ℕ) → a.pool_token_account ≢ a.redeemer_collateral_account
        → redeem t rt s l a amount ≡ ok l'
        → (info : OTokenInfo) × (payout : ℕ) × (d : ℕ) × (burnt : L) × (lookup a.otoken_info s.infos
            ≡ some info)
          × (get_payout info.strike_price info.expiry_price info.is_put info.collateral_decimals
                amount
              ≡ ok payout)
          × (t.burn_checked l
                (record {
                  mint = a.otoken_mint;
                  from = a.redeemer_otoken_account;
                  authority = a.redeemer;
                })
                amount
                d
              ≡ some burnt)
          × Debited burnt l' a.pool_token_account payout
    unfolding redeem
    redeem-Debited laws a amount apart e =
        let ((config, info, od, d), loaded, rest) = >>=-eq-ok (load_redeem t rt s l a) _ e in
        let burn =
          t.burn_checked l
            (record {
              mint = a.otoken_mint;
              from = a.redeemer_otoken_account;
              authority = a.redeemer;
            })
            amount od in
        elim (Option-cases burn) [
          | inl refused ↦ absurd (ground arith)
          | inr (burnt, burns) ↦
              elim (Result-cases (
                get_payout info.strike_price info.expiry_price info.is_put info.collateral_decimals
                  amount)) [
                    | inr (_, failed) ↦ absurd (ground arith)
                    | inl (payout, pays) ↦ (
                      info,
                      payout,
                      od,
                      burnt,
                      ground arith,
                      pays,
                      burns,
                      pay_from_pool-Debited laws burnt l' a.pool_token_account
                          a.collateral_mint_account a.redeemer_collateral_account
                          a.pool_vault_authority payout d apart (ground arith),
                    )
                  ]
        ]
