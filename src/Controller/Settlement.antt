-- ===== src/Controller/Settlement.antt =====
-- What `settle_vault`, `emergency_withdraw_vault`, `redeem` and `deposit_collateral` of
-- programs/controller/src/lib.rs do with money.
pub mod Money
use options_protocol_solana.Common.{
  ℕ, ◌+◌, ◌-◌, ◌≤◌, ◌<◌, ◌≡◌, ◌≢◌, refl, ap, sym, ◌∙◌, ◌⊎◌, inl, inr, some, true, false, Pubkey,
  lookup, insert, Result, ok, err, panic, controller, math_overflow, ControllerError, >>=-eq-ok,
  Result-cases, some_inj, arith, if◌then◌else◌, leb, ==_iff, ◌==◌, Bool-cases, Bool, ◌≤ℤ◌, ◌>>=◌,
}
use options_protocol_solana.Runtime.{
  Runtime, TokenProgram, TokenAccount, TransferChecked, TransferLaws,
}
use options_protocol_solana.Controller.State.{ControllerState, Vault, OTokenInfo, ControllerConfig}
use options_protocol_solana.Controller.Collateral.{get_required_collateral, get_payout}
use options_protocol_solana.Controller.Vaults.{
  DepositCollateral, deposit_collateral, load_deposit_collateral,
}
use options_protocol_solana.Controller.Settle.{
  SettleVault, settle_vault, load_settle_vault, pay_from_pool, EmergencyWithdrawVault,
  emergency_withdraw_vault, load_emergency_withdraw_vault,
}
use options_protocol_solana.Controller.Redeem.{Redeem, redeem, load_redeem}
use options_protocol_solana.Controller.Moves.{info_address}
use options_protocol_solana.Controller.Backing.{Backing, IsBacked, AllBacked}

-- A payout is nothing, or the collateral that was required.
payout-le_required :
    (strike price : ℕ) (is_put : Bool) (decimals amount required : ℕ)
    → get_required_collateral strike is_put decimals amount ≡ ok required
    → (payout : ℕ) × (get_payout strike price is_put decimals amount ≡ ok payout)
      × (payout ≤ required)
unfolding get_payout
payout-le_required strike price is_put decimals amount required e =
    elim (Bool-cases (if is_put then leb strike price else leb price strike)) [
      | inl out ↦ (0, rw out refl, omega arith)
      | inr itm ↦ (required, rw itm e, omega arith)
    ]

module _ {L : Type 0} (t : TokenProgram L) (rt : Runtime) (s : ControllerState) (l : L) where
  -- The outcome of paying an amount out of the pool and closing the vault.
  abbrev pub closed : SettleVault → Vault → ℕ → ℕ → Result (ControllerState × L)
  closed a v decimals amount = do
    l' ←
        pay_from_pool t l a.pool_token_account a.collateral_mint_account a.beneficiary_token_account
          a.pool_vault_authority amount decimals
    ok (record s { vaults = insert a.vault (record v { settled = true }) s.vaults }, l')

  -- The series that `settle_vault` loads is the one that backs the vault.
  load_settle_vault-Backing :
      (a : SettleVault) (config : ControllerConfig) (v : Vault) (info : OTokenInfo) (d : ℕ)
      → load_settle_vault t rt s l a ≡ ok (config, v, info, d)
      → (lookup a.vault s.vaults ≡ some v)
        × (lookup (info_address rt v.otoken_mint) s.infos ≡ some info)
  unfolding load_settle_vault
  load_settle_vault-Backing a config v info d e = ground arith

  -- Where every vault is backed, the vault that `settle_vault` has loaded holds the payout.
  settle_vault-covered :
      (a : SettleVault) (config : ControllerConfig) (v : Vault) (info : OTokenInfo) (d : ℕ)
      → AllBacked rt s
      → 0 < v.short_amount
      → load_settle_vault t rt s l a ≡ ok (config, v, info, d)
      → (payout : ℕ) × (get_payout info.strike_price info.expiry_price info.is_put
            info.collateral_decimals v.short_amount
          ≡ ok payout)
        × (payout ≤ v.collateral_amount)
  settle_vault-covered a config v info d backed pos loaded =
      let (found, listed) = load_settle_vault-Backing a config v info d loaded in
      covered found listed (backed a.vault v found)
    where
      covered :
          lookup a.vault s.vaults ≡ some v
          → lookup (info_address rt v.otoken_mint) s.infos ≡ some info
          → IsBacked (info_address rt) s.infos v
          → (payout : ℕ) × (get_payout info.strike_price info.expiry_price info.is_put
                info.collateral_decimals v.short_amount
              ≡ ok payout)
            × (payout ≤ v.collateral_amount)
      covered found listed (inl none_written) = absurd (omega arith)
      covered found listed (inr b) =
          let same : b.info ≡ info = some_inj (sym b.listed ∙ listed) in
          let (payout, pays, le) =
            payout-le_required info.strike_price info.expiry_price info.is_put
              info.collateral_decimals v.short_amount b.required (rw (← same) b.priced) in
          (payout, pays, omega (arith, b.covered))

  -- Where every vault is backed, a settlement that passes its tests pays the beneficiary all but
  -- the payout, closes the vault, and fails only if the token program refuses the transfer.
  pub settle_vault-eq :
      (a : SettleVault) (config : ControllerConfig) (v : Vault) (info : OTokenInfo) (d : ℕ)
      → AllBacked rt s
      → load_settle_vault t rt s l a ≡ ok (config, v, info, d)
      → config.fully_paused ≡ false
      → v.settled ≡ false
      → 0 < v.short_amount
      → info.expiry ≤ℤ rt.now
      → 0 < info.expiry_price
      → (payout : ℕ) × (get_payout info.strike_price info.expiry_price info.is_put
            info.collateral_decimals v.short_amount
          ≡ ok payout)
        × (payout ≤ v.collateral_amount)
        × (settle_vault t rt s l a ≡ closed a v d (v.collateral_amount - payout))
  unfolding settle_vault
  settle_vault-eq a config v info d backed loaded running opened pos expired set =
      let (payout, pays, le) = settle_vault-covered a config v info d backed pos loaded in
      (payout, pays, le, ground (arith, loaded, pays))
