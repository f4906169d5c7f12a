-- ===== src/Controller/Moves/Refines.antt =====
-- Every successful instruction of programs/controller/src/lib.rs is a move.
use options_protocol_solana.Common.{
  ℕ, ◌+◌, Result-cases, Bool, ◌≡◌, refl, Pubkey, ok, >>=-eq-ok, arith, inl, inr,
}
use options_protocol_solana.Runtime.{Runtime, TokenProgram}
use options_protocol_solana.Factory.State.{FactoryState}
use options_protocol_solana.Whitelist.State.{WhitelistState}
use options_protocol_solana.Oracle.State.{OracleState}
use options_protocol_solana.Controller.State.{ControllerState}
use options_protocol_solana.Controller.Admin.{
  InitializeConfig, AdminAction, PauseAction, initialize, set_partial_pauser, set_partially_paused,
  set_fully_paused,
}
use options_protocol_solana.Controller.Vaults.{
  InitializeCounter, OpenVault, DepositCollateral, initialize_counter, open_vault,
  deposit_collateral, load_open_vault, load_deposit_collateral, fresh_vault,
}
use options_protocol_solana.Controller.Collateral.{get_required_collateral}
use options_protocol_solana.Controller.Mint.{MintOtoken, mint_otoken, load_mint_otoken}
use options_protocol_solana.Controller.Settle.{
  SettleVault, EmergencyWithdrawVault, settle_vault, emergency_withdraw_vault, load_settle_vault,
  load_emergency_withdraw_vault,
}
use options_protocol_solana.Controller.Series.{
  CreateOTokenInfo, SetExpiryPrice, create_otoken_info, set_expiry_price, load_create_otoken_info,
  load_set_expiry_price, listed,
}
use options_protocol_solana.Controller.Moves.{
  Move, keep, deposit, mint, settle, list_series, fix_price,
}

module _ (rt : Runtime) (s s' : ControllerState) where
  pub initialize-Move :
      (a : InitializeConfig) (k : Pubkey) → initialize rt s a k ≡ ok s' → Move rt s s'
  unfolding initialize
  initialize-Move a k e = keep (ground arith) (ground arith)

  pub set_partial_pauser-Move :
      (a : AdminAction) (k : Pubkey) → set_partial_pauser rt s a k ≡ ok s' → Move rt s s'
  unfolding set_partial_pauser
  set_partial_pauser-Move a k e = keep (ground arith) (ground arith)

  pub set_partially_paused-Move :
      (a : PauseAction) (b : Bool) → set_partially_paused rt s a b ≡ ok s' → Move rt s s'
  unfolding set_partially_paused
  set_partially_paused-Move a b e = keep (ground arith) (ground arith)

  pub set_fully_paused-Move :
      (a : AdminAction) (b : Bool) → set_fully_paused rt s a b ≡ ok s' → Move rt s s'
  unfolding set_fully_paused
  set_fully_paused-Move a b e = keep (ground arith) (ground arith)

  pub initialize_counter-Move :
      (a : InitializeCounter) → initialize_counter rt s a ≡ ok s' → Move rt s s'
  unfolding initialize_counter
  initialize_counter-Move a e = keep (ground arith) (ground arith)

  pub open_vault-Move :
      (a : OpenVault) (m b : Pubkey) → open_vault rt s a m b ≡ ok s' → Move rt s s'
  unfolding open_vault
  open_vault-Move a m b e =
      let ((config, counter, bump), loaded, rest) = >>=-eq-ok (load_open_vault rt s a) _ e in
      Move.open_vault a.vault (fresh_vault a.owner counter.next_id m b bump) (ground arith) refl
        refl refl (ground arith) (ground arith)

  pub set_expiry_price-Move :
      (o : OracleState) (a : SetExpiryPrice) → set_expiry_price rt s o a ≡ ok s' → Move rt s s'
  unfolding set_expiry_price
  set_expiry_price-Move o a e =
      let ((info, price), loaded, rest) = >>=-eq-ok (load_set_expiry_price rt s o a) _ e in
      fix_price a.otoken_info info price.price (ground arith) (ground arith) (ground arith)
        (ground arith) (ground arith)

module _ {L : Type 0} (t : TokenProgram L) (rt : Runtime) (s s' : ControllerState) (l : L) where
  pub create_otoken_info-Move :
      (f : FactoryState) (w : WhitelistState) (a : CreateOTokenInfo)
      → create_otoken_info t rt s f w l a ≡ ok s'
      → Move rt s s'
  unfolding create_otoken_info
  create_otoken_info-Move f w a e =
      let ((config, otoken, decimals), loaded, rest) =
        >>=-eq-ok (load_create_otoken_info t rt s f w l a) _ e in
      list_series a.otoken_info (listed otoken decimals) (ground arith) (ground arith)
        (ground arith) refl (ground arith) (ground arith)

  module _ {l' : L} where
    pub deposit_collateral-Move :
        (a : DepositCollateral) (amount : ℕ)
        → deposit_collateral t rt s l a amount ≡ ok (s', l')
        → Move rt s s'
    unfolding deposit_collateral
    deposit_collateral-Move a amount e =
        let ((config, vault, user, pool, decimals), loaded, rest) =
          >>=-eq-ok (load_deposit_collateral t rt s l a) _ e in
        deposit a.vault vault amount (ground arith) (ground arith) (ground arith) (ground arith)
          (ground arith)

    pub mint_otoken-Move :
        (a : MintOtoken) (amount : ℕ) → mint_otoken t rt s l a amount ≡ ok (s', l') → Move rt s s'
    unfolding mint_otoken
    mint_otoken-Move a amount e =
        let ((config, vault, info), loaded, rest) = >>=-eq-ok (load_mint_otoken t rt s l a) _ e in
        elim (Result-cases (
          get_required_collateral info.strike_price info.is_put info.collateral_decimals
            (vault.short_amount + amount))) [
              | inl (required, priced) ↦
                  mint a.vault vault info amount required (ground arith) (ground arith)
                    (ground arith) (ground arith) (ground arith) (ground arith) priced
                    (ground arith) (ground arith) (ground arith)
              | inr (_, failed) ↦ absurd (ground arith)
            ]

    pub settle_vault-Move : (a : SettleVault) → settle_vault t rt s l a ≡ ok (s', l') → Move rt s s'
    unfolding settle_vault
    settle_vault-Move a e =
        let ((config, vault, info, decimals), loaded, rest) =
          >>=-eq-ok (load_settle_vault t rt s l a) _ e in
        settle a.vault vault (ground arith) (ground arith) (ground arith) (ground arith)

    pub emergency_withdraw_vault-Move :
        (a : EmergencyWithdrawVault)
        → emergency_withdraw_vault t rt s l a ≡ ok (s', l')
        → Move rt s s'
    unfolding emergency_withdraw_vault
    emergency_withdraw_vault-Move a e =
        let ((config, vault, decimals), loaded, rest) =
          >>=-eq-ok (load_emergency_withdraw_vault t rt s l a) _ e in
        settle a.vault vault (ground arith) (ground arith) (ground arith) (ground arith)
