-- ===== src/Controller/Mint.antt =====
-- `mint_otoken` of programs/controller/src/lib.rs.
use options_protocol_solana.Common.{
  ℕ, ltb_ℤ, leb, not, Pubkey, default, insert, Result, ok, ◌>>=◌, ◌>>◌, ◌==◌, ltb, if◌then◌else◌,
  checked_add, ControllerError,
}
use options_protocol_solana.Runtime.{
  Runtime, TokenProgram, load, load_token, load_mint, check_seeds, has_one, constraint, invoke,
}
use options_protocol_solana.Controller.State.{
  ControllerState, ControllerConfig, Vault, OTokenInfo, controller_id, require, or_else,
  load_config, info_seeds,
}
use options_protocol_solana.Controller.Collateral.{get_required_collateral}
use options_protocol_solana.Controller.Vaults.{require_unpaused}

pub record MintOtoken : Type 0 where
  pub config : Pubkey
  pub vault : Pubkey
  pub otoken_info : Pubkey
  pub otoken_mint : Pubkey
  pub destination : Pubkey
  pub owner : Pubkey

-- A vault takes the series of its first mint, and keeps to it.
unfoldable pub bind_series : Vault → Pubkey → Result (Unit {0})
bind_series vault otoken =
    if vault.otoken_mint == default
    then ok tt
    else require (vault.otoken_mint == otoken) ControllerError.otoken_mismatch

module _ {L : Type 0} (t : TokenProgram L) where
  unfoldable pub load_mint_otoken :
      Runtime → ControllerState → L → MintOtoken → Result (ControllerConfig × Vault × OTokenInfo)
  unfolding load_config load load_token load_mint check_seeds
  load_mint_otoken rt s l a = do
    config ← load_config rt s a.config
    vault ← load s.vaults a.vault
    has_one (vault.owner == a.owner)
    info ← load s.infos a.otoken_info
    require (info.collateral_mint == vault.collateral_mint) ControllerError.collateral_mismatch
    check_seeds rt (info_seeds a.otoken_mint) controller_id a.otoken_info
    decimals ← load_mint t l a.otoken_mint
    constraint (a.otoken_mint == info.otoken_mint)
    destination ← load_token t l a.destination
    require (destination.mint == a.otoken_mint) ControllerError.otoken_mismatch
    ok (config, vault, info)

  unfoldable pub mint_otoken :
      Runtime → ControllerState → L → MintOtoken → ℕ → Result (ControllerState × L)
  unfolding load_mint_otoken require_unpaused bind_series checked_add invoke
  mint_otoken rt s l a amount = do
    (config, vault, info) ← load_mint_otoken rt s l a
    require_unpaused config
    require (ltb 0 amount) ControllerError.zero_amount
    require (ltb_ℤ rt.now info.expiry) ControllerError.option_expired
    require (not vault.settled) ControllerError.vault_settled
    bind_series vault a.otoken_mint
    new_short ← or_else (checked_add vault.short_amount amount) ControllerError.math_overflow
    required ←
        get_required_collateral info.strike_price info.is_put info.collateral_decimals new_short
    require (leb required vault.collateral_amount) ControllerError.insufficient_collateral
    l' ← invoke (
        t.mint_to l (record { mint = a.otoken_mint; to = a.destination; authority = a.config })
          amount)
    let vault' : Vault = record vault { otoken_mint = a.otoken_mint; short_amount = new_short }
    ok (record s { vaults = insert a.vault vault' s.vaults }, l')
