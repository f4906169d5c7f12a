-- ===== src/Controller/Moves.antt =====
-- The controller of programs/controller/src/lib.rs seen as a transition system on its vaults and
-- series: what each instruction may do to them, whatever else it touches.
pub mod Refines
use options_protocol_solana.Common.{
  ℕ, ℤ, ◌+◌, ◌^◌, ◌≤◌, ◌<◌, ◌≡◌, ◌⊎◌, Bool, true, false, none, some, Pubkey, lookup, insert, Result,
  ok, default,
}
use options_protocol_solana.Runtime.{Runtime}
use options_protocol_solana.Controller.State.{
  ControllerState, Vault, OTokenInfo, controller_id, info_seeds,
}
use options_protocol_solana.Controller.Collateral.{get_required_collateral}

-- The address of the series of a mint.
abbrev pub info_address : Runtime → Pubkey → Pubkey
info_address rt mint = (rt.find_program_address (info_seeds mint) controller_id).0

pub data Move (rt : Runtime) (s s' : ControllerState) : Type 0 where
  -- Nothing happens to vaults and series.
  keep : s'.vaults ≡ s.vaults → s'.infos ≡ s.infos → Move rt s s'
  -- A new vault, empty and open.
  open_vault :
      (k : Pubkey) (v : Vault)
      → lookup k s.vaults ≡ none
      → v.collateral_amount ≡ 0
      → v.short_amount ≡ 0
      → v.settled ≡ false
      → s'.vaults ≡ insert k v s.vaults
      → s'.infos ≡ s.infos
      → Move rt s s'
  -- An open vault gains collateral.
  deposit :
      (k : Pubkey) (v : Vault) (amount : ℕ)
      → lookup k s.vaults ≡ some v
      → v.settled ≡ false
      → v.collateral_amount + amount < 2 ^ 64
      → s'.vaults
        ≡ insert k (record v { collateral_amount = v.collateral_amount + amount }) s.vaults
      → s'.infos ≡ s.infos
      → Move rt s s'
  -- An open vault writes oTokens of its series, which its collateral covers.
  mint :
      (k : Pubkey) (v : Vault) (info : OTokenInfo) (amount required : ℕ)
      → lookup k s.vaults ≡ some v
      → v.settled ≡ false
      → (v.otoken_mint ≡ default) ⊎ (v.otoken_mint ≡ info.otoken_mint)
      → lookup (info_address rt info.otoken_mint) s.infos ≡ some info
      → info.collateral_mint ≡ v.collateral_mint
      → v.short_amount + amount < 2 ^ 64
      → get_required_collateral info.strike_price info.is_put info.collateral_decimals
          (v.short_amount + amount)
        ≡ ok required
      → required ≤ v.collateral_amount
      → s'.vaults
        ≡ insert k
            (record v { otoken_mint = info.otoken_mint; short_amount = v.short_amount + amount })
            s.vaults
      → s'.infos ≡ s.infos
      → Move rt s s'
  -- An open vault is closed for good.
  settle :
      (k : Pubkey) (v : Vault)
      → lookup k s.vaults ≡ some v
      → v.settled ≡ false
      → s'.vaults ≡ insert k (record v { settled = true }) s.vaults
      → s'.infos ≡ s.infos
      → Move rt s s'
  -- A new series, with no expiry price yet.
  list_series :
      (k : Pubkey) (info : OTokenInfo)
      → lookup k s.infos ≡ none
      → 0 < info.strike_price
      → info.collateral_decimals ≤ 18
      → info.expiry_price ≡ 0
      → s'.vaults ≡ s.vaults
      → s'.infos ≡ insert k info s.infos
      → Move rt s s'
  -- A series gets its expiry price.
  fix_price :
      (k : Pubkey) (info : OTokenInfo) (price : ℕ)
      → lookup k s.infos ≡ some info
      → info.expiry_price ≡ 0
      → 0 < price
      → s'.vaults ≡ s.vaults
      → s'.infos ≡ insert k (record info { expiry_price = price }) s.infos
      → Move rt s s'
