-- ===== src/Controller/Lifecycle.antt =====
-- What may happen to a vault and to a series of programs/controller/src/lib.rs over any history.
use options_protocol_solana.Common.{
  ◌≤◌, ◌≡◌, refl, ap, sym, ◌∙◌, ◌⊎◌, inl, inr, some, false, Pubkey, default, lookup, insert, List,
  lookup-insert, lookup-insert_vacant, Bool-cases, ◌==◌, ==_iff, some_inj, arith,
}
use options_protocol_solana.Runtime.{Runtime, TokenProgram}
use options_protocol_solana.Controller.State.{ControllerState, Vault}
use options_protocol_solana.Controller.Moves.{
  Move, keep, open_vault, deposit, mint, settle, list_series, fix_price,
}
use options_protocol_solana.Controller.Machine.{Transaction, run}
use options_protocol_solana.Controller.Machine.History.{run_keeps}

-- How a vault may look later: its identity is fixed, collateral and oTokens only grow, a series that
-- it has taken stays, and a settled vault does not change at all.
pub record Evolves (v v' : Vault) : Type 0 where
  pub same_owner : v'.owner ≡ v.owner
  pub same_id : v'.vault_id ≡ v.vault_id
  pub same_collateral : v'.collateral_mint ≡ v.collateral_mint
  pub same_beneficiary : v'.beneficiary ≡ v.beneficiary
  pub same_series : (v.otoken_mint ≡ default) ⊎ (v'.otoken_mint ≡ v.otoken_mint)
  pub collateral_grows : v.collateral_amount ≤ v'.collateral_amount
  pub short_grows : v.short_amount ≤ v'.short_amount
  pub frozen : (v.settled ≡ false) ⊎ (v' ≡ v)

Evolves-refl : (v : Vault) → Evolves v v
Evolves-refl v = ground arith

Evolves-trans : (u v w : Vault) → Evolves u v → Evolves v w → Evolves u w
Evolves-trans u v w p q = ground arith

-- The vault at an address, if a state has one that has evolved from `v`.
abbrev Holds : Pubkey → Vault → ControllerState → Type 0
Holds k v s = (v' : Vault) × (lookup k s.vaults ≡ some v') × Evolves v v'

-- A write that evolves the vault at its address.
insert-Holds :
    (k j : Pubkey) (v u u' : Vault) (s s' : ControllerState)
    → lookup j s.vaults ≡ some u
    → Evolves u u'
    → s'.vaults ≡ insert j u' s.vaults
    → Holds k v s
    → Holds k v s'
insert-Holds k j v u u' s s' found evolves ev (v', here, h) = elim (Bool-cases (k == j)) [
  | inl same ↦
      let met : u ≡ v' =
        some_inj (sym found ∙ ap (λ i. lookup i s.vaults) (sym ((==_iff k j).0 same)) ∙ here) in
      (
        u',
        ap (lookup k) ev ∙ lookup-insert k j u' s.vaults ∙ rw same refl,
        Evolves-trans v u u' (rw met h) evolves,
      )
  | inr other ↦ (v', ap (lookup k) ev ∙ lookup-insert k j u' s.vaults ∙ rw other here, h)
]

Move-Holds :
    (rt : Runtime) (k : Pubkey) (v : Vault) (s s' : ControllerState)
    → Move rt s s'
    → Holds k v s
    → Holds k v s'
Move-Holds rt k v s s' (keep ev ei) (v', here, h) = (v', ap (lookup k) ev ∙ here, h)
Move-Holds rt k v s s' (open_vault j u vacant c e o ev ei) (v', here, h) =
    (v', ap (lookup k) ev ∙ lookup-insert_vacant k j u v' s.vaults vacant here, h)
Move-Holds rt k v s s' (deposit j u n found o lt ev ei) h =
    insert-Holds k j v u _ s s' found (ground arith) ev h
Move-Holds rt k v s s' (mint j u info n r found o bound listed same lt priced covered ev ei) h =
    insert-Holds k j v u _ s s' found (ground arith) ev h
Move-Holds rt k v s s' (settle j u found o ev ei) h =
    insert-Holds k j v u _ s s' found (ground arith) ev h
Move-Holds rt k v s s' (list_series j info vacant p d e ev ei) (v', here, h) =
    (v', ap (lookup k) ev ∙ here, h)
Move-Holds rt k v s s' (fix_price j info p found e pos ev ei) (v', here, h) =
    (v', ap (lookup k) ev ∙ here, h)

-- A vault that exists at some time exists at every later time; its identity is fixed, its
-- recorded collateral and oTokens only grow, a series that it has taken stays, and once settled it
-- does not change.
pub run-Evolves :
    {L : Type 0} (t : TokenProgram L) (rt : Runtime) (s : ControllerState)
    (xs : List (Transaction L)) (k : Pubkey) (v : Vault)
    → lookup k s.vaults ≡ some v
    → (v' : Vault) × (lookup k (run t rt s xs).vaults ≡ some v') × Evolves v v'
run-Evolves t rt s xs k v here =
    run_keeps t rt (Holds k v) (λ now s s' m h. Move-Holds (record rt { now = now }) k v s s' m h) s
      xs (v, here, Evolves-refl v)
