-- ===== src/Settler/Order/Vault.antt =====
-- The vault that `execute_order` of programs/batch_settler/src/lib.rs writes at the controller.
use options_protocol_solana.Common.{
  ℕ, ◌+◌, ◌≤◌, ◌≡◌, refl, sym, ap, ◌∙◌, subst, false, some, none, some_inj, lookup, insert,
  lookup-insert_self, ok, >>=-eq-ok, Result-cases, inl, inr, arith, Pubkey,
}
use options_protocol_solana.Runtime.{Runtime, TokenProgram, SystemProgram}
use options_protocol_solana.Controller.State.{ControllerState, Vault, OTokenInfo}
use options_protocol_solana.Controller.Vaults.{
  OpenVault, DepositCollateral, open_vault, load_open_vault, deposit_collateral,
  load_deposit_collateral, fresh_vault,
}
use options_protocol_solana.Controller.Mint.{MintOtoken, mint_otoken, load_mint_otoken}
use options_protocol_solana.Controller.Collateral.{get_required_collateral}
use options_protocol_solana.Settler.World.{World}
use options_protocol_solana.Settler.Order.Load.{ExecuteOrder, Order, InstructionsSysvar}
use options_protocol_solana.Settler.Order.Steps.{
  cpi_open_vault, cpi_deposit_collateral, cpi_mint_otoken, write_vault,
}
use options_protocol_solana.Settler.Order.Execute.{execute_order}
use options_protocol_solana.Settler.Order.Ran.{execute_order-Ran}

module _ (rt : Runtime) (s s' : ControllerState) where
  opened :
      (a : OpenVault) (m b : Pubkey)
      → open_vault rt s a m b ≡ ok s'
      → (id : ℕ) × (bump : ℕ) × (lookup a.vault s.vaults ≡ none)
        × (s'.vaults ≡ insert a.vault (fresh_vault a.owner id m b bump) s.vaults)
        × (s'.infos ≡ s.infos)
  unfolding open_vault
  opened a m b e =
      let ((config, counter, bump), loaded, rest) = >>=-eq-ok (load_open_vault rt s a) _ e in
      (counter.next_id, bump, ground arith, ground arith, ground arith)

  module _ {L : Type 0} (t : TokenProgram L) (l l' : L) where
    funded :
        (a : DepositCollateral) (amount : ℕ)
        → deposit_collateral t rt s l a amount ≡ ok (s', l')
        → (v : Vault) × (lookup a.vault s.vaults ≡ some v)
          × (s'.vaults
              ≡ insert a.vault
                  (record v { collateral_amount = v.collateral_amount + amount })
                  s.vaults)
          × (s'.infos ≡ s.infos)
    unfolding deposit_collateral
    funded a amount e =
        let ((config, vault, user, pool, decimals), loaded, rest) =
          >>=-eq-ok (load_deposit_collateral t rt s l a) _ e in
        (vault, ground arith, ground arith, ground arith)

    written :
        (a : MintOtoken) (amount : ℕ)
        → mint_otoken t rt s l a amount ≡ ok (s', l')
        → (v : Vault) × (info : OTokenInfo) × (required : ℕ) × (lookup a.vault s.vaults ≡ some v)
          × (s'.vaults
              ≡ insert a.vault
                  (record v { otoken_mint = a.otoken_mint; short_amount = v.short_amount + amount })
                  s.vaults)
          × (lookup a.otoken_info s.infos ≡ some info)
          × (info.otoken_mint ≡ a.otoken_mint)
          × (info.collateral_mint ≡ v.collateral_mint)
          × (get_required_collateral info.strike_price info.is_put info.collateral_decimals
                (v.short_amount + amount)
              ≡ ok required)
          × (required ≤ v.collateral_amount)
    unfolding mint_otoken
    written a amount e =
        let ((config, vault, info), loaded, rest) = >>=-eq-ok (load_mint_otoken t rt s l a) _ e in
        elim (Result-cases (
          get_required_collateral info.strike_price info.is_put info.collateral_decimals
            (vault.short_amount + amount))) [
              | inl (required, priced) ↦ (
                vault,
                info,
                required,
                ground arith,
                ground arith,
                ground arith,
                ground arith,
                ground arith,
                priced,
                ground arith,
              )
              | inr (_, failed) ↦ absurd (ground arith)
            ]

-- The vault of an order: new, the settler's on behalf of the user, with all of the order's collateral
-- and all of its oTokens, of a series that asks for no more than that collateral.
pub record IsWritten (s s' : ControllerState) (a : ExecuteOrder) (q : Order) : Type 0 where
  pub vault : Vault
  pub info : OTokenInfo
  pub required : ℕ
  pub vacant : lookup a.vault s.vaults ≡ none
  pub found : lookup a.vault s'.vaults ≡ some vault
  pub owner : vault.owner ≡ a.settler_config
  pub beneficiary : vault.beneficiary ≡ a.user
  pub collateral_mint : vault.collateral_mint ≡ q.collateral_mint
  pub collateral_amount : vault.collateral_amount ≡ q.collateral_amount
  pub otoken_mint : vault.otoken_mint ≡ a.otoken_mint
  pub short_amount : vault.short_amount ≡ q.amount
  pub live : vault.settled ≡ false
  pub listed : lookup a.otoken_info s.infos ≡ some info
  pub series : info.otoken_mint ≡ a.otoken_mint
  pub same_collateral : info.collateral_mint ≡ q.collateral_mint
  pub priced :
      get_required_collateral info.strike_price info.is_put info.collateral_decimals q.amount
      ≡ ok required
  pub backed : required ≤ q.collateral_amount

module _ {L : Type 0} (t : TokenProgram L) (rt : Runtime) where
  write_vault-IsWritten :
      (s s' : ControllerState) (l l' : L) (a : ExecuteOrder) (q : Order)
      → write_vault t rt s l a q ≡ ok (s', l')
      → IsWritten s s' a q
  unfolding write_vault cpi_open_vault cpi_deposit_collateral cpi_mint_otoken
  write_vault-IsWritten s s' l l' a q e =
      let (s1, eo, e) = >>=-eq-ok (cpi_open_vault t rt s a q.collateral_mint) _ e in
      let ((s2, l2), ed, em) =
        >>=-eq-ok (cpi_deposit_collateral t rt s1 l a q.collateral_amount) _ e in
      let (id, bump, vacant, v1, i1) = opened rt s s1 _ q.collateral_mint a.user eo in
      let fresh = fresh_vault a.settler_config id q.collateral_mint a.user bump in
      let (u, fu, v2, i2) = funded rt s1 s2 t l l2 _ q.collateral_amount ed in
      let (v, info, required, fv, v3, listed, series, same, priced, le) =
        written rt s2 s' t l2 l' _ q.amount em in
      let first : u ≡ fresh =
        some_inj (sym fu ∙ ap (lookup a.vault) v1 ∙ lookup-insert_self a.vault fresh s.vaults) in
      let second : v ≡ record u { collateral_amount = u.collateral_amount + q.collateral_amount } =
        some_inj (sym fv ∙ ap (lookup a.vault) v2 ∙ lookup-insert_self a.vault _ s1.vaults) in
      let known : v ≡ record fresh { collateral_amount = 0 + q.collateral_amount } =
        second
        ∙ ap
            (λ (x : Vault). record x {
              collateral_amount = x.collateral_amount + q.collateral_amount;
            })
            first in
      let amount : v.short_amount + q.amount ≡ q.amount =
        ap (λ x. x.short_amount + q.amount) known ∙ omega arith in
      record {
        vault = record v { otoken_mint = a.otoken_mint; short_amount = v.short_amount + q.amount };
        info = info;
        required = required;
        vacant = vacant;
        found = ap (lookup a.vault) v3 ∙ lookup-insert_self a.vault _ s2.vaults;
        owner = ap (λ x. x.owner) known;
        beneficiary = ap (λ x. x.beneficiary) known;
        collateral_mint = ap (λ x. x.collateral_mint) known;
        collateral_amount = ap (λ x. x.collateral_amount) known ∙ omega arith;
        otoken_mint = refl;
        short_amount = amount;
        live = ap (λ x. x.settled) known;
        listed = sym (ap (lookup a.otoken_info) i1) ∙ (sym (ap (lookup a.otoken_info) i2) ∙ listed);
        series = series;
        same_collateral = same ∙ ap (λ x. x.collateral_mint) known;
        priced =
            subst
              (λ n.
                get_required_collateral info.strike_price info.is_put info.collateral_decimals n
                ≡ ok required)
              amount priced;
        backed = subst (λ n. required ≤ n) (ap (λ x. x.collateral_amount) known ∙ omega arith) le;
      }

-- An order that is executed opens a vault at a vacant address, the settler's own on behalf of the
-- user, with the collateral that the order names and exactly its amount written, of a listed series of
-- the oToken on that collateral; and the collateral covers what the series requires of the amount.
pub execute_order-IsWritten :
    {L : Type 0} (t : TokenProgram L) (sys : SystemProgram L) (rt : Runtime)
    (sysvar : InstructionsSysvar) (w w' : World L) (a : ExecuteOrder) (q : Order)
    → execute_order t sys rt sysvar w a q ≡ ok w'
    → IsWritten w.controller w'.controller a q
execute_order-IsWritten t sys rt sysvar w w' a q e =
    let r = execute_order-Ran t sys rt sysvar w a q w' e in
    write_vault-IsWritten t rt w.controller w'.controller r.l2 r.l3 a q r.writes
