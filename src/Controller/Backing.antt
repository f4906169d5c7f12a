-- ===== src/Controller/Backing.antt =====
-- Collateralisation: whatever the history of programs/controller/src/lib.rs, a vault records
-- at least the collateral that its series requires of what it has written.
use options_protocol_solana.Common.{
  ℕ, ◌≤◌, ◌≡◌, refl, ap, sym, ◌∙◌, ◌⊎◌, inl, inr, some, none, Pubkey, lookup, insert, ok, arith,
  lookup-insert_cases, lookup-insert_vacant, lookup-insert, List, Accounts, subst, Bool-cases,
  ==_iff, ◌==◌, some_inj,
}
use options_protocol_solana.Runtime.{Runtime, TokenProgram}
use options_protocol_solana.Controller.State.{ControllerState, Vault, OTokenInfo}
use options_protocol_solana.Controller.Collateral.{get_required_collateral}
use options_protocol_solana.Controller.Moves.{
  Move, keep, open_vault, deposit, mint, settle, list_series, fix_price, info_address,
}
use options_protocol_solana.Controller.Machine.{Transaction, run, empty_state}
use options_protocol_solana.Controller.Machine.History.{run_keeps}

-- The series of a vault, and the collateral that it requires of the vault.
pub record Backing (address : Pubkey → Pubkey) (infos : Accounts OTokenInfo) (v : Vault)
    : Type 0 where
  pub info : OTokenInfo
  pub required : ℕ
  pub listed : lookup (address v.otoken_mint) infos ≡ some info
  pub same_otoken : info.otoken_mint ≡ v.otoken_mint
  pub same_collateral : info.collateral_mint ≡ v.collateral_mint
  pub priced :
      get_required_collateral info.strike_price info.is_put info.collateral_decimals v.short_amount
      ≡ ok required
  pub covered : required ≤ v.collateral_amount

-- The vault has written nothing, or what it has written is backed.
abbrev pub IsBacked : (Pubkey → Pubkey) → Accounts OTokenInfo → Vault → Type 0
IsBacked address infos v = (v.short_amount ≡ 0) ⊎ Backing address infos v

abbrev pub AllBacked : Runtime → ControllerState → Type 0
AllBacked rt s =
    (k : Pubkey) (v : Vault) → lookup k s.vaults ≡ some v → IsBacked (info_address rt) s.infos v

module _ (address : Pubkey → Pubkey) where
  -- What backs a vault backs it with more collateral, settled or not.
  grow-IsBacked :
      (infos : Accounts OTokenInfo) (v v' : Vault)
      → v'.otoken_mint ≡ v.otoken_mint
      → v'.short_amount ≡ v.short_amount
      → v'.collateral_mint ≡ v.collateral_mint
      → v.collateral_amount ≤ v'.collateral_amount
      → IsBacked address infos v
      → IsBacked address infos v'
  grow-IsBacked infos v v' eo es ec le (inl e) = inl (es ∙ e)
  grow-IsBacked infos v v' eo es ec le (inr b) = inr (record {
    info = b.info;
    required = b.required;
    listed = rw eo b.listed;
    same_otoken = b.same_otoken ∙ sym eo;
    same_collateral = b.same_collateral ∙ sym ec;
    priced = rw es b.priced;
    covered = omega (arith, b.covered);
  })

  -- A series that keeps its terms backs what it backed.
  relist-Backing :
      (infos infos' : Accounts OTokenInfo) (v : Vault) (b : Backing address infos v) (price : ℕ)
      → lookup (address v.otoken_mint) infos' ≡ some (record b.info { expiry_price = price })
      → Backing address infos' v
  relist-Backing infos infos' v b price listed = record {
    info = record b.info { expiry_price = price };
    required = b.required;
    listed = listed;
    same_otoken = b.same_otoken;
    same_collateral = b.same_collateral;
    priced = b.priced;
    covered = b.covered;
  }

  list_series-IsBacked :
      (infos : Accounts OTokenInfo) (k : Pubkey) (info : OTokenInfo) (v : Vault)
      → lookup k infos ≡ none
      → IsBacked address infos v
      → IsBacked address (insert k info infos) v
  list_series-IsBacked infos k info v vacant (inl e) = inl e
  list_series-IsBacked infos k info v vacant (inr b) = inr (
      relist-Backing infos (insert k info infos) v b b.info.expiry_price
        (lookup-insert_vacant (address v.otoken_mint) k info b.info infos vacant b.listed))

  fix_price-IsBacked :
      (infos : Accounts OTokenInfo) (k : Pubkey) (info : OTokenInfo) (price : ℕ) (v : Vault)
      → lookup k infos ≡ some info
      → IsBacked address infos v
      → IsBacked address (insert k (record info { expiry_price = price }) infos) v
  fix_price-IsBacked infos k info price v found (inl e) = inl e
  fix_price-IsBacked infos k info price v found (inr b) =
      let place = address v.otoken_mint in
      let priced : OTokenInfo = record info { expiry_price = price } in
      let written = lookup-insert place k priced infos in
      elim (Bool-cases (place == k)) [
        | inl same ↦
            let here : info ≡ b.info =
              some_inj
                (sym found ∙ ap (λ i. lookup i infos) (sym ((==_iff place k).0 same)) ∙ b.listed) in
            inr (
              relist-Backing infos (insert k priced infos) v b price (
                written
                ∙ rw same (ap (λ (i : OTokenInfo). some (record i { expiry_price = price })) here)))
        | inr other ↦ inr (
            relist-Backing infos (insert k priced infos) v b b.info.expiry_price
              (written ∙ rw other b.listed))
      ]

module _ (rt : Runtime) where
  -- The vaults of a state after one write, if what is written is backed.
  insert-AllBacked :
      (s s' : ControllerState) (k : Pubkey) (w : Vault)
      → s'.vaults ≡ insert k w s.vaults
      → s'.infos ≡ s.infos
      → IsBacked (info_address rt) s.infos w
      → AllBacked rt s
      → AllBacked rt s'
  insert-AllBacked s s' k w ev ei new h j v found =
      subst (λ i. IsBacked (info_address rt) i v) (sym ei)
        (elim (lookup-insert_cases j k w v s.vaults (sym (ap (lookup j) ev) ∙ found)) [
          | inl (_, same) ↦ subst (IsBacked (info_address rt) s.infos) (sym same) new
          | inr (_, old) ↦ h j v old
        ])

  Move-AllBacked : (s s' : ControllerState) → Move rt s s' → AllBacked rt s → AllBacked rt s'
  Move-AllBacked s s' (keep ev ei) h = λ k v found.
      subst (λ i. IsBacked (info_address rt) i v) (sym ei) (h k v (sym (ap (lookup k) ev) ∙ found))
  Move-AllBacked s s' (open_vault k v vacant c e o ev ei) h =
      insert-AllBacked s s' k v ev ei (inl e) h
  Move-AllBacked s s' (deposit k v n found o lt ev ei) h =
      insert-AllBacked s s' k _ ev ei
        (grow-IsBacked (info_address rt) s.infos v _ refl refl refl (omega arith) (h k v found)) h
  Move-AllBacked s s' (mint k v info n r found o bound listed same lt priced covered ev ei) h =
      insert-AllBacked s s' k _ ev ei
        (inr (record {
          info = info;
          required = r;
          listed = listed;
          same_otoken = refl;
          same_collateral = same;
          priced = priced;
          covered = covered;
        }))
        h
  Move-AllBacked s s' (settle k v found o ev ei) h =
      insert-AllBacked s s' k _ ev ei
        (grow-IsBacked (info_address rt) s.infos v _ refl refl refl (omega arith) (h k v found)) h
  Move-AllBacked s s' (list_series k info vacant p d e ev ei) h = λ j v found.
      subst (λ i. IsBacked (info_address rt) i v) (sym ei)
        (list_series-IsBacked (info_address rt) s.infos k info v vacant
          (h j v (sym (ap (lookup j) ev) ∙ found)))
  Move-AllBacked s s' (fix_price k info p found e pos ev ei) h = λ j v f.
      subst (λ i. IsBacked (info_address rt) i v) (sym ei)
        (fix_price-IsBacked (info_address rt) s.infos k info p v found
          (h j v (sym (ap (lookup j) ev) ∙ f)))

nothing : (k : Pubkey) (v : Vault) → ¬ (lookup k empty_state.vaults ≡ some v)
unfolding lookup
nothing k v e = cc

-- After any history that starts before the initialization, every vault that has written oTokens
-- names a listed series on its own collateral, and its recorded collateral is at least what that
-- series requires.
pub run-AllBacked :
    {L : Type 0} (t : TokenProgram L) (rt : Runtime) (xs : List (Transaction L))
    → AllBacked rt (run t rt empty_state xs)
run-AllBacked t rt xs =
    run_keeps t rt (AllBacked rt)
      (λ now s s' m h. Move-AllBacked (record rt { now = now }) s s' m h) empty_state xs
      (λ k v found. absurd (nothing k v found))
