-- ===== src/Settler/Machine/Counted.antt =====
-- How the custody balances of programs/batch_settler/src/lib.rs count against the vaults that were
-- written for their maker.
use options_protocol_solana.Common.{
  ℕ, ◌≤◌, ◌≡◌, ◌≢◌, sym, ap, ◌∙◌, subst, some, ◌&&◌, ◌==◌, if◌then◌else◌, Bool-cases, inl, inr,
  List, Pubkey, lookup, insert, total, lookup-insert_cases, arith,
}
use options_protocol_solana.Runtime.{Seed, Runtime}
use options_protocol_solana.Settler.State.{
  SettlerState, MakerOTokenBalance, VaultMm, settler_id, balance_seeds,
}
use options_protocol_solana.Settler.Machine.{empty_state}
use options_protocol_solana.Settler.Machine.Postings.{Belongs}

-- What is documented of program-derived addresses, for those of the balances: a canonical bump gives
-- the canonical address, and different seeds give different addresses.
pub record DerivationLaws (rt : Runtime) : Type 0 where
  pub canonical :
      (maker mint : Pubkey)
      → Belongs rt maker mint
          (rt.find_program_address (balance_seeds maker mint) settler_id).1
          (rt.find_program_address (balance_seeds maker mint) settler_id).0
  pub apart :
      (maker mint maker' mint' : Pubkey) (bump bump' : ℕ) (k : Pubkey)
      → Belongs rt maker mint bump k
      → Belongs rt maker' mint' bump' k
      → (maker ≡ maker') × (mint ≡ mint')

-- What is left to a vault, if it is of this maker and oToken.
unfoldable pub remaining_of : Pubkey → Pubkey → VaultMm → ℕ
remaining_of maker mint v =
    if (v.maker == maker) && (v.otoken_mint == mint) then v.remaining_amount else 0

-- A balance stands at the address of its maker and oToken, and is at most what is left to the vaults of
-- that maker and oToken.
pub record IsTracked (find : List Seed → Pubkey → Pubkey × ℕ) (s : SettlerState) (k : Pubkey)
    (b : MakerOTokenBalance) : Type 0 where
  pub placed : find (balance_seeds b.maker b.otoken_mint) settler_id ≡ (k, b.bump)
  pub covered : b.balance ≤ total (remaining_of b.maker b.otoken_mint) s.vault_mms

abbrev pub AllTracked : Runtime → SettlerState → Type 0
AllTracked rt s =
    (k : Pubkey) (b : MakerOTokenBalance)
    → lookup k s.balances ≡ some b
    → IsTracked rt.find_program_address s k b

pub nothing : (k : Pubkey) (b : MakerOTokenBalance) → ¬ (lookup k empty_state.balances ≡ some b)
unfolding lookup
nothing k b e = cc

pub counts :
    (maker mint : Pubkey) (v : VaultMm)
    → v.maker ≡ maker
    → v.otoken_mint ≡ mint
    → remaining_of maker mint v ≡ v.remaining_amount
unfolding remaining_of
counts maker mint v em eo = ground arith

module _ (rt : Runtime) (laws : DerivationLaws rt) where
  -- A balance that stands at its address belongs there.
  pub placed-Belongs :
      (b : MakerOTokenBalance) (k : Pubkey)
      → rt.find_program_address (balance_seeds b.maker b.otoken_mint) settler_id ≡ (k, b.bump)
      → Belongs rt b.maker b.otoken_mint b.bump k
  placed-Belongs b k e =
      let law = laws.canonical b.maker b.otoken_mint in
      subst (λ ((j, n) : Pubkey × ℕ). Belongs rt b.maker b.otoken_mint n j) e law

  -- The vaults of another address are another's.
  pub other_vault :
      (b : MakerOTokenBalance) (k j : Pubkey) (maker : Pubkey) (bump : ℕ) (v : VaultMm)
      → rt.find_program_address (balance_seeds b.maker b.otoken_mint) settler_id ≡ (k, b.bump)
      → (c : MakerOTokenBalance)
      → rt.find_program_address (balance_seeds c.maker c.otoken_mint) settler_id ≡ (j, c.bump)
      → k ≢ j
      → v.maker ≡ c.maker
      → v.otoken_mint ≡ c.otoken_mint
      → remaining_of b.maker b.otoken_mint v ≡ 0
  unfolding remaining_of
  other_vault b k j maker bump v pb c pc differ em eo =
      elim (Bool-cases ((v.maker == b.maker) && (v.otoken_mint == b.otoken_mint))) [
        | inl same ↦ absurd (differ (meet (ground arith) (ground arith)))
        | inr other ↦ ground arith
      ]
    where
      meet : v.maker ≡ b.maker → v.otoken_mint ≡ b.otoken_mint → k ≡ j
      meet sm so =
          ap (λ p. p.0)
            (sym pb
              ∙ ap (λ m. rt.find_program_address (balance_seeds m b.otoken_mint) settler_id)
                  (sym sm ∙ em)
              ∙ ap (λ o. rt.find_program_address (balance_seeds c.maker o) settler_id) (sym so ∙ eo)
              ∙ pc)

  -- A posting that writes the balance at `k` and the vault's record at `j`: the new balance is covered,
  -- and what another balance counts does not shrink.
  pub write-AllTracked :
      (s s' : SettlerState) (k j : Pubkey) (b : MakerOTokenBalance)
      → s'.balances ≡ insert k b s.balances
      → IsTracked rt.find_program_address s' k b
      → ((i : Pubkey) (c : MakerOTokenBalance)
          → i ≢ k
          → IsTracked rt.find_program_address s i c
          → total (remaining_of c.maker c.otoken_mint) s.vault_mms
            ≤ total (remaining_of c.maker c.otoken_mint) s'.vault_mms)
      → AllTracked rt s
      → AllTracked rt s'
  write-AllTracked s s' k j b eb new grow h i c found =
      elim (lookup-insert_cases i k b c s.balances (sym (ap (lookup i) eb) ∙ found)) [
        | inl (here, same) ↦
            subst (λ (x : Pubkey). IsTracked rt.find_program_address s' x c) (sym here)
              (subst (IsTracked rt.find_program_address s' k) (sym same) new)
        | inr (elsewhere, old) ↦
            let was = h i c old in
            record {
              placed = was.placed;
              covered = omega (arith, was.covered, grow i c elsewhere was);
            }
      ]
