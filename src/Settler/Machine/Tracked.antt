-- ===== src/Settler/Machine/Tracked.antt =====
-- What the custody balances of programs/batch_settler/src/lib.rs stand for: the vaults that were
-- written for the maker.
use options_protocol_solana.Common.{
  ℕ, ◌+◌, ◌-◌, ◌≤◌, ◌≡◌, sym, ap, ◌∙◌, subst, min, some, none, Bool-cases, Option-cases, ◌⊎◌, leb,
  inl, inr, List, Pubkey, lookup, insert, total, total-insert, total-insert_new, arith,
}
use options_protocol_solana.Runtime.{Runtime, TokenProgram, SystemProgram}
use options_protocol_solana.Settler.State.{
  SettlerState, MakerOTokenBalance, VaultMm, settler_id, balance_seeds,
}
use options_protocol_solana.Settler.Order.Credits.{balance_at, balance_at-none, balance_at-some}
use options_protocol_solana.Settler.Machine.{Transaction, run, empty_state, at}
use options_protocol_solana.Settler.Machine.Ledger.{Entry}
use options_protocol_solana.Settler.Machine.Postings.{
  Posting, keep, order, redeem, deliver, close, Belongs,
}
use options_protocol_solana.Settler.Machine.Steps.{run_keeps}
use options_protocol_solana.Settler.Machine.Counted.{
  DerivationLaws, remaining_of, AllTracked, nothing, counts, placed-Belongs, other_vault,
  write-AllTracked,
}

module _ (rt : Runtime) (laws : DerivationLaws rt) where
  order-AllTracked :
      (s s' : SettlerState) (k j : Pubkey) (b : MakerOTokenBalance) (v : VaultMm)
      → lookup j s.vault_mms ≡ none
      → rt.find_program_address (balance_seeds b.maker b.otoken_mint) settler_id ≡ (k, b.bump)
      → v.maker ≡ b.maker
      → v.otoken_mint ≡ b.otoken_mint
      → b.balance ≡ balance_at s k + v.remaining_amount
      → s'.balances ≡ insert k b s.balances
      → s'.vault_mms ≡ insert j v s.vault_mms
      → AllTracked rt s
      → AllTracked rt s'
  order-AllTracked s s' k j b v vacant pb em eo sum eb ev h =
      write-AllTracked rt laws s s' k j b eb
        (record {
          placed = pb;
          covered = omega (
            arith,
            sum,
            before,
            grown (remaining_of b.maker b.otoken_mint),
            counts b.maker b.otoken_mint v em eo,
          );
        })
        (λ i c elsewhere was. omega (arith, grown (remaining_of c.maker c.otoken_mint))) h
    where
      grown : (f : VaultMm → ℕ) → total f s'.vault_mms ≡ total f s.vault_mms + f v
      grown f = ap (total f) ev ∙ total-insert_new f j v s.vault_mms vacant

      held :
          (c : MakerOTokenBalance)
          → lookup k s.balances ≡ some c
          → c.balance ≤ total (remaining_of b.maker b.otoken_mint) s.vault_mms
      held c found =
          let was = h k c found in
          let (same_maker, same_mint) =
            laws.apart c.maker c.otoken_mint b.maker b.otoken_mint c.bump b.bump k
              (placed-Belongs rt laws c k was.placed) (placed-Belongs rt laws b k pb) in
          rw (← same_maker, ← same_mint) was.covered

      before : balance_at s k ≤ total (remaining_of b.maker b.otoken_mint) s.vault_mms
      before = elim (Option-cases (lookup k s.balances)) [
        | inl missing ↦
            subst (λ n. n ≤ total (remaining_of b.maker b.otoken_mint) s.vault_mms)
              (sym (balance_at-none s k missing)) (omega arith)
        | inr (c, found) ↦
            subst (λ n. n ≤ total (remaining_of b.maker b.otoken_mint) s.vault_mms)
              (sym (balance_at-some s k c found)) (held c found)
      ]

  -- A balance and a vault of its maker, when both are written.
  module _ (s s' : SettlerState) (k j : Pubkey) (b : MakerOTokenBalance) (v : VaultMm)
      (maker : Pubkey) (found : lookup k s.balances ≡ some b)
      (there : lookup j s.vault_mms ≡ some v) (em : v.maker ≡ b.maker)
      (belongs : Belongs rt maker v.otoken_mint b.bump k) (h : AllTracked rt s) where
    same_otoken : v.otoken_mint ≡ b.otoken_mint
    same_otoken =
        (laws.apart maker v.otoken_mint b.maker b.otoken_mint b.bump b.bump k belongs
          (placed-Belongs rt laws b k (h k b found).placed)).1

    both-AllTracked :
        (balance remaining : ℕ)
        → balance + v.remaining_amount ≤ b.balance + remaining ⊎ (balance ≡ 0)
        → s'.balances ≡ insert k (record b { balance = balance }) s.balances
        → s'.vault_mms ≡ insert j (record v { remaining_amount = remaining }) s.vault_mms
        → AllTracked rt s'
    both-AllTracked balance remaining less eb ev =
        write-AllTracked rt laws s s' k j (record b { balance = balance }) eb
          (record { placed = (h k b found).placed; covered = covered less })
          (λ i c elsewhere was. omega (
            arith,
            moved (remaining_of c.maker c.otoken_mint),
            other_vault rt laws c i k maker b.bump v was.placed b (h k b found).placed elsewhere em
                same_otoken,
            other_vault rt laws c i k maker b.bump (record v { remaining_amount = remaining })
                was.placed b (h k b found).placed elsewhere em same_otoken,
          ))
          h
      where
        moved :
            (f : VaultMm → ℕ)
            → total f s'.vault_mms + f v
              ≡ total f s.vault_mms + f (record v { remaining_amount = remaining })
        moved f =
            ap (λ m. total f m + f v) ev
            ∙ total-insert f j (record v { remaining_amount = remaining }) v s.vault_mms there

        covered :
            (balance + v.remaining_amount ≤ b.balance + remaining) ⊎ (balance ≡ 0)
            → balance ≤ total (remaining_of b.maker b.otoken_mint) s'.vault_mms
        covered (inl le) = omega (
          arith,
          moved (remaining_of b.maker b.otoken_mint),
          (h k b found).covered,
          counts b.maker b.otoken_mint v em same_otoken,
          counts b.maker b.otoken_mint (record v { remaining_amount = remaining }) em same_otoken,
        )
        covered (inr nothing) = omega arith

  Posting-AllTracked :
      (s s' : SettlerState) (entry : Entry)
      → Posting rt s s' entry
      → AllTracked rt s
      → AllTracked rt s'
  Posting-AllTracked s s' entry (keep eb ev ee) h = λ k b found.
      let was = h k b (sym (ap (lookup k) eb) ∙ found) in
      record {
        placed = was.placed;
        covered =
            subst (λ m. b.balance ≤ total (remaining_of b.maker b.otoken_mint) m) (sym ev)
              was.covered;
      }
  Posting-AllTracked s s' entry (order k j b v vacant pb em eo sum eb ev ee) h =
      order-AllTracked s s' k j b v vacant pb em eo sum eb ev h
  Posting-AllTracked s s' entry (redeem k b amount found le eb ev ee) h =
      write-AllTracked rt laws s s' k k (record b { balance = b.balance - amount }) eb
        (record {
          placed = (h k b found).placed;
          covered =
              subst (λ m. b.balance - amount ≤ total (remaining_of b.maker b.otoken_mint) m)
                (sym ev) (omega (arith, (h k b found).covered));
        })
        (λ i c elsewhere was.
          subst
            (λ m.
              total (remaining_of c.maker c.otoken_mint) s.vault_mms
              ≤ total (remaining_of c.maker c.otoken_mint) m)
            (sym ev) (omega arith))
        h
  Posting-AllTracked s s' entry
        (deliver k j b v maker amount found there le1 le2 em belongs eb ev ee) h =
      both-AllTracked s s' k j b v maker found there em belongs h (b.balance - amount)
        (v.remaining_amount - amount) (inl (omega arith)) eb ev
  Posting-AllTracked s s' entry (close k j b v maker found there em belongs eb ev ee) h =
      both-AllTracked s s' k j b v maker found there em belongs h
        (b.balance - min v.remaining_amount b.balance) 0 (left v.remaining_amount b.balance) eb ev
    where
      left : (r m : ℕ) → (m - min r m + r ≤ m + 0) ⊎ (m - min r m ≡ 0)
      left r m = elim (Bool-cases (leb r m)) [
        | inl le ↦ inl (ground arith)
        | inr more ↦ inr (ground arith)
      ]

-- After any history from the empty state, a maker's balance stands at the address of its maker and
-- oToken, and is at most the sum of what is left to the vaults that were written for them; the
-- addresses of program accounts are as documented.
pub run-AllTracked :
    {L : Type 0} (t : TokenProgram L) (sys : SystemProgram L) (rt : Runtime)
    → DerivationLaws rt
    → (xs : List (Transaction L)) → AllTracked rt (run t sys rt empty_state xs)
run-AllTracked t sys rt laws xs =
    run_keeps t sys rt (AllTracked rt)
      (λ now s s' entry p h.
        Posting-AllTracked (at rt now) (record { canonical = laws.canonical; apart = laws.apart }) s
          s' entry p h)
      empty_state xs (λ k b found. absurd (nothing k b found))
