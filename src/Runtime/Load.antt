-- ===== src/Runtime/Load.antt =====
-- Loading accounts: Anchor's `Account`, `InterfaceAccount` and `init`, and a call that must succeed.
use options_protocol_solana.Common.{
  ℕ, Option, none, some, Pubkey, Accounts, lookup, Result, ok, err, ok_or, anchor, external,
  account_not_initialized, account_in_use, constraint_seeds, constraint_has_one, constraint_raw,
  List, Bool, guard, ◌>>◌,
}
use options_protocol_solana.Runtime.Address.{Runtime, Seed, at_bump, at_seeds}
use options_protocol_solana.Runtime.Token.{TokenAccount, TokenProgram}

unfoldable pub load {ℓ} : {A : Type ℓ} → Accounts A → Pubkey → Result A
load m k = ok_or (lookup k m) (anchor account_not_initialized)

-- `init`: the address holds no account yet.
unfoldable pub vacant {ℓ} : {A : Type ℓ} → Accounts A → Pubkey → Result (Unit {0})
vacant m k = elim (lookup k m) [ none ↦ ok tt | some _ ↦ err (anchor account_in_use) ]

-- `init, seeds = [..], bump`: a fresh account at the canonical address, whose bump it returns.
unfoldable pub init_at {ℓ} :
    {A : Type ℓ} → Runtime → Accounts A → List Seed → Pubkey → Pubkey → Result ℕ
unfolding vacant at_seeds
init_at rt m seeds program address = do
  vacant m address
  guard (at_seeds rt seeds program address) (anchor constraint_seeds)
  ok (rt.find_program_address seeds program).1

-- `seeds = [..], bump = b` and `seeds = [..], bump` on an account that exists, and a raw constraint.
unfoldable pub check_bump : Runtime → List Seed → ℕ → Pubkey → Pubkey → Result (Unit {0})
unfolding at_bump
check_bump rt seeds bump program address =
    guard (at_bump rt seeds bump program address) (anchor constraint_seeds)

unfoldable pub check_seeds : Runtime → List Seed → Pubkey → Pubkey → Result (Unit {0})
unfolding at_seeds
check_seeds rt seeds program address =
    guard (at_seeds rt seeds program address) (anchor constraint_seeds)

abbrev pub has_one : Bool → Result (Unit {0})
has_one b = guard b (anchor constraint_has_one)

abbrev pub constraint : Bool → Result (Unit {0})
constraint b = guard b (anchor constraint_raw)

module _ {L : Type 0} (t : TokenProgram L) where
  unfoldable pub load_token : L → Pubkey → Result TokenAccount
  load_token l k = ok_or (t.account l k) (anchor account_not_initialized)

  unfoldable pub load_mint : L → Pubkey → Result ℕ
  load_mint l k = ok_or (t.decimals l k) (anchor account_not_initialized)

-- A cross-program call outside the repository, whose failure fails the instruction.
unfoldable pub invoke {ℓ} : {A : Type ℓ} → Option A → Result A
invoke r = ok_or r external
