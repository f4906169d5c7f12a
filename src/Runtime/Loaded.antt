-- ===== src/Runtime/Loaded.antt =====
-- What is known of an account that has been loaded.
use options_protocol_solana.Common.{
  ℕ, ◌≡◌, refl, some, none, Option, Option-cases, inl, inr, Error, Pubkey, Accounts, lookup, ok,
  ok_or, List, arith, guard-true, ==_iff, ap, ok_inj,
}
use options_protocol_solana.Runtime.Address.{Runtime, Seed, at_seeds, at_bump}
use options_protocol_solana.Runtime.Token.{TokenAccount, TokenProgram}
use options_protocol_solana.Runtime.Load.{
  load, load_token, load_mint, check_seeds, check_bump, vacant, invoke,
}

pub ok_or-eq {ℓ} : {A : Type ℓ} (o : Option A) (f : Error) {a : A} → ok_or o f ≡ ok a → o ≡ some a
ok_or-eq none f e = cc
ok_or-eq (some a) f e = ap some (ok_inj e)

pub load-eq {ℓ} :
    {A : Type ℓ} (m : Accounts A) (k : Pubkey) {a : A} → load m k ≡ ok a → lookup k m ≡ some a
unfolding load
load-eq m k e = ok_or-eq (lookup k m) _ e

pub invoke-eq {ℓ} : {A : Type ℓ} (o : Option A) {a : A} → invoke o ≡ ok a → o ≡ some a
unfolding invoke
invoke-eq o e = ok_or-eq o _ e

pub load_token-eq :
    {L : Type 0} (t : TokenProgram L) (l : L) (k : Pubkey) {a : TokenAccount}
    → load_token t l k ≡ ok a
    → t.account l k ≡ some a
unfolding load_token
load_token-eq t l k e = ok_or-eq (t.account l k) _ e

pub check_seeds-eq :
    (rt : Runtime) (seeds : List Seed) (program address : Pubkey)
    → check_seeds rt seeds program address ≡ ok tt
    → (rt.find_program_address seeds program).0 ≡ address
unfolding check_seeds at_seeds
check_seeds-eq rt seeds program address e = (==_iff _ _).0 (guard-true _ _ e)

pub check_bump-eq :
    (rt : Runtime) (seeds : List Seed) (bump : ℕ) (program address : Pubkey)
    → check_bump rt seeds bump program address ≡ ok tt
    → rt.create_program_address seeds bump program ≡ some address
unfolding check_bump at_bump
check_bump-eq rt seeds bump program address e =
    elim (Option-cases (rt.create_program_address seeds bump program)) [
      | inl missing ↦ absurd (ground arith)
      | inr (k, found) ↦ ground arith
    ]

pub vacant-eq {ℓ} :
    {A : Type ℓ} (m : Accounts A) (k : Pubkey) → vacant m k ≡ ok tt → lookup k m ≡ none
unfolding vacant
vacant-eq m k e = elim (Option-cases (lookup k m)) [
  | inl missing ↦ missing
  | inr (a, found) ↦ absurd (ground arith)
]

-- And what loads.
pub load-ok {ℓ} :
    {A : Type ℓ} (m : Accounts A) (k : Pubkey) {a : A} → lookup k m ≡ some a → load m k ≡ ok a
unfolding load
load-ok m k e = rw e refl

pub check_bump-ok :
    (rt : Runtime) (seeds : List Seed) (bump : ℕ) (program address : Pubkey)
    → rt.create_program_address seeds bump program ≡ some address
    → check_bump rt seeds bump program address ≡ ok tt
unfolding check_bump at_bump
check_bump-ok rt seeds bump program address e = ground arith

module _ {L : Type 0} (t : TokenProgram L) (l : L) (k : Pubkey) where
  pub load_token-ok : {a : TokenAccount} → t.account l k ≡ some a → load_token t l k ≡ ok a
  unfolding load_token
  load_token-ok e = rw e refl

  pub load_mint-ok : {d : ℕ} → t.decimals l k ≡ some d → load_mint t l k ≡ ok d
  unfolding load_mint
  load_mint-ok e = rw e refl

  pub load_mint-eq : {d : ℕ} → load_mint t l k ≡ ok d → t.decimals l k ≡ some d
  unfolding load_mint
  load_mint-eq e = ok_or-eq (t.decimals l k) _ e
