-- ===== src/Testing/Bank.antt =====
-- A concrete token program and a concrete runtime, at which the theorems about any token program
-- and any runtime are applied.
use Prim.Native.String.{len}
use options_protocol_solana.Common.{
  ℕ, ℤ, ◌+◌, ◌-◌, ◌*◌, List, [], ◌∷◌, Option, none, some, Pubkey, Accounts, lookup, insert, leb,
  if◌then◌else◌, pos_part, neg_part,
}
use options_protocol_solana.Runtime.{
  TokenAccount, TokenProgram, Runtime, Seed, text, key, word, signed, flag,
}

pub record Ledger : Type 0 where
  pub accounts : Accounts TokenAccount
  pub mints : Accounts ℕ

abbrev pub debit : TokenAccount → ℕ → TokenAccount
debit a n = record a { amount = a.amount - n }

abbrev pub credit : TokenAccount → ℕ → TokenAccount
credit a n = record a { amount = a.amount + n }

-- The amount leaves the source before it arrives, which matters where the two are one account.
unfoldable pub move_tokens : Ledger → Pubkey → Pubkey → ℕ → Option Ledger
move_tokens l from to n = elim (lookup from l.accounts) [
  | none ↦ none
  | some a ↦
      if leb n a.amount
      then (let left : Accounts TokenAccount = insert from (debit a n) l.accounts in
          elim (lookup to left) [
            | none ↦ none
            | some b ↦ some (record l { accounts = insert to (credit b n) left })
          ])
      else none
]

unfoldable pub add_tokens : Ledger → Pubkey → ℕ → Option Ledger
add_tokens l to n = elim (lookup to l.accounts) [
  | none ↦ none
  | some b ↦ some (record l { accounts = insert to (credit b n) l.accounts })
]

unfoldable pub remove_tokens : Ledger → Pubkey → ℕ → Option Ledger
remove_tokens l from n = elim (lookup from l.accounts) [
  | none ↦ none
  | some a ↦
      if leb n a.amount
      then some (record l { accounts = insert from (debit a n) l.accounts })
      else none
]

unfoldable pub bank : TokenProgram Ledger
bank = record {
  account = λ l k. lookup k l.accounts;
  decimals = λ l k. lookup k l.mints;
  transfer_checked = λ l c n d. move_tokens l c.from c.to n;
  mint_to = λ l c n. add_tokens l c.to n;
  burn_checked = λ l c n d. remove_tokens l c.from n;
}

-- An address that tells the seeds of the tests apart.
address_of : List Seed → ℕ
address_of [] = 1
address_of (text s ∷ rest) = len s + 97 * address_of rest
address_of (key k ∷ rest) = k + 97 * address_of rest
address_of (word n ∷ rest) = n + 97 * address_of rest
address_of (signed z ∷ rest) = pos_part z + neg_part z + 97 * address_of rest
address_of (flag b ∷ rest) = (if b then 1 else 0) + 97 * address_of rest

unfoldable pub clock_at : ℤ → Runtime
unfolding address_of
clock_at now = record {
  find_program_address = λ seeds program. (address_of seeds, 255);
  create_program_address = λ seeds bump program. some (address_of seeds);
  now = now;
}
