-- ===== src/Testing/BankLaws.antt =====
-- The concrete token program keeps the laws that are assumed of a token program.
use options_protocol_solana.Common.{
  ℕ, ◌≤◌, ◌≡◌, refl, some, Option-cases, inl, inr, Pubkey, lookup, insert, lookup-insert, arith,
  ◌==◌, if◌then◌else◌,
}
use options_protocol_solana.Runtime.{TokenAccount, TransferLaws}
use options_protocol_solana.Settler.Custody.Payments.{NoFee}
use options_protocol_solana.Testing.Bank.{Ledger, bank, move_tokens, debit, credit}

module _ (l l' : Ledger) (from to : Pubkey) (n : ℕ) where
  -- What a transfer that succeeds has done.
  moved :
      move_tokens l from to n ≡ some l'
      → (a : TokenAccount) × (b : TokenAccount) × (lookup from l.accounts ≡ some a)
        × (n ≤ a.amount)
        × (lookup to (insert from (debit a n) l.accounts) ≡ some b)
        × (l'.accounts ≡ insert to (credit b n) (insert from (debit a n) l.accounts))
  unfolding move_tokens
  moved e = elim (Option-cases (lookup from l.accounts)) [
    | inl missing ↦ absurd (ground arith)
    | inr (a, here) ↦ elim (Option-cases (lookup to (insert from (debit a n) l.accounts))) [
      | inl missing ↦ absurd (ground arith)
      | inr (b, there) ↦ (a, b, here, ground arith, there, ground arith)
    ]
  ]

  -- What is found after a transfer.
  found :
      (k : Pubkey) (a b : TokenAccount)
      → l'.accounts ≡ insert to (credit b n) (insert from (debit a n) l.accounts)
      → lookup k l'.accounts ≡ (
          if k == to
          then some (credit b n)
          else if k == from
          then some (debit a n)
          else lookup k l.accounts)
  found k a b e = rw (
    e,
    lookup-insert k to (credit b n) (insert from (debit a n) l.accounts),
    lookup-insert k from (debit a n) l.accounts,
  )

pub bank-TransferLaws : TransferLaws bank
unfolding bank
bank-TransferLaws = record {
  debits = λ l l' c n d a paid here apart.
      let (x, y, hx, le, hy, e) = moved l l' c.from c.to n paid in
      let f = found l l' c.from c.to n c.from x y e in
      (debit a n, ground arith, ground arith, refl, refl);
  credits = λ l l' c n d a paid here apart.
      let (x, y, hx, le, hy, e) = moved l l' c.from c.to n paid in
      let f = found l l' c.from c.to n c.to x y e in
      let g = lookup-insert c.to c.from (debit x n) l.accounts in
      (credit a n, ground arith, omega arith, omega arith, refl, refl);
  keeps = λ l l' c n d k paid from to.
      let (x, y, hx, le, hy, e) = moved l l' c.from c.to n paid in
      let f = found l l' c.from c.to n k x y e in ground arith;
  keeps_self = λ l l' c n d paid same.
      let (x, y, hx, le, hy, e) = moved l l' c.from c.to n paid in
      let f = found l l' c.from c.to n c.from x y e in
      let g = lookup-insert c.to c.from (debit x n) l.accounts in ground arith;
}

-- It takes no fee.
pub bank-NoFee : (mint : Pubkey) → NoFee bank mint
unfolding bank
bank-NoFee mint = λ l l' c n d a paid same here apart.
    let (x, y, hx, le, hy, e) = moved l l' c.from c.to n paid in
    let f = found l l' c.from c.to n c.to x y e in
    let g = lookup-insert c.to c.from (debit x n) l.accounts in (credit a n, ground arith, refl)
