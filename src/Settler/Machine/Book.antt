-- ===== src/Settler/Machine/Book.antt =====
-- The custody ledger of programs/batch_settler/src/lib.rs implements a book of accounts.
use options_protocol_solana.Common.{
  ℕ, ◌+◌, ◌-◌, ◌≤◌, ◌≡◌, refl, sym, ap, ◌∙◌, subst, if◌then◌else◌, ◌==◌, Bool-cases, ==_iff, inl,
  inr, some, ok, err, List, [], ◌∷◌, Pubkey, lookup, insert, lookup-insert, Result, Result-cases,
  Option-cases, arith, min,
}
use options_protocol_solana.Runtime.{Runtime, TokenProgram, SystemProgram}
use options_protocol_solana.Settler.State.{SettlerState, MakerOTokenBalance}
use options_protocol_solana.Settler.World.{World}
use options_protocol_solana.Settler.Order.Credits.{balance_at, balance_at-some}
use options_protocol_solana.Settler.Machine.{Transaction, execute, step, run, outcome, found_by, at}
use options_protocol_solana.Settler.Machine.Ledger.{
  Entry, nothing, debit, intent, Book, post, IsAllowed, Posts, Posts-eq,
}
use options_protocol_solana.Settler.Machine.Postings.{Posting, keep, order, redeem, deliver, close}
use options_protocol_solana.Settler.Machine.Steps.{execute-Posting}

balance_at-insert :
    (s s' : SettlerState) (k j : Pubkey) (b : MakerOTokenBalance)
    → s'.balances ≡ insert k b s.balances
    → balance_at s' j ≡ (if j == k then b.balance else balance_at s j)
unfolding balance_at
balance_at-insert s s' k j b e =
    let found = ap (lookup j) e ∙ lookup-insert j k b s.balances in
    elim (Option-cases (lookup j s.balances)) [
      | inl missing ↦ ground arith
      | inr (c, there) ↦ ground arith
    ]

-- The book before an entry at an address, where that is known.
at_address :
    (book : Book) (j k n m : ℕ)
    → m ≡ book k + n
    → (if j == k then m else book j) ≡ (if j == k then book j + n else book j)
at_address book j k n m e = elim (Bool-cases (j == k)) [
  | inl same ↦ let here = ap book ((==_iff j k).0 same) in ground arith
  | inr other ↦ ground arith
]

off_address :
    (book : Book) (j k n m : ℕ)
    → m ≡ book k - n
    → (if j == k then m else book j) ≡ (if j == k then book j - n else book j)
off_address book j k n m e = elim (Bool-cases (j == k)) [
  | inl same ↦ let here = ap book ((==_iff j k).0 same) in ground arith
  | inr other ↦ ground arith
]

module _ (rt : Runtime) (s s' : SettlerState) (entry : Entry) where
  -- A balance that is less by what it could spare is a debit.
  debited :
      (k : Pubkey) (b : MakerOTokenBalance) (n : ℕ)
      → lookup k s.balances ≡ some b
      → n ≤ b.balance
      → s'.balances ≡ insert k (record b { balance = b.balance - n }) s.balances
      → entry ≡ debit k n
      → IsAllowed entry (balance_at s)
        × ((j : Pubkey) → balance_at s' j ≡ post entry (balance_at s) j)
  debited k b n found le eb ee =
      let here = balance_at-some s k b found in
      subst
        (λ e.
          IsAllowed e (balance_at s) × ((j : Pubkey) → balance_at s' j ≡ post e (balance_at s) j))
        (sym ee)
        (
          subst (λ m. n ≤ m) (sym here) le,
          λ j.
              balance_at-insert s s' k j (record b { balance = b.balance - n }) eb
              ∙ off_address (balance_at s) j k n (b.balance - n) (ap (λ m. m - n) (sym here)),
        )

  Posting-post :
      Posting rt s s' entry
      → IsAllowed entry (balance_at s)
        × ((j : Pubkey) → balance_at s' j ≡ post entry (balance_at s) j)
  unfolding balance_at
  Posting-post (keep eb ev ee) =
      subst
        (λ e.
          IsAllowed e (balance_at s) × ((j : Pubkey) → balance_at s' j ≡ post e (balance_at s) j))
        (sym ee) (tt, λ j. ground arith)
  Posting-post (order k j b v vacant pb em eo sum eb ev ee) =
      subst
        (λ e.
          IsAllowed e (balance_at s) × ((j : Pubkey) → balance_at s' j ≡ post e (balance_at s) j))
        (sym ee)
        (
          tt,
          λ i.
              balance_at-insert s s' k i b eb
              ∙ at_address (balance_at s) i k v.remaining_amount b.balance sum,
        )
  Posting-post (redeem k b amount found le eb ev ee) = debited k b amount found le eb ee
  Posting-post (deliver k j b v maker amount found there le1 le2 em belongs eb ev ee) =
      debited k b amount found le1 eb ee
  Posting-post (close k j b v maker found there em belongs eb ev ee) =
      debited k b (min v.remaining_amount b.balance) found (ground arith) eb ee

-- What a transaction enters: what it means to enter if it succeeds, and nothing if it fails.
unfoldable pub entry_of :
    {L : Type 0} → TokenProgram L → SystemProgram L → Runtime → SettlerState → Transaction L → Entry
entry_of t sys rt s x = elim (execute t sys (at rt x.now) (found_by s x) x.instruction) [
  | ok _ ↦ intent s x.instruction
  | err _ ↦ nothing
]

unfoldable pub entries_of :
    {L : Type 0}
    → TokenProgram L
    → SystemProgram L
    → Runtime
    → SettlerState
    → List (Transaction L)
    → List Entry
unfolding entry_of
entries_of t sys rt s [] = []
entries_of t sys rt s (x ∷ xs) = entry_of t sys rt s x ∷ entries_of t sys rt (step t sys rt s x) xs

module _ {L : Type 0} (t : TokenProgram L) (sys : SystemProgram L) (rt : Runtime) where
  step-post :
      (s : SettlerState) (x : Transaction L)
      → IsAllowed (entry_of t sys rt s x) (balance_at s)
        × ((j : Pubkey)
            → balance_at (step t sys rt s x) j ≡ post (entry_of t sys rt s x) (balance_at s) j)
  unfolding step entry_of
  step-post s x = elim (Result-cases (execute t sys (at rt x.now) (found_by s x) x.instruction)) [
    | inl (w, e) ↦
        subst (λ r. IsPosted r) (sym e)
          (Posting-post (at rt x.now) s w.settler (intent s x.instruction)
            (execute-Posting t sys (at rt x.now) (found_by s x) w x.instruction e))
    | inr (f, e) ↦ subst (λ r. IsPosted r) (sym e) (tt, λ j. refl)
  ]
    where
      IsPosted : Result (World L) → Type 0
      IsPosted r =
          IsAllowed (elim r [ ok _ ↦ intent s x.instruction | err _ ↦ nothing ]) (balance_at s)
          × ((j : Pubkey)
              → balance_at (outcome s r) j
                ≡ post (elim r [ ok _ ↦ intent s x.instruction | err _ ↦ nothing ]) (balance_at s)
                    j)

-- Any history of the settler is one of a book of accounts: every transaction enters what its
-- instruction means to enter, or nothing if it fails, no entry overdraws an account, and the balances
-- in the end are those of the book.
pub run-Posts :
    {L : Type 0} (t : TokenProgram L) (sys : SystemProgram L) (rt : Runtime) (s : SettlerState)
    (xs : List (Transaction L))
    → Posts (entries_of t sys rt s xs) (balance_at s) (balance_at (run t sys rt s xs))
unfolding entries_of run
run-Posts t sys rt s [] = λ j. refl
run-Posts t sys rt s (x ∷ xs) =
    let (allowed, posted) = step-post t sys rt s x in
    (
      allowed,
      Posts-eq (entries_of t sys rt (step t sys rt s x) xs) (balance_at (step t sys rt s x))
          (post (entry_of t sys rt s x) (balance_at s))
          (balance_at (run t sys rt (step t sys rt s x) xs)) posted
          (run-Posts t sys rt (step t sys rt s x) xs),
    )
