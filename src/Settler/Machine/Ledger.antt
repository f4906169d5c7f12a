-- ===== src/Settler/Machine/Ledger.antt =====
-- The book of custody that programs/batch_settler/src/lib.rs keeps, seen from outside: an amount per
-- address, and what each instruction means to enter.
use options_protocol_solana.Common.{
  ℕ, ◌+◌, ◌-◌, ◌≤◌, ◌≡◌, ◌∙◌, ap, subst, List, [], ◌∷◌, none, some, if◌then◌else◌, ◌==◌, min,
  Pubkey, lookup,
}
use options_protocol_solana.Settler.State.{SettlerState}
use options_protocol_solana.Settler.Order.Credits.{balance_at}
use options_protocol_solana.Settler.Machine.{
  Instruction, execute_order, emergency_withdraw, redeem_for_mm, mm_self_redeem, physical_redeem,
}

pub data Entry : Type 0 where
  nothing : Entry
  credit : Pubkey → ℕ → Entry
  debit : Pubkey → ℕ → Entry

-- The abstract book: an amount per address.
abbrev pub Book : Type 0
Book = Pubkey → ℕ

-- An entry changes the amount at its address only.
abbrev pub post : Entry → Book → Book
post nothing book j = book j
post (credit k n) book j = if j == k then book j + n else book j
post (debit k n) book j = if j == k then book j - n else book j

-- An account is not overdrawn.
abbrev pub IsAllowed : Entry → Book → Type 0
IsAllowed (debit k n) book = n ≤ book k
IsAllowed _ book = Unit {0}

-- One book is another after some entries, none of which overdraws.
abbrev pub Posts : List Entry → Book → Book → Type 0
Posts [] book book' = (j : Pubkey) → book' j ≡ book j
Posts (entry ∷ entries) book book' = IsAllowed entry book × Posts entries (post entry book) book'

-- Books that agree post alike.
pub post-eq :
    (entry : Entry) (book book' : Book)
    → ((j : Pubkey) → book j ≡ book' j)
    → (j : Pubkey) → post entry book j ≡ post entry book' j
post-eq nothing book book' same j = same j
post-eq (credit k n) book book' same j = ap (λ m. if j == k then m + n else m) (same j)
post-eq (debit k n) book book' same j = ap (λ m. if j == k then m - n else m) (same j)

pub IsAllowed-eq :
    (entry : Entry) (book book' : Book)
    → ((j : Pubkey) → book j ≡ book' j)
    → IsAllowed entry book
    → IsAllowed entry book'
IsAllowed-eq nothing book book' same h = tt
IsAllowed-eq (credit k n) book book' same h = tt
IsAllowed-eq (debit k n) book book' same h = subst (λ m. n ≤ m) (same k) h

pub Posts-eq :
    (entries : List Entry) (book book' last : Book)
    → ((j : Pubkey) → book j ≡ book' j)
    → Posts entries book last
    → Posts entries book' last
Posts-eq [] book book' last same h = λ j. h j ∙ same j
Posts-eq (entry ∷ entries) book book' last same (allowed, rest) = (
  IsAllowed-eq entry book book' same allowed,
  Posts-eq entries (post entry book) (post entry book') last (post-eq entry book book' same) rest,
)

-- What is left to the vault whose record is at an address.
unfoldable pub remaining_at : SettlerState → Pubkey → ℕ
remaining_at s j = elim (lookup j s.vault_mms) [ none ↦ 0 | some v ↦ v.remaining_amount ]

-- What an instruction enters if it succeeds: an order credits its amount, a redemption and a delivery
-- debit theirs, an emergency debits what it can of what is left to the vault, and nothing else enters.
abbrev pub intent : {L : Type 0} → SettlerState → Instruction L → Entry
intent s (execute_order _ a q) = credit a.maker_otoken_balance q.amount
intent s (redeem_for_mm a amount) = debit a.custody.maker_otoken_balance amount
intent s (mm_self_redeem a amount) = debit a.custody.maker_otoken_balance amount
intent s (physical_redeem _ a amount _ _) = debit a.custody.maker_otoken_balance amount
intent s (emergency_withdraw a) =
    debit a.maker_otoken_balance
      (min (remaining_at s a.vault_mm) (balance_at s a.maker_otoken_balance))
intent s _ = nothing
