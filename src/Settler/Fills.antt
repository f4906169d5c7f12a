-- ===== src/Settler/Fills.antt =====
-- The fills of one quote of programs/batch_settler/src/lib.rs, one after the other.
use options_protocol_solana.Common.{
  ok_inj, ℕ, ◌+◌, ◌≤◌, ◌≡◌, sym, ap, ◌∙◌, ◌↔◌, false, List, [], ◌∷◌, sum, Result, ok, ◌>>=◌,
  >>=-eq-ok, arith, IsU64, subst,
}
use options_protocol_solana.Settler.State.{QuoteFill}
use options_protocol_solana.Settler.Quotes.{update_fill}

-- Orders against a quote, each of which has to succeed.
unfoldable pub fill_all : QuoteFill → ℕ → List ℕ → Result QuoteFill
unfolding update_fill
fill_all fill max_amount [] = ok fill
fill_all fill max_amount (amount ∷ rest) = do
  fill' ← update_fill fill amount max_amount
  fill_all fill' max_amount rest

abbrev add_filled : QuoteFill → ℕ → QuoteFill
add_filled fill n = record fill { filled_amount = fill.filled_amount + n }

update_fill_ok :
    (fill fill' : QuoteFill) (amount max_amount : ℕ)
    → update_fill fill amount max_amount ≡ ok fill'
    → (fill.cancelled ≡ false)
      × (fill' ≡ add_filled fill amount)
      × (fill.filled_amount + amount ≤ max_amount)
unfolding update_fill
update_fill_ok fill fill' amount max_amount e = ground arith

update_fill-eq :
    (fill : QuoteFill) (amount max_amount : ℕ)
    → fill.cancelled ≡ false
    → IsU64 max_amount
    → fill.filled_amount + amount ≤ max_amount
    → update_fill fill amount max_amount ≡ ok (add_filled fill amount)
unfolding update_fill
update_fill-eq fill amount max_amount live h le = ground arith

-- Orders against a live quote all succeed exactly when their sum stays within the quote's maximum, and
-- then the quote has been filled by that sum; the maximum is a u64 that the quote has not passed.
pub fill_all_iff :
    (fill fill' : QuoteFill) (max_amount : ℕ) (amounts : List ℕ)
    → fill.cancelled ≡ false
    → IsU64 max_amount
    → fill.filled_amount ≤ max_amount
    → (fill_all fill max_amount amounts ≡ ok fill') ↔ (
        (fill' ≡ record fill { filled_amount = fill.filled_amount + sum amounts })
        × (fill.filled_amount + sum amounts ≤ max_amount))
unfolding fill_all
fill_all_iff fill fill' max_amount [] live h le =
    ((λ e. (sym (ok_inj e) ∙ none_more, omega arith)), (λ (same, _). ap ok (none_more ∙ sym same)))
  where
    none_more : fill ≡ add_filled fill 0
    none_more = ap (λ n. record fill { filled_amount = n }) (omega arith)
fill_all_iff fill fill' max_amount (amount ∷ rest) live h le = (
  (λ e.
      let (mid, first, later) = >>=-eq-ok (update_fill fill amount max_amount) _ e in
      let (_, same, le') = update_fill_ok fill mid amount max_amount first in
      let (filled, bound) =
        (fill_all_iff (add_filled fill amount) fill' max_amount rest live h le').0
          (subst (λ m. fill_all m max_amount rest ≡ ok fill') same later) in
      (filled ∙ regroup, omega arith)),
  (λ (same, bound).
      ap (λ r. r >>= λ f. fill_all f max_amount rest)
        (update_fill-eq fill amount max_amount live h (omega arith))
      ∙ (fill_all_iff (add_filled fill amount) fill' max_amount rest live h (omega arith)).1
          (same ∙ sym regroup, omega arith)),
)
  where
    regroup : add_filled (add_filled fill amount) (sum rest) ≡ add_filled fill (amount + sum rest)
    regroup = ap (λ n. record fill { filled_amount = n }) (omega arith)
