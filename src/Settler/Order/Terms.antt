-- ===== src/Settler/Order/Terms.antt =====
-- What the maker of an order has agreed to, in `execute_order` of programs/batch_settler/src/lib.rs.
use options_protocol_solana.Common.{
  ℕ, ◌+◌, ◌≤◌, ◌≤ℤ◌, ◌≡◌, sym, ap, true, false, some, none, lookup, insert, ok, >>=-eq-ok, ok_inj,
  guard-eq, guard-true, guard-le_ℤ, to_le_bytes, Option-cases, inl, inr, arith,
}
use options_protocol_solana.Runtime.{Runtime, SystemProgram}
use options_protocol_solana.Settler.State.{
  SettlerState, MakerState, QuoteFill, require, fill_seeds, settler_id,
}
use options_protocol_solana.Settler.Quotes.{validate_maker, update_fill}
use options_protocol_solana.Settler.Signature.{build_quote_message, verify_ed25519_signature}
use options_protocol_solana.Settler.Verification.{Presented, verify_ed25519_signature_iff}
use options_protocol_solana.Settler.Order.Load.{
  ExecuteOrder, Order, InstructionsSysvar, quote_of, check_quote,
}
use options_protocol_solana.Settler.Order.Steps.{load_or_init_quote_fill, fill_quote}

-- The maker, at this nonce, and a call of the ed25519 program with the maker's key and the terms, in
-- time.
pub record IsQuoted (rt : Runtime) (sysvar : InstructionsSysvar) (a : ExecuteOrder) (q : Order)
    (m : MakerState) : Type 0 where
  pub whitelisted : m.whitelisted ≡ true
  pub nonce : m.nonce ≡ q.maker_nonce
  pub presented :
      Presented sysvar.ed25519_id
        (to_le_bytes 32 a.maker)
        (build_quote_message (quote_of a q))
        sysvar.earlier
  pub in_time : rt.now ≤ℤ q.deadline

validate_maker-eq :
    (m : MakerState) (nonce : ℕ)
    → validate_maker m nonce ≡ ok tt
    → (m.whitelisted ≡ true) × (m.nonce ≡ nonce)
unfolding validate_maker
validate_maker-eq m nonce e =
    let (_, white, e) = >>=-eq-ok (require m.whitelisted _) _ e in
    (guard-true _ _ white, guard-eq _ _ _ e)

pub check_quote-IsQuoted :
    (rt : Runtime) (sysvar : InstructionsSysvar) (a : ExecuteOrder) (q : Order) (m : MakerState)
    → check_quote rt sysvar a q m ≡ ok tt
    → IsQuoted rt sysvar a q m
unfolding check_quote
check_quote-IsQuoted rt sysvar a q m e =
    let (_, maker, e) = >>=-eq-ok (validate_maker m q.maker_nonce) _ e in
    let message = build_quote_message (quote_of a q) in
    let (_, signed, e) =
      >>=-eq-ok
        (verify_ed25519_signature sysvar.ed25519_id sysvar.earlier (to_le_bytes 32 a.maker) message)
        _ e in
    let (white, nonce) = validate_maker-eq m q.maker_nonce maker in
    record {
      whitelisted = white;
      nonce = nonce;
      presented =
          (verify_ed25519_signature_iff sysvar.ed25519_id (to_le_bytes 32 a.maker) message
              sysvar.earlier).0
            signed;
      in_time = guard-le_ℤ _ rt.now q.deadline e;
    }

-- What has been filled of the quote at an address.
unfoldable pub filled_at : SettlerState → ℕ → ℕ
filled_at s k = elim (lookup k s.fills) [ none ↦ 0 | some fill ↦ fill.filled_amount ]

pub filled_at-some :
    (s : SettlerState) (k : ℕ) (fill : QuoteFill)
    → lookup k s.fills ≡ some fill
    → filled_at s k ≡ fill.filled_amount
unfolding filled_at
filled_at-some s k fill e = ground arith

update_fill-eq :
    (fill fill' : QuoteFill) (amount max_amount : ℕ)
    → update_fill fill amount max_amount ≡ ok fill'
    → (fill'.filled_amount ≡ fill.filled_amount + amount)
      × (fill'.filled_amount ≤ max_amount)
      × (fill.cancelled ≡ false)
      × (fill'.cancelled ≡ false)
unfolding update_fill
update_fill-eq fill fill' amount max_amount e = ground arith

module _ {L : Type 0} (sys : SystemProgram L) where
  load_or_init-filled :
      (s : SettlerState) (l l' : L) (a : ExecuteOrder) (bump : ℕ) (fill : QuoteFill)
      → load_or_init_quote_fill sys s l a bump ≡ ok (fill, l')
      → filled_at s a.quote_fill ≡ fill.filled_amount
  unfolding load_or_init_quote_fill filled_at
  load_or_init-filled s l l' a bump fill e = elim (Option-cases (lookup a.quote_fill s.fills)) [
    | inl missing ↦ ground arith
    | inr (f, found) ↦ ground arith
  ]

  pub fill_quote-eq :
      (rt : Runtime) (s s' : SettlerState) (l l' : L) (a : ExecuteOrder) (q : Order)
      → fill_quote sys rt s l a q ≡ ok (s', l')
      → (fill : QuoteFill) × (s' ≡ record s { fills = insert a.quote_fill fill s.fills })
        × (fill.filled_amount ≡ filled_at s a.quote_fill + q.amount)
        × (fill.filled_amount ≤ q.max_amount)
        × (fill.cancelled ≡ false)
  unfolding fill_quote
  fill_quote-eq rt s s' l l' a q e =
      let bump =
        (rt.find_program_address (fill_seeds a.maker q.maker_nonce q.quote_id) settler_id).1 in
      let ((old, l1), loaded, e) = >>=-eq-ok (load_or_init_quote_fill sys s l a bump) _ e in
      let (new, updated, e) = >>=-eq-ok (update_fill old q.amount q.max_amount) _ e in
      let (sum, le, _, live) = update_fill-eq old new q.amount q.max_amount updated in
      (
        record new { bump = bump },
        ap (λ p. p.0) (sym (ok_inj e)),
        omega (arith, load_or_init-filled s l l1 a bump old loaded),
        le,
        live,
      )
