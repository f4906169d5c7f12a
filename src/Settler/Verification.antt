-- ===== src/Settler/Verification.antt =====
-- When programs/batch_settler/src/lib.rs takes a quote for signed.
pub mod Presented
pub mod Indices
use options_protocol_solana.Common.{
  ℕ, zero, suc, ◌≡◌, refl, ap, ◌∙◌, ◌↔◌, inl, inr, true, false, Bool, ◌||◌, ◌&&◌, ◌==◌, Bool-cases,
  ==_iff, List, [], ◌∷◌, Pubkey, some, get_elem?, ok, err, Result, some_inj, if◌then◌else◌,
}
use options_protocol_solana.Settler.Signature.{
  Instruction, scan, verify_ed25519_signature, ed25519_instruction_matches, unwrap_or_false,
}
use options_protocol_solana.Settler.Verification.Presented.{
  IsPresented, ed25519_instruction_matches_iff,
}

-- An instruction of the list that calls the ed25519 program, with data that have this key and this
-- message where they say.
abbrev pub Presented : Pubkey → List ℕ → List ℕ → List Instruction → Type 0
Presented ed25519_id pubkey message ixs =
    (i : ℕ) × (ix : Instruction) × (get_elem? ixs i ≡ some ix)
    × (ix.program_id ≡ ed25519_id)
    × IsPresented ix.bytes pubkey message

unwrap_true : (r : Result Bool) → unwrap_or_false r ≡ true → r ≡ ok true
unwrap_true (ok b) e = ap ok e
unwrap_true (err f) e = cc

both : (a b : Bool) → (a && b) ≡ true → (a ≡ true) × (b ≡ true)
both true b e = (refl, e)
both false b e = cc

-- A test that stops the loop, and one that lets it go on.
stop : (rest : Result (Unit {0})) (b : Bool) → b ≡ true → (if b then ok tt else rest) ≡ ok tt
stop rest true e = refl
stop rest false e = cc

go_on : {rest : Result (Unit {0})} (b : Bool) → rest ≡ ok tt → (if b then ok tt else rest) ≡ ok tt
go_on true e = refl
go_on false e = e

gone_on :
    {rest : Result (Unit {0})} (b : Bool)
    → b ≡ false
    → (if b then ok tt else rest) ≡ ok tt
    → rest ≡ ok tt
gone_on true e h = cc
gone_on false e h = h

module _ (ed25519_id : Pubkey) (pubkey message : List ℕ) where
  -- The test of the loop.
  abbrev hits : Instruction → Bool
  hits ix =
      (ix.program_id == ed25519_id)
      && unwrap_or_false (ed25519_instruction_matches ix.bytes pubkey message)

  scan_ok :
      (saw : Bool) (ixs : List Instruction)
      → scan ed25519_id pubkey message saw ixs ≡ ok tt
      → Presented ed25519_id pubkey message ixs
  unfolding scan
  scan_ok saw [] e = absurd cc
  scan_ok saw (ix ∷ ixs) e = elim (Bool-cases (hits ix)) [
    | inl hit ↦
        let (calls, signs) = both _ _ hit in
        (
          zero,
          ix,
          refl,
          (==_iff ix.program_id ed25519_id).0 calls,
          (ed25519_instruction_matches_iff ix.bytes pubkey message).0 (unwrap_true _ signs),
        )
    | inr miss ↦
        let (i, x, there, calls, signs) =
          scan_ok (saw || (ix.program_id == ed25519_id)) ixs (gone_on (hits ix) miss e) in
        (suc i, x, there, calls, signs)
  ]

  scan_finds :
      (saw : Bool) (ixs : List Instruction) (i : ℕ) (x : Instruction)
      → get_elem? ixs i ≡ some x
      → hits x ≡ true
      → scan ed25519_id pubkey message saw ixs ≡ ok tt
  unfolding scan
  scan_finds saw [] i x there hit = absurd cc
  scan_finds saw (ix ∷ ixs) zero x there hit = stop _ (hits ix) (ap hits (some_inj there) ∙ hit)
  scan_finds saw (ix ∷ ixs) (suc i) x there hit =
      go_on (hits ix) (scan_finds (saw || (ix.program_id == ed25519_id)) ixs i x there hit)

  -- The verification succeeds exactly when one of the earlier instructions is a call of the ed25519
  -- program whose data count one signature and have this key and this message at the offsets that they
  -- give. It says nothing of the data's instruction indices.
  pub verify_ed25519_signature_iff :
      (ixs : List Instruction)
      → (verify_ed25519_signature ed25519_id ixs pubkey message ≡ ok tt)
        ↔ Presented ed25519_id pubkey message ixs
  unfolding verify_ed25519_signature
  verify_ed25519_signature_iff ixs = (
    (λ e. scan_ok false ixs e),
    (λ (i, x, there, calls, presented). scan_finds false ixs i x there (
        met _ _ ((==_iff x.program_id ed25519_id).1 calls) (
          ap unwrap_or_false
            ((ed25519_instruction_matches_iff x.bytes pubkey message).1 presented)))),
  )
    where
      met : (a b : Bool) → a ≡ true → b ≡ true → (a && b) ≡ true
      met true b e h = h
      met false b e h = cc
