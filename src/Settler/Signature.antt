-- ===== src/Settler/Signature.antt =====
-- The signed message of a quote, and the search for its signature among the instructions of the
-- transaction, of programs/batch_settler/src/lib.rs.
use options_protocol_solana.Common.{
  ℕ, ℤ, ◌+◌, ◌^◌, Bool, false, ◌&&◌, ◌||◌, ◌==◌, leb, if◌then◌else◌, List, [], ◌∷◌, ◌++◌, length,
  Pubkey, Result, ok, err, ◌>>◌, settler, SettlerError, same_bytes, slice, from_le_bytes,
  to_le_bytes, as_word,
}
use options_protocol_solana.Settler.State.{require}

-- The terms that the maker signs.
pub record Quote : Type 0 where
  pub otoken_mint : Pubkey
  pub bid_price : ℕ
  pub deadline : ℤ
  pub quote_id : ℕ
  pub max_amount : ℕ
  pub maker_nonce : ℕ
  pub premium_mint : Pubkey

unfoldable pub build_quote_message : Quote → List ℕ
unfolding to_le_bytes
build_quote_message q =
    to_le_bytes 32 q.otoken_mint
    ++ (to_le_bytes 32 q.premium_mint
        ++ (to_le_bytes 8 q.bid_price
            ++ (to_le_bytes 8 (as_word (2 ^ 63) q.deadline)
                ++ (to_le_bytes 8 q.quote_id
                    ++ (to_le_bytes 8 q.max_amount ++ to_le_bytes 8 q.maker_nonce)))))

-- An instruction of the transaction: the program that it calls, and its data.
pub record Instruction : Type 0 where
  pub program_id : Pubkey
  pub bytes : List ℕ

unfoldable pub ed25519_instruction_matches : List ℕ → List ℕ → List ℕ → Result Bool
unfolding same_bytes from_le_bytes
ed25519_instruction_matches bytes pubkey message = do
  require (leb 16 (length bytes)) SettlerError.invalid_ed25519_data
  require (from_le_bytes (slice 0 1 bytes) == 1) SettlerError.invalid_ed25519_data
  let pk_off = from_le_bytes (slice 6 2 bytes)
  let msg_off = from_le_bytes (slice 10 2 bytes)
  let msg_sz = from_le_bytes (slice 12 2 bytes)
  require (leb (pk_off + 32) (length bytes)) SettlerError.invalid_ed25519_data
  require (leb (msg_off + msg_sz) (length bytes)) SettlerError.invalid_ed25519_data
  ok (
      same_bytes (slice pk_off 32 bytes) pubkey
      && (msg_sz == length message)
      && same_bytes (slice msg_off msg_sz bytes) message)

-- `unwrap_or(false)`
abbrev pub unwrap_or_false : Result Bool → Bool
unwrap_or_false (ok b) = b
unwrap_or_false (err _) = false

-- The loop over the instructions before the current one, which the sysvar lists; `saw_ed25519` tells
-- whether one of the ed25519 program has been met. The sysvar loads them all.
unfoldable pub scan : Pubkey → List ℕ → List ℕ → Bool → List Instruction → Result (Unit {0})
unfolding ed25519_instruction_matches
scan ed25519_id pubkey message saw_ed25519 [] = err (
    settler (
      if saw_ed25519
      then SettlerError.invalid_signature
      else SettlerError.invalid_ed25519_instruction))
scan ed25519_id pubkey message saw_ed25519 (ix ∷ ixs) =
    let found =
      (ix.program_id == ed25519_id)
      && unwrap_or_false (ed25519_instruction_matches ix.bytes pubkey message) in
    let rest = scan ed25519_id pubkey message (saw_ed25519 || (ix.program_id == ed25519_id)) ixs in
    if found then ok tt else rest

unfoldable pub verify_ed25519_signature :
    Pubkey → List Instruction → List ℕ → List ℕ → Result (Unit {0})
unfolding scan
verify_ed25519_signature ed25519_id ixs pubkey message = scan ed25519_id pubkey message false ixs
