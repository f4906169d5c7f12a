-- ===== src/Oracle/Pyth.antt =====
-- `parse_pyth_price_update` of programs/oracle/src/lib.rs: a price message out of the bytes of an
-- account.
use options_protocol_solana.Common.{
  ℕ, ℤ, pos, ◌+◌, ◌^◌, ◌==◌, leb, ltb_ℤ, if◌then◌else◌, List, [], ◌∷◌, length, take, same_bytes,
  from_le_bytes, as_signed, slice, Pubkey, Result, ok, ◌>>◌, OracleError,
}
use options_protocol_solana.Oracle.State.{require}

-- The account of the Pyth receiver: the program that owns it, and its data.
pub record AccountInfo : Type 0 where
  pub owner : Pubkey
  pub bytes : List ℕ

pub record PythPriceData : Type 0 where
  pub price : ℤ
  pub conf : ℕ
  pub exponent : ℤ
  pub publish_time : ℤ

abbrev pub price_update_v2_discriminator : List ℕ
price_update_v2_discriminator = 0x34 ∷ 0x2a ∷ 0x89 ∷ 0x6f ∷ 0xc1 ∷ 0xd0 ∷ 0x82 ∷ 0x04 ∷ []

-- Where the price message starts: after the discriminator, the write authority and the
-- verification level, whose first variant has a byte of its own.
unfoldable pub message_start : List ℕ → ℕ
unfolding from_le_bytes
message_start bytes = if from_le_bytes (slice 40 1 bytes) == 0 then 42 else 41

unfoldable pub parse_pyth_price_update : AccountInfo → Pubkey → List ℕ → Result PythPriceData
unfolding same_bytes from_le_bytes message_start
parse_pyth_price_update account expected_owner expected_feed_id = do
  require (account.owner == expected_owner) OracleError.invalid_pyth_account
  require (leb 101 (length account.bytes)) OracleError.invalid_pyth_account
  require (same_bytes (take 8 account.bytes) price_update_v2_discriminator)
      OracleError.invalid_pyth_account
  let start = message_start account.bytes
  require (leb (start + 60) (length account.bytes)) OracleError.invalid_pyth_account
  require (same_bytes (slice start 32 account.bytes) expected_feed_id) OracleError.feed_id_mismatch
  let price = as_signed (2 ^ 63) (from_le_bytes (slice (start + 32) 8 account.bytes))
  let conf = from_le_bytes (slice (start + 40) 8 account.bytes)
  let exponent = as_signed (2 ^ 31) (from_le_bytes (slice (start + 48) 4 account.bytes))
  let publish_time = as_signed (2 ^ 63) (from_le_bytes (slice (start + 52) 8 account.bytes))
  require (ltb_ℤ (pos 0) price) OracleError.invalid_price
  ok (record { price = price; conf = conf; exponent = exponent; publish_time = publish_time })
