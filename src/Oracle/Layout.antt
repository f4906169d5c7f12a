-- ===== src/Oracle/Layout.antt =====
-- The layout of a Pyth account, as the comment of `parse_pyth_price_update` describes it
-- (programs/oracle/src/lib.rs).
mod Header
mod Words
mod Accepted
pub mod Parsed
use options_protocol_solana.Common.{
  ℕ, ℤ, pos, negsuc, pos_part, neg_part, ◌+◌, ◌-◌, ◌*◌, ◌^◌, ◌<◌, ◌≤◌, ◌<ℤ◌, ◌≡◌, ◌↔◌, ◌==◌,
  if◌then◌else◌, refl, sym, subst, ap, ◌∙◌, Bool, true, false, leb, ltb_ℤ, List, [], ◌∷◌, ◌++◌,
  length, length-append, take, drop, arith, slice, from_le_bytes, to_le_bytes, from-to_le_bytes,
  length-to_le_bytes, as_word, as_signed, as_word_lt, as_signed-as_word, same_bytes,
  eq_of_same_bytes, same_bytes_refl, slice-append, take-append, read_word, Pubkey, Result, ok, ◌>>◌,
  ok_inj, OracleError,
}
use options_protocol_solana.Oracle.Pyth.{
  AccountInfo, PythPriceData, price_update_v2_discriminator, message_start, parse_pyth_price_update,
}

-- How an update was verified, in the encoding that borsh gives it: `Partial` has a tag and the number
-- of signatures, `Full` a tag.
pub data VerificationLevel : Type 0 where
  partial : ℕ → VerificationLevel
  full : VerificationLevel

pub record PriceUpdate : Type 0 where
  pub write_authority : List ℕ
  pub verification_level : VerificationLevel
  pub feed_id : List ℕ
  pub message : PythPriceData
  pub remaining : List ℕ

abbrev pub level_bytes : VerificationLevel → List ℕ
level_bytes (partial num_signatures) = 0 ∷ num_signatures ∷ []
level_bytes full = 1 ∷ []

abbrev pub message_bytes : PythPriceData → List ℕ → List ℕ
message_bytes d remaining =
    to_le_bytes 8 (as_word (2 ^ 63) d.price)
    ++ (to_le_bytes 8 d.conf
        ++ (to_le_bytes 4 (as_word (2 ^ 31) d.exponent)
            ++ (to_le_bytes 8 (as_word (2 ^ 63) d.publish_time) ++ remaining)))

unfoldable pub account_bytes : PriceUpdate → List ℕ
account_bytes u =
    price_update_v2_discriminator
    ++ (u.write_authority
        ++ (level_bytes u.verification_level ++ (u.feed_id ++ message_bytes u.message u.remaining)))

-- The numbers fit in the words of an i64, a u64 and an i32.
pub record Fits (d : PythPriceData) : Type 0 where
  pub price : pos_part d.price + neg_part d.price < 2 ^ 63
  pub conf : d.conf < 256 ^ 8
  pub exponent : pos_part d.exponent + neg_part d.exponent < 2 ^ 31
  pub publish_time : pos_part d.publish_time + neg_part d.publish_time < 2 ^ 63

-- So do those of the message, and the keys have 32 bytes.
pub record IsWellFormed (u : PriceUpdate) : Type 0 where
  pub write_authority : length u.write_authority ≡ 32
  pub feed_id : length u.feed_id ≡ 32
  pub message : Fits u.message
