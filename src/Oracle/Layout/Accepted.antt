-- ===== src/Oracle/Layout/Accepted.antt =====
-- What `parse_pyth_price_update` of programs/oracle/src/lib.rs accepts, whatever the bytes.
use options_protocol_solana.Common.{
  ℕ, ℤ, pos, ◌+◌, ◌^◌, ◌≤◌, ◌<ℤ◌, ◌≡◌, ◌==◌, refl, sym, subst, Bool, true, leb, ltb_ℤ, List, length,
  take, arith, slice, from_le_bytes, as_signed, same_bytes, Pubkey, ok, ◌>>◌, ok_inj, OracleError,
}
use options_protocol_solana.Oracle.State.{require}
use options_protocol_solana.Oracle.Pyth.{
  AccountInfo, PythPriceData, price_update_v2_discriminator, message_start, parse_pyth_price_update,
}

-- The words of a message at this place.
abbrev pub read_message : ℕ → List ℕ → PythPriceData
read_message start bytes = record {
  price = as_signed (2 ^ 63) (from_le_bytes (slice (start + 32) 8 bytes));
  conf = from_le_bytes (slice (start + 40) 8 bytes);
  exponent = as_signed (2 ^ 31) (from_le_bytes (slice (start + 48) 4 bytes));
  publish_time = as_signed (2 ^ 63) (from_le_bytes (slice (start + 52) 8 bytes));
}

-- A chain of tests that succeeds has passed each.
tests_pass :
    (b c e f g h : Bool) (r d : PythPriceData)
    → (do
      require b OracleError.invalid_pyth_account
      require c OracleError.invalid_pyth_account
      require e OracleError.invalid_pyth_account
      require f OracleError.invalid_pyth_account
      require g OracleError.feed_id_mismatch
      require h OracleError.invalid_price
      ok r)
      ≡ ok d
    → (b ≡ true) × (g ≡ true) × (h ≡ true) × (r ≡ d)
tests_pass true true true true true true r d run = (refl, refl, refl, ok_inj run)
tests_pass b c e f g h r d run = absurd cc

same : (m n : ℕ) → (m == n) ≡ true → m ≡ n
same m n e = ground arith

below : (y z : ℤ) → ltb_ℤ y z ≡ true → y <ℤ z
below y z e = ground arith

-- What an account that is parsed has passed, and what passes.
module _ (a : AccountInfo) (owner : Pubkey) (feed : List ℕ) (d : PythPriceData) where
  pub accepted :
      parse_pyth_price_update a owner feed ≡ ok d
      → (a.owner ≡ owner)
        × (same_bytes (slice (message_start a.bytes) 32 a.bytes) feed ≡ true)
        × (pos 0 <ℤ d.price)
        × (d ≡ read_message (message_start a.bytes) a.bytes)
  unfolding parse_pyth_price_update
  accepted e =
      let start = message_start a.bytes in
      let r = read_message start a.bytes in
      let (owned, fed, positive, read) =
        tests_pass (a.owner == owner) (leb 101 (length a.bytes))
          (same_bytes (take 8 a.bytes) price_update_v2_discriminator)
          (leb (start + 60) (length a.bytes)) (same_bytes (slice start 32 a.bytes) feed)
          (ltb_ℤ (pos 0) r.price) r d e in
      (
        same (a.owner) owner owned,
        fed,
        subst (λ x. pos 0 <ℤ x.price) read (below (pos 0) r.price positive),
        sym read,
      )

  pub accepts :
      a.owner ≡ owner
      → 101 ≤ length a.bytes
      → same_bytes (take 8 a.bytes) price_update_v2_discriminator ≡ true
      → message_start a.bytes + 60 ≤ length a.bytes
      → same_bytes (slice (message_start a.bytes) 32 a.bytes) feed ≡ true
      → pos 0 <ℤ d.price
      → d ≡ read_message (message_start a.bytes) a.bytes
      → parse_pyth_price_update a owner feed ≡ ok d
  unfolding parse_pyth_price_update
  accepts owned long tagged fits fed positive read = ground arith
