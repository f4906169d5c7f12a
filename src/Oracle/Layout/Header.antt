-- ===== src/Oracle/Layout/Header.antt =====
-- Where the message of a Pyth account starts (programs/oracle/src/lib.rs).
use options_protocol_solana.Common.{
  ℕ, ◌+◌, ◌-◌, ◌^◌, ◌≤◌, ◌≡◌, ◌==◌, if◌then◌else◌, refl, ap, ◌∙◌, List, ◌++◌, length, length-append,
  take, arith, slice, from_le_bytes, to_le_bytes, length-to_le_bytes, as_word, slice-append,
}
use options_protocol_solana.Oracle.Layout.{
  VerificationLevel, partial, full, PriceUpdate, level_bytes, message_bytes, account_bytes,
  IsWellFormed,
}
use options_protocol_solana.Oracle.Pyth.{
  PythPriceData, price_update_v2_discriminator, message_start,
}

-- Where the message starts, by the tag of the level.
tag_lem :
    (l : VerificationLevel) (xs : List ℕ)
    → (if from_le_bytes (take 1 (level_bytes l ++ xs)) == 0 then 42 else 41)
      ≡ 40 + length (level_bytes l)
unfolding from_le_bytes
tag_lem (partial n) xs = refl
tag_lem full xs = refl

level_pos : (l : VerificationLevel) → 1 ≤ length (level_bytes l)
level_pos (partial n) = omega arith
level_pos full = omega arith

length_message : (d : PythPriceData) (rest : List ℕ) → 28 ≤ length (message_bytes d rest)
length_message d rest =
    let times = to_le_bytes 8 (as_word (2 ^ 63) d.publish_time) ++ rest in
    let exponents = to_le_bytes 4 (as_word (2 ^ 31) d.exponent) ++ times in
    omega (
      arith,
      length-append (to_le_bytes 8 (as_word (2 ^ 63) d.price)) (to_le_bytes 8 d.conf ++ exponents),
      length-append (to_le_bytes 8 d.conf) exponents,
      length-append (to_le_bytes 4 (as_word (2 ^ 31) d.exponent)) times,
      length-append (to_le_bytes 8 (as_word (2 ^ 63) d.publish_time)) rest,
      length-to_le_bytes 8 (as_word (2 ^ 63) d.price),
      length-to_le_bytes 8 d.conf,
      length-to_le_bytes 4 (as_word (2 ^ 31) d.exponent),
      length-to_le_bytes 8 (as_word (2 ^ 63) d.publish_time),
    )

module _ (u : PriceUpdate) (h : IsWellFormed u) where
  abbrev pub feed_bytes : List ℕ
  feed_bytes = u.feed_id ++ message_bytes u.message u.remaining

  abbrev pub header_length : ℕ
  header_length = 40 + length (level_bytes u.verification_level)

  pub start_lem : message_start (account_bytes u) ≡ header_length
  unfolding account_bytes message_start
  start_lem =
      ap (λ t. if from_le_bytes t == 0 then 42 else 41)
        (slice-append price_update_v2_discriminator
            (u.write_authority ++ (level_bytes u.verification_level ++ feed_bytes)) 40 32 1 refl
          ∙ slice-append u.write_authority (level_bytes u.verification_level ++ feed_bytes) 32 0 1
              (omega (arith, h.write_authority)))
      ∙ tag_lem u.verification_level feed_bytes

  -- The message starts after the header.
  pub past_header :
      (n m k : ℕ) → n ≡ header_length + m → slice n k (account_bytes u) ≡ slice m k feed_bytes
  unfolding account_bytes
  past_header n m k e =
      slice-append price_update_v2_discriminator
        (u.write_authority ++ (level_bytes u.verification_level ++ feed_bytes)) n (n - 8) k
        (omega arith)
      ∙ slice-append u.write_authority (level_bytes u.verification_level ++ feed_bytes) (n - 8)
          (n - 40) k (omega (arith, h.write_authority))
      ∙ slice-append (level_bytes u.verification_level) feed_bytes (n - 40) m k (omega arith)

  -- And the words after the feed.
  pub past_feed :
      (n m k : ℕ)
      → n ≡ header_length + 32 + m
      → slice n k (account_bytes u) ≡ slice m k (message_bytes u.message u.remaining)
  past_feed n m k e =
      past_header n (32 + m) k (omega arith)
      ∙ slice-append u.feed_id _ (32 + m) m k (omega (arith, h.feed_id))

  length_le : header_length + 60 ≤ length (account_bytes u)
  unfolding account_bytes
  length_le = omega (
    arith,
    h.write_authority,
    h.feed_id,
    length-append u.write_authority (level_bytes u.verification_level ++ feed_bytes),
    length-append (level_bytes u.verification_level) feed_bytes,
    length-append u.feed_id (message_bytes u.message u.remaining),
    length_message u.message u.remaining,
  )

  -- The account is long enough for both tests of its length.
  pub long_enough :
      (101 ≤ length (account_bytes u))
      × (message_start (account_bytes u) + 60 ≤ length (account_bytes u))
  long_enough = (
    omega (arith, length_le, level_pos u.verification_level),
    omega (arith, length_le, start_lem),
  )
