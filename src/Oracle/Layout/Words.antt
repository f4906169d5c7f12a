-- ===== src/Oracle/Layout/Words.antt =====
-- The words of the message of a Pyth account (programs/oracle/src/lib.rs).
use options_protocol_solana.Common.{
  ℕ, ◌+◌, ◌^◌, ◌≡◌, refl, ap, ◌∙◌, List, ◌++◌, arith, slice, from_le_bytes, to_le_bytes,
  length-to_le_bytes, as_word, as_word_lt, slice-append, read_word,
}
use options_protocol_solana.Oracle.Layout.{message_bytes, Fits}
use options_protocol_solana.Oracle.Pyth.{PythPriceData}

-- The words after the feed are those that were written.
module _ (d : PythPriceData) (rest : List ℕ) (h : Fits d) where
  abbrev pub price_word : ℕ
  price_word = as_word (2 ^ 63) d.price

  abbrev pub exponent_word : ℕ
  exponent_word = as_word (2 ^ 31) d.exponent

  abbrev pub time_word : ℕ
  time_word = as_word (2 ^ 63) d.publish_time

  abbrev after_exponent : List ℕ
  after_exponent = to_le_bytes 8 time_word ++ rest

  abbrev after_conf : List ℕ
  after_conf = to_le_bytes 4 exponent_word ++ after_exponent

  abbrev after_price : List ℕ
  after_price = to_le_bytes 8 d.conf ++ after_conf

  -- Past the price, the confidence and the exponent.
  past_price : (n m k : ℕ) → n ≡ 8 + m → slice n k (message_bytes d rest) ≡ slice m k after_price
  past_price n m k e =
      slice-append (to_le_bytes 8 price_word) after_price n m k
        (omega (arith, length-to_le_bytes 8 price_word))

  past_conf : (n m k : ℕ) → n ≡ 16 + m → slice n k (message_bytes d rest) ≡ slice m k after_conf
  past_conf n m k e =
      past_price n (8 + m) k (omega arith)
      ∙ slice-append (to_le_bytes 8 d.conf) after_conf (8 + m) m k
          (omega (arith, length-to_le_bytes 8 d.conf))

  past_exponent :
      (n m k : ℕ) → n ≡ 20 + m → slice n k (message_bytes d rest) ≡ slice m k after_exponent
  past_exponent n m k e =
      past_conf n (4 + m) k (omega arith)
      ∙ slice-append (to_le_bytes 4 exponent_word) after_exponent (4 + m) m k
          (omega (arith, length-to_le_bytes 4 exponent_word))

  pub words_read :
      (from_le_bytes (slice 0 8 (message_bytes d rest)) ≡ price_word)
      × (from_le_bytes (slice 8 8 (message_bytes d rest)) ≡ d.conf)
      × (from_le_bytes (slice 16 4 (message_bytes d rest)) ≡ exponent_word)
      × (from_le_bytes (slice 20 8 (message_bytes d rest)) ≡ time_word)
  words_read = (
    read_word 8 price_word after_price (as_word_lt (2 ^ 63) d.price h.price),
    ap from_le_bytes (past_price 8 0 8 refl) ∙ read_word 8 d.conf after_conf h.conf,
    ap from_le_bytes (past_conf 16 0 4 refl)
        ∙ read_word 4 exponent_word after_exponent (as_word_lt (2 ^ 31) d.exponent h.exponent),
    ap from_le_bytes (past_exponent 20 0 8 refl)
        ∙ read_word 8 time_word rest (as_word_lt (2 ^ 63) d.publish_time h.publish_time),
  )
