-- ===== src/Oracle/Layout/Parsed.antt =====
-- What `parse_pyth_price_update` of programs/oracle/src/lib.rs reads out of a laid out account.
use options_protocol_solana.Common.{
  ℕ, pos, ◌+◌, ◌^◌, ◌<ℤ◌, ◌≡◌, ◌↔◌, refl, sym, subst, ap, ◌∙◌, true, List, take, arith, slice,
  from_le_bytes, as_signed, as_signed-as_word, same_bytes, eq_of_same_bytes, same_bytes_refl,
  take-append, Pubkey, ok,
}
use options_protocol_solana.Oracle.Layout.{PriceUpdate, message_bytes, account_bytes, IsWellFormed}
use options_protocol_solana.Oracle.Pyth.{
  AccountInfo, PythPriceData, price_update_v2_discriminator, message_start, parse_pyth_price_update,
}
use options_protocol_solana.Oracle.Layout.Header.{start_lem, past_header, past_feed, long_enough}
use options_protocol_solana.Oracle.Layout.Words.{words_read}
use options_protocol_solana.Oracle.Layout.Accepted.{read_message, accepted, accepts}

tagged :
    (u : PriceUpdate) → same_bytes (take 8 (account_bytes u)) price_update_v2_discriminator ≡ true
unfolding account_bytes
tagged u = same_bytes_refl price_update_v2_discriminator

same_data :
    (d r : PythPriceData)
    → d.price ≡ r.price
    → d.conf ≡ r.conf
    → d.exponent ≡ r.exponent
    → d.publish_time ≡ r.publish_time
    → d ≡ r
same_data d r a b c e = cc

module _ (u : PriceUpdate) (h : IsWellFormed u) where
  feed_read : slice (message_start (account_bytes u)) 32 (account_bytes u) ≡ u.feed_id
  feed_read =
      past_header u h (message_start (account_bytes u)) 0 32 (omega (arith, start_lem u h))
      ∙ take-append u.feed_id (message_bytes u.message u.remaining) 32 h.feed_id

  -- The word that stands so many bytes after the feed.
  word_read :
      (n m w : ℕ)
      → n ≡ 32 + m
      → from_le_bytes (slice (message_start (account_bytes u) + n) w (account_bytes u))
        ≡ from_le_bytes (slice m w (message_bytes u.message u.remaining))
  word_read n m w e =
      ap from_le_bytes
        (past_feed u h (message_start (account_bytes u) + n) m w (omega (arith, start_lem u h)))

  message_read : read_message (message_start (account_bytes u)) (account_bytes u) ≡ u.message
  message_read =
      let (price, conf, exponent, time) = words_read u.message u.remaining h.message in
      same_data (read_message (message_start (account_bytes u)) (account_bytes u)) u.message
        (ap (as_signed (2 ^ 63)) (word_read 32 0 8 refl ∙ price)
          ∙ as_signed-as_word (2 ^ 63) u.message.price h.message.price)
        (word_read 40 8 8 refl ∙ conf)
        (ap (as_signed (2 ^ 31)) (word_read 48 16 4 refl ∙ exponent)
          ∙ as_signed-as_word (2 ^ 31) u.message.exponent h.message.exponent)
        (ap (as_signed (2 ^ 63)) (word_read 52 20 8 refl ∙ time)
          ∙ as_signed-as_word (2 ^ 63) u.message.publish_time h.message.publish_time)

-- An account that holds a well-formed update in the documented layout is parsed exactly when the
-- expected program owns it, the update is of the expected feed and its price is positive, and the
-- result is the message of the update.
pub parse_pyth_price_update-account_bytes_iff :
    (u : PriceUpdate) (owner expected_owner : Pubkey) (expected_feed_id : List ℕ)
    (d : PythPriceData)
    → IsWellFormed u
    → (parse_pyth_price_update
          (record { owner = owner; bytes = account_bytes u })
          expected_owner
          expected_feed_id
        ≡ ok d)
      ↔ ((owner ≡ expected_owner)
          × (u.feed_id ≡ expected_feed_id)
          × (pos 0 <ℤ u.message.price)
          × (d ≡ u.message))
parse_pyth_price_update-account_bytes_iff u owner expected feed d h =
    let a : AccountInfo = record { owner = owner; bytes = account_bytes u } in
    let (long, fits) = long_enough u h in
    (
      (λ e.
          let (owned, fed, positive, read) = accepted a expected feed d e in
          let same = read ∙ message_read u h in
          (
            owned,
            sym (feed_read u h)
                ∙ eq_of_same_bytes (slice (message_start a.bytes) 32 a.bytes) feed fed,
            subst (λ x. pos 0 <ℤ x.price) same positive,
            same,
          )),
      (λ (owned, fed, positive, same).
          accepts a expected feed d owned long (tagged u) fits
            (ap (λ f. same_bytes f feed) (feed_read u h ∙ fed) ∙ same_bytes_refl feed)
            (subst (λ x. pos 0 <ℤ x.price) (sym same) positive) (same ∙ sym (message_read u h))),
    )
