-- ===== src/Testing/Layout.antt =====
-- The layout of a Pyth account at a concrete update.
use options_protocol_solana.Common.{
  pos, negsuc, ◌≡◌, ◌↔◌, ◌<ℤ◌, refl, [], ◌∷◌, ok, arith, to_le_bytes,
}
use options_protocol_solana.Oracle.Pyth.{parse_pyth_price_update}
use options_protocol_solana.Oracle.Layout.{full, PriceUpdate, account_bytes, IsWellFormed}
use options_protocol_solana.Oracle.Layout.Parsed.{parse_pyth_price_update-account_bytes_iff}
use options_protocol_solana.Testing.Oracle.{config, feed_id, update}

-- A fully verified update, with 32 bytes of an authority and the 16 bytes that follow the message.
abbrev published : PriceUpdate
published = record {
  write_authority =
      0 ∷ 0 ∷ 0 ∷ 0 ∷ 0 ∷ 0 ∷ 0 ∷ 0 ∷ 0 ∷ 0 ∷ 0 ∷ 0 ∷ 0 ∷ 0 ∷ 0 ∷ 0 ∷ 0 ∷ 0 ∷ 0 ∷ 0 ∷ 0 ∷ 0 ∷ 0 ∷ 0
      ∷ 0 ∷ 0 ∷ 0 ∷ 0 ∷ 0 ∷ 0 ∷ 0 ∷ 0 ∷ [];
  verification_level = full;
  feed_id = feed_id;
  message = record {
    price = pos 16_297_000;
    conf = 1000;
    exponent = negsuc 4;
    publish_time = pos 990;
  };
  remaining = 0 ∷ 0 ∷ 0 ∷ 0 ∷ 0 ∷ 0 ∷ 0 ∷ 0 ∷ 0 ∷ 0 ∷ 0 ∷ 0 ∷ 0 ∷ 0 ∷ 0 ∷ 0 ∷ [];
}

published_lem : account_bytes published ≡ update.bytes
unfolding account_bytes to_le_bytes
published_lem = refl

published-IsWellFormed : IsWellFormed published
published-IsWellFormed = record {
  write_authority = refl;
  feed_id = refl;
  message = record {
    price = omega arith;
    conf = omega arith;
    exponent = omega arith;
    publish_time = omega arith;
  };
}

parse_pyth_price_update-account_bytes_iff_example :
    (parse_pyth_price_update
        (record { owner = update.owner; bytes = account_bytes published })
        config.pyth_receiver_program
        feed_id
      ≡ ok published.message)
    ↔ ((update.owner ≡ config.pyth_receiver_program)
        × (feed_id ≡ feed_id)
        × (pos 0 <ℤ pos 16_297_000)
        × (published.message ≡ published.message))
parse_pyth_price_update-account_bytes_iff_example =
    parse_pyth_price_update-account_bytes_iff published update.owner config.pyth_receiver_program
      feed_id published.message published-IsWellFormed
