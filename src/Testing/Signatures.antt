-- ===== src/Testing/Signatures.antt =====
-- The theorems on a quote's message and on its signature at concrete ones.
use options_protocol_solana.Common.{
  ℕ, pos, ◌≡◌, ◌↔◌, refl, List, [], ◌∷◌, ◌++◌, ok, arith, to_le_bytes,
}
use options_protocol_solana.Settler.Signature.{Quote, Instruction, verify_ed25519_signature}
use options_protocol_solana.Settler.Binding.{IsWellFormed, build_quote_message-inj}
use options_protocol_solana.Settler.Verification.{Presented, verify_ed25519_signature_iff}
use options_protocol_solana.Settler.Verification.Indices.{
  Offsets, PointsAt, elsewhere, instruction_bytes, verify_ed25519_signature-any_index,
}

abbrev quote : Quote
quote = record {
  otoken_mint = 22;
  bid_price = 5_000_000;
  deadline = pos 2000;
  quote_id = 1;
  max_amount = 100_000_000;
  maker_nonce = 0;
  premium_mint = 21;
}

quote-IsWellFormed : IsWellFormed quote
quote-IsWellFormed = record {
  otoken_mint = omega arith;
  premium_mint = omega arith;
  bid_price = omega arith;
  deadline = omega arith;
  quote_id = omega arith;
  max_amount = omega arith;
  maker_nonce = omega arith;
}

build_quote_message-inj_example : quote ≡ quote
build_quote_message-inj_example =
    build_quote_message-inj quote quote quote-IsWellFormed quote-IsWellFormed refl

abbrev maker_key : List ℕ
maker_key = to_le_bytes 32 41

-- An ed25519 instruction: its header, the key at 16, and a message of three bytes at 48.
abbrev signing : Instruction
signing = record {
  program_id = 99;
  bytes =
      1
      ∷ 0
      ∷ 0
      ∷ 0
      ∷ 0
      ∷ 0
      ∷ 16
      ∷ 0
      ∷ 0
      ∷ 0
      ∷ 48
      ∷ 0
      ∷ 3
      ∷ 0
      ∷ 0
      ∷ 0
      ∷ (maker_key ++ (1 ∷ 2 ∷ 3 ∷ []));
}

verify_runs :
    verify_ed25519_signature 99
      (record { program_id = 1; bytes = [] } ∷ signing ∷ [])
      maker_key
      (1 ∷ 2 ∷ 3 ∷ [])
    ≡ ok tt
unfolding verify_ed25519_signature to_le_bytes
verify_runs = refl

verify_ed25519_signature_iff_example :
    (verify_ed25519_signature 99
        (record { program_id = 1; bytes = [] } ∷ signing ∷ [])
        maker_key
        (1 ∷ 2 ∷ 3 ∷ [])
      ≡ ok tt)
    ↔ Presented 99 maker_key (1 ∷ 2 ∷ 3 ∷ []) (record { program_id = 1; bytes = [] } ∷ signing ∷ [])
verify_ed25519_signature_iff_example =
    verify_ed25519_signature_iff 99 maker_key (1 ∷ 2 ∷ 3 ∷ [])
      (record { program_id = 1; bytes = [] } ∷ signing ∷ [])

-- A call with the key and the message in its own data, which makes the ed25519 program verify what
-- the instruction of index 2 has.
abbrev offsets : Offsets
offsets = record {
  signature_offset = 0;
  signature_instruction_index = 65_535;
  public_key_offset = 16;
  public_key_instruction_index = 65_535;
  message_data_offset = 48;
  message_data_size = 3;
  message_instruction_index = 65_535;
}

abbrev elsewhere_signed : Instruction
elsewhere_signed = record {
  program_id = 99;
  bytes = instruction_bytes (elsewhere offsets 112 2 2 2) (maker_key ++ (1 ∷ 2 ∷ 3 ∷ []));
}

offsets-PointsAt : PointsAt offsets (maker_key ++ (1 ∷ 2 ∷ 3 ∷ [])) maker_key (1 ∷ 2 ∷ 3 ∷ [])
unfolding to_le_bytes
offsets-PointsAt = record {
  key_size = refl;
  key_place = 0;
  key_part = record { before = []; after = 1 ∷ 2 ∷ 3 ∷ []; parts = refl; place = refl };
  key_offset = refl;
  key_fits = omega arith;
  message_place = 32;
  message_part = record { before = maker_key; after = []; parts = refl; place = refl };
  message_offset = refl;
  message_fits = omega arith;
  size = refl;
  size_fits = omega arith;
}

verify_ed25519_signature-any_index_example :
    verify_ed25519_signature 99
      (record { program_id = 1; bytes = [] } ∷ elsewhere_signed ∷ [])
      maker_key
      (1 ∷ 2 ∷ 3 ∷ [])
    ≡ ok tt
verify_ed25519_signature-any_index_example =
    verify_ed25519_signature-any_index 99 offsets (maker_key ++ (1 ∷ 2 ∷ 3 ∷ [])) maker_key
      (1 ∷ 2 ∷ 3 ∷ []) 112 2 2 2 1 (record { program_id = 1; bytes = [] } ∷ elsewhere_signed ∷ [])
      offsets-PointsAt refl
