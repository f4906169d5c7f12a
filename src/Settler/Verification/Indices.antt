-- ===== src/Settler/Verification/Indices.antt =====
-- What the test of programs/batch_settler/src/lib.rs does not look at in a call of the ed25519 program:
-- the signature, and the indices that say which instruction holds the signature, the key and the
-- message.
use options_protocol_solana.Common.{
  ℕ, ◌+◌, ◌/◌, ◌%◌, ◌^◌, ◌<◌, ◌≡◌, refl, List, [], ◌∷◌, ◌++◌, length, Pubkey, ok, arith, IsPartAt,
  IsPartAt-append, take, subst, sym, some, get_elem?,
}
use options_protocol_solana.Settler.Signature.{Instruction, verify_ed25519_signature}
use options_protocol_solana.Settler.Verification.{verify_ed25519_signature_iff}
use options_protocol_solana.Settler.Verification.Presented.{IsPresented}

-- The words of the first 16 bytes, after the count of one signature and a byte of padding.
pub record Offsets : Type 0 where
  pub signature_offset : ℕ
  pub signature_instruction_index : ℕ
  pub public_key_offset : ℕ
  pub public_key_instruction_index : ℕ
  pub message_data_offset : ℕ
  pub message_data_size : ℕ
  pub message_instruction_index : ℕ

abbrev two_bytes : ℕ → List ℕ → List ℕ
two_bytes n rest = (n % 256) ∷ (n / 256 % 256) ∷ rest

abbrev header : Offsets → List ℕ
header o =
    1
    ∷ 0
    ∷ two_bytes o.signature_offset (
        two_bytes o.signature_instruction_index (
          two_bytes o.public_key_offset (
            two_bytes o.public_key_instruction_index (
              two_bytes o.message_data_offset
                (two_bytes o.message_data_size (two_bytes o.message_instruction_index []))))))

unfoldable pub instruction_bytes : Offsets → List ℕ → List ℕ
instruction_bytes o rest = header o ++ rest

-- The offsets of the key and of the message, as words, tell where these are in what follows the 16
-- bytes of the instruction's own data.
pub record PointsAt (o : Offsets) (rest pubkey message : List ℕ) : Type 0 where
  pub key_size : length pubkey ≡ 32
  pub key_place : ℕ
  pub key_part : IsPartAt rest key_place pubkey
  pub key_offset : o.public_key_offset ≡ 16 + key_place
  pub key_fits : o.public_key_offset < 2 ^ 16
  pub message_place : ℕ
  pub message_part : IsPartAt rest message_place message
  pub message_offset : o.message_data_offset ≡ 16 + message_place
  pub message_fits : o.message_data_offset < 2 ^ 16
  pub size : o.message_data_size ≡ length message
  pub size_fits : o.message_data_size < 2 ^ 16

-- Other values of the words that the test does not read.
abbrev pub elsewhere : Offsets → ℕ → ℕ → ℕ → ℕ → Offsets
elsewhere o signature signature_index key_index message_index = record o {
  signature_offset = signature;
  signature_instruction_index = signature_index;
  public_key_instruction_index = key_index;
  message_instruction_index = message_index;
}

points-IsPresented :
    (o : Offsets) (rest pubkey message : List ℕ)
    → PointsAt o rest pubkey message
    → IsPresented (instruction_bytes o rest) pubkey message
unfolding instruction_bytes
points-IsPresented o rest pubkey message p = record {
  header = omega arith;
  count = record { before = []; after = _; parts = refl; place = refl };
  key_size = p.key_size;
  key_offset = o.public_key_offset;
  key_word = record {
    low = _;
    high = _;
    word = record { before = take 6 (header o); after = _; parts = refl; place = refl };
    value = omega (arith, p.key_fits);
  };
  key_place =
      subst (λ n. IsPartAt (header o ++ rest) n pubkey) (sym p.key_offset)
        (IsPartAt-append (header o) rest p.key_place pubkey p.key_part);
  message_offset = o.message_data_offset;
  message_word = record {
    low = _;
    high = _;
    word = record { before = take 10 (header o); after = _; parts = refl; place = refl };
    value = omega (arith, p.message_fits);
  };
  size_word = record {
    low = _;
    high = _;
    word = record { before = take 12 (header o); after = _; parts = refl; place = refl };
    value = omega (arith, p.size, p.size_fits);
  };
  message_place =
      subst (λ n. IsPartAt (header o ++ rest) n message) (sym p.message_offset)
        (IsPartAt-append (header o) rest p.message_place message p.message_part);
}

-- A call of the ed25519 program among the earlier instructions is accepted if its offsets, as words,
-- tell where the key and the message are in its own data, past the words, whatever the signature's
-- offset and the three instruction indices are: also where these name another instruction than this.
pub verify_ed25519_signature-any_index :
    (ed25519_id : Pubkey) (o : Offsets) (rest pubkey message : List ℕ)
    (signature signature_index key_index message_index i : ℕ) (ixs : List Instruction)
    → PointsAt o rest pubkey message
    → get_elem? ixs i
      ≡ some (record {
        program_id = ed25519_id;
        bytes =
            instruction_bytes (elsewhere o signature signature_index key_index message_index) rest;
      })
    → verify_ed25519_signature ed25519_id ixs pubkey message ≡ ok tt
verify_ed25519_signature-any_index ed25519_id o rest pubkey message s k m n i ixs p there =
    (verify_ed25519_signature_iff ed25519_id pubkey message ixs).1 (
      i,
      record { program_id = ed25519_id; bytes = instruction_bytes (elsewhere o s k m n) rest },
      there,
      refl,
      points-IsPresented (elsewhere o s k m n) rest pubkey message (moved p),
    )
  where
    moved : PointsAt o rest pubkey message → PointsAt (elsewhere o s k m n) rest pubkey message
    moved p = record {
      key_size = p.key_size;
      key_place = p.key_place;
      key_part = p.key_part;
      key_offset = p.key_offset;
      key_fits = p.key_fits;
      message_place = p.message_place;
      message_part = p.message_part;
      message_offset = p.message_offset;
      message_fits = p.message_fits;
      size = p.size;
      size_fits = p.size_fits;
    }
