-- ===== src/Settler/Verification/Presented.antt =====
-- Which instructions of the ed25519 program pass the test of programs/batch_settler/src/lib.rs.
use options_protocol_solana.Common.{
  ℕ, ◌+◌, ◌≤◌, ◌≡◌, refl, sym, ap, ◌∙◌, subst, ◌↔◌, Bool, true, ◌&&◌, ◌==◌, leb, ==_iff, List, [],
  ◌∷◌, length, ok, ◌>>◌, arith, slice, from_le_bytes, same_bytes, eq_of_same_bytes, same_bytes_refl,
  SettlerError, IsPartAt, IsWordAt, slice-IsPartAt, length-slice, slice-part, part-within,
  word-slice, slice-IsWordAt,
}
use options_protocol_solana.Settler.State.{require}
use options_protocol_solana.Settler.Signature.{ed25519_instruction_matches}

-- The data of a call of the ed25519 program: the count of one signature, and then, in the first 16
-- bytes, words that say where in the data the key and the message are and how long the message is.
-- The key has 32 bytes, and both stand where the words say.
pub record IsPresented (bytes pubkey message : List ℕ) : Type 0 where
  pub header : 16 ≤ length bytes
  pub count : IsPartAt bytes 0 (1 ∷ [])
  pub key_size : length pubkey ≡ 32
  pub key_offset : ℕ
  pub key_word : IsWordAt bytes 6 key_offset
  pub key_place : IsPartAt bytes key_offset pubkey
  pub message_offset : ℕ
  pub message_word : IsWordAt bytes 10 message_offset
  pub size_word : IsWordAt bytes 12 (length message)
  pub message_place : IsPartAt bytes message_offset message

-- A chain of tests gives true exactly when each is met.
chain_passes :
    (b c d e f g h : Bool)
    → (do
      require b SettlerError.invalid_ed25519_data
      require c SettlerError.invalid_ed25519_data
      require d SettlerError.invalid_ed25519_data
      require e SettlerError.invalid_ed25519_data
      ok (f && g && h))
      ≡ ok true
    → (b ≡ true) × (c ≡ true) × (d ≡ true) × (e ≡ true) × (f ≡ true) × (g ≡ true) × (h ≡ true)
chain_passes true true true true true true true run = (refl, refl, refl, refl, refl, refl, refl)
chain_passes b c d e f g h run = absurd cc

same : (m n : ℕ) → (m == n) ≡ true → m ≡ n
same m n e = (==_iff m n).0 e

below : (m n : ℕ) → leb m n ≡ true → m ≤ n
below m n e = ground arith

one : from_le_bytes (1 ∷ []) ≡ 1
unfolding from_le_bytes
one = refl

module _ (bytes pubkey message : List ℕ) where
  abbrev key_at : ℕ
  key_at = from_le_bytes (slice 6 2 bytes)

  abbrev message_at : ℕ
  message_at = from_le_bytes (slice 10 2 bytes)

  abbrev size : ℕ
  size = from_le_bytes (slice 12 2 bytes)

  one_byte : (part : List ℕ) → length part ≡ 1 → from_le_bytes part ≡ 1 → part ≡ 1 ∷ []
  unfolding from_le_bytes
  one_byte [] h e = absurd (omega arith)
  one_byte (x ∷ []) h e = ap (λ n. n ∷ []) (omega (arith, e))
  one_byte (x ∷ y ∷ part) h e = absurd (omega arith)

  matches-IsPresented :
      ed25519_instruction_matches bytes pubkey message ≡ ok true → IsPresented bytes pubkey message
  unfolding ed25519_instruction_matches
  matches-IsPresented run =
      let (long, count, key_in, message_in, key, sized, said) =
        chain_passes (leb 16 (length bytes)) (from_le_bytes (slice 0 1 bytes) == 1)
          (leb (key_at + 32) (length bytes)) (leb (message_at + size) (length bytes))
          (same_bytes (slice key_at 32 bytes) pubkey) (size == length message)
          (same_bytes (slice message_at size bytes) message) run in
      let header : 16 ≤ length bytes = below _ _ long in
      let key_is = eq_of_same_bytes (slice key_at 32 bytes) pubkey key in
      let message_is = eq_of_same_bytes (slice message_at size bytes) message said in
      record {
        header = header;
        count =
            subst (IsPartAt bytes 0)
              (one_byte (slice 0 1 bytes) (length-slice bytes 0 1 (omega arith)) (same _ 1 count))
              (slice-IsPartAt bytes 0 1 (omega arith));
        key_size = ap length (sym key_is) ∙ length-slice bytes key_at 32 (below _ _ key_in);
        key_offset = key_at;
        key_word = slice-IsWordAt bytes 6 (omega arith);
        key_place =
            subst (IsPartAt bytes key_at) key_is
              (slice-IsPartAt bytes key_at 32 (below _ _ key_in));
        message_offset = message_at;
        message_word = slice-IsWordAt bytes 10 (omega arith);
        size_word =
            subst (IsWordAt bytes 12) (same _ _ sized) (slice-IsWordAt bytes 12 (omega arith));
        message_place =
            subst (IsPartAt bytes message_at) message_is
              (slice-IsPartAt bytes message_at size (below _ _ message_in));
      }

  tests_pass :
      16 ≤ length bytes
      → from_le_bytes (slice 0 1 bytes) ≡ 1
      → key_at + 32 ≤ length bytes
      → message_at + size ≤ length bytes
      → same_bytes (slice key_at 32 bytes) pubkey ≡ true
      → size ≡ length message
      → same_bytes (slice message_at size bytes) message ≡ true
      → ed25519_instruction_matches bytes pubkey message ≡ ok true
  unfolding ed25519_instruction_matches
  tests_pass long count key_in message_in key sized said = ground arith

  presented-matches :
      IsPresented bytes pubkey message → ed25519_instruction_matches bytes pubkey message ≡ ok true
  presented-matches p =
      let key_is : key_at ≡ p.key_offset = word-slice bytes 6 p.key_offset p.key_word in
      let place_is : message_at ≡ p.message_offset =
        word-slice bytes 10 p.message_offset p.message_word in
      let size_is : size ≡ length message = word-slice bytes 12 (length message) p.size_word in
      tests_pass p.header (ap from_le_bytes (slice-part bytes 0 (1 ∷ []) 1 p.count refl) ∙ one)
        (omega (arith, part-within bytes p.key_offset pubkey p.key_place, p.key_size))
        (omega (arith, part-within bytes p.message_offset message p.message_place))
        (reads key_at 32 pubkey (
          slice-part bytes key_at pubkey 32
            (subst (λ n. IsPartAt bytes n pubkey) (sym key_is) p.key_place) p.key_size))
        size_is
        (reads message_at size message (
          slice-part bytes message_at message size
            (subst (λ n. IsPartAt bytes n message) (sym place_is) p.message_place) (sym size_is)))
    where
      reads :
          (n k : ℕ) (part : List ℕ)
          → slice n k bytes ≡ part
          → same_bytes (slice n k bytes) part ≡ true
      reads n k part e = ap (λ xs. same_bytes xs part) e ∙ same_bytes_refl part

  -- The test is passed exactly by the data that count one signature and have the key and the
  -- message where they say.
  pub ed25519_instruction_matches_iff :
      (ed25519_instruction_matches bytes pubkey message ≡ ok true)
      ↔ IsPresented bytes pubkey message
  ed25519_instruction_matches_iff = (matches-IsPresented, presented-matches)
