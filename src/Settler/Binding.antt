-- ===== src/Settler/Binding.antt =====
-- What a signature checked by programs/batch_settler/src/lib.rs binds.
use options_protocol_solana.Common.{
  ℕ, ℤ, pos_part, neg_part, ◌+◌, ◌^◌, ◌<◌, ◌≡◌, sym, ap, ◌∙◌, ◌++◌, List, to_le_bytes,
  from_le_bytes, from-to_le_bytes, length-to_le_bytes, append-inj, as_word, as_word_lt, as_signed,
  as_signed-as_word,
}
use options_protocol_solana.Settler.Signature.{Quote, build_quote_message}

-- The terms fit in their words.
pub record IsWellFormed (q : Quote) : Type 0 where
  pub otoken_mint : q.otoken_mint < 256 ^ 32
  pub premium_mint : q.premium_mint < 256 ^ 32
  pub bid_price : q.bid_price < 256 ^ 8
  pub deadline : pos_part q.deadline + neg_part q.deadline < 2 ^ 63
  pub quote_id : q.quote_id < 256 ^ 8
  pub max_amount : q.max_amount < 256 ^ 8
  pub maker_nonce : q.maker_nonce < 256 ^ 8

word_inj : (w m n : ℕ) → m < 256 ^ w → n < 256 ^ w → to_le_bytes w m ≡ to_le_bytes w n → m ≡ n
word_inj w m n hm hn e =
    sym (from-to_le_bytes w m hm) ∙ ap from_le_bytes e ∙ from-to_le_bytes w n hn

-- The first word of a string of words.
split_word :
    (w m n : ℕ) {rest rest' : List ℕ}
    → m < 256 ^ w
    → n < 256 ^ w
    → to_le_bytes w m ++ rest ≡ to_le_bytes w n ++ rest'
    → (m ≡ n) × (rest ≡ rest')
split_word w m n hm hn e =
    let (first, later) =
      append-inj (to_le_bytes w m) (to_le_bytes w n)
        (length-to_le_bytes w m ∙ sym (length-to_le_bytes w n)) e in
    (word_inj w m n hm hn first, later)

as_word_inj :
    (y z : ℤ)
    → pos_part y + neg_part y < 2 ^ 63
    → pos_part z + neg_part z < 2 ^ 63
    → as_word (2 ^ 63) y ≡ as_word (2 ^ 63) z
    → y ≡ z
as_word_inj y z hy hz e =
    sym (as_signed-as_word (2 ^ 63) y hy)
    ∙ ap (as_signed (2 ^ 63)) e
    ∙ as_signed-as_word (2 ^ 63) z hz

same_quote :
    (q r : Quote)
    → q.otoken_mint ≡ r.otoken_mint
    → q.bid_price ≡ r.bid_price
    → q.deadline ≡ r.deadline
    → q.quote_id ≡ r.quote_id
    → q.max_amount ≡ r.max_amount
    → q.maker_nonce ≡ r.maker_nonce
    → q.premium_mint ≡ r.premium_mint
    → q ≡ r
same_quote q r a b c d e f g = cc

-- Two quotes whose terms fit in their words and whose messages are equal are the same quote: a
-- signature binds every term.
pub build_quote_message-inj :
    (q r : Quote)
    → IsWellFormed q
    → IsWellFormed r
    → build_quote_message q ≡ build_quote_message r
    → q ≡ r
unfolding build_quote_message
build_quote_message-inj q r hq hr e =
    let (mint, rest) = split_word 32 q.otoken_mint r.otoken_mint hq.otoken_mint hr.otoken_mint e in
    let (premium, rest) =
      split_word 32 q.premium_mint r.premium_mint hq.premium_mint hr.premium_mint rest in
    let (bid, rest) = split_word 8 q.bid_price r.bid_price hq.bid_price hr.bid_price rest in
    let (deadline, rest) =
      split_word 8 (as_word (2 ^ 63) q.deadline) (as_word (2 ^ 63) r.deadline)
        (as_word_lt (2 ^ 63) q.deadline hq.deadline) (as_word_lt (2 ^ 63) r.deadline hr.deadline)
        rest in
    let (id, rest) = split_word 8 q.quote_id r.quote_id hq.quote_id hr.quote_id rest in
    let (most, last) = split_word 8 q.max_amount r.max_amount hq.max_amount hr.max_amount rest in
    same_quote q r mint bid (as_word_inj q.deadline r.deadline hq.deadline hr.deadline deadline) id
      most (word_inj 8 q.maker_nonce r.maker_nonce hq.maker_nonce hr.maker_nonce last) premium
