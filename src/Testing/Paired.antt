-- ===== src/Testing/Paired.antt =====
-- A concrete derivation of addresses under which no two balances share one.
use options_protocol_solana.Common.{
  ℕ, ℤ, ◌+◌, ◌*◌, ◌≤◌, ◌<◌, ◌≡◌, refl, sym, ap, ◌∙◌, inl, inr, List, [], ◌∷◌, some, some_inj,
  Bool-cases, ltb, arith,
}
use options_protocol_solana.Runtime.{Runtime, Seed, text, key}
use options_protocol_solana.Settler.Machine.Counted.{DerivationLaws}
use options_protocol_solana.Testing.Bank.{clock_at}

-- A pairing: the square of the sum, and then the first.
unfoldable pair : ℕ → ℕ → ℕ
pair a b = (a + b) * (a + b) + a

unfoldable pub paired_address : List Seed → ℕ
unfolding pair clock_at
paired_address (text s ∷ key a ∷ key b ∷ []) = pair a b
paired_address seeds = ((clock_at (ℤ.pos 0)).find_program_address seeds 0).0

unfoldable pub paired_at : ℤ → Runtime
unfolding paired_address
paired_at now = record {
  find_program_address = λ seeds program. (paired_address seeds, 255);
  create_program_address = λ seeds bump program. some (paired_address seeds);
  now = now;
}

square_gap : (s s' a a' : ℕ) → a ≤ s → s < s' → s * s + a < s' * s' + a'
square_gap s s' a a' le lt = grind arith

pair_inj : (a b c d : ℕ) → pair a b ≡ pair c d → (a ≡ c) × (b ≡ d)
unfolding pair
pair_inj a b c d e = elim (Bool-cases (ltb (a + b) (c + d))) [
  | inl less ↦
      absurd (let gap = square_gap (a + b) (c + d) a c (omega arith) (ground arith) in omega arith)
  | inr not_less ↦ elim (Bool-cases (ltb (c + d) (a + b))) [
    | inl more ↦
        absurd
          (let gap = square_gap (c + d) (a + b) c a (omega arith) (ground arith) in omega arith)
    | inr equal ↦
        let sums : a + b ≡ c + d = ground arith in
        let squares = ap (λ n. n * n) sums in (omega arith, omega arith)
  ]
]

pub paired-DerivationLaws : (now : ℤ) → DerivationLaws (paired_at now)
unfolding paired_at paired_address
paired-DerivationLaws now = record {
  canonical = λ maker mint. refl;
  apart = λ maker mint maker' mint' bump bump' k e e'.
      pair_inj maker mint maker' mint' (some_inj (e ∙ sym e'));
}
