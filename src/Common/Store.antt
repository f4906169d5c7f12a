-- ===== src/Common/Store.antt =====
-- The accounts of one type that a program owns, by address, as an association list.
use Prim.Native.Nat.{ℕ, ◌+◌}
use mathlib.Core.Path.{◌≡◌, refl, ap}
use mathlib.Core.Logic.{◌≢◌, ◌⊎◌, inl, inr}
use mathlib.Core.Option.{Option, none, some}
use mathlib.Core.List.{List, [], ◌∷◌}
use native.Mathlib.Omega.{arith}
use options_protocol_solana.Common.Tests.{◌==◌, ==_iff, Bool-cases, if◌then◌else◌}

-- A Pubkey is 32 bytes; here the number that they spell in little endian. `Pubkey::default()` is 0.
abbrev pub Pubkey : Type 0
Pubkey = ℕ

abbrev pub default : Pubkey
default = 0

abbrev pub Accounts {ℓ} : Type ℓ → Type ℓ
Accounts A = List (Pubkey × A)

module _ {ℓ} {A : Type ℓ} where
  unfoldable pub lookup : Pubkey → Accounts A → Option A
  lookup k [] = none
  lookup k ((j, a) ∷ m) = if k == j then some a else lookup k m

  unfoldable pub insert : Pubkey → A → Accounts A → Accounts A
  insert k a [] = (k, a) ∷ []
  insert k a ((j, b) ∷ m) = if k == j then (k, a) ∷ m else (j, b) ∷ insert k a m

  pub lookup-insert :
      (j k : Pubkey) (a : A) (m : Accounts A)
      → lookup j (insert k a m) ≡ (if j == k then some a else lookup j m)
  unfolding lookup insert
  lookup-insert j k a [] = refl
  lookup-insert j k a ((i, b) ∷ m) = ground (arith, lookup-insert j k a m)

  pub lookup-insert_self : (k : Pubkey) (a : A) (m : Accounts A) → lookup k (insert k a m) ≡ some a
  lookup-insert_self k a m = ground (arith, lookup-insert k k a m)

  -- What is found after a write is what was written, or was found before.
  pub lookup-insert_cases :
      (j k : Pubkey) (a b : A) (m : Accounts A)
      → lookup j (insert k a m) ≡ some b
      → ((j ≡ k) × (b ≡ a)) ⊎ ((j ≢ k) × (lookup j m ≡ some b))
  lookup-insert_cases j k a b m h = elim (Bool-cases (j == k)) [
    | inl same ↦ inl ((==_iff j k).0 same, ground (arith, lookup-insert j k a m))
    | inr other ↦ inr (ground arith, ground (arith, lookup-insert j k a m))
  ]

  -- A write at an address that was vacant hides nothing.
  pub lookup-insert_vacant :
      (j k : Pubkey) (a b : A) (m : Accounts A)
      → lookup k m ≡ none
      → lookup j m ≡ some b
      → lookup j (insert k a m) ≡ some b
  lookup-insert_vacant j k a b m vacant h = elim (Bool-cases (j == k)) [
    | inl same ↦ absurd (ground (arith, ap (λ i. lookup i m) ((==_iff j k).0 same)))
    | inr other ↦ ground (arith, lookup-insert j k a m)
  ]

  -- The total of a measure over all accounts.
  unfoldable pub total : (A → ℕ) → Accounts A → ℕ
  total f [] = 0
  total f ((_, a) ∷ m) = f a + total f m

  pub total-insert :
      (f : A → ℕ) (k : Pubkey) (a old : A) (m : Accounts A)
      → lookup k m ≡ some old
      → total f (insert k a m) + f old ≡ total f m + f a
  unfolding total lookup insert
  total-insert f k a old [] h = cc
  total-insert f k a old ((j, b) ∷ m) h = ground (arith, total-insert f k a old m)

  pub total-insert_new :
      (f : A → ℕ) (k : Pubkey) (a : A) (m : Accounts A)
      → lookup k m ≡ none
      → total f (insert k a m) ≡ total f m + f a
  unfolding total lookup insert
  total-insert_new f k a [] h = ground arith
  total-insert_new f k a ((j, b) ∷ m) h = ground (arith, total-insert_new f k a m)
