-- ===== src/Common/Tested.antt =====
-- What is known after a test, or a checked operation, that has passed.
use Prim.Native.Nat.{ℕ, ◌+◌, ◌^◌, ◌≤◌, ◌<◌}
use mathlib.Core.Path.{◌≡◌, refl, ap, ◌∙◌}
use mathlib.Core.Bool.{Bool, true, false, not}
use native.Mathlib.Omega.{arith}
use options_protocol_solana.Common.Tests.{◌==◌, ==_iff, leb, ltb}
use options_protocol_solana.Common.Errors.{Error}
use options_protocol_solana.Common.Int.{ℤ, ◌≤ℤ◌, ◌<ℤ◌, leb_ℤ, ltb_ℤ}
use options_protocol_solana.Common.Outcome.{◌>>=◌, Result, ok, ok_or, guard}
use options_protocol_solana.Common.Words.{checked_add, checked_sub}

pub ok_inj {ℓ} : {A : Type ℓ} {a b : A} → ok a ≡ ok b → a ≡ b
ok_inj e = cc

-- A chain whose first part succeeds goes on.
pub >>=-ok {ℓ κ} :
    {T : Type ℓ} {U : Type κ} {first : Result T} (rest : T → Result U) {t : T} {r : Result U}
    → first ≡ ok t
    → rest t ≡ r
    → (first >>= rest) ≡ r
>>=-ok rest e e' = ap (λ x. x >>= rest) e ∙ e'

module _ (f : Error) where
  pub guard-true : (b : Bool) → guard b f ≡ ok tt → b ≡ true
  guard-true true e = cc
  guard-true false e = cc

  pub guard_of : {b : Bool} → b ≡ true → guard b f ≡ ok tt
  guard_of e = rw e refl

  pub guard_same : {m n : ℕ} → m ≡ n → guard (m == n) f ≡ ok tt
  guard_same e = guard_of ((==_iff _ _).1 e)

  pub guard-not : (b : Bool) → guard (not b) f ≡ ok tt → b ≡ false
  guard-not true e = cc
  guard-not false e = cc

  pub guard-eq : (m n : ℕ) → guard (m == n) f ≡ ok tt → m ≡ n
  guard-eq m n e = ground arith

  pub guard-le : (m n : ℕ) → guard (leb m n) f ≡ ok tt → m ≤ n
  guard-le m n e = ground arith

  pub guard-lt : (m n : ℕ) → guard (ltb m n) f ≡ ok tt → m < n
  guard-lt m n e = ground arith

  pub guard-le_ℤ : (y z : ℤ) → guard (leb_ℤ y z) f ≡ ok tt → y ≤ℤ z
  guard-le_ℤ y z e = ground arith

  pub guard-lt_ℤ : (y z : ℤ) → guard (ltb_ℤ y z) f ≡ ok tt → y <ℤ z
  guard-lt_ℤ y z e = ground arith

  pub checked_add-eq : (m n r : ℕ) → ok_or (checked_add m n) f ≡ ok r → (r ≡ m + n) × (r < 2 ^ 64)
  unfolding checked_add
  checked_add-eq m n r e = ground arith

  pub checked_sub-eq : (m n r : ℕ) → ok_or (checked_sub m n) f ≡ ok r → r + n ≡ m
  unfolding checked_sub
  checked_sub-eq m n r e = ground arith
