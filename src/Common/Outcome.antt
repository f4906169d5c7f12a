-- ===== src/Common/Outcome.antt =====
-- `anchor_lang::Result`: an instruction returns a value, or it fails and the runtime discards
-- whatever it wrote.
use mathlib.Core.Path.{◌≡◌, refl}
use mathlib.Core.Logic.{◌⊎◌, inl, inr}
use mathlib.Core.Bool.{Bool, true, false}
use mathlib.Core.Option.{Option, none, some}
use options_protocol_solana.Common.Errors.{Error}

pub data Result {ℓ} (T : Type ℓ) : Type ℓ where
  ok : T → Result T
  err : Error → Result T

-- `ok_or(..)?`
abbrev pub ok_or {ℓ} : {T : Type ℓ} → Option T → Error → Result T
ok_or (some t) _ = ok t
ok_or none failure = err failure

-- `require!`, and a constraint of an accounts struct.
abbrev pub guard : Bool → Error → Result (Unit {0})
guard false failure = err failure
guard true _ = ok tt

pub Result-cases {ℓ} :
    {T : Type ℓ} (r : Result T) → ((t : T) × (r ≡ ok t)) ⊎ ((f : Error) × (r ≡ err f))
Result-cases (ok t) = inl (t, refl)
Result-cases (err f) = inr (f, refl)

module _ {ℓ κ} {T : Type ℓ} {U : Type κ} where
  infixl 5 ◌>>=◌
  -- `?`: a failure skips the rest.
  abbrev pub ◌>>=◌ : Result T → (T → Result U) → Result U
  err failure >>= rest = err failure
  ok t >>= rest = rest t

  -- A chain that succeeds has a first part that succeeds.
  pub >>=-eq-ok :
      (first : Result T) (rest : T → Result U) {u : U}
      → (first >>= rest) ≡ ok u
      → (t : T) × (first ≡ ok t) × (rest t ≡ ok u)
  >>=-eq-ok (err failure) rest e = cc
  >>=-eq-ok (ok t) rest e = (t, refl, e)

infixl 5 ◌>>◌
abbrev pub ◌>>◌ {κ} : {U : Type κ} → Result (Unit {0}) → Result U → Result U
test >> rest = test >>= λ _. rest
