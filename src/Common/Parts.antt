-- ===== src/Common/Parts.antt =====
-- Strings that stand inside other strings, at an offset.
use Prim.Native.Nat.{ℕ, zero, suc, ◌+◌, ◌*◌, ◌≤◌}
use mathlib.Core.Path.{◌≡◌, refl, sym, ap, ◌∙◌}
use mathlib.Core.List.{List, [], ◌∷◌, ◌++◌, append_assoc}
use native.Mathlib.Omega.{arith}
use options_protocol_solana.Common.Lists.{length, take, drop, length-append}
use options_protocol_solana.Common.Bytes.{slice, from_le_bytes, slice-append, take-append}

-- The string has this part at this offset.
pub record IsPartAt (bytes : List ℕ) (offset : ℕ) (part : List ℕ) : Type 0 where
  pub before : List ℕ
  pub after : List ℕ
  pub parts : bytes ≡ before ++ (part ++ after)
  pub place : length before ≡ offset

-- The string has a word of two bytes at this offset, the low byte first.
pub record IsWordAt (bytes : List ℕ) (offset n : ℕ) : Type 0 where
  pub low : ℕ
  pub high : ℕ
  pub word : IsPartAt bytes offset (low ∷ high ∷ [])
  pub value : n ≡ low + 256 * high

take-drop : (n : ℕ) (xs : List ℕ) → take n xs ++ drop n xs ≡ xs
take-drop zero xs = refl
take-drop (suc n) [] = refl
take-drop (suc n) (x ∷ xs) = ap (λ ys. x ∷ ys) (take-drop n xs)

length-take : (n : ℕ) (xs : List ℕ) → n ≤ length xs → length (take n xs) ≡ n
length-take zero xs h = refl
length-take (suc n) [] h = absurd (omega arith)
length-take (suc n) (x ∷ xs) h = omega (arith, length-take n xs (omega arith))

length-drop : (n : ℕ) (xs : List ℕ) → n ≤ length xs → length (drop n xs) + n ≡ length xs
length-drop zero xs h = omega arith
length-drop (suc n) [] h = absurd (omega arith)
length-drop (suc n) (x ∷ xs) h = omega (arith, length-drop n xs (omega arith))

module _ (bytes : List ℕ) (offset : ℕ) where
  -- A slice within the string is a part of it.
  pub slice-IsPartAt :
      (k : ℕ) → offset + k ≤ length bytes → IsPartAt bytes offset (slice offset k bytes)
  slice-IsPartAt k h = record {
    before = take offset bytes;
    after = drop k (drop offset bytes);
    parts =
        sym (take-drop offset bytes)
        ∙ ap (λ xs. take offset bytes ++ xs) (sym (take-drop k (drop offset bytes)));
    place = length-take offset bytes (omega arith);
  }

  pub length-slice : (k : ℕ) → offset + k ≤ length bytes → length (slice offset k bytes) ≡ k
  length-slice k h =
      length-take k (drop offset bytes) (omega (arith, length-drop offset bytes (omega arith)))

  -- A part is the slice at its offset.
  pub slice-part :
      (part : List ℕ) (k : ℕ)
      → IsPartAt bytes offset part
      → length part ≡ k
      → slice offset k bytes ≡ part
  slice-part part k p same =
      ap (slice offset k) p.parts
      ∙ slice-append p.before (part ++ p.after) offset 0 k (omega (arith, p.place))
      ∙ take-append part p.after k same

  pub part-within :
      (part : List ℕ) → IsPartAt bytes offset part → offset + length part ≤ length bytes
  part-within part p = omega (
    arith,
    p.place,
    ap length p.parts,
    length-append p.before (part ++ p.after),
    length-append part p.after,
  )

  pub word-slice : (n : ℕ) → IsWordAt bytes offset n → from_le_bytes (slice offset 2 bytes) ≡ n
  unfolding from_le_bytes
  word-slice n w =
      ap from_le_bytes (slice-part (w.low ∷ w.high ∷ []) 2 w.word refl) ∙ omega (arith, w.value)

  two_bytes :
      (part : List ℕ)
      → length part ≡ 2
      → IsPartAt bytes offset part
      → IsWordAt bytes offset (from_le_bytes part)
  unfolding from_le_bytes
  two_bytes [] e p = absurd (omega arith)
  two_bytes (x ∷ []) e p = absurd (omega arith)
  two_bytes (x ∷ y ∷ []) e p = record { low = x; high = y; word = p; value = omega arith }
  two_bytes (x ∷ y ∷ z ∷ part) e p = absurd (omega arith)

  pub slice-IsWordAt :
      offset + 2 ≤ length bytes → IsWordAt bytes offset (from_le_bytes (slice offset 2 bytes))
  slice-IsWordAt h = two_bytes (slice offset 2 bytes) (length-slice 2 h) (slice-IsPartAt 2 h)

-- A part of a string is one of a longer string too.
pub IsPartAt-append :
    (xs ys : List ℕ) (offset : ℕ) (part : List ℕ)
    → IsPartAt ys offset part
    → IsPartAt (xs ++ ys) (length xs + offset) part
IsPartAt-append xs ys offset part p = record {
  before = xs ++ p.before;
  after = p.after;
  parts = ap (λ zs. xs ++ zs) p.parts ∙ sym (append_assoc xs p.before (part ++ p.after));
  place = omega (arith, length-append xs p.before, p.place);
}
