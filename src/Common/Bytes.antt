-- ===== src/Common/Bytes.antt =====
-- Byte strings: the encodings of words, and their comparison.
use Prim.Native.Nat.{ℕ, zero, suc, ◌+◌, ◌-◌, ◌*◌, ◌/◌, ◌%◌, ◌^◌, ◌<◌}
use native.Mathlib.Nat.{div-lt_iff_lt-mul}
use mathlib.Core.Path.{◌≡◌, refl, ap, ◌∙◌}
use mathlib.Core.Bool.{Bool, true, false, ◌&&◌}
use mathlib.Core.List.{List, [], ◌∷◌, ◌++◌}
use native.Mathlib.Omega.{arith}
use options_protocol_solana.Common.Tests.{◌==◌, ltb, if◌then◌else◌}
use options_protocol_solana.Common.Int.{ℤ, pos, negsuc, pos_part, neg_part}
use options_protocol_solana.Common.Lists.{length, take, drop}

unfoldable pub same_bytes : List ℕ → List ℕ → Bool
same_bytes [] [] = true
same_bytes (x ∷ xs) (y ∷ ys) = (x == y) && same_bytes xs ys
same_bytes _ _ = false

-- `data[start..start + size]`, where the data has these bytes.
abbrev pub slice : ℕ → ℕ → List ℕ → List ℕ
slice start size bytes = take size (drop start bytes)

unfoldable pub from_le_bytes : List ℕ → ℕ
from_le_bytes [] = 0
from_le_bytes (b ∷ bs) = b + 256 * from_le_bytes bs

-- A number in so many bytes.
unfoldable pub to_le_bytes : ℕ → ℕ → List ℕ
to_le_bytes zero n = []
to_le_bytes (suc w) n = n % 256 ∷ to_le_bytes w (n / 256)

-- Two's complement, in a word with 2 * half values.
abbrev pub as_signed : ℕ → ℕ → ℤ
as_signed half n = if ltb n half then pos n else negsuc (2 * half - 1 - n)

abbrev pub as_word : ℕ → ℤ → ℕ
as_word half (pos n) = n
as_word half (negsuc n) = 2 * half - 1 - n

pub length-to_le_bytes : (w n : ℕ) → length (to_le_bytes w n) ≡ w
unfolding to_le_bytes
length-to_le_bytes zero n = refl
length-to_le_bytes (suc w) n = omega (arith, length-to_le_bytes w (n / 256))

pub from-to_le_bytes : (w n : ℕ) → n < 256 ^ w → from_le_bytes (to_le_bytes w n) ≡ n
unfolding to_le_bytes from_le_bytes
from-to_le_bytes zero n h = omega arith
from-to_le_bytes (suc w) n h = omega (
  arith,
  from-to_le_bytes w (n / 256) ((div-lt_iff_lt-mul (omega arith)).1 (omega (arith, powers w))),
)
  where
    powers : (k : ℕ) → 256 ^ suc k ≡ 256 ^ k * 256
    powers k = omega arith

head_inj : {x y : ℕ} {xs ys : List ℕ} → x ∷ xs ≡ y ∷ ys → x ≡ y
head_inj e = cc

tail_inj : {x y : ℕ} {xs ys : List ℕ} → x ∷ xs ≡ y ∷ ys → xs ≡ ys
tail_inj e = cc

-- Strings that agree as a whole, with first parts of one length, agree in both parts.
pub append-inj :
    (xs xs' : List ℕ) {ys ys' : List ℕ}
    → length xs ≡ length xs'
    → xs ++ ys ≡ xs' ++ ys'
    → (xs ≡ xs') × (ys ≡ ys')
append-inj [] [] h e = (refl, e)
append-inj [] (x ∷ xs') h e = absurd (omega arith)
append-inj (x ∷ xs) [] h e = absurd (omega arith)
append-inj (x ∷ xs) (x' ∷ xs') h e =
    let (same, rest) = append-inj xs xs' (omega arith) (tail_inj e) in
    (ap (λ y. y ∷ xs) (head_inj e) ∙ ap (λ zs. x' ∷ zs) same, rest)

drop-append : (xs ys : List ℕ) (n m : ℕ) → n ≡ length xs + m → drop n (xs ++ ys) ≡ drop m ys
drop-append [] ys n m h = ap (λ k. drop k ys) (omega arith)
drop-append (x ∷ xs) ys zero m h = absurd (omega arith)
drop-append (x ∷ xs) ys (suc n) m h = drop-append xs ys n m (omega arith)

-- A slice that starts in the second of two strings.
pub slice-append :
    (xs ys : List ℕ) (n m k : ℕ) → n ≡ length xs + m → slice n k (xs ++ ys) ≡ slice m k ys
slice-append xs ys n m k h = ap (take k) (drop-append xs ys n m h)

-- The first of two strings.
pub take-append : (xs ys : List ℕ) (k : ℕ) → length xs ≡ k → take k (xs ++ ys) ≡ xs
take-append [] ys zero h = refl
take-append [] ys (suc k) h = absurd (omega arith)
take-append (x ∷ xs) ys zero h = absurd (omega arith)
take-append (x ∷ xs) ys (suc k) h = ap (λ zs. x ∷ zs) (take-append xs ys k (omega arith))

-- Strings are the same bytes exactly when they are equal.
pub eq_of_same_bytes : (xs ys : List ℕ) → same_bytes xs ys ≡ true → xs ≡ ys
unfolding same_bytes
eq_of_same_bytes [] [] e = refl
eq_of_same_bytes [] (y ∷ ys) e = cc
eq_of_same_bytes (x ∷ xs) [] e = cc
eq_of_same_bytes (x ∷ xs) (y ∷ ys) e =
    let (head, tail) = both (x == y) (same_bytes xs ys) e in
    grind (arith, eq_of_same_bytes xs ys tail)
  where
    both : (b c : Bool) → (b && c) ≡ true → (b ≡ true) × (c ≡ true)
    both b c e = ground arith

pub same_bytes_refl : (xs : List ℕ) → same_bytes xs xs ≡ true
unfolding same_bytes
same_bytes_refl [] = refl
same_bytes_refl (x ∷ xs) = let same = same_bytes_refl xs in ground arith

-- An integer of a signed word, in two's complement.
pub as_word_lt : (half : ℕ) (z : ℤ) → pos_part z + neg_part z < half → as_word half z < 2 * half
as_word_lt half (pos n) h = omega arith
as_word_lt half (negsuc n) h = omega arith

pub as_signed-as_word :
    (half : ℕ) (z : ℤ) → pos_part z + neg_part z < half → as_signed half (as_word half z) ≡ z
as_signed-as_word half (pos n) h = ground arith
as_signed-as_word half (negsuc n) h = ground arith

pub read_word :
    (w n : ℕ) (rest : List ℕ) → n < 256 ^ w → from_le_bytes (take w (to_le_bytes w n ++ rest)) ≡ n
read_word w n rest h =
    ap from_le_bytes (take-append (to_le_bytes w n) rest w (length-to_le_bytes w n))
    ∙ from-to_le_bytes w n h
