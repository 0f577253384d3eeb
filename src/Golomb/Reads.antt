-- ===== src/Golomb/Reads.antt =====
-- What the Exp-Golomb reader returns, in terms of the bits that are left.
use gomedia.Common.{
  ℕ, zero, suc, ◌+◌, ◌-◌, ◌*◌, ◌%◌, ◌^◌, ◌≤◌, ◌<◌, ◌≡◌, refl, ap, ◌∙◌, arith, false, bit_and,
  bit_or, ◌>>>◌, or_join, u64, lowest_bit, Option, some, List, [], ◌∷◌, ◌++◌, length, All, ◌==◌,
}
use mathlib.Core.Path.{subst}
use native.Mathlib.Nat.{two-pow-succ, pow-le-pow_right, one-le-pow, mod-eq_of_lt}
use gomedia.Pio.{Bytes}
use gomedia.Golomb.{
  GolombBitReader, next_bit, load_byte, read_bit, read_bits_from, read_bits, leading_zeros,
  read_exponential_golomb_code, negated, signed, read_se,
}

-- The low `n` bits of a byte, the highest first.
unfoldable pub low_bits : ℕ → ℕ → List ℕ
low_bits zero b = []
low_bits (suc n) b = bit_and (b >>> n) 1 ∷ low_bits n b

unfoldable pub byte_bits : Bytes → List ℕ
byte_bits [] = []
byte_bits (b ∷ bs) = low_bits 8 b ++ byte_bits bs

-- All bits that a reader has left.
unfoldable pub remaining : GolombBitReader → List ℕ
remaining r = low_bits r.left r.buf ++ byte_bits r.source

-- A result whose reader has these bits left.
abbrev pub Gives : ℕ → List ℕ → Option (ℕ × GolombBitReader) → Type 0
Gives v bits answer = (r : GolombBitReader) × (answer ≡ some (v, r)) × (remaining r ≡ bits)

read_bit-Gives :
    (source : Bytes) (buf left x : ℕ) (bits : List ℕ)
    → remaining (record { source = source; buf = buf; left = left }) ≡ x ∷ bits
    → Gives x bits (read_bit (record { source = source; buf = buf; left = left }))
unfolding read_bit load_byte next_bit remaining low_bits byte_bits
read_bit-Gives [] buf zero x bits e = absurd cc
read_bit-Gives (b ∷ source) buf zero x bits e =
    (record { source = source; buf = b; left = 7 }, cc, cc)
read_bit-Gives source buf (suc left) x bits e =
    let bit : bit_and (buf >>> left) 1 ≡ x = cc in
    let some_left : suc left == 0 ≡ false = ground arith in
    let one_less : suc left - 1 ≡ left = omega arith in
    (record { source = source; buf = buf; left = left }, rw (some_left, one_less, bit) refl, cc)

-- The number that bits stand for, the highest first.
unfoldable pub number : List ℕ → ℕ
number [] = 0
number (x ∷ xs) = x * 2 ^ length xs + number xs

abbrev pub IsBit : ℕ → Type 0
IsBit x = x < 2

bit_times : (x p : ℕ) → IsBit x → x * p ≤ p
bit_times zero p bit = omega arith
bit_times (suc zero) p bit = omega arith
bit_times (suc (suc x)) p bit = absurd (omega arith)

shift_in : (m x p : ℕ) → m * (p + p) + x * p ≡ (m * 2 + x) * p
shift_in m x p = omega arith

number-bound : (xs : List ℕ) → All IsBit xs → number xs < 2 ^ length xs
unfolding number
number-bound [] _ = omega arith
number-bound (x ∷ xs) (bit, bits) =
    omega (arith, number-bound xs bits, bit_times x (2 ^ length xs) bit, two-pow-succ (length xs))

-- A bit that is read is the next one of the number.
join_bit :
    (m x k : ℕ) → IsBit x → k < 32 → bit_or (m * 2 ^ suc k) (u64 (x * 2 ^ k)) ≡ (m * 2 + x) * 2 ^ k
join_bit m x k bit few =
    let low = bit_times x (2 ^ k) bit in
    let small : 2 ^ k ≤ 2 ^ 32 = pow-le-pow_right (omega arith) {j = 32} (omega arith) in
    let word : u64 (x * 2 ^ k) ≡ x * 2 ^ k = mod-eq_of_lt (omega arith) in
    let positive : 1 ≤ 2 ^ k = one-le-pow k 2 (omega arith) in
    rw word (
      or_join (suc k) m (x * 2 ^ k) (omega (arith, two-pow-succ k))
      ∙ ap (λ p. m * p + x * 2 ^ k) (two-pow-succ k)
      ∙ shift_in m x (2 ^ k))

read_bits_from-Gives :
    (xs tail : List ℕ) (m : ℕ) (r : GolombBitReader)
    → All IsBit xs
    → length xs ≤ 32
    → remaining r ≡ xs ++ tail
    → Gives (m * 2 ^ length xs + number xs) tail (read_bits_from (length xs) (m * 2 ^ length xs) r)
unfolding read_bits_from number
read_bits_from-Gives [] tail m r _ few e = (r, ap (λ v. some (v, r)) (omega arith), e)
read_bits_from-Gives (x ∷ xs) tail m r (bit, bits) few e =
    let (r', step, left) = read_bit-Gives r.source r.buf r.left x (xs ++ tail) e in
    let (r'', rest, left') = read_bits_from-Gives xs tail (m * 2 + x) r' bits (omega arith) left in
    let joined = join_bit m x (length xs) bit (omega arith) in
    let value : (m * 2 + x) * 2 ^ length xs + number xs
        ≡ m * 2 ^ suc (length xs) + (x * 2 ^ length xs + number xs) =
      (omega (arith, shift_in m x (2 ^ length xs), ap (λ p. m * p) (two-pow-succ (length xs)))) in
    (r'', rw (step, joined, rest) (ap (λ v. some (v, r'')) value), left')

read_bits-Gives :
    (xs tail : List ℕ) (r : GolombBitReader)
    → All IsBit xs
    → length xs ≤ 32
    → remaining r ≡ xs ++ tail
    → Gives (number xs) tail (read_bits (length xs) r)
unfolding read_bits
read_bits-Gives xs tail r bits few e =
    let (r', step, left) = read_bits_from-Gives xs tail 0 r bits few e in
    let none_yet : 0 * 2 ^ length xs ≡ 0 = omega arith in
    let step' =
      subst (λ z. read_bits_from (length xs) z r ≡ some (z + number xs, r')) none_yet step in
    (r', step' ∙ ap (λ v. some (v, r')) (omega arith), left)

-- The Exp-Golomb code with these suffix bits: as many zeros, a one, and the bits.
unfoldable pub zeros : ℕ → List ℕ → List ℕ
zeros zero xs = xs
zeros (suc n) xs = 0 ∷ zeros n xs

-- It stands before `tail`.
abbrev pub code : List ℕ → List ℕ → List ℕ
code xs tail = zeros (length xs) (1 ∷ (xs ++ tail))

-- `n` more zeros are found behind `i` of them.
leading_zeros-Gives :
    (left n i : ℕ) (xs : List ℕ) (r : GolombBitReader)
    → n ≤ left
    → remaining r ≡ zeros n (1 ∷ xs)
    → Gives (i + n) xs (leading_zeros left i r)
unfolding leading_zeros zeros
leading_zeros-Gives zero (suc n) i xs r few e = absurd (omega arith)
leading_zeros-Gives zero zero i xs r few e =
    let (r', step, left') = read_bit-Gives r.source r.buf r.left 1 xs e in
    (r', rw step (ap (λ v. some (v, r')) (omega arith)), left')
leading_zeros-Gives (suc left) zero i xs r few e =
    let (r', step, left') = read_bit-Gives r.source r.buf r.left 1 xs e in
    (r', rw step (ap (λ v. some (v, r')) (omega arith)), left')
leading_zeros-Gives (suc left) (suc n) i xs r few e =
    let (r', step, left') = read_bit-Gives r.source r.buf r.left 0 (zeros n (1 ∷ xs)) e in
    let (r'', rest, left'') = leading_zeros-Gives left n (i + 1) xs r' (omega arith) left' in
    (r'', rw (step, rest) (ap (λ v. some (v, r'')) (omega arith)), left'')

-- The number that a code stands for: 2 ^ leadingZeroBits - 1 + the bits (ITU-T H.264, 9.1).
abbrev pub code_num : List ℕ → ℕ
code_num xs = 2 ^ length xs - 1 + number xs

-- From a reader whose bits begin with the Exp-Golomb code of at most 32 suffix bits,
-- ReadExponentialGolombCode returns its number, and leaves the bits behind the code.
pub read_exponential_golomb_code-Gives :
    (xs tail : List ℕ) (r : GolombBitReader)
    → All IsBit xs
    → length xs ≤ 32
    → remaining r ≡ code xs tail
    → Gives (code_num xs) tail (read_exponential_golomb_code r)
unfolding read_exponential_golomb_code
read_exponential_golomb_code-Gives xs tail r bits few e =
    let (r', step, left) = leading_zeros-Gives 32 (length xs) 0 (xs ++ tail) r few e in
    let (r'', step', left') = read_bits-Gives xs tail r' bits few left in
    let small : 2 ^ length xs ≤ 2 ^ 32 = pow-le-pow_right (omega arith) {j = 32} few in
    let no_wrap : u64 (number xs + (2 ^ length xs - 1)) ≡ code_num xs =
      (mod-eq_of_lt (omega (arith, number-bound xs bits)) ∙ omega arith) in
    let from_zero : 0 + length xs ≡ length xs = omega arith in
    (r'', rw (step, from_zero, step') (ap (λ v. some (v, r'')) no_wrap), left')

even_bit : (half : ℕ) → half * 2 % 2 ≡ 0
even_bit half = omega arith

-- ReadSE of a code with an even number that is not 0, which stands for minus the half of it,
-- returns 2 ^ 63 minus that half, where two's complement is 2 ^ 64 minus it.
pub read_se-Gives :
    (xs tail : List ℕ) (r : GolombBitReader)
    → All IsBit xs
    → length xs ≤ 32
    → remaining r ≡ code xs tail
    → (half : ℕ) → 0 < half
    → code_num xs ≡ half * 2
    → Gives (2 ^ 63 - half) tail (read_se r)
unfolding read_se
read_se-Gives xs tail r bits few e half positive even =
    let (r', step, left) = read_exponential_golomb_code-Gives xs tail r bits few e in
    let small : 2 ^ length xs ≤ 2 ^ 32 = pow-le-pow_right (omega arith) {j = 32} few in
    let value : signed (code_num xs) ≡ 2 ^ 63 - half =
      (unfold signed negated in
        rw (even, lowest_bit (half * 2))
          (rw (even_bit half) (omega (arith, number-bound xs bits, small, positive)))) in
    (r', rw step (ap (λ v. some (v, r')) value), left)
