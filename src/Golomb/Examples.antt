-- ===== src/Golomb/Examples.antt =====
-- The Exp-Golomb reader on the byte 0x2e: the code 00101 of the number 4, and three bits more.
use gomedia.Common.{ℕ, ◌-◌, ◌^◌, refl, arith, List, [], ◌∷◌}
use gomedia.Golomb.{GolombBitReader, read_exponential_golomb_code, read_se}
use gomedia.Golomb.Reads.{
  Gives, low_bits, byte_bits, remaining, zeros, number, read_exponential_golomb_code-Gives,
  read_se-Gives,
}

abbrev one_byte : GolombBitReader
one_byte = record { source = 0x2e ∷ []; buf = 0; left = 0 }

abbrev suffix : List ℕ
suffix = 0 ∷ 1 ∷ []

read_exponential_golomb_code-Gives_example :
    Gives 4 (1 ∷ 1 ∷ 0 ∷ []) (read_exponential_golomb_code one_byte)
unfolding low_bits byte_bits remaining zeros number
read_exponential_golomb_code-Gives_example =
    read_exponential_golomb_code-Gives suffix (1 ∷ 1 ∷ 0 ∷ []) one_byte
      (omega arith, (omega arith, tt)) (omega arith) refl

read_se-Gives_example : Gives (2 ^ 63 - 2) (1 ∷ 1 ∷ 0 ∷ []) (read_se one_byte)
unfolding low_bits byte_bits remaining zeros number
read_se-Gives_example =
    read_se-Gives suffix (1 ∷ 1 ∷ 0 ∷ []) one_byte (omega arith, (omega arith, tt)) (omega arith)
      refl 2 (omega arith) refl
