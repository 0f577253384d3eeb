-- ===== src/Golomb.antt =====
-- utils/bits/golomb_reader.go: a reader of single bits and of Exp-Golomb codes. The bytes that its
-- source still holds are a list, and a read of the source gives one byte or the error of its end;
-- an error of any method is `none`. A uint has 64 bits.
pub mod Reads
mod Examples
use gomedia.Common.{
  ℕ, zero, suc, ◌+◌, ◌-◌, ◌*◌, ◌/◌, ◌^◌, Bool, ◌&&◌, not, bit_and, bit_or, ◌>>>◌, u64, Option, none,
  some, ◌>>=◌, List, [], ◌∷◌, ltb, ◌==◌, if◌then◌else◌,
}
use gomedia.Pio.{Bytes}

-- GolombBitReader
pub record GolombBitReader : Type 0 where
  pub source : Bytes
  pub buf : ℕ
  pub left : ℕ

unfoldable pub next_bit : GolombBitReader → ℕ × GolombBitReader
next_bit r = (bit_and (r.buf >>> (r.left - 1)) 1, record r { left = r.left - 1 })

unfoldable pub load_byte : Bytes → Option GolombBitReader
load_byte [] = none
load_byte (b ∷ source) = some (record { source = source; buf = b; left = 8 })

unfoldable pub read_bit : GolombBitReader → Option (ℕ × GolombBitReader)
read_bit r =
    if r.left == 0 then (do r' ← load_byte r.source; some (next_bit r')) else some (next_bit r)

-- The loop of ReadBits: `n - i` bits are left to read.
unfoldable pub read_bits_from : ℕ → ℕ → GolombBitReader → Option (ℕ × GolombBitReader)
read_bits_from zero res r = some (res, r)
read_bits_from (suc left) res r = do
  (bit, r') ← read_bit r
  read_bits_from left (bit_or res (u64 (bit * 2 ^ left))) r'

unfoldable pub read_bits : ℕ → GolombBitReader → Option (ℕ × GolombBitReader)
read_bits n r = read_bits_from n 0 r

-- The loop over the leading zeros, which returns `i`: the first argument is `32 - i`.
unfoldable pub leading_zeros : ℕ → ℕ → GolombBitReader → Option (ℕ × GolombBitReader)
leading_zeros zero i r = do (bit, r') ← read_bit r; some (i, r')
leading_zeros (suc left) i r = do
  (bit, r') ← read_bit r
  let more = leading_zeros left (i + 1) r'
  if bit == 0 then more else some (i, r')

unfoldable pub read_exponential_golomb_code : GolombBitReader → Option (ℕ × GolombBitReader)
read_exponential_golomb_code r = do
  (i, r') ← leading_zeros 32 0 r
  (res, r'') ← read_bits i r'
  some (u64 (res + (2 ^ i - 1)), r'')

-- `-res` of a uint, and `-res / 2`, which is `(-res) / 2`.
unfoldable pub negated : ℕ → ℕ
negated res = u64 (2 ^ 64 - res)

unfoldable pub signed : ℕ → ℕ
signed res = if bit_and res 1 == 0 then negated res / 2 else u64 (res + 1) / 2

unfoldable pub read_se : GolombBitReader → Option (ℕ × GolombBitReader)
read_se r = do (res, r') ← read_exponential_golomb_code r; some (signed res, r')
