-- ===== src/BitStream.antt =====
-- utils/bits/bits.go: reading and writing of bit fields. The io.Reader behind a Reader is the list
-- of the bytes that it has left, which it gives as they are asked for; the error of a read is
-- `none`. The io.Writer behind a Writer is the list of the bytes it took; it takes all of them.
pub mod Fields
pub mod RoundTrip
mod Examples
use gomedia.Common.{
  ℕ, zero, suc, ◌+◌, ◌-◌, ◌*◌, ◌/◌, ◌%◌, ◌^◌, ◌>>>◌, bit_or, bit_xor, u8, u64, Option, none, some,
  List, [], ◌∷◌, ◌++◌, length, take, drop, ltb, ◌==◌, if◌then◌else◌,
}
use gomedia.Pio.{Bytes}

pub record Reader : Type 0 where
  pub source : Bytes
  pub n : ℕ
  pub bits : ℕ

pub record Writer : Type 0 where
  pub out : Bytes
  pub n : ℕ
  pub bits : ℕ

-- ReadBits64: the loop over the bytes that were read,
unfoldable pub shift_in : Bytes → ℕ → ℕ
shift_in [] bits = bits
shift_in (b ∷ bs) bits = shift_in bs (bit_or (u64 (bits * 2 ^ 8)) b)

-- and the result.
unfoldable pub extract : ℕ → Reader → ℕ × Reader
extract n r =
    let field = r.bits >>> (r.n - n) in
    (field, record r { bits = bit_xor r.bits (u64 (field * 2 ^ (r.n - n))); n = r.n - n })

unfoldable pub refill : ℕ → Reader → Reader
refill want r = record r {
  source = drop want r.source;
  n = r.n + want * 8;
  bits = shift_in (take want r.source) r.bits;
}

unfoldable pub read_bits64 : ℕ → Reader → Option (ℕ × Reader)
read_bits64 n r =
    let want = (n - r.n + 7) / 8 in
    if ltb r.n n
    then if ltb (length r.source) want then none else some (extract n (refill want r))
    else some (extract n r)

-- FlushBits: `want` bytes, highest first.
unfoldable pub to_bytes : ℕ → ℕ → Bytes
to_bytes zero bits = []
to_bytes (suc i) bits = u8 (bits >>> (i * 8)) ∷ to_bytes i bits

unfoldable pub left_align : ℕ → ℕ → ℕ
left_align n bits = if n % 8 == 0 then bits else u64 (bits * 2 ^ (8 - n % 8))

unfoldable pub flush_bits : Writer → Writer
flush_bits w =
    if w.n == 0
    then w
    else record w { out = w.out ++ to_bytes ((w.n + 7) / 8) (left_align w.n w.bits); n = 0 }

-- WriteBits64: the field goes behind the bits in the buffer, if it does not fit after a split.
unfoldable pub append_bits : ℕ → ℕ → Writer → Writer
append_bits bits n w = record w { bits = bit_or (u64 (w.bits * 2 ^ n)) bits; n = w.n + n }

unfoldable pub split_write : ℕ → ℕ → Writer → Writer
split_write bits n w =
    let move = 64 - w.n in
    let mask = bits >>> move in
    append_bits (bit_xor bits (u64 (mask * 2 ^ move))) (n - move)
      (flush_bits (record w { bits = bit_or (u64 (w.bits * 2 ^ move)) mask; n = 64 }))

unfoldable pub write_bits64 : ℕ → ℕ → Writer → Writer
write_bits64 bits n w = if ltb 64 (w.n + n) then split_write bits n w else append_bits bits n w
