-- ===== src/BitStream/Examples.antt =====
-- The bit reader and writer at concrete inputs.
use gomedia.Common.{ℕ, ◌≡◌, refl, arith, Option, some, none, [], ◌∷◌}
use gomedia.BitStream.{
  Reader, shift_in, extract, refill, read_bits64, to_bytes, left_align, flush_bits, append_bits,
  split_write, write_bits64,
}
use gomedia.BitStream.Fields.{Takes, read_bits64-Takes}
use gomedia.BitStream.RoundTrip.{
  Fields, write_fields, read_fields, values, width, new_writer, reader_of, read_fields-write_fields,
}

abbrev three_fields : Fields
three_fields = (5, 17) ∷ (11, 1000) ∷ (7, 100) ∷ []

read_fields-write_fields_example :
    read_fields three_fields (reader_of (flush_bits (write_fields three_fields new_writer)).out)
    ≡ some (values three_fields)
unfolding width
read_fields-write_fields_example =
    read_fields-write_fields three_fields
      ((omega arith, omega arith), ((omega arith, omega arith), ((omega arith, omega arith), tt)))
      (omega arith)

-- Three bits in the buffer, and two bytes behind them.
abbrev some_reader : Reader
some_reader = record { source = 170 ∷ 240 ∷ []; n = 3; bits = 5 }

read_bits64-Takes_example :
    (answer : ℕ × Reader) × (read_bits64 6 some_reader ≡ some answer) × Takes 6 some_reader answer
read_bits64-Takes_example =
    read_bits64-Takes 6 some_reader (omega arith, omega arith, (omega arith, (omega arith, tt)))
      (omega arith) (omega arith)

-- A field of ten bits behind sixty: its first four bits, 1000, belong to the eighth byte, which is
-- 0000 1000 and not 0010 0000.
abbrev overflowing : Fields
overflowing = (60, 0) ∷ (10, 512) ∷ []

split : (write_fields overflowing new_writer).out ≡ 0 ∷ 0 ∷ 0 ∷ 0 ∷ 0 ∷ 0 ∷ 0 ∷ 32 ∷ []
unfolding write_fields write_bits64 split_write append_bits flush_bits left_align to_bytes
split = refl

-- After three bits, 64 more take nine bytes' worth of buffer: the top bits of the 64 are lost.
abbrev after_three : Reader
after_three = record { source = 0 ∷ 0 ∷ 0 ∷ 0 ∷ 0 ∷ 0 ∷ 0 ∷ 0 ∷ []; n = 5; bits = 31 }

first_of : Option (ℕ × Reader) → Option ℕ
first_of none = none
first_of (some (v, r)) = some v

lost_bits : first_of (read_bits64 64 after_three) ≡ some 0
unfolding first_of read_bits64 refill shift_in extract
lost_bits = refl
