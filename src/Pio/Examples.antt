-- ===== src/Pio/Examples.antt =====
-- The theorems on utils/bits/pio at a concrete slice.
use gomedia.Common.{◌≡◌, arith, some, [], ◌∷◌, ◌>>=◌, u8}
use gomedia.Pio.{
  Bytes, u8_at, u16be, u24be, u32le, u32be, u40be, u64be, put_u8, put_u16be, put_u24be, put_u32le,
  put_u32be, put_u40be, put_u48be, put_u64be,
}
use gomedia.Pio.Laws.{be}
use gomedia.Pio.RoundTrip.{read_back}

abbrev zeros : Bytes
zeros = 0 ∷ 0 ∷ 0 ∷ 0 ∷ 0 ∷ 0 ∷ 0 ∷ 0 ∷ 9 ∷ []

read_back_example :
    ((put_u8 zeros (u8 0x1234567) >>= u8_at) ≡ some 0x67)
    × ((put_u16be zeros 0x1234567 >>= u16be) ≡ some 0x4567)
    × ((put_u24be zeros 0x1234567 >>= u24be) ≡ some 0x234567)
    × ((put_u32be zeros 0x1234567 >>= u32be) ≡ some 0x1234567)
    × ((put_u40be zeros 0x1234567 >>= u40be) ≡ some 0x1234567)
    × ((put_u64be zeros 0x1234567 >>= u64be) ≡ some 0x1234567)
    × ((put_u32le zeros 0x1234567 >>= u32le) ≡ some 0x1234567)
    × (put_u48be zeros 0x1234567 ≡ some (0 ∷ 0 ∷ 0x01 ∷ 0x23 ∷ 0x45 ∷ 0x67 ∷ 0 ∷ 0 ∷ 9 ∷ []))
unfolding be
read_back_example = read_back zeros 0x1234567 (omega arith)
