-- ===== src/Pio.antt =====
-- utils/bits/pio: big-endian numbers at the front of a byte slice (reader.go, writer.go).
-- A slice is the list of its bytes. `none` is Go's panic on an index out of range; a write that
-- panics half way is `none` too. A signed number is its two's complement bit pattern.
pub mod Laws
pub mod RoundTrip
mod Examples
use gomedia.Common.{ℕ, ◌+◌, ◌*◌, ◌%◌, ◌^◌, ◌-◌, bit_or, u8, ◌>>>◌, ltb, if◌then◌else◌}
use gomedia.Common.{Option, none, some, List, ◌∷◌}

abbrev pub Bytes : Type 0
Bytes = List ℕ

-- `i <<= 8; i |= uintw(b)`, in a word of `w` bits
pub join8 : ℕ → ℕ → ℕ → ℕ
join8 w i b = bit_or (i * 2 ^ 8 % 2 ^ w) b

-- `intw(int8(b))`
sign8 : ℕ → ℕ → ℕ
sign8 w b = if ltb b (2 ^ 7) then b else 2 ^ w - 2 ^ 8 + b

pub u8_at : Bytes → Option ℕ
u8_at (a ∷ _) = some a
u8_at _ = none

pub u16be : Bytes → Option ℕ
u16be (a ∷ b ∷ _) = some (join8 16 a b)
u16be _ = none

pub i16be : Bytes → Option ℕ
i16be (a ∷ b ∷ _) = some (join8 16 a b)
i16be _ = none

pub i24be : Bytes → Option ℕ
i24be (a ∷ b ∷ c ∷ _) = some (join8 32 (join8 32 (sign8 32 a) b) c)
i24be _ = none

pub u24be : Bytes → Option ℕ
u24be (a ∷ b ∷ c ∷ _) = some (join8 32 (join8 32 a b) c)
u24be _ = none

pub i32be : Bytes → Option ℕ
i32be (a ∷ b ∷ c ∷ d ∷ _) = some (join8 32 (join8 32 (join8 32 (sign8 32 a) b) c) d)
i32be _ = none

pub u32le : Bytes → Option ℕ
u32le (a ∷ b ∷ c ∷ d ∷ _) = some (join8 32 (join8 32 (join8 32 d c) b) a)
u32le _ = none

pub u32be : Bytes → Option ℕ
u32be (a ∷ b ∷ c ∷ d ∷ _) = some (join8 32 (join8 32 (join8 32 a b) c) d)
u32be _ = none

pub u40be : Bytes → Option ℕ
u40be (a ∷ b ∷ c ∷ d ∷ e ∷ _) = some (join8 64 (join8 64 (join8 64 (join8 64 a b) c) d) e)
u40be _ = none

join64 : ℕ → ℕ → ℕ → ℕ → ℕ → ℕ → ℕ → ℕ → ℕ
unfolding join8
join64 a b c d e f g h =
    join8 64 (join8 64 (join8 64 (join8 64 (join8 64 (join8 64 (join8 64 a b) c) d) e) f) g) h

pub u64be : Bytes → Option ℕ
u64be (a ∷ b ∷ c ∷ d ∷ e ∷ f ∷ g ∷ h ∷ _) = some (join64 a b c d e f g h)
u64be _ = none

pub i64be : Bytes → Option ℕ
i64be (a ∷ b ∷ c ∷ d ∷ e ∷ f ∷ g ∷ h ∷ _) = some (join64 (sign8 64 a) b c d e f g h)
i64be _ = none

pub put_u8 : Bytes → ℕ → Option Bytes
put_u8 (_ ∷ r) v = some (v ∷ r)
put_u8 _ v = none

pub put_u16be : Bytes → ℕ → Option Bytes
put_u16be (_ ∷ _ ∷ r) v = some (u8 (v >>> 8) ∷ u8 v ∷ r)
put_u16be _ v = none

pub put_u24be : Bytes → ℕ → Option Bytes
put_u24be (_ ∷ _ ∷ _ ∷ r) v = some (u8 (v >>> 16) ∷ u8 (v >>> 8) ∷ u8 v ∷ r)
put_u24be _ v = none

pub put_u32be : Bytes → ℕ → Option Bytes
put_u32be (_ ∷ _ ∷ _ ∷ _ ∷ r) v = some (u8 (v >>> 24) ∷ u8 (v >>> 16) ∷ u8 (v >>> 8) ∷ u8 v ∷ r)
put_u32be _ v = none

pub put_u32le : Bytes → ℕ → Option Bytes
put_u32le (_ ∷ _ ∷ _ ∷ _ ∷ r) v = some (u8 v ∷ u8 (v >>> 8) ∷ u8 (v >>> 16) ∷ u8 (v >>> 24) ∷ r)
put_u32le _ v = none

pub put_u40be : Bytes → ℕ → Option Bytes
put_u40be (_ ∷ _ ∷ _ ∷ _ ∷ _ ∷ r) v =
    some (u8 (v >>> 32) ∷ u8 (v >>> 24) ∷ u8 (v >>> 16) ∷ u8 (v >>> 8) ∷ u8 v ∷ r)
put_u40be _ v = none

pub put_u48be : Bytes → ℕ → Option Bytes
put_u48be (_ ∷ _ ∷ _ ∷ _ ∷ _ ∷ _ ∷ r) v =
    some (u8 (v >>> 40) ∷ u8 (v >>> 32) ∷ u8 (v >>> 24) ∷ u8 (v >>> 16) ∷ u8 (v >>> 8) ∷ u8 v ∷ r)
put_u48be _ v = none

pub put_u64be : Bytes → ℕ → Option Bytes
put_u64be (_ ∷ _ ∷ _ ∷ _ ∷ _ ∷ _ ∷ _ ∷ _ ∷ r) v = some (
    u8 (v >>> 56)
    ∷ u8 (v >>> 48)
    ∷ u8 (v >>> 40)
    ∷ u8 (v >>> 32)
    ∷ u8 (v >>> 24)
    ∷ u8 (v >>> 16)
    ∷ u8 (v >>> 8)
    ∷ u8 v
    ∷ r)
put_u64be _ v = none
