-- ===== src/Pio/RoundTrip.antt =====
-- Writing a number and reading it back, at every width of utils/bits/pio.
use gomedia.Common.{
  ℕ, ◌/◌, ◌%◌, ◌^◌, ◌≤◌, ◌≡◌, arith, ap, ◌∙◌, some, ◌>>=◌, [], ◌∷◌, ◌++◌, length, drop, u8,
}
use gomedia.Pio.{
  Bytes, u8_at, u16be, u24be, u32le, u32be, u40be, u64be, put_u8, put_u16be, put_u24be, put_u32le,
  put_u32be, put_u40be, put_u48be, put_u64be,
}
use gomedia.Pio.Laws.{
  be, reads, u8_at-be, u32be-be, put_u8-be, put_u16be-be, put_u24be-be, put_u32be-be, put_u40be-be,
  put_u64be-be,
}

put_u48be-be : (b : Bytes) (v : ℕ) → 6 ≤ length b → put_u48be b v ≡ some (be 6 v ++ drop 6 b)
unfolding put_u48be be
put_u48be-be (_ ∷ _ ∷ _ ∷ _ ∷ _ ∷ _ ∷ r) v h = ground arith
put_u48be-be [] v h = absurd (omega arith)
put_u48be-be (_ ∷ []) v h = absurd (omega arith)
put_u48be-be (_ ∷ _ ∷ []) v h = absurd (omega arith)
put_u48be-be (_ ∷ _ ∷ _ ∷ []) v h = absurd (omega arith)
put_u48be-be (_ ∷ _ ∷ _ ∷ _ ∷ []) v h = absurd (omega arith)
put_u48be-be (_ ∷ _ ∷ _ ∷ _ ∷ _ ∷ []) v h = absurd (omega arith)

-- The little-endian reader is the big-endian one on the four bytes in the other order.
u32le-put : (b : Bytes) (v : ℕ) → 4 ≤ length b → (put_u32le b v >>= u32le) ≡ some (v % 2 ^ 32)
unfolding put_u32le u32le
u32le-put (_ ∷ _ ∷ _ ∷ _ ∷ r) v h =
    let whole : v / 1 ≡ v = omega arith in
    let read : u32be (u8 (v / 256 ^ 3) ∷ u8 (v / 256 ^ 2) ∷ u8 (v / 256 ^ 1) ∷ u8 (v / 1) ∷ [])
        ≡ some (v % 2 ^ 32) =
      (unfold be in u32be-be v []) in
    let plain = (rw whole at read) in (unfold u32be in plain)
u32le-put [] v h = absurd (omega arith)
u32le-put (_ ∷ []) v h = absurd (omega arith)
u32le-put (_ ∷ _ ∷ []) v h = absurd (omega arith)
u32le-put (_ ∷ _ ∷ _ ∷ []) v h = absurd (omega arith)

module _ (b : Bytes) (v : ℕ) where
  -- On a slice of eight bytes or more, each reader of unsigned numbers, behind the writer of its
  -- width and order (8, 16, 24, 32, 40 and 64 bits big-endian, 32 little-endian), returns the low
  -- bits of the number written, and PutU48BE, which has no reader, puts its low six bytes in front.
  pub read_back :
      8 ≤ length b
      → ((put_u8 b (u8 v) >>= u8_at) ≡ some (v % 2 ^ 8))
        × ((put_u16be b v >>= u16be) ≡ some (v % 2 ^ 16))
        × ((put_u24be b v >>= u24be) ≡ some (v % 2 ^ 24))
        × ((put_u32be b v >>= u32be) ≡ some (v % 2 ^ 32))
        × ((put_u40be b v >>= u40be) ≡ some (v % 2 ^ 40))
        × ((put_u64be b v >>= u64be) ≡ some (v % 2 ^ 64))
        × ((put_u32le b v >>= u32le) ≡ some (v % 2 ^ 32))
        × (put_u48be b v ≡ some (be 6 v ++ drop 6 b))
  read_back h = (
    rw (put_u8-be b (u8 v) (omega arith) (omega arith))
        (u8_at-be (u8 v) (drop 1 b) ∙ ap some (omega arith)),
    rw (put_u16be-be b v (omega arith)) (simp reads),
    rw (put_u24be-be b v (omega arith)) (simp reads),
    rw (put_u32be-be b v (omega arith)) (simp reads),
    rw (put_u40be-be b v (omega arith)) (simp reads),
    rw (put_u64be-be b v (omega arith)) (simp reads),
    u32le-put b v (omega arith),
    put_u48be-be b v (omega arith),
  )
