-- ===== src/Pio/Laws.antt =====
-- What the readers and writers of utils/bits/pio do, in plain arithmetic.
use gomedia.Common.{
  ℕ, zero, suc, ◌+◌, ◌*◌, ◌/◌, ◌%◌, ◌^◌, ◌≤◌, ◌<◌, ◌≡◌, refl, arith, none, some, [], ◌∷◌, ◌++◌,
  length, drop, IsByte, u8, or_byte,
}
use native.Mathlib.Nat.{mod-eq_of_lt}
use gomedia.Pio.{
  Bytes, join8, join64, u8_at, u16be, u24be, u32be, u40be, u64be, put_u8, put_u16be, put_u24be,
  put_u32be, put_u40be, put_u64be,
}

-- The low `k` bytes of `v`, highest first.
unfoldable pub be : ℕ → ℕ → Bytes
be zero v = []
be (suc k) v = u8 (v / 256 ^ k) ∷ be k v

pub length-be : (k v : ℕ) → length (be k v) ≡ k
unfolding be
length-be zero v = refl
length-be (suc k) v = omega (arith, length-be k v)

pub join8_lem : (w i b : ℕ) → i * 256 < 2 ^ w → IsByte b → join8 w i b ≡ i * 256 + b
unfolding join8
join8_lem w i b fits h = ground (arith, mod-eq_of_lt fits, or_byte i b)

-- Each writer overwrites the front of the slice by the bytes of the number.
pub put_u8-be :
    (b : Bytes) (v : ℕ) → IsByte v → 1 ≤ length b → put_u8 b v ≡ some (be 1 v ++ drop 1 b)
unfolding put_u8 be
put_u8-be (_ ∷ r) v hv h = ground arith
put_u8-be [] v hv h = absurd (omega arith)

pub put_u24be-be : (b : Bytes) (v : ℕ) → 3 ≤ length b → put_u24be b v ≡ some (be 3 v ++ drop 3 b)
unfolding put_u24be be
put_u24be-be (_ ∷ _ ∷ _ ∷ r) v h = ground arith
put_u24be-be [] v h = absurd (omega arith)
put_u24be-be (_ ∷ []) v h = absurd (omega arith)
put_u24be-be (_ ∷ _ ∷ []) v h = absurd (omega arith)

pub put_u32be-be : (b : Bytes) (v : ℕ) → 4 ≤ length b → put_u32be b v ≡ some (be 4 v ++ drop 4 b)
unfolding put_u32be be
put_u32be-be (_ ∷ _ ∷ _ ∷ _ ∷ r) v h = ground arith
put_u32be-be [] v h = absurd (omega arith)
put_u32be-be (_ ∷ []) v h = absurd (omega arith)
put_u32be-be (_ ∷ _ ∷ []) v h = absurd (omega arith)
put_u32be-be (_ ∷ _ ∷ _ ∷ []) v h = absurd (omega arith)

pub put_u16be-be : (b : Bytes) (v : ℕ) → 2 ≤ length b → put_u16be b v ≡ some (be 2 v ++ drop 2 b)
unfolding put_u16be be
put_u16be-be (_ ∷ _ ∷ r) v h = ground arith
put_u16be-be [] v h = absurd (omega arith)
put_u16be-be (_ ∷ []) v h = absurd (omega arith)

pub put_u40be-be : (b : Bytes) (v : ℕ) → 5 ≤ length b → put_u40be b v ≡ some (be 5 v ++ drop 5 b)
unfolding put_u40be be
put_u40be-be (_ ∷ _ ∷ _ ∷ _ ∷ _ ∷ r) v h = ground arith
put_u40be-be [] v h = absurd (omega arith)
put_u40be-be (_ ∷ []) v h = absurd (omega arith)
put_u40be-be (_ ∷ _ ∷ []) v h = absurd (omega arith)
put_u40be-be (_ ∷ _ ∷ _ ∷ []) v h = absurd (omega arith)
put_u40be-be (_ ∷ _ ∷ _ ∷ _ ∷ []) v h = absurd (omega arith)

pub put_u64be-be : (b : Bytes) (v : ℕ) → 8 ≤ length b → put_u64be b v ≡ some (be 8 v ++ drop 8 b)
unfolding put_u64be be
put_u64be-be (_ ∷ _ ∷ _ ∷ _ ∷ _ ∷ _ ∷ _ ∷ _ ∷ r) v h = ground arith
put_u64be-be [] v h = absurd (omega arith)
put_u64be-be (_ ∷ []) v h = absurd (omega arith)
put_u64be-be (_ ∷ _ ∷ []) v h = absurd (omega arith)
put_u64be-be (_ ∷ _ ∷ _ ∷ []) v h = absurd (omega arith)
put_u64be-be (_ ∷ _ ∷ _ ∷ _ ∷ []) v h = absurd (omega arith)
put_u64be-be (_ ∷ _ ∷ _ ∷ _ ∷ _ ∷ []) v h = absurd (omega arith)
put_u64be-be (_ ∷ _ ∷ _ ∷ _ ∷ _ ∷ _ ∷ []) v h = absurd (omega arith)
put_u64be-be (_ ∷ _ ∷ _ ∷ _ ∷ _ ∷ _ ∷ _ ∷ []) v h = absurd (omega arith)

-- Reading the bytes of `v` gives `v` cut to the width.
pub u8_at-be : (v : ℕ) (t : Bytes) → u8_at (be 1 v ++ t) ≡ some (v % 2 ^ 8)
unfolding u8_at be
u8_at-be v t = ground arith

pub u16be-be : (v : ℕ) (t : Bytes) → u16be (be 2 v ++ t) ≡ some (v % 2 ^ 16)
unfolding u16be be
u16be-be v t = ground (arith, join8_lem 16 (v / 256 % 256) (v % 256))

pub u24be-be : (v : ℕ) (t : Bytes) → u24be (be 3 v ++ t) ≡ some (v % 2 ^ 24)
unfolding u24be be
u24be-be v t = ground (
  arith,
  join8_lem 32 (v / 2 ^ 16 % 256) (v / 256 % 256),
  join8_lem 32 (v / 256 % 2 ^ 16) (v % 256),
)

pub u32be-be : (v : ℕ) (t : Bytes) → u32be (be 4 v ++ t) ≡ some (v % 2 ^ 32)
unfolding u32be be
u32be-be v t = ground (
  arith,
  join8_lem 32 (v / 2 ^ 24 % 256) (v / 2 ^ 16 % 256),
  join8_lem 32 (v / 2 ^ 16 % 2 ^ 16) (v / 256 % 256),
  join8_lem 32 (v / 256 % 2 ^ 24) (v % 256),
)

pub u40be-be : (v : ℕ) (t : Bytes) → u40be (be 5 v ++ t) ≡ some (v % 2 ^ 40)
unfolding u40be be
u40be-be v t = ground (
  arith,
  join8_lem 64 (v / 2 ^ 32 % 256) (v / 2 ^ 24 % 256),
  join8_lem 64 (v / 2 ^ 24 % 2 ^ 16) (v / 2 ^ 16 % 256),
  join8_lem 64 (v / 2 ^ 16 % 2 ^ 24) (v / 256 % 256),
  join8_lem 64 (v / 256 % 2 ^ 32) (v % 256),
)

upper_word :
    (v : ℕ)
    → join8 64
        (join8 64 (join8 64 (u8 (v / 2 ^ 56)) (u8 (v / 2 ^ 48))) (u8 (v / 2 ^ 40)))
        (u8 (v / 2 ^ 32))
      ≡ v / 2 ^ 32 % 2 ^ 32
upper_word v = ground (
  arith,
  join8_lem 64 (v / 2 ^ 56 % 256) (v / 2 ^ 48 % 256),
  join8_lem 64 (v / 2 ^ 48 % 2 ^ 16) (v / 2 ^ 40 % 256),
  join8_lem 64 (v / 2 ^ 40 % 2 ^ 24) (v / 2 ^ 32 % 256),
)

lower_word :
    (x v : ℕ)
    → x ≡ v / 2 ^ 32 % 2 ^ 32
    → join8 64
        (join8 64 (join8 64 (join8 64 x (u8 (v / 2 ^ 24))) (u8 (v / 2 ^ 16))) (u8 (v / 2 ^ 8)))
        (u8 v)
      ≡ v % 2 ^ 64
lower_word x v h = ground (
  arith,
  join8_lem 64 x (v / 2 ^ 24 % 256),
  join8_lem 64 (v / 2 ^ 24 % 2 ^ 40) (v / 2 ^ 16 % 256),
  join8_lem 64 (v / 2 ^ 16 % 2 ^ 48) (v / 256 % 256),
  join8_lem 64 (v / 256 % 2 ^ 56) (v % 256),
)

pub u64be-be : (v : ℕ) (t : Bytes) → u64be (be 8 v ++ t) ≡ some (v % 2 ^ 64)
unfolding u64be be join64
u64be-be v t = ground (arith, upper_word v, lower_word _ v (upper_word v))

pub ruleset reads = (u8_at-be, u16be-be, u24be-be, u32be-be, u40be-be, u64be-be)

-- A read inside the slice does not panic.
pub u24be_total : (b : Bytes) → 3 ≤ length b → (v : ℕ) × (u24be b ≡ some v)
unfolding u24be
u24be_total (x ∷ y ∷ z ∷ t) h = (join8 32 (join8 32 x y) z, refl)
u24be_total [] h = absurd (omega arith)
u24be_total (_ ∷ []) h = absurd (omega arith)
u24be_total (_ ∷ _ ∷ []) h = absurd (omega arith)

pub u32be_total : (b : Bytes) → 4 ≤ length b → (v : ℕ) × (u32be b ≡ some v)
unfolding u32be
u32be_total (x ∷ y ∷ z ∷ w ∷ t) h = (join8 32 (join8 32 (join8 32 x y) z) w, refl)
u32be_total [] h = absurd (omega arith)
u32be_total (_ ∷ []) h = absurd (omega arith)
u32be_total (_ ∷ _ ∷ []) h = absurd (omega arith)
u32be_total (_ ∷ _ ∷ _ ∷ []) h = absurd (omega arith)

-- The value of a slice that begins with bytes.
pub u24be_value :
    (a b c : ℕ) (t : Bytes)
    → IsByte a
    → IsByte b
    → IsByte c
    → u24be (a ∷ b ∷ c ∷ t) ≡ some ((a * 256 + b) * 256 + c)
unfolding u24be
u24be_value a b c t ha hb hc = ground (arith, join8_lem 32 a b, join8_lem 32 (a * 256 + b) c)

pub u32be_value :
    (a b c d : ℕ) (t : Bytes)
    → IsByte a
    → IsByte b
    → IsByte c
    → IsByte d
    → u32be (a ∷ b ∷ c ∷ d ∷ t) ≡ some (((a * 256 + b) * 256 + c) * 256 + d)
unfolding u32be
u32be_value a b c d t ha hb hc hd = ground (
  arith,
  join8_lem 32 a b,
  join8_lem 32 (a * 256 + b) c,
  join8_lem 32 ((a * 256 + b) * 256 + c) d,
)

pub u8_at_total : (b : Bytes) → 1 ≤ length b → (v : ℕ) × (u8_at b ≡ some v)
unfolding u8_at
u8_at_total [] h = absurd (omega arith)
u8_at_total (x ∷ b) h = (x, refl)

pub u32be-short : (b : Bytes) → length b < 4 → u32be b ≡ none
unfolding u32be
u32be-short [] h = refl
u32be-short (x ∷ []) h = refl
u32be-short (x ∷ y ∷ []) h = refl
u32be-short (x ∷ y ∷ z ∷ []) h = refl
u32be-short (x ∷ y ∷ z ∷ u ∷ b) h = absurd (omega arith)
