-- ===== src/BitStream/RoundTrip.antt =====
-- Fields that a Writer wrote, read back by a Reader.
use native.Mathlib.Nat.{one-le-pow, mul-le-mul_right, mod-lt, div-add-mod', mul-add-mod_self_right}
use gomedia.Common.{
  ℕ, zero, suc, ◌+◌, ◌-◌, ◌*◌, ◌/◌, ◌%◌, ◌^◌, ◌≤◌, ◌<◌, ◌≡◌, refl, sym, ap, ◌∙◌, inl, inr, arith,
  ◌>>>◌, bit_or, or_join, u8, u64, IsByte, Option, some, List, [], ◌∷◌, ◌++◌, length, length-append,
  All, All-append, ltb, ◌==◌, false, Bool-cases, ==_iff, if◌then◌else◌, ◌>>=◌,
}
use gomedia.Pio.{Bytes}
use mathlib.Core.List.{append-nil}
use gomedia.BitStream.{
  Reader, Writer, read_bits64, to_bytes, left_align, flush_bits, append_bits, write_bits64,
}
use gomedia.BitStream.Fields.{
  pow_add, num, num-bound, num-append, IsTight, bits_left, value, read_bits64-Takes, join-bound,
  split_div, split_mod, front_mod,
}

-- Bit fields: a count of bits and a value.
abbrev pub Fields : Type 0
Fields = List (ℕ × ℕ)

unfoldable pub write_fields : Fields → Writer → Writer
write_fields [] w = w
write_fields ((n, v) ∷ fields) w = write_fields fields (write_bits64 v n w)

unfoldable pub read_fields : Fields → Reader → Option (List ℕ)
read_fields [] r = some []
read_fields ((n, v) ∷ fields) r = do
  (v', r') ← read_bits64 n r
  vs ← read_fields fields r'
  some (v' ∷ vs)

abbrev pub values : Fields → List ℕ
values [] = []
values ((n, v) ∷ fields) = v ∷ values fields

-- Their bits in a row.
unfoldable pub width : Fields → ℕ
width [] = 0
width ((n, v) ∷ fields) = n + width fields

unfoldable pub joined : Fields → ℕ
joined [] = 0
joined ((n, v) ∷ fields) = v * 2 ^ width fields + joined fields

-- A field holds its value, and a reader can take it at once.
abbrev pub IsField : ℕ × ℕ → Type 0
IsField (n, v) = (n ≤ 57) × (v < 2 ^ n)

joined-bound : (fields : Fields) → All IsField fields → joined fields < 2 ^ width fields
unfolding joined width
joined-bound [] h = omega arith
joined-bound ((n, v) ∷ fields) ((_, fits), h) =
    join-bound n (width fields) v (joined fields) fits (joined-bound fields h)

length-to_bytes : (k v : ℕ) → length (to_bytes k v) ≡ k
unfolding to_bytes
length-to_bytes zero v = refl
length-to_bytes (suc k) v = ap suc (length-to_bytes k v)

to_bytes-All : (k v : ℕ) → All IsByte (to_bytes k v)
unfolding to_bytes
to_bytes-All zero v = tt
to_bytes-All (suc k) v = (mod-lt _ (omega arith), to_bytes-All k v)

-- A shift of the buffer, seen through as many bits as it then has.
mod_pow : (m j b : ℕ) → b % 2 ^ (m + j) % 2 ^ m ≡ b % 2 ^ m
mod_pow m j b =
    sym (mul-add-mod_self_right (b / 2 ^ (m + j) * 2 ^ j) (2 ^ m) (b % 2 ^ (m + j)))
    ∙ ap (λ (t : ℕ). t % 2 ^ m) whole
  where
    whole : b / 2 ^ (m + j) * 2 ^ j * 2 ^ m + b % 2 ^ (m + j) ≡ b
    whole =
        omega
          (arith, ap (λ (t : ℕ). b / 2 ^ (m + j) * t) (pow_add m j), div-add-mod' b (2 ^ (m + j)))

shifted : (n b : ℕ) → n ≤ 64 → u64 (b * 2 ^ n) ≡ b % 2 ^ (64 - n) * 2 ^ n
shifted n b room = omega (
  arith,
  ap (λ (t : ℕ). (b * 2 ^ n + 0) % 2 ^ t) all_bits,
  front_mod (64 - n) n b 0 (one-le-pow n 2 (omega arith)),
  ap (λ (t : ℕ). t % 2 ^ 64) nothing,
)
  where
    all_bits : 64 - n + n ≡ 64
    all_bits = omega arith

    nothing : b * 2 ^ n + 0 ≡ b * 2 ^ n
    nothing = omega arith

low_bits :
    (m n b v : ℕ)
    → m + n ≤ 64
    → v < 2 ^ n
    → (b % 2 ^ (64 - n) * 2 ^ n + v) % 2 ^ (m + n) ≡ b % 2 ^ m * 2 ^ n + v
low_bits m n b v room fits =
    front_mod m n (b % 2 ^ (64 - n)) v fits
    ∙ ap (λ (t : ℕ). t * 2 ^ n + v)
        (ap (λ (t : ℕ). b % 2 ^ t % 2 ^ m) parts ∙ mod_pow m (64 - n - m) b)
  where
    parts : 64 - n ≡ m + (64 - n - m)
    parts = omega arith

-- The low bits of the buffer are what was written.
append_bits-low :
    (v n : ℕ) (w : Writer)
    → v < 2 ^ n
    → w.n + n ≤ 64
    → (append_bits v n w).bits % 2 ^ (w.n + n) ≡ w.bits % 2 ^ w.n * 2 ^ n + v
unfolding append_bits
append_bits-low v n w fits room =
    ap (λ t. t % 2 ^ (w.n + n))
      (ap (λ t. bit_or t v) (shifted n w.bits (omega arith))
        ∙ or_join n (w.bits % 2 ^ (64 - n)) v fits)
    ∙ low_bits w.n n w.bits v room fits

to_bytes-num : (k v : ℕ) → num (to_bytes k v) ≡ v % 2 ^ (k * 8)
unfolding to_bytes num
to_bytes-num zero v = omega arith
to_bytes-num (suc k) v = omega (
  arith,
  ap (λ (t : ℕ). u8 (v >>> (k * 8)) * 2 ^ (t * 8)) (length-to_bytes k v),
  to_bytes-num k v,
  front_mod 8 (k * 8) (v / 2 ^ (k * 8)) (v % 2 ^ (k * 8))
      (mod-lt v (one-le-pow (k * 8) 2 (omega arith))),
  ap (λ (t : ℕ). t % 2 ^ (8 + k * 8)) (div-add-mod' v (2 ^ (k * 8))),
  ap (λ (t : ℕ). v % 2 ^ t) more,
)
  where
    more : suc k * 8 ≡ 8 + k * 8
    more = omega arith

write_one : (v n : ℕ) (w : Writer) → w.n + n ≤ 64 → write_bits64 v n w ≡ append_bits v n w
unfolding write_bits64
write_one v n w room =
    let direct : ltb 64 (w.n + n) ≡ false = ground (arith, room) in rw direct refl

write_fields_lem :
    (fields : Fields) (w : Writer)
    → All IsField fields
    → w.n + width fields ≤ 64
    → ((write_fields fields w).out ≡ w.out)
      × ((write_fields fields w).n ≡ w.n + width fields)
      × ((write_fields fields w).bits % 2 ^ (w.n + width fields)
          ≡ w.bits % 2 ^ w.n * 2 ^ width fields + joined fields)
unfolding write_fields width joined
write_fields_lem [] w h room =
    (refl, omega arith, ap (λ (t : ℕ). w.bits % 2 ^ t) same ∙ omega arith)
  where
    same : w.n + 0 ≡ w.n
    same = omega arith
write_fields_lem ((n, v) ∷ fields) w ((_, fits), h) room =
    let low = append_bits-low v n w fits (omega arith) in
    let (out, count, bits) =
      write_fields_lem fields (append_bits v n w) h (unfold append_bits in omega arith) in
    rw (write_fields, write_one v n w (omega arith))
      (
        out ∙ (unfold append_bits in refl),
        count ∙ (unfold append_bits in omega arith),
        ap (λ (t : ℕ). (write_fields fields (append_bits v n w)).bits % 2 ^ t)
              (sym (next n v w fields))
            ∙ bits
            ∙ together n v w fields low,
      )
  where
    next :
        (n v : ℕ) (w : Writer) (fields : Fields)
        → (append_bits v n w).n + width fields ≡ w.n + (n + width fields)
    next n v w fields = unfold append_bits in omega arith

    together :
        (n v : ℕ) (w : Writer) (fields : Fields)
        → (append_bits v n w).bits % 2 ^ (w.n + n) ≡ w.bits % 2 ^ w.n * 2 ^ n + v
        → (append_bits v n w).bits % 2 ^ (append_bits v n w).n * 2 ^ width fields + joined fields
          ≡ w.bits % 2 ^ w.n * 2 ^ (n + width fields) + (v * 2 ^ width fields + joined fields)
    together n v w fields low = omega (
      arith,
      ap (λ (t : ℕ). (append_bits v n w).bits % 2 ^ t * 2 ^ width fields) (count_of n v w),
      ap (λ (t : ℕ). t * 2 ^ width fields) low,
      ap (λ (t : ℕ). w.bits % 2 ^ w.n * t) (pow_add n (width fields)),
    )
      where
        count_of : (n v : ℕ) (w : Writer) → (append_bits v n w).n ≡ w.n + n
        count_of n v w = unfold append_bits in refl

-- The zero bits behind the last field, up to a whole byte.
unfoldable pub padding : ℕ → ℕ
padding n = if n % 8 == 0 then 0 else 8 - n % 8

no_padding : 0 + padding 0 ≡ 0
unfolding padding
no_padding = refl

no_bits : (b : ℕ) → b % 2 ^ 0 * 2 ^ padding 0 ≡ 0
unfolding padding
no_bits b = omega arith

padded : (n : ℕ) → (n + 7) / 8 * 8 ≡ n + padding n
unfolding padding
padded n = ground arith

left_align-low :
    (n b : ℕ)
    → n + padding n ≤ 64
    → left_align n b % 2 ^ (n + padding n) ≡ b % 2 ^ n * 2 ^ padding n
unfolding left_align padding
left_align-low n b room = elim (Bool-cases (n % 8 == 0)) [
  | inl whole ↦ rw whole (ap (λ (t : ℕ). b % 2 ^ t) none_more ∙ omega arith)
  | inr part ↦ rw part (
      ap (λ (t : ℕ). t % 2 ^ (n + (8 - n % 8))) (shifted (8 - n % 8) b (omega arith) ∙ omega arith)
      ∙ low_bits n (8 - n % 8) b 0 (rw part at room) (one-le-pow (8 - n % 8) 2 (omega arith))
      ∙ omega arith)
]
  where
    none_more : n + 0 ≡ n
    none_more = omega arith

flush_bits-num :
    (w : Writer)
    → w.n ≤ 64
    → w.out ≡ []
    → (num (flush_bits w).out ≡ w.bits % 2 ^ w.n * 2 ^ padding w.n)
      × (length (flush_bits w).out * 8 ≡ w.n + padding w.n)
      × All IsByte (flush_bits w).out
unfolding flush_bits
flush_bits-num w room nothing = elim (Bool-cases (w.n == 0)) [
  | inl empty ↦
      let none_left : w.n ≡ 0 = (==_iff w.n 0).0 empty in
      rw (empty, nothing)
        (
          (unfold num in
              sym (ap (λ (t : ℕ). w.bits % 2 ^ t * 2 ^ padding t) none_left ∙ no_bits w.bits)),
          sym (ap (λ (t : ℕ). t + padding t) none_left ∙ no_padding),
          tt,
        )
  | inr some_bits ↦
      let want = (w.n + 7) / 8 in
      let bytes = to_bytes want (left_align w.n w.bits) in
      rw (some_bits, nothing)
        (
          to_bytes-num want (left_align w.n w.bits)
              ∙ ap (λ (t : ℕ). left_align w.n w.bits % 2 ^ t) (padded w.n)
              ∙ left_align-low w.n w.bits (omega (arith, padded w.n)),
          ap (λ (t : ℕ). t * 8) (length-to_bytes want (left_align w.n w.bits)) ∙ padded w.n,
          to_bytes-All want (left_align w.n w.bits),
        )
]

-- A reader that has these fields in front, and `p` more bits of the value `t`.
abbrev pub Holds : Fields → ℕ → ℕ → Reader → Type 0
Holds fields p t r =
    All IsField fields
    × (t < 2 ^ p)
    × IsTight r
    × (value r ≡ joined fields * 2 ^ p + t)
    × (bits_left r ≡ width fields + p)

pub read_bits64-Holds :
    (n v : ℕ) (fields : Fields) (p t : ℕ) (r : Reader)
    → Holds ((n, v) ∷ fields) p t r
    → (r' : Reader) × (read_bits64 n r ≡ some (v, r')) × Holds fields p t r'
unfolding width joined
read_bits64-Holds n v fields p t r (((few, fits), h), pad, tight, here, count) =
    let ((v', r'), step, (field, rest, left, tight')) =
      read_bits64-Takes n r tight few (omega arith) in
    let at : bits_left r - n ≡ width fields + p = omega arith in
    let behind = join-bound (width fields) p (joined fields) t (joined-bound fields h) pad in
    let parts : value r ≡ v * 2 ^ (width fields + p) + (joined fields * 2 ^ p + t) =
      omega (arith, here, ap (λ (z : ℕ). v * z) (pow_add (width fields) p)) in
    let same : v' ≡ v =
      field ∙ (rw (at, parts) (split_div v (joined fields * 2 ^ p + t) _ behind)) in
    let rest' : value r' ≡ joined fields * 2 ^ p + t =
      rest ∙ (rw (at, parts) (split_mod v (joined fields * 2 ^ p + t) _ behind)) in
    (r', step ∙ ap (λ z. some (z, r')) same, (h, pad, tight', rest', omega arith))

read_fields_lem :
    (fields : Fields) (p t : ℕ) (r : Reader)
    → Holds fields p t r
    → read_fields fields r ≡ some (values fields)
unfolding read_fields
read_fields_lem [] p t r holds = refl
read_fields_lem ((n, v) ∷ fields) p t r holds =
    let (r', step, holds') = read_bits64-Holds n v fields p t r holds in
    let later = read_fields_lem fields p t r' holds' in rw (step, later) refl

abbrev pub new_writer : Writer
new_writer = record { out = []; n = 0; bits = 0 }

abbrev pub reader_of : Bytes → Reader
reader_of out = record { source = out; n = 0; bits = 0 }

-- A reader over the bytes of some fields, whatever stands behind them.
pub write_fields-Holds :
    (fields : Fields) (behind : Bytes)
    → All IsField fields
    → width fields ≤ 64
    → All IsByte behind
    → Holds fields
        (padding (width fields) + length behind * 8)
        (num behind)
        (reader_of ((flush_bits (write_fields fields new_writer)).out ++ behind))
write_fields-Holds fields behind h room bytes =
    let w = write_fields fields new_writer in
    let (out, count, bits) = write_fields_lem fields new_writer h (omega arith) in
    let n_of : w.n ≡ width fields = omega (arith, count) in
    let (number, total, bytes') = flush_bits-num w (omega arith) out in
    let low : w.bits % 2 ^ w.n ≡ joined fields =
      omega (arith, ap (λ (t : ℕ). w.bits % 2 ^ t) count, bits) in
    let written = (flush_bits w).out in
    let pad : padding w.n ≡ padding (width fields) = ap padding n_of in
    (
      h,
      omega (
        arith,
        num-bound behind bytes,
        pow_add (padding (width fields)) (length behind * 8),
        mul-le-mul_right (2 ^ (length behind * 8))
            (one-le-pow (padding (width fields)) 2 (omega arith)),
      ),
      (omega arith, omega arith, All-append IsByte written behind bytes' bytes),
      omega (
        arith,
        num-append written behind,
        ap (λ (t : ℕ). t * 2 ^ (length behind * 8)) number,
        ap (λ (t : ℕ). t * 2 ^ padding w.n * 2 ^ (length behind * 8)) low,
        ap (λ (t : ℕ). joined fields * 2 ^ t * 2 ^ (length behind * 8)) pad,
        ap (λ (t : ℕ). joined fields * t) (pow_add (padding (width fields)) (length behind * 8)),
      ),
      omega (arith, length-append written behind, total, pad),
    )

-- Fields of 57 bits at most that have 64 bits together are read back from the bytes that WriteBits64
-- for each of them and FlushBits at the end have written.
pub read_fields-write_fields :
    (fields : Fields)
    → All IsField fields
    → width fields ≤ 64
    → read_fields fields (reader_of (flush_bits (write_fields fields new_writer)).out)
      ≡ some (values fields)
read_fields-write_fields fields h room =
    let holds = write_fields-Holds fields [] h room tt in
    ap (λ b. read_fields fields (reader_of b)) (sym (append-nil _))
    ∙ read_fields_lem fields _ _ _ holds
