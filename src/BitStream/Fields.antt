-- ===== src/BitStream/Fields.antt =====
-- Bit streams as numbers: what a reader has left and what a writer holds.
use native.Mathlib.Nat.{
  pow-suc, pow-le-pow_right, one-le-pow, mod-eq_of_lt, mod-lt, mul-add-mod_self_right,
  mul-le-mul_right, mul-add-div_right, div-eq_of_lt, div-div-eq-div-mul, div-add-mod',
}
use gomedia.Common.{
  ℕ, zero, suc, ◌+◌, ◌-◌, ◌*◌, ◌/◌, ◌%◌, ◌^◌, ◌≤◌, ◌<◌, ◌≡◌, refl, sym, ap, ◌∙◌, inl, inr, arith,
  ◌>>>◌, bit_or, bit_xor, or_join, xor_high, u64, IsByte, some, [], ◌∷◌, ◌++◌, length, take, drop,
  length-take, length-drop, length-append, take-append-drop, All, All-take, All-drop, ltb, ltb→lt,
  not-ltb→le, false, Bool-cases,
}
use gomedia.Pio.{Bytes}
use gomedia.BitStream.{Reader, shift_in, extract, refill, read_bits64}

pub pow_add : (m n : ℕ) → 2 ^ (m + n) ≡ 2 ^ m * 2 ^ n
pow_add m zero = omega (arith, ap (λ (t : ℕ). 2 ^ t) none_more)
  where
    none_more : m + 0 ≡ m
    none_more = omega arith
pow_add m (suc n) = omega (
  arith,
  ap (λ (t : ℕ). 2 ^ t) one_more,
  pow-suc 2 (m + n),
  pow-suc 2 n,
  ap (λ (t : ℕ). t * 2) (pow_add m n),
  ap (λ (t : ℕ). 2 ^ m * t) (pow-suc 2 n),
)
  where
    one_more : m + suc n ≡ suc (m + n)
    one_more = omega arith

-- Numbers of `m` and `n` bits next to each other have `m + n` bits.
pub join-bound : (m n a b : ℕ) → a < 2 ^ m → b < 2 ^ n → a * 2 ^ n + b < 2 ^ (m + n)
join-bound m n a b h k = omega (arith, pow_add m n, mul-le-mul_right {m = suc a} (2 ^ n) h)

eight_more : (n : ℕ) → 2 ^ (suc n * 8) ≡ 2 ^ 8 * 2 ^ (n * 8)
eight_more n = ap (λ (t : ℕ). 2 ^ t) more ∙ pow_add 8 (n * 8)
  where
    more : suc n * 8 ≡ 8 + n * 8
    more = omega arith

-- The bytes as one number, highest first, and how many bits it has.
unfoldable pub num : Bytes → ℕ
num [] = 0
num (b ∷ bs) = b * 2 ^ (length bs * 8) + num bs

pub num-bound : (bs : Bytes) → All IsByte bs → num bs < 2 ^ (length bs * 8)
unfolding num
num-bound [] h = omega arith
num-bound (b ∷ bs) (h, hs) = omega (
  arith,
  join-bound 8 (length bs * 8) b (num bs) h (num-bound bs hs),
  pow_add 8 (length bs * 8),
  eight_more (length bs),
)

pub num-append : (xs ys : Bytes) → num (xs ++ ys) ≡ num xs * 2 ^ (length ys * 8) + num ys
unfolding num
num-append [] ys = omega arith
num-append (x ∷ xs) ys = omega (
  arith,
  ap (λ (t : ℕ). x * 2 ^ t) both,
  ap (λ (t : ℕ). x * t) (pow_add (length xs * 8) (length ys * 8)),
  num-append xs ys,
)
  where
    both : length (xs ++ ys) * 8 ≡ length xs * 8 + length ys * 8
    both = omega (arith, length-append xs ys)

-- Two parts of a number, where the second has `P` values.
pub split_div : (q r P : ℕ) → r < P → (q * P + r) / P ≡ q
split_div q r P h = mul-add-div_right (omega arith) q r ∙ omega (arith, div-eq_of_lt h)

pub split_mod : (q r P : ℕ) → r < P → (q * P + r) % P ≡ r
split_mod q r P h = mul-add-mod_self_right q P r ∙ mod-eq_of_lt h

shift_in_lem :
    (bs : Bytes) (m v : ℕ)
    → All IsByte bs
    → v < 2 ^ m
    → m + length bs * 8 ≤ 64
    → shift_in bs v ≡ v * 2 ^ (length bs * 8) + num bs
unfolding shift_in num
shift_in_lem [] m v h fits room = omega arith
shift_in_lem (b ∷ bs) m v (h, hs) fits room =
    let below : v * 2 ^ 8 + b < 2 ^ (m + 8) = join-bound m 8 v b fits h in
    let small : 2 ^ (m + 8) ≤ 2 ^ 64 = pow-le-pow_right (omega arith) {j = 64} (omega arith) in
    let kept : u64 (v * 2 ^ 8) ≡ v * 2 ^ 8 = mod-eq_of_lt (omega arith) in
    let joined : bit_or (u64 (v * 2 ^ 8)) b ≡ v * 2 ^ 8 + b =
      ap (λ t. bit_or t b) kept ∙ or_join 8 v b h in
    ap (shift_in bs) joined
    ∙ shift_in_lem bs (m + 8) (v * 2 ^ 8 + b) hs below (omega arith)
    ∙ omega (arith, ap (λ t. v * t) (eight_more (length bs)))

-- What a reader has left: a number of so many bits.
abbrev pub IsTight : Reader → Type 0
IsTight r = (r.bits < 2 ^ r.n) × (r.n ≤ 64) × All IsByte r.source

abbrev pub bits_left : Reader → ℕ
bits_left r = r.n + length r.source * 8

abbrev pub value : Reader → ℕ
value r = r.bits * 2 ^ (length r.source * 8) + num r.source

-- The next `n` bits are taken off the front.
abbrev pub Takes : ℕ → Reader → ℕ × Reader → Type 0
Takes n r (v, r') =
    (v ≡ value r / 2 ^ (bits_left r - n))
    × (value r' ≡ value r % 2 ^ (bits_left r - n))
    × (bits_left r' ≡ bits_left r - n)
    × IsTight r'

-- The low `k` bits of a number in front of `P`, and what stands before them.
front_div : (k l b s : ℕ) → s < 2 ^ l → (b * 2 ^ l + s) / 2 ^ (k + l) ≡ b / 2 ^ k
front_div k l b s h =
    ap (λ (t : ℕ). (b * 2 ^ l + s) / t) (pow_add k l ∙ omega arith)
    ∙ sym (div-div-eq-div-mul (b * 2 ^ l + s) (2 ^ l) (2 ^ k))
    ∙ ap (λ (t : ℕ). t / 2 ^ k) (split_div b s (2 ^ l) h)

pub front_mod : (k l b s : ℕ) → s < 2 ^ l → (b * 2 ^ l + s) % 2 ^ (k + l) ≡ b % 2 ^ k * 2 ^ l + s
front_mod k l b s h =
    ap (λ (t : ℕ). t % 2 ^ (k + l)) parted
    ∙ split_mod (b / 2 ^ k) (b % 2 ^ k * 2 ^ l + s) (2 ^ (k + l))
        (join-bound k l (b % 2 ^ k) s (mod-lt b (one-le-pow k 2 (omega arith))) h)
  where
    parted : b * 2 ^ l + s ≡ b / 2 ^ k * 2 ^ (k + l) + (b % 2 ^ k * 2 ^ l + s)
    parted = omega (
      arith,
      ap (λ (t : ℕ). t * 2 ^ l) (div-add-mod' b (2 ^ k)),
      ap (λ (t : ℕ). b / 2 ^ k * t) (pow_add k l),
    )

extract-Takes : (n : ℕ) (r : Reader) → IsTight r → n ≤ r.n → Takes n r (extract n r)
unfolding extract
extract-Takes n r (fits, room, bytes) enough =
    let k = r.n - n in
    let l = length r.source * 8 in
    let at : bits_left r - n ≡ k + l = omega arith in
    let rest = num-bound r.source bytes in
    rw (at, xored)
      (
        sym (front_div k l r.bits (num r.source) rest),
        sym (front_mod k l r.bits (num r.source) rest),
        refl,
        (mod-lt r.bits (one-le-pow k 2 (omega arith)), omega arith, bytes),
      )
  where
    small : 2 ^ r.n ≤ 2 ^ 64
    small = pow-le-pow_right (omega arith) {j = 64} room

    kept : u64 (r.bits >>> (r.n - n) * 2 ^ (r.n - n)) ≡ r.bits / 2 ^ (r.n - n) * 2 ^ (r.n - n)
    kept = mod-eq_of_lt (omega (arith, small, div-add-mod' r.bits (2 ^ (r.n - n))))

    xored : bit_xor r.bits (u64 (r.bits >>> (r.n - n) * 2 ^ (r.n - n))) ≡ r.bits % 2 ^ (r.n - n)
    xored = ap (bit_xor r.bits) kept ∙ xor_high (r.n - n) r.bits

refill-value :
    (want : ℕ) (r : Reader)
    → IsTight r
    → want ≤ length r.source
    → r.n + want * 8 ≤ 64
    → IsTight (refill want r)
      × (value (refill want r) ≡ value r)
      × (bits_left (refill want r) ≡ bits_left r)
unfolding refill
refill-value want r (fits, _, bytes) enough room = (
  (
    rw shifted (
        omega (
          arith,
          ap (λ (t : ℕ). 2 ^ t) taken_bits,
          join-bound r.n (length (take want r.source) * 8) r.bits (num (take want r.source)) fits
              (num-bound (take want r.source) (All-take IsByte want r.source bytes)),
        )),
    room,
    All-drop IsByte want r.source bytes,
  ),
  rw shifted (
      omega (
        arith,
        ap num (sym (take-append-drop want r.source)),
        num-append (take want r.source) (drop want r.source),
        ap (λ (t : ℕ). r.bits * t)
            (pow_add (length (take want r.source) * 8) (length (drop want r.source) * 8)),
        ap (λ (t : ℕ). r.bits * 2 ^ t) all_bits,
      )),
  omega (arith, length-drop want r.source),
)
  where
    taken : length (take want r.source) ≡ want
    taken = omega (arith, length-take want r.source)

    taken_bits : r.n + length (take want r.source) * 8 ≡ r.n + want * 8
    taken_bits = omega (arith, taken)

    all_bits :
        length (take want r.source) * 8 + length (drop want r.source) * 8 ≡ length r.source * 8
    all_bits = omega (arith, taken, length-drop want r.source)

    shifted :
        shift_in (take want r.source) r.bits
        ≡ r.bits * 2 ^ (length (take want r.source) * 8) + num (take want r.source)
    shifted =
        shift_in_lem (take want r.source) r.n r.bits (All-take IsByte want r.source bytes) fits
          (omega (arith, taken))

-- The same number behind another count of bits.
div_at : (n : ℕ) {x y a b : ℕ} → x ≡ y → a ≡ b → x / 2 ^ (a - n) ≡ y / 2 ^ (b - n)
div_at n e f = cc

mod_at : (n : ℕ) {x y a b : ℕ} → x ≡ y → a ≡ b → x % 2 ^ (a - n) ≡ y % 2 ^ (b - n)
mod_at n e f = cc

-- ReadBits64 of up to 57 bits takes that many bits off the front of what is left, the bits in its
-- buffer and the bytes behind them, if there are as many.
pub read_bits64-Takes :
    (n : ℕ) (r : Reader)
    → IsTight r
    → n ≤ 57
    → n ≤ bits_left r
    → (answer : ℕ × Reader) × (read_bits64 n r ≡ some answer) × Takes n r answer
unfolding read_bits64 refill
read_bits64-Takes n r tight few enough = elim (Bool-cases (ltb r.n n)) [
  | inr here ↦ (extract n r, rw here refl, extract-Takes n r tight (not-ltb→le r.n n here))
  | inl short ↦
      let below = ltb→lt r.n n short in
      let want = (n - r.n + 7) / 8 in
      let source_enough : want ≤ length r.source = omega arith in
      let there : ltb (length r.source) want ≡ false = ground (arith, source_enough) in
      let (tight', same, left) = refill-value want r tight source_enough (omega arith) in
      let filled = refill want r in
      let (field, rest, count, tight'') = extract-Takes n filled tight' (omega arith) in
      (
        extract n filled,
        rw (short, there) refl,
        (field ∙ div_at n same left, rest ∙ mod_at n same left, omega arith, tight''),
      )
]
