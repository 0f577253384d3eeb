-- ===== src/Common/Bits.antt =====
-- Bytes and machine words, and `|` and `&` as arithmetic where they join or mask disjoint fields.
use Prim.Native.Nat.{
  ℕ, zero, suc, ◌+◌, ◌*◌, ◌/◌, ◌%◌, ◌^◌, ◌≤◌, ◌<◌, max, min, bit_and, bit_or, bitwise, digits,
  bit_or-bitwise, bit_and-bitwise, bit_xor, bit_xor-bitwise, differ,
}
use mathlib.Core.Path.{◌≡◌, refl, sym, ap, ◌∙◌}
use mathlib.Core.Bool.{Bool, true, ◌&&◌}
use native.Mathlib.Nat.{pow-suc, one-le-pow, div-div-eq-div-mul, div-add-mod'}
use native.Mathlib.Omega.{arith}

abbrev pub IsByte : ℕ → Type 0
IsByte b = b < 2 ^ 8

abbrev pub IsU16 : ℕ → Type 0
IsU16 v = v < 2 ^ 16

abbrev pub IsU32 : ℕ → Type 0
IsU32 v = v < 2 ^ 32

abbrev pub IsU64 : ℕ → Type 0
IsU64 v = v < 2 ^ 64

-- `byte(v)`, `uint16(v)`, `uint32(v)`, `uint64(v)`
abbrev pub u8 : ℕ → ℕ
u8 v = v % 2 ^ 8

abbrev pub u16 : ℕ → ℕ
u16 v = v % 2 ^ 16

abbrev pub u32 : ℕ → ℕ
u32 v = v % 2 ^ 32

abbrev pub u64 : ℕ → ℕ
u64 v = v % 2 ^ 64

-- `v >> k`
infixl 75 ◌>>>◌
abbrev pub ◌>>>◌ : ℕ → ℕ → ℕ
v >>> k = v / 2 ^ k

module _ (other : ℕ → ℕ) (op : ℕ → ℕ → ℕ) where
  -- More fuel than the number needs changes nothing.
  enough_fuel : (f g a b : ℕ) → a ≤ f → a ≤ g → digits other op f a b ≡ digits other op g a b
  enough_fuel zero zero zero b p q = refl
  enough_fuel zero (suc g) zero b p q = refl
  enough_fuel (suc f) zero zero b p q = refl
  enough_fuel (suc f) (suc g) zero b p q = refl
  enough_fuel zero g (suc a) b p q = absurd (omega arith)
  enough_fuel (suc f) zero (suc a) b p q = absurd (omega arith)
  enough_fuel (suc f) (suc g) (suc a) b p q =
      omega (arith, enough_fuel f g (suc a / 2) (b / 2) (omega arith) (omega arith))

  lowest_digit :
      (a b : ℕ)
      → bitwise other op (suc a) b
        ≡ bitwise other op (suc a / 2) (b / 2) * 2 + op (suc a % 2) (b % 2)
  lowest_digit a b =
      omega (arith, enough_fuel a (suc a / 2) (suc a / 2) (b / 2) (omega arith) (omega arith))

or_digit : (a b : ℕ) → bit_or a b ≡ bit_or (a / 2) (b / 2) * 2 + max (a % 2) (b % 2)
or_digit zero b = simp bit_or-bitwise (omega arith)
or_digit (suc a) b = simp bit_or-bitwise (lowest_digit (λ y. y) max a b)

or_zero_below : (n a : ℕ) → a ≤ n → bit_or a 0 ≡ a
or_zero_below n zero h = refl
or_zero_below zero (suc a) h = absurd (omega arith)
or_zero_below (suc n) (suc a) h =
    omega (arith, or_digit (suc a) 0, or_zero_below n (suc a / 2) (omega arith))

or_even : (i b : ℕ) → bit_or (i * 2) b ≡ bit_or i (b / 2) * 2 + b % 2
or_even i b = ground (arith, or_digit (i * 2) b, half, no_rest)
  where
    half : i * 2 / 2 ≡ i
    half = omega arith

    no_rest : max (i * 2 % 2) (b % 2) ≡ b % 2
    no_rest = omega arith

double_power : (i k : ℕ) → i * 2 ^ suc k ≡ i * 2 ^ k * 2
double_power i k = omega (arith, ap (λ (t : ℕ). i * t) (pow-suc 2 k))

-- `i << k | b` is a sum where `b` has `k` bits.
pub or_join : (k i b : ℕ) → b < 2 ^ k → bit_or (i * 2 ^ k) b ≡ i * 2 ^ k + b
or_join zero i b h = ground (arith, or_zero_below i i (omega arith))
or_join (suc k) i b h = ground (
  arith,
  double_power i k,
  or_even (i * 2 ^ k) b,
  or_join k i (b / 2) (omega (arith, pow-suc 2 k)),
)

pub or_byte : (i b : ℕ) → IsByte b → bit_or (i * 256) b ≡ i * 256 + b
or_byte i b h = or_join 8 i b h

and_digit : (a b : ℕ) → bit_and a b ≡ bit_and (a / 2) (b / 2) * 2 + min (a % 2) (b % 2)
and_digit zero b = simp bit_and-bitwise (omega arith)
and_digit (suc a) b = simp bit_and-bitwise (lowest_digit (λ _. 0) min a b)

nothing_below : (n a : ℕ) → a ≤ n → bit_and a 0 ≡ 0
nothing_below n zero h = refl
nothing_below zero (suc a) h = absurd (omega arith)
nothing_below (suc n) (suc a) h =
    omega (arith, and_digit (suc a) 0, nothing_below n (suc a / 2) (omega arith))

-- `v & 1`
pub lowest_bit : (a : ℕ) → bit_and a 1 ≡ a % 2
lowest_bit a = ground (arith, and_digit a 1, nothing_below (a / 2) (a / 2) (omega arith))

-- `v & (1<<k - 1)`
pub and_low : (k a m : ℕ) → m + 1 ≡ 2 ^ k → bit_and a m ≡ a % 2 ^ k
and_low zero a m full =
    omega (arith, nothing_below a a (omega arith), ap (λ t. bit_and a t) none_set)
  where
    none_set : m ≡ 0
    none_set = omega arith
and_low (suc k) a m full = omega (
  arith,
  and_digit a m,
  and_low k (a / 2) (m / 2) (omega (arith, pow-suc 2 k, one-le-pow k 2 (omega arith))),
  pow-suc 2 k,
  one-le-pow k 2 (omega arith),
  div-add-mod' (a / 2) (2 ^ k),
  div-add-mod' a (2 ^ suc k),
  same,
  ap (λ t. t * 2 ^ suc k) same,
  double_power (a / 2 / 2 ^ k) k,
)
  where
    same : a / 2 ^ suc k ≡ a / 2 / 2 ^ k
    same = ap (λ t. a / t) (omega (arith, pow-suc 2 k)) ∙ sym (div-div-eq-div-mul a 2 (2 ^ k))

xor_digit : (a b : ℕ) → bit_xor a b ≡ bit_xor (a / 2) (b / 2) * 2 + differ (a % 2) (b % 2)
xor_digit zero b = simp bit_xor-bitwise (omega arith)
xor_digit (suc a) b = simp bit_xor-bitwise (lowest_digit (λ y. y) differ a b)

differ_self : (d : ℕ) → differ d d ≡ 0
differ_self zero = refl
differ_self (suc d) = differ_self d

differ_zero : (d : ℕ) → differ d 0 ≡ d
differ_zero zero = refl
differ_zero (suc d) = refl

xor_self : (n a : ℕ) → a ≤ n → bit_xor a a ≡ 0
xor_self n zero h = refl
xor_self zero (suc a) h = absurd (omega arith)
xor_self (suc n) (suc a) h = omega (
  arith,
  xor_digit (suc a) (suc a),
  differ_self (suc a % 2),
  xor_self n (suc a / 2) (omega arith),
)

-- `v ^ (v >> k << k)` is the low `k` bits of `v`.
pub xor_high : (k a : ℕ) → bit_xor a (a / 2 ^ k * 2 ^ k) ≡ a % 2 ^ k
xor_high zero a = omega (arith, xor_self a a (omega arith), ap (λ t. bit_xor a t) whole)
  where
    whole : a / 2 ^ 0 * 2 ^ 0 ≡ a
    whole = omega arith
xor_high (suc k) a = omega (
  arith,
  xor_digit a (a / 2 ^ suc k * 2 ^ suc k),
  ap (λ t. bit_xor (a / 2) t) half,
  xor_high k (a / 2),
  ap (λ t. differ (a % 2) t) even,
  differ_zero (a % 2),
  double_power q k,
  div-add-mod' (a / 2) (2 ^ k),
  div-add-mod' a (2 ^ suc k),
  same,
  ap (λ t. t * 2 ^ k) same,
  ap (λ t. t * 2 ^ suc k) same,
)
  where
    q : ℕ
    q = a / 2 / 2 ^ k

    same : a / 2 ^ suc k ≡ q
    same = ap (λ t. a / t) (omega (arith, pow-suc 2 k)) ∙ sym (div-div-eq-div-mul a 2 (2 ^ k))

    half : a / 2 ^ suc k * 2 ^ suc k / 2 ≡ q * 2 ^ k
    half = omega (arith, double_power q k, ap (λ t. t * 2 ^ suc k) same)

    even : a / 2 ^ suc k * 2 ^ suc k % 2 ≡ 0
    even = omega (arith, double_power q k, ap (λ t. t * 2 ^ suc k) same)

-- Over a small range, a fact about `&` and `|` is checked at every value.
module _ (test : ℕ → Bool) where
  unfoldable pub passes_below : ℕ → Bool
  passes_below zero = true
  passes_below (suc bound) = passes_below bound && test bound

  pub passes_below_lem : (bound v : ℕ) → v < bound → passes_below bound ≡ true → test v ≡ true
  unfolding passes_below
  passes_below_lem zero v below passed = absurd (omega arith)
  passes_below_lem (suc bound) v below passed = ground (arith, passes_below_lem bound v)
