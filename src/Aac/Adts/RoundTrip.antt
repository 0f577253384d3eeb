-- ===== src/Aac/Adts/RoundTrip.antt =====
-- An ADTS header that was filled in is read back.
use gomedia.Common.{
  ℕ, ◌+◌, ◌-◌, ◌*◌, ◌/◌, ◌%◌, ◌^◌, ◌>>>◌, ◌≤◌, ◌<◌, ◌≡◌, refl, ap, ◌∙◌, arith, bit_or, bit_and,
  and_low, or_join, lowest_bit, passes_below, passes_below_lem, u8, IsByte, Bool, true, false,
  ==_iff, some, ◌∷◌, get_elem?, ltb, leb, ◌==◌,
}
use gomedia.Pio.{Bytes}
use gomedia.Aac.{Mpeg4AudioConfig, sample_rate_table, chan_config_table, or_kept, complete}
use gomedia.Aac.Adts.{
  header, profile_of, rate_index_of, channels_of, framelen_of, samples_of, check_frame_length,
  parse_adts_header, filled, type_rate_byte, channels_byte, length_byte, samples_byte,
  fill_adts_header,
}

-- The masks that are no low bits, on bytes.
abbrev clears_two : ℕ → Bool
clears_two b = bit_and b 0xfc == b / 4 * 4

mask_fc : (b : ℕ) → IsByte b → bit_and b 0xfc ≡ b / 4 * 4
mask_fc b h = (==_iff _ _).0 (passes_below_lem clears_two 256 b h (unfold passes_below in refl))

abbrev third_bit : ℕ → Bool
third_bit b = bit_and b 0x4 == b / 4 % 2 * 4

mask_4 : (b : ℕ) → IsByte b → bit_and b 0x4 ≡ b / 4 % 2 * 4
mask_4 b h = (==_iff _ _).0 (passes_below_lem third_bit 256 b h (unfold passes_below in refl))

type_rate_lem :
    (c : Mpeg4AudioConfig)
    → 0 < c.object_type
    → c.object_type ≤ 4
    → c.sample_rate_index < 13
    → c.channel_config < 8
    → type_rate_byte c ≡ (c.object_type - 1) * 64 + c.sample_rate_index * 4 + c.channel_config / 4
unfolding type_rate_byte
type_rate_lem c typed few rate channels =
    let a = c.object_type - 1 in
    let i = c.sample_rate_index in
    let q = c.channel_config / 4 in
    let profile : u8 (bit_and (u8 (c.object_type - 1)) 0x3 * 2 ^ 6) ≡ (c.object_type - 1) * 2 ^ 6 =
      omega (arith, and_low 2 (u8 (c.object_type - 1)) 3 refl) in
    let index : u8 (bit_and (u8 c.sample_rate_index) 0xf * 2 ^ 2) ≡ c.sample_rate_index * 4 =
      omega (arith, and_low 4 (u8 c.sample_rate_index) 15 refl) in
    let channel : bit_and (u8 (c.channel_config >>> 2)) 0x1 ≡ c.channel_config / 4 =
      omega (arith, lowest_bit (u8 (c.channel_config >>> 2))) in
    let regroup : a * 2 ^ 6 + i * 4 ≡ (a * 16 + i) * 2 ^ 2 = omega arith in
    rw (profile, index, channel)
      (ap (λ t. bit_or t q) (or_join 6 a (i * 4) (omega arith) ∙ regroup)
        ∙ or_join 2 (a * 16 + i) q (omega arith)
        ∙ omega arith)

-- Six low bits and two high ones.
abbrev high_behind : ℕ → Bool
high_behind v = bit_or (v % 64) (v / 64 * 2 ^ 6) == v / 64 * 2 ^ 6 + v % 64

or_swapped : (v : ℕ) → v < 256 → bit_or (v % 64) (v / 64 * 2 ^ 6) ≡ v / 64 * 2 ^ 6 + v % 64
or_swapped v h = (==_iff _ _).0 (passes_below_lem high_behind 256 v h (unfold passes_below in refl))

channels_lem :
    (old len : ℕ) (c : Mpeg4AudioConfig)
    → IsByte old
    → c.channel_config < 8
    → len < 2 ^ 13
    → channels_byte old c len ≡ c.channel_config % 4 * 64 + old % 64 / 4 * 4 + len / 2 ^ 11
unfolding channels_byte
channels_lem old len c byte channels bound =
    let q = c.channel_config % 4 in
    let x = len / 2 ^ 11 in
    let kept : bit_and old 0x3f ≡ old % 64 = and_low 6 old 63 refl in
    let channel : u8 (u8 (bit_and c.channel_config 0x3) * 2 ^ 6) ≡ c.channel_config % 4 * 2 ^ 6 =
      omega (arith, and_low 2 c.channel_config 3 refl) in
    let high : bit_and (u8 (len >>> 11)) 0x3 ≡ len / 2 ^ 11 =
      omega (arith, and_low 2 (u8 (len >>> 11)) 3 refl) in
    let low_part : (q * 64 + old % 64) % 64 ≡ old % 64 = omega arith in
    let high_part : (q * 64 + old % 64) / 64 ≡ q = omega arith in
    let both : bit_or (old % 64) (q * 2 ^ 6) ≡ q * 2 ^ 6 + old % 64 =
      (rw (low_part, high_part) at (or_swapped (q * 64 + old % 64) (omega arith))) in
    let cleared : bit_and (q * 2 ^ 6 + old % 64) 0xfc ≡ (q * 16 + old % 64 / 4) * 2 ^ 2 =
      mask_fc (q * 2 ^ 6 + old % 64) (omega arith) ∙ omega arith in
    rw (kept, channel, high)
      (ap (λ t. bit_or (bit_and t 0xfc) x) both
        ∙ ap (λ t. bit_or t x) cleared
        ∙ or_join 2 (q * 16 + old % 64 / 4) x (omega arith)
        ∙ omega arith)

abbrev ones_behind : ℕ → Bool
ones_behind x = bit_or (bit_and 0xff 0x1f) (x * 2 ^ 5) == x * 32 + 31

length_lem : (len : ℕ) → length_byte len ≡ len % 8 * 32 + 31
unfolding length_byte
length_lem len =
    let low : u8 (bit_and (u8 len) 0x7 * 2 ^ 5) ≡ len % 8 * 2 ^ 5 =
      omega (arith, and_low 3 (u8 len) 7 refl) in
    rw low (
      (==_iff _ _).0
        (passes_below_lem ones_behind 8 (len % 8) (omega arith) (unfold passes_below in refl)))

abbrev counts : ℕ → Bool
counts k = (bit_and (bit_or (bit_and 0xff 0xfc) (u8 k)) 0x3 + 1) * 1024 == (k + 1) * 1024

samples_lem : (k : ℕ) → k < 4 → samples_of (samples_byte ((k + 1) * 1024)) ≡ (k + 1) * 1024
unfolding samples_of samples_byte
samples_lem k few =
    let count : (k + 1) * 1024 / 1024 - 1 ≡ k = omega arith in
    rw count ((==_iff _ _).0 (passes_below_lem counts 4 k few (unfold passes_below in refl)))

channels_of_lem : (b2 b3 : ℕ) → channels_of b2 b3 ≡ b2 % 2 * 4 + b3 / 64 % 4
unfolding channels_of
channels_of_lem b2 b3 =
    let high : bit_and (u8 (b2 * 2 ^ 2)) 0x4 ≡ b2 % 2 * 2 ^ 2 =
      mask_4 (u8 (b2 * 2 ^ 2)) (omega arith) ∙ omega arith in
    let low : bit_and (b3 >>> 6) 0x3 ≡ b3 / 64 % 4 = and_low 2 (b3 >>> 6) 3 refl in
    rw (high, low) (or_join 2 (b2 % 2) (b3 / 64 % 4) (omega arith) ∙ omega arith)

framelen_of_lem :
    (b3 b4 b5 : ℕ) → IsByte b4 → IsByte b5 → framelen_of b3 b4 b5 ≡ b3 % 4 * 2048 + b4 * 8 + b5 / 32
unfolding framelen_of
framelen_of_lem b3 b4 b5 h k =
    let high : bit_and b3 0x3 * 2 ^ 11 ≡ b3 % 4 * 2 ^ 11 = omega (arith, and_low 2 b3 3 refl) in
    let regroup : b3 % 4 * 2 ^ 11 + b4 * 2 ^ 3 ≡ (b3 % 4 * 256 + b4) * 2 ^ 3 = omega arith in
    rw high (
      ap (λ t. bit_or t (b5 / 32)) (or_join 11 (b3 % 4) (b4 * 2 ^ 3) (omega arith) ∙ regroup)
      ∙ or_join 3 (b3 % 4 * 256 + b4) (b5 / 32) (omega arith)
      ∙ omega arith)

-- What an ADTS header can say of a config, and of a frame of so many blocks of 1024 samples.
abbrev pub IsAdtsConfig : Mpeg4AudioConfig → Type 0
IsAdtsConfig c =
    (0 < c.object_type)
    × (c.object_type ≤ 4)
    × (c.sample_rate_index < 13)
    × (get_elem? sample_rate_table c.sample_rate_index ≡ some c.sample_rate)
    × (c.channel_config < 8)
    × (get_elem? chan_config_table c.channel_config ≡ some c.channel_layout)

abbrev pub header_bytes : ℕ → Bytes → Mpeg4AudioConfig → ℕ → ℕ → Bytes
header_bytes old rest c samples len =
    0xff
    ∷ 0xf1
    ∷ type_rate_byte c
    ∷ channels_byte old c len
    ∷ u8 (len >>> 3)
    ∷ length_byte len
    ∷ samples_byte samples
    ∷ rest

pub fill-header_bytes :
    (b0 b1 b2 b3 b4 b5 b6 : ℕ) (rest : Bytes) (c : Mpeg4AudioConfig) (k payload : ℕ)
    → IsAdtsConfig c
    → payload + 7 < 2 ^ 13
    → fill_adts_header (b0 ∷ b1 ∷ b2 ∷ b3 ∷ b4 ∷ b5 ∷ b6 ∷ rest) c ((k + 1) * 1024) payload
      ≡ filled (header_bytes b3 rest c ((k + 1) * 1024) (payload + 7))
unfolding fill_adts_header
fill-header_bytes b0 b1 b2 b3 b4 b5 b6 rest c k payload (typed, few, rate, _, channels, _) bound =
    let t1 : c.object_type == 0 ≡ false = ground (arith, typed) in
    let t2 : leb 13 c.sample_rate_index ≡ false = ground (arith, rate) in
    let t3 : leb 8 c.channel_config ≡ false = ground (arith, channels) in
    let t4 : (k + 1) * 1024 == 0 ≡ false = ground arith in
    let t5 : (k + 1) * 1024 % 1024 == 0 ≡ true = ground arith in
    let t6 : leb (2 ^ 13) (payload + 7) ≡ false = ground (arith, bound) in
    rw (t1, t2, t3, t4, t5, t6) refl

pub parse-header_bytes :
    (old : ℕ) (rest : Bytes) (c : Mpeg4AudioConfig) (k len : ℕ)
    → IsByte old
    → IsAdtsConfig c
    → k < 4
    → 7 ≤ len
    → len < 2 ^ 13
    → parse_adts_header (header_bytes old rest c ((k + 1) * 1024) len)
      ≡ header (record { config = c; hdrlen = 7; framelen = len; samples = (k + 1) * 1024 })
unfolding parse_adts_header check_frame_length complete or_kept
parse-header_bytes old rest c k len byte (typed, few, rate, rated, channels, laid) blocks enough
      bound =
    let b2 = type_rate_lem c typed few rate channels in
    let b3 = channels_lem old len c byte channels bound in
    let b5 = length_lem len in
    let index : rate_index_of (type_rate_byte c) ≡ c.sample_rate_index =
      unfold rate_index_of in omega (arith, b2, and_low 4 (type_rate_byte c >>> 2) 15 refl) in
    let profile : profile_of (type_rate_byte c) ≡ c.object_type =
      unfold profile_of in omega (arith, b2) in
    let channel : channels_of (type_rate_byte c) (channels_byte old c len) ≡ c.channel_config =
      omega (arith, b2, b3, channels_of_lem (type_rate_byte c) (channels_byte old c len)) in
    let frame : framelen_of (channels_byte old c len) (u8 (len >>> 3)) (length_byte len) ≡ len =
      omega (
        arith,
        b3,
        b5,
        framelen_of_lem (channels_byte old c len) (u8 (len >>> 3)) (length_byte len) (omega arith)
            (omega (arith, b5)),
      ) in
    let t1 : leb 13 c.sample_rate_index ≡ false = ground (arith, rate) in
    let t2 : leb 8 c.channel_config ≡ false = ground (arith, channels) in
    let t3 : ltb len 7 ≡ false = ground (arith, enough) in
    rw (index, channel, profile, frame, samples_lem k blocks, t1, t2, t3, rated, laid) refl

-- ParseADTSHeader reads what FillADTSHeader put into a buffer of seven bytes or more, whatever the
-- buffer held: for the object types 1 to 4, a rate and a layout that are those of their indices, up
-- to four blocks of 1024 samples, and a frame of less than 2 ^ 13 bytes.
pub parse-fill_adts_header :
    (b0 b1 b2 b3 b4 b5 b6 : ℕ) (rest : Bytes) (c : Mpeg4AudioConfig) (k payload : ℕ)
    → IsByte b3
    → IsAdtsConfig c
    → k < 4
    → payload + 7 < 2 ^ 13
    → (bytes : Bytes) × (fill_adts_header
          (b0 ∷ b1 ∷ b2 ∷ b3 ∷ b4 ∷ b5 ∷ b6 ∷ rest)
          c
          ((k + 1) * 1024)
          payload
        ≡ filled bytes)
      × (parse_adts_header bytes
          ≡ header
              (record { config = c; hdrlen = 7; framelen = payload + 7; samples = (k + 1) * 1024 }))
parse-fill_adts_header b0 b1 b2 b3 b4 b5 b6 rest c k payload byte adts blocks bound = (
  header_bytes b3 rest c ((k + 1) * 1024) (payload + 7),
  fill-header_bytes b0 b1 b2 b3 b4 b5 b6 rest c k payload adts bound,
  parse-header_bytes b3 rest c k (payload + 7) byte adts blocks (omega arith) bound,
)
