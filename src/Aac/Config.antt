-- ===== src/Aac/Config.antt =====
-- An AudioSpecificConfig that was written is read back.
use gomedia.Common.{
  ℕ, zero, suc, ◌+◌, ◌-◌, ◌^◌, ◌≤◌, ◌<◌, ◌≡◌, refl, sym, ap, ◌∙◌, ◌⊎◌, inl, inr, arith, true, false,
  Bool-cases, suc-ne-zero, some, [], ◌∷◌, ◌++◌, length, length-append, get_elem?, get_elem?-none,
  leb, ◌==◌, if◌then◌else◌, All, IsByte,
}
use mathlib.Core.Option.{some-injective}
use gomedia.Pio.{Bytes}
use gomedia.BitStream.{Reader, Writer, write_bits64, flush_bits}
use gomedia.BitStream.RoundTrip.{
  Fields, write_fields, width, IsField, Holds, read_bits64-Holds, write_fields-Holds, new_writer,
  reader_of,
}
use gomedia.Aac.{
  Mpeg4AudioConfig, sample_rate_table, chan_config_table, or_kept, complete, object_type_of,
  escaped_type, read_object_type, explicit_rate, escaped_rate, read_sample_rate_index, parsed,
  parse_channels, parse_rate, parse_type, parse_config, write_object_type, write_sample_rate_index,
  last_index, index_or_found, config_suffix, write_config,
}

-- The fields of a config.
abbrev pub type_fields : ℕ → Fields → Fields
type_fields ot rest = if leb 32 ot then (5, 31) ∷ (6, ot - 32) ∷ rest else (5, ot) ∷ rest

abbrev pub rate_fields : ℕ → ℕ → Fields → Fields
rate_fields index hz rest = if leb 15 index then (4, 15) ∷ (24, hz) ∷ rest else (4, index) ∷ rest

-- A config whose rate and layout are those of its indices, or a rate of its own with the index 15.
abbrev pub HasType : Mpeg4AudioConfig → Type 0
HasType c = (c.object_type < 31) ⊎ ((32 ≤ c.object_type) × (c.object_type < 96))

abbrev pub HasRate : Mpeg4AudioConfig → Type 0
HasRate c =
    ((c.sample_rate_index < 13)
      × (get_elem? sample_rate_table c.sample_rate_index ≡ some c.sample_rate))
    ⊎ ((c.sample_rate_index ≡ 15) × (c.sample_rate < 2 ^ 24))

abbrev pub HasLayout : Mpeg4AudioConfig → Type 0
HasLayout c =
    ((c.channel_config < 8)
      × (get_elem? chan_config_table c.channel_config ≡ some c.channel_layout))
    ⊎ ((8 ≤ c.channel_config) × (c.channel_config < 16) × (c.channel_layout ≡ 0))

-- Readers of fields in front.
read_object_type-Holds :
    (c : Mpeg4AudioConfig) (rest : Fields) (p t : ℕ) (r : Reader)
    → HasType c
    → Holds (type_fields c.object_type rest) p t r
    → (r' : Reader) × (read_object_type r ≡ some (c.object_type, r')) × Holds rest p t r'
unfolding read_object_type escaped_type object_type_of
read_object_type-Holds c rest p t r (inl low) holds =
    let short : leb 32 c.object_type ≡ false = ground (arith, low) in
    let plain : c.object_type == 31 ≡ false = ground (arith, low) in
    let (r', step, holds') = read_bits64-Holds 5 c.object_type rest p t r (rw short at holds) in
    (r', rw (step, plain) refl, holds')
read_object_type-Holds c rest p t r (inr (high, _)) holds =
    let long : leb 32 c.object_type ≡ true = ground (arith, high) in
    let (r1, step1, holds1) =
      read_bits64-Holds 5 31 ((6, c.object_type - 32) ∷ rest) p t r (rw long at holds) in
    let (r2, step2, holds2) = read_bits64-Holds 6 (c.object_type - 32) rest p t r1 holds1 in
    (r2, rw (step1, step2) (ap (λ v. some (v, r2)) (omega arith)), holds2)

read_rate-Holds :
    (c : Mpeg4AudioConfig) (rest : Fields) (p t : ℕ) (r : Reader)
    → HasRate c
    → Holds (rate_fields c.sample_rate_index c.sample_rate rest) p t r
    → (hz : ℕ) × (r' : Reader) × (read_sample_rate_index r ≡ some ((c.sample_rate_index, hz), r'))
      × Holds rest p t r'
      × (or_kept (get_elem? sample_rate_table c.sample_rate_index) hz ≡ c.sample_rate)
unfolding read_sample_rate_index escaped_rate explicit_rate or_kept
read_rate-Holds c rest p t r (inl (low, found)) holds =
    let short : leb 15 c.sample_rate_index ≡ false = ground (arith, low) in
    let plain : c.sample_rate_index == 15 ≡ false = ground (arith, low) in
    let (r', step, holds') =
      read_bits64-Holds 4 c.sample_rate_index rest p t r (rw short at holds) in
    (0, r', rw (step, plain) refl, holds', rw found refl)
read_rate-Holds c rest p t r (inr (escape, _)) holds =
    let (r1, step1, holds1) =
      read_bits64-Holds 4 15 ((24, c.sample_rate) ∷ rest) p t r (rw escape at holds) in
    let (r2, step2, holds2) = read_bits64-Holds 24 c.sample_rate rest p t r1 holds1 in
    (c.sample_rate, r2, rw (escape, step1, step2) refl, holds2, rw escape refl)

type_fields-All :
    (c : Mpeg4AudioConfig) (rest : Fields)
    → HasType c
    → All IsField rest
    → All IsField (type_fields c.object_type rest)
      × (width (type_fields c.object_type rest) ≤ 11 + width rest)
unfolding width
type_fields-All c rest (inl low) h =
    let short : leb 32 c.object_type ≡ false = ground (arith, low) in
    rw short (((omega arith, omega arith), h), omega arith)
type_fields-All c rest (inr (high, bound)) h =
    let long : leb 32 c.object_type ≡ true = ground (arith, high) in
    rw long (((omega arith, omega arith), ((omega arith, omega arith), h)), omega arith)

rate_fields-All :
    (c : Mpeg4AudioConfig) (rest : Fields)
    → HasRate c
    → All IsField rest
    → All IsField (rate_fields c.sample_rate_index c.sample_rate rest)
      × (width (rate_fields c.sample_rate_index c.sample_rate rest) ≤ 28 + width rest)
unfolding width
rate_fields-All c rest (inl (low, _)) h =
    let short : leb 15 c.sample_rate_index ≡ false = ground (arith, low) in
    rw short (((omega arith, omega arith), h), omega arith)
rate_fields-All c rest (inr (escape, bound)) h =
    rw escape (((omega arith, omega arith), ((omega arith, bound), h)), omega arith)

-- The writer's calls are those for the fields.
write_object_type-fields :
    (ot : ℕ) (rest : Fields) (w : Writer)
    → write_fields (type_fields ot rest) w ≡ write_fields rest (write_object_type ot w)
unfolding write_fields write_object_type
write_object_type-fields ot rest w = elim (Bool-cases (leb 32 ot)) [
  | inl long ↦ rw long refl
  | inr short ↦ rw short refl
]

write_rate-fields :
    (index hz : ℕ) (rest : Fields) (w : Writer)
    → write_fields (rate_fields index hz rest) w
      ≡ write_fields rest (write_sample_rate_index index hz w)
unfolding write_fields write_sample_rate_index
write_rate-fields index hz rest w = elim (Bool-cases (leb 15 index)) [
  | inl escape ↦ rw escape refl
  | inr short ↦ rw short refl
]

-- The loops over the tables leave the indices of such a config.
rate_index_kept :
    (c : Mpeg4AudioConfig)
    → HasRate c
    → index_or_found c.sample_rate_index c.sample_rate sample_rate_table ≡ c.sample_rate_index
unfolding index_or_found
rate_index_kept c (inr (escape, _)) = rw escape refl
rate_index_kept c (inl (low, found)) = go c.sample_rate_index found
  where
    go :
        (index : ℕ)
        → get_elem? sample_rate_table index ≡ some c.sample_rate
        → (if index == 0 then last_index c.sample_rate sample_rate_table 0 index else index) ≡ index
    go zero found = unfold last_index in rw (sym (some-injective _ _ found)) refl
    go (suc index) found = rw (suc-ne-zero index) refl

channels_kept :
    (c : Mpeg4AudioConfig)
    → HasLayout c
    → index_or_found c.channel_config c.channel_layout chan_config_table ≡ c.channel_config
unfolding index_or_found
channels_kept c (inr (reserved, _, _)) =
    let some_channels : c.channel_config == 0 ≡ false = ground (arith, reserved) in
    rw some_channels refl
channels_kept c (inl (low, found)) = go c.channel_config found
  where
    go :
        (index : ℕ)
        → get_elem? chan_config_table index ≡ some c.channel_layout
        → (if index == 0 then last_index c.channel_layout chan_config_table 0 index else index)
          ≡ index
    go zero found = unfold last_index in rw (sym (some-injective _ _ found)) refl
    go (suc index) found = rw (suc-ne-zero index) refl

layout_of :
    (c : Mpeg4AudioConfig)
    → HasLayout c
    → (or_kept (get_elem? chan_config_table c.channel_config) 0 ≡ c.channel_layout)
      × (c.channel_config < 16)
unfolding or_kept
layout_of c (inl (low, found)) = (rw found refl, omega arith)
layout_of c (inr (reserved, bound, none_known)) =
    (rw (get_elem?-none chan_config_table c.channel_config reserved) (sym none_known), bound)

abbrev fields_of : Mpeg4AudioConfig → Fields
fields_of c =
    type_fields c.object_type
      (rate_fields c.sample_rate_index c.sample_rate ((4, c.channel_config) ∷ []))

write_config-fields :
    (c : Mpeg4AudioConfig)
    → HasRate c
    → HasLayout c
    → write_config c ≡ (flush_bits (write_fields (fields_of c) new_writer)).out ++ config_suffix
unfolding write_config
write_config-fields c has_rate has_layout =
    rw (rate_index_kept c has_rate, channels_kept c has_layout)
      (ap (λ w. (flush_bits w).out ++ config_suffix) (sym written))
  where
    written :
        write_fields (fields_of c) new_writer
        ≡ write_bits64 c.channel_config 4 (
            write_sample_rate_index c.sample_rate_index c.sample_rate
              (write_object_type c.object_type new_writer))
    written =
        write_object_type-fields c.object_type _ new_writer
        ∙ write_rate-fields c.sample_rate_index c.sample_rate ((4, c.channel_config) ∷ []) _
        ∙ (unfold write_fields in refl)

parse_config-Holds :
    (c : Mpeg4AudioConfig) (bytes : Bytes) (p t : ℕ)
    → HasType c
    → HasRate c
    → HasLayout c
    → 0 < length bytes
    → Holds (fields_of c) p t (reader_of bytes)
    → parse_config bytes ≡ parsed c
unfolding parse_config parse_type parse_rate parse_channels complete
parse_config-Holds c bytes p t has_type has_rate has_layout some_bytes holds =
    let there : length bytes == 0 ≡ false = ground (arith, some_bytes) in
    let rest = rate_fields c.sample_rate_index c.sample_rate ((4, c.channel_config) ∷ []) in
    let (r1, type_read, holds1) =
      read_object_type-Holds c rest p t (reader_of bytes) has_type holds in
    let (hz, r2, rate_read, holds2, rate) =
      read_rate-Holds c ((4, c.channel_config) ∷ []) p t r1 has_rate holds1 in
    let (r3, channels_read, _) = read_bits64-Holds 4 c.channel_config [] p t r2 holds2 in
    let (layout, _) = layout_of c has_layout in
    rw (there, type_read, rate_read, channels_read, rate, layout) refl

-- ParseMPEG4AudioConfigBytes reads the config that WriteMPEG4AudioConfig wrote, with an object type
-- of 5 bits other than the escape or of the escaped range, and with a rate and a layout that are
-- those of the indices, or a rate of its own.
pub parse_config-write_config :
    (c : Mpeg4AudioConfig)
    → HasType c
    → HasRate c
    → HasLayout c
    → parse_config (write_config c) ≡ parsed c
parse_config-write_config c has_type has_rate has_layout =
    let channels : Fields = (4, c.channel_config) ∷ [] in
    let rest = rate_fields c.sample_rate_index c.sample_rate channels in
    let (_, bound) = layout_of c has_layout in
    let (rates, rate_width) = rate_fields-All c channels has_rate ((omega arith, bound), tt) in
    let (all_fields, all_width) = type_fields-All c rest has_type rates in
    let four : width channels ≡ 4 = (unfold width in refl) in
    let holds =
      write_fields-Holds (fields_of c) config_suffix all_fields (omega arith) suffix_bytes in
    ap parse_config (write_config-fields c has_rate has_layout)
    ∙ parse_config-Holds c _ _ _ has_type has_rate has_layout
        (omega (
          arith,
          length-append (flush_bits (write_fields (fields_of c) new_writer)).out config_suffix,
        ))
        holds
  where
    suffix_bytes : All IsByte config_suffix
    suffix_bytes = ground arith
