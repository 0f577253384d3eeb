-- ===== src/Aac/Adts.antt =====
-- ParseADTSHeader and FillADTSHeader of codec/aac/parser.go.
pub mod RoundTrip
use gomedia.Common.{
  ℕ, zero, suc, ◌+◌, ◌-◌, ◌*◌, ◌/◌, ◌%◌, ◌^◌, ◌>>>◌, bit_or, bit_and, u8, Bool, true, false, ◌&&◌,
  ◌||◌, not, Option, none, some, List, [], ◌∷◌, ◌++◌, length, ltb, leb, ◌==◌, if◌then◌else◌,
}
use gomedia.Pio.{Bytes}
use gomedia.Aac.{Mpeg4AudioConfig, sample_rate_table, chan_config_table, complete}

pub data AdtsError : Type 0 where
  short_header : AdtsError
  no_sync_word : AdtsError
  bad_sample_rate_index : AdtsError
  bad_channel_config : AdtsError
  short_protected_header : AdtsError
  bad_frame_length : AdtsError

pub record AdtsHeader : Type 0 where
  pub config : Mpeg4AudioConfig
  pub hdrlen : ℕ
  pub framelen : ℕ
  pub samples : ℕ

pub data AdtsAnswer : Type 0 where
  refused : AdtsError → AdtsAnswer
  header : AdtsHeader → AdtsAnswer

-- The fields of the header's bytes; `<<` on a byte drops the bits above it.
unfoldable pub profile_of : ℕ → ℕ
profile_of b2 = (b2 >>> 6) + 1

unfoldable pub rate_index_of : ℕ → ℕ
rate_index_of b2 = bit_and (b2 >>> 2) 0xf

unfoldable pub channels_of : ℕ → ℕ → ℕ
channels_of b2 b3 = bit_or (bit_and (u8 (b2 * 2 ^ 2)) 0x4) (bit_and (b3 >>> 6) 0x3)

unfoldable pub framelen_of : ℕ → ℕ → ℕ → ℕ
framelen_of b3 b4 b5 = bit_or (bit_or (bit_and b3 0x3 * 2 ^ 11) (b4 * 2 ^ 3)) (b5 >>> 5)

unfoldable pub samples_of : ℕ → ℕ
samples_of b6 = (bit_and b6 0x3 + 1) * 1024

unfoldable pub check_frame_length : ℕ → Bytes → AdtsHeader → AdtsAnswer
check_frame_length protection frame h =
    if protection == 0
    then if ltb (length frame) 9
      then refused short_protected_header
      else if ltb h.framelen 9
      then refused bad_frame_length
      else header (record h { hdrlen = 9 })
    else if ltb h.framelen 7
    then refused bad_frame_length
    else header h

-- ParseADTSHeader: its clauses are the test of the length.
unfoldable pub parse_adts_header : Bytes → AdtsAnswer
parse_adts_header (b0 ∷ b1 ∷ b2 ∷ b3 ∷ b4 ∷ b5 ∷ b6 ∷ rest) =
    if not (b0 == 0xff) || not (bit_and b1 0xf6 == 0xf0)
    then refused no_sync_word
    else if leb (length sample_rate_table) (rate_index_of b2)
    then refused bad_sample_rate_index
    else if leb (length chan_config_table) (channels_of b2 b3)
    then refused bad_channel_config
    else check_frame_length (bit_and b1 0x1) (b0 ∷ b1 ∷ b2 ∷ b3 ∷ b4 ∷ b5 ∷ b6 ∷ rest) (record {
      config = complete (record {
        sample_rate = 0;
        channel_layout = 0;
        object_type = profile_of b2;
        sample_rate_index = rate_index_of b2;
        channel_config = channels_of b2 b3;
      });
      hdrlen = 7;
      framelen = framelen_of b3 b4 b5;
      samples = samples_of b6;
    })
parse_adts_header _ = refused short_header

pub data FillError : Type 0 where
  small_buffer : FillError
  invalid_config : FillError
  invalid_rate_index : FillError
  invalid_channels : FillError
  invalid_samples : FillError
  payload_too_large : FillError

pub data Filled : Type 0 where
  not_filled : FillError → Filled
  filled : Bytes → Filled

-- The bytes with fields of the config, of the old header, the length and the count of samples.
unfoldable pub type_rate_byte : Mpeg4AudioConfig → ℕ
type_rate_byte c =
    bit_or
      (bit_or (u8 (bit_and (u8 (c.object_type - 1)) 0x3 * 2 ^ 6))
        (u8 (bit_and (u8 c.sample_rate_index) 0xf * 2 ^ 2)))
      (bit_and (u8 (c.channel_config >>> 2)) 0x1)

unfoldable pub channels_byte : ℕ → Mpeg4AudioConfig → ℕ → ℕ
channels_byte old c len =
    bit_or
      (bit_and (bit_or (bit_and old 0x3f) (u8 (u8 (bit_and c.channel_config 0x3) * 2 ^ 6))) 0xfc)
      (bit_and (u8 (len >>> 11)) 0x3)

unfoldable pub length_byte : ℕ → ℕ
length_byte len = bit_or (bit_and 0xff 0x1f) (u8 (bit_and (u8 len) 0x7 * 2 ^ 5))

unfoldable pub samples_byte : ℕ → ℕ
samples_byte samples = bit_or (bit_and 0xff 0xfc) (u8 (samples / 1024 - 1))

-- FillADTSHeader over the bytes of `header`; a payload length is not negative.
unfoldable pub fill_adts_header : Bytes → Mpeg4AudioConfig → ℕ → ℕ → Filled
fill_adts_header (_ ∷ _ ∷ _ ∷ b3 ∷ _ ∷ _ ∷ _ ∷ rest) c samples payload =
    if c.object_type == 0
    then not_filled invalid_config
    else if leb (length sample_rate_table) c.sample_rate_index
    then not_filled invalid_rate_index
    else if leb (length chan_config_table) c.channel_config
    then not_filled invalid_channels
    else if samples == 0 || not (samples % 1024 == 0)
    then not_filled invalid_samples
    else if leb (2 ^ 13) (payload + 7)
    then not_filled payload_too_large
    else filled (
        0xff
        ∷ 0xf1
        ∷ type_rate_byte c
        ∷ channels_byte b3 c (payload + 7)
        ∷ u8 ((payload + 7) >>> 3)
        ∷ length_byte (payload + 7)
        ∷ samples_byte samples
        ∷ rest)
fill_adts_header _ c samples payload = not_filled small_buffer
