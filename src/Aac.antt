-- ===== src/Aac.antt =====
-- codec/aac/parser.go: the AudioSpecificConfig of MPEG-4 audio and the header of an ADTS frame. A
-- channel layout is the bit mask of gomedia.ChannelLayout. A sample rate is not negative.
pub mod Config
pub mod Adts
mod Examples
use gomedia.Common.{
  ℕ, zero, suc, ◌+◌, ◌-◌, ◌*◌, ◌/◌, ◌%◌, ◌^◌, ◌>>>◌, bit_or, bit_and, u8, Bool, true, false, ◌&&◌,
  ◌||◌, not, Option, none, some, List, [], ◌∷◌, ◌++◌, length, get_elem?, ltb, leb, ◌==◌,
  if◌then◌else◌,
}
use gomedia.Pio.{Bytes}
use gomedia.BitStream.{Reader, Writer, read_bits64, write_bits64, flush_bits}

pub record Mpeg4AudioConfig : Type 0 where
  pub sample_rate : ℕ
  pub channel_layout : ℕ
  pub object_type : ℕ
  pub sample_rate_index : ℕ
  pub channel_config : ℕ

abbrev pub sample_rate_table : List ℕ
sample_rate_table =
    96000 ∷ 88200 ∷ 64000 ∷ 48000 ∷ 44100 ∷ 32000 ∷ 24000 ∷ 22050 ∷ 16000 ∷ 12000 ∷ 11025 ∷ 8000
    ∷ 7350 ∷ []

abbrev pub chan_config_table : List ℕ
chan_config_table = 0 ∷ 1 ∷ 6 ∷ 7 ∷ 15 ∷ 55 ∷ 311 ∷ 503 ∷ []

-- Complete
unfoldable pub or_kept : Option ℕ → ℕ → ℕ
or_kept none kept = kept
or_kept (some v) kept = v

unfoldable pub complete : Mpeg4AudioConfig → Mpeg4AudioConfig
complete c = record c {
  sample_rate = or_kept (get_elem? sample_rate_table c.sample_rate_index) c.sample_rate;
  channel_layout = or_kept (get_elem? chan_config_table c.channel_config) c.channel_layout;
}

-- readObjectType
unfoldable pub object_type_of : Option (ℕ × Reader) → Option (ℕ × Reader)
object_type_of none = none
object_type_of (some (v, r)) = some (32 + v, r)

unfoldable pub escaped_type : Option (ℕ × Reader) → Option (ℕ × Reader)
escaped_type none = none
escaped_type (some (v, r)) = if v == 31 then object_type_of (read_bits64 6 r) else some (v, r)

unfoldable pub read_object_type : Reader → Option (ℕ × Reader)
read_object_type r = escaped_type (read_bits64 5 r)

-- readSampleRateIndex: the index and the rate that follows it, 0 where none does.
unfoldable pub explicit_rate : ℕ → Option (ℕ × Reader) → Option ((ℕ × ℕ) × Reader)
explicit_rate index none = none
explicit_rate index (some (hz, r)) = some ((index, hz), r)

unfoldable pub escaped_rate : Option (ℕ × Reader) → Option ((ℕ × ℕ) × Reader)
escaped_rate none = none
escaped_rate (some (v, r)) =
    if v == 15 then explicit_rate v (read_bits64 24 r) else some ((v, 0), r)

unfoldable pub read_sample_rate_index : Reader → Option ((ℕ × ℕ) × Reader)
read_sample_rate_index r = escaped_rate (read_bits64 4 r)

-- ParseMPEG4AudioConfigBytes
pub data ConfigError : Type 0 where
  no_data : ConfigError
  no_object_type : ConfigError
  no_sample_rate_index : ConfigError
  no_channel_config : ConfigError

pub data ConfigAnswer : Type 0 where
  rejected : ConfigError → ConfigAnswer
  parsed : Mpeg4AudioConfig → ConfigAnswer

unfoldable pub parse_channels : ℕ → ℕ → ℕ → Option (ℕ × Reader) → ConfigAnswer
parse_channels ot index hz none = rejected no_channel_config
parse_channels ot index hz (some (channels, r)) = parsed (
    complete (record {
      sample_rate = hz;
      channel_layout = 0;
      object_type = ot;
      sample_rate_index = index;
      channel_config = channels;
    }))

unfoldable pub parse_rate : ℕ → Option ((ℕ × ℕ) × Reader) → ConfigAnswer
parse_rate ot none = rejected no_sample_rate_index
parse_rate ot (some ((index, hz), r)) = parse_channels ot index hz (read_bits64 4 r)

unfoldable pub parse_type : Option (ℕ × Reader) → ConfigAnswer
parse_type none = rejected no_object_type
parse_type (some (ot, r)) = parse_rate ot (read_sample_rate_index r)

unfoldable pub parse_config : Bytes → ConfigAnswer
parse_config data' =
    if length data' == 0
    then rejected no_data
    else parse_type (read_object_type (record { source = data'; n = 0; bits = 0 }))

-- writeObjectType, writeSampleRateIndex
unfoldable pub write_object_type : ℕ → Writer → Writer
write_object_type ot w =
    if leb 32 ot then write_bits64 (ot - 32) 6 (write_bits64 31 5 w) else write_bits64 ot 5 w

unfoldable pub write_sample_rate_index : ℕ → ℕ → Writer → Writer
write_sample_rate_index index rate w =
    if leb 15 index then write_bits64 rate 24 (write_bits64 15 4 w) else write_bits64 index 4 w

-- A loop over a table for the last index of a value.
unfoldable pub last_index : ℕ → List ℕ → ℕ → ℕ → ℕ
last_index v [] i found = found
last_index v (x ∷ xs) i found = last_index v xs (suc i) (if x == v then i else found)

unfoldable pub index_or_found : ℕ → ℕ → List ℕ → ℕ
index_or_found index v table = if index == 0 then last_index v table 0 index else index

-- WriteMPEG4AudioConfig
abbrev pub config_suffix : Bytes
config_suffix = 0x06 ∷ 0x80 ∷ 0x80 ∷ 0x80 ∷ 0x01 ∷ 0x02 ∷ 0x06 ∷ 0x80 ∷ 0x80 ∷ 0x80 ∷ 0x01 ∷ []

unfoldable pub write_config : Mpeg4AudioConfig → Bytes
write_config c =
    let typed = write_object_type c.object_type (record { out = []; n = 0; bits = 0 }) in
    let index = index_or_found c.sample_rate_index c.sample_rate sample_rate_table in
    let rated = write_sample_rate_index index c.sample_rate typed in
    let channels = index_or_found c.channel_config c.channel_layout chan_config_table in
    (flush_bits (write_bits64 channels 4 rated)).out ++ config_suffix
